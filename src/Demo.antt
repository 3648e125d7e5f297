-- ===== src/Demo.antt =====
-- stats-recording/src/app/demo.c: memory that is filled and freed, and children that are forked.
pub mod Forking
pub mod Row
pub mod Filled
pub mod Freeing
pub mod Stale
use linux_system_monitoring.Base.{
  ℕ, zero, suc, ◌+◌, ◌==◌, Bool, true, false, Option, none, some, List, [], ◌∷◌, ◌++◌,
  if◌then◌else◌, ◌>>=◌,
}

-- `Mem_t`; a pointer is an address or NULL.
pub record Mem : Type 0 where
  pub waste : Option ℕ
  pub next : Option ℕ

-- What an address holds, if it is allocated: a `Mem_t`, or the `int` that `waste` points to.
pub data Block : Type 0 where
  mem : Mem → Block
  int : Block

pub record Heap : Type 0 where
  pub block : ℕ → Option Block
  pub fresh : ℕ

-- Whether `malloc` gives the block at an address, and what stands in its memory as `next`, since
-- nothing is written there.
pub record Allocator : Type 0 where
  pub gives : ℕ → Bool
  pub stale : ℕ → Option ℕ

abbrev pub update : (ℕ → Option Block) → ℕ → Option Block → ℕ → Option Block
update f p v q = if p == q then v else f q

-- A `Mem_t` can only be read where there is one.
abbrev pub as_mem : Option Block → Option Mem
as_mem none = none
as_mem (some (mem m)) = some m
as_mem (some int) = none

-- `while (current->next != NULL) current = current->next;`, with fuel.
unfoldable pub last_of : ℕ → (ℕ → Option Block) → ℕ → Option ℕ
last_of zero block p = none
last_of (suc fuel) block p = do
  m ← as_mem (block p)
  elim m.next [ none ↦ some p | some q ↦ last_of fuel block q ]

-- `current->next = node`
unfoldable pub set_next : ℕ → ℕ → Heap → Option Heap
set_next p q h = do
  m ← as_mem (h.block p)
  some (record h { block = update h.block p (some (mem (record m { next = some q }))) })

-- The node becomes the head of an empty list, or the successor of the last one. The head, and the heap.
unfoldable pub append : ℕ → Option ℕ → Heap → Option (Option ℕ × Heap)
append node none h = some (some node, h)
append node (some p) h = do
  last ← last_of h.fresh h.block p
  h' ← set_next last node h
  some (some p, h')

-- A new node at `h.fresh` with its `int` behind it, which is NULL if there is no memory for it.
abbrev pub allocated : Allocator → Heap → Heap
allocated a h = record {
  block = elim (a.gives (suc h.fresh)) [
    | true ↦
        update
          (update h.block h.fresh
            (some (mem (record { waste = some (suc h.fresh); next = a.stale h.fresh }))))
          (suc h.fresh) (some int)
    | false ↦ update h.block h.fresh (some (mem (record { waste = none; next = a.stale h.fresh })))
  ];
  fresh = suc (suc h.fresh);
}

-- The rounds of the first loop of `fill_memory` that are left. Without memory for a node, `waste` is
-- written behind NULL.
unfoldable pub fill : Allocator → ℕ → Option ℕ → Heap → Option (Option ℕ × Heap)
fill a zero head h = some (head, h)
fill a (suc n) head h =
    let rest = (do (head', h') ← append h.fresh head (allocated a h); fill a n head' h') in
    if a.gives h.fresh then rest else none

-- `free` of an `int`, and of a node.
unfoldable pub free_waste : Option ℕ → Heap → Option Heap
free_waste none h = some h
free_waste (some q) h = do
  b ← h.block q
  elim b [ mem m ↦ none | int ↦ some (record h { block = update h.block q none }) ]

-- The second loop of `fill_memory`, with fuel.
unfoldable pub free_all : ℕ → Option ℕ → Heap → Option Heap
free_all fuel none h = some h
free_all zero (some p) h = none
free_all (suc fuel) (some p) h = do
  m ← as_mem (h.block p)
  h' ← free_waste m.waste h
  free_all fuel m.next (record h' { block = update h'.block p none })

abbrev pub rounds : ℕ
rounds = 100

unfoldable pub fill_memory : Allocator → Heap → Option Heap
fill_memory a h = do (head, h') ← fill a rounds none h; free_all h'.fresh head h'
