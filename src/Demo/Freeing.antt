-- ===== src/Demo/Freeing.antt =====
-- What `fill_memory` does where the memory that `malloc` gives is zero.
use linux_system_monitoring.Base.{
  dec_lt, Bool-cases, inl, inr, ℕ, zero, suc, ◌+◌, ◌*◌, ◌==◌, ◌≡◌, ◌≢◌, ◌<◌, ◌≤◌, refl, sym, ap,
  ◌∙◌, arith, true, Option, none, some,
}
use linux_system_monitoring.Demo.{
  int, Heap, Allocator, update, append, allocated, fill, free_waste, free_all, fill_memory,
}
use linux_system_monitoring.Demo.Row.{update_ne, update_self, node_with, Row, Row-same}
use linux_system_monitoring.Demo.Filled.{fill-Filled, first-Filled}

-- The heap without a node and its `int`.
freed : ℕ → Heap → Heap
freed p h = record h { block = update (update h.block (suc p) none) p none }

module _ (p : ℕ) (h : Heap) where
  freed_node : (freed p h).block p ≡ none
  unfolding freed
  freed_node = update_self (update h.block (suc p) none) p none

  freed_int : (freed p h).block (suc p) ≡ none
  unfolding freed
  freed_int =
      update_ne (update h.block (suc p) none) p none (suc p) (λ w. omega (arith, w))
      ∙ update_self h.block (suc p) none

  freed_others : (x : ℕ) → x ≢ p → x ≢ suc p → (freed p h).block x ≡ h.block x
  unfolding freed
  freed_others x d e =
      update_ne (update h.block (suc p) none) p none x (λ w. d (sym w))
      ∙ update_ne h.block (suc p) none x (λ w. e (sym w))

  -- One round of the loop.
  free_all_step :
      (fuel : ℕ) (next : Option ℕ)
      → h.block p ≡ node_with p next
      → h.block (suc p) ≡ some int
      → free_all (suc fuel) (some p) h ≡ free_all fuel next (freed p h)
  unfolding free_all free_waste freed
  free_all_step fuel next a b = rw a (rw b refl)

-- From a freed node on nothing stands, if nothing stood behind its `int`.
gone :
    (p : ℕ) (h : Heap) (x : ℕ) → p ≤ x → (p + 2 ≤ x → h.block x ≡ none) → (freed p h).block x ≡ none
gone p h x m behind = elim (dec_lt x (p + 2)) [
  | yes k ↦ elim (Bool-cases (x == p)) [
    | inl same ↦ let e : x ≡ p = ground (arith, same) in ap (freed p h).block e ∙ freed_node p h
    | inr differ ↦
        let e : x ≡ suc p = let d : x ≢ p = ground (arith, differ) in omega (arith, d, k, m) in
        ap (freed p h).block e ∙ freed_int p h
  ]
  | no k ↦
      freed_others p h x (λ w. omega (arith, w, k)) (λ w. omega (arith, w, k))
      ∙ behind (omega (arith, k))
]

-- Freeing a row of nodes leaves nothing from its first on, and what stands in front as it was.
free_all-Row :
    (n p fuel : ℕ) (h : Heap)
    → n < fuel
    → Row n p h.block
    → ((x : ℕ) → p + 2 + 2 * n ≤ x → h.block x ≡ none)
    → (h' : Heap) × (free_all fuel (some p) h ≡ some h')
      × ((x : ℕ) → x < p → h'.block x ≡ h.block x)
      × ((x : ℕ) → p ≤ x → h'.block x ≡ none)
free_all-Row n p zero h l r empty = absurd (omega arith)
free_all-Row zero p (suc fuel) h l (a, b) empty = (
  freed p h,
  free_all_step p h fuel none a b ∙ (unfold free_all in refl),
  λ x m. freed_others p h x (λ w. omega (arith, w, m)) (λ w. omega (arith, w, m)),
  λ x m. gone p h x m (λ k. empty x (omega (arith, k))),
)
free_all-Row (suc n) p (suc fuel) h l (a, b, rest) empty =
    let (h', runs, below, above) =
      free_all-Row n (p + 2) fuel (freed p h) (omega (arith, l))
        (Row-same n (p + 2) h.block (freed p h).block
          (λ x m k. freed_others p h x (λ w. omega (arith, w, m)) (λ w. omega (arith, w, m))) rest)
        (λ x m.
          freed_others p h x (λ w. omega (arith, w, m)) (λ w. omega (arith, w, m))
          ∙ empty x (omega (arith, m))) in
    (
      h',
      free_all_step p h fuel (some (p + 2)) a b ∙ runs,
      λ x m.
          below x (omega (arith, m))
          ∙ freed_others p h x (λ w. omega (arith, w, m)) (λ w. omega (arith, w, m)),
      λ x m. elim (dec_lt x (p + 2)) [
        | yes k ↦ below x k ∙ gone p h x m (λ j. absurd (omega (arith, j, k)))
        | no k ↦ above x (omega (arith, k))
      ],
    )

-- When malloc always succeeds and gives memory in which the next pointer reads as NULL, and
-- nothing stands on the heap from the next fresh address on, `fill_memory` ends with no access
-- outside its blocks and no double free, and every address holds what it held before.
pub fill_memory_lem :
    (a : Allocator) (h : Heap)
    → ((p : ℕ) → a.gives p ≡ true)
    → ((p : ℕ) → a.stale p ≡ none)
    → ((x : ℕ) → h.fresh ≤ x → h.block x ≡ none)
    → (h' : Heap) × (fill_memory a h ≡ some h') × ((x : ℕ) → h'.block x ≡ h.block x)
unfolding fill_memory
fill_memory_lem a h gives zeroed empty =
    let (h1, fills, x) =
      fill-Filled a gives zeroed 99 0 h.fresh h.block (allocated a h)
        (first-Filled a gives zeroed h empty) in
    let (h2, frees, below, above) =
      free_all-Row (99 + 0) h.fresh h1.fresh h1 (omega (arith, x.fresh)) x.row
        (λ y l. x.above y (omega (arith, l, x.fresh))) in
    (
      h2,
      rw (first_round a gives h) (rw fills frees),
      λ y. elim (dec_lt y h.fresh) [
        | yes k ↦ below y k ∙ x.below y k
        | no k ↦ above y (omega (arith, k)) ∙ sym (empty y (omega (arith, k)))
      ],
    )
  where
    first_round :
        (a : Allocator) (gives : (p : ℕ) → a.gives p ≡ true) (h : Heap)
        → fill a 100 none h ≡ fill a 99 (some h.fresh) (allocated a h)
    first_round a gives h = unfold fill in rw (gives h.fresh) (unfold append in refl)
