-- ===== src/CyclicFileRead/Queue.antt =====
-- The line queue of common.c: a linked list on the heap behind the global `queue_head`.
use linux_system_monitoring.Base.{
  ℕ, zero, suc, ◌+◌, ◌-◌, Bool, Option, none, some, List, [], ◌∷◌, ◌++◌, ◌==◌, ltb, if◌then◌else◌,
  length, ◌>>=◌, Bytes,
}

abbrev pub max_line : ℕ
max_line = 1024

-- `struct CFRqueue`; a pointer is an address or NULL.
pub record Node : Type 0 where
  pub message : Bytes
  pub next : Option ℕ

-- The heap, `queue_head`, and what was handed to `send_to_mq` so far.
pub record State : Type 0 where
  pub cell : ℕ → Option Node
  pub fresh : ℕ
  pub live : ℕ
  pub head : Option ℕ
  pub sent : List Bytes

-- What the process sees of its surroundings: whether `malloc` for the node of that address
-- succeeds, and the text of `get_timestamp()` at that time.
pub record Surroundings : Type 0 where
  pub grants : ℕ → Bool
  pub timestamp : ℕ → Bytes

abbrev pub update : (ℕ → Option Node) → ℕ → Option Node → ℕ → Option Node
update f p v q = if p == q then v else f q

-- `while (current->next != NULL) current = current->next;`, with fuel.
unfoldable pub last_node : ℕ → (ℕ → Option Node) → ℕ → Option ℕ
last_node zero cell p = none
last_node (suc fuel) cell p = do
  node ← cell p
  elim node.next [ none ↦ some p | some q ↦ last_node fuel cell q ]

-- `current->next = node`
unfoldable pub set_next : State → ℕ → ℕ → Option State
set_next s p q = do
  node ← s.cell p
  some (record s { cell = update s.cell p (some (record node { next = some q })) })

-- The new node becomes the head of an empty queue, or the successor of the last node.
unfoldable pub link_behind : ℕ → Option ℕ → State → Option State
link_behind node none s = some (record s { head = some node })
link_behind node (some p) s = do q ← last_node s.fresh s.cell p; set_next s q node

unfoldable pub link : ℕ → State → Option State
link node s = link_behind node s.head s

-- `malloc` of a node, with the line and its timestamp in it, and no successor.
abbrev pub allocated : Surroundings → Bytes → State → State
allocated env message s = record s {
  cell =
      update s.cell s.fresh
        (some (record { message = message ++ env.timestamp s.fresh; next = none }));
  fresh = suc s.fresh;
  live = suc s.live;
}

-- The return value and the state behind the call. `strcpy` and `strcat` fault where the line and
-- its timestamp do not fit into `message`.
unfoldable pub enqueue : Surroundings → Bytes → State → Option (ℕ × State)
enqueue env message s =
    if env.grants s.fresh
    then (if ltb (length message + length (env.timestamp s.fresh)) max_line
        then (do s' ← link s.fresh (allocated env message s); some (0, s'))
        else none)
    else some (1, s)

-- `send_to_mq(current->message, "/cfr"); free(current);`: a failure to send is only reported.
unfoldable pub send_and_free : ℕ → State → Option State
send_and_free p s = do
  node ← s.cell p
  some (record s {
    cell = update s.cell p none;
    live = s.live - 1;
    sent = s.sent ++ (node.message ∷ []);
  })

-- The loop of `dequeue` from the head on, with fuel, and what stands behind it for the last node.
-- `later` is the rest of the loop, from the state whose head is the next node.
unfoldable pub dequeue_node : (ℕ → State → Option State) → ℕ → Option ℕ → State → Option State
dequeue_node later p none s = do s' ← send_and_free p s; some (record s' { head = none })
dequeue_node later p (some q) s = do s' ← send_and_free p (record s { head = some q }); later q s'

unfoldable pub dequeue_from : ℕ → ℕ → State → Option State
dequeue_from zero p s = none
dequeue_from (suc fuel) p s = do node ← s.cell p; dequeue_node (dequeue_from fuel) p node.next s

unfoldable pub dequeue_at : Option ℕ → State → Option State
dequeue_at none s = some s
dequeue_at (some p) s = dequeue_from (suc s.fresh) p s

unfoldable pub dequeue : State → Option State
dequeue s = dequeue_at s.head s

-- `queue_head = NULL`; the nodes are not freed.
unfoldable pub empty_queue : State → State
empty_queue s = record s { head = none }
