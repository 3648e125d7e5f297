-- ===== src/CyclicFileRead/Fifo.antt =====
-- The linked list refines a first-in first-out queue of lines, with no leak and no bad access.
use linux_system_monitoring.Base.{
  ℕ, zero, suc, ◌+◌, ◌-◌, ◌≡◌, ◌≤◌, ◌<◌, refl, sym, ap, ◌∙◌, subst, arith, true, false, Option,
  none, some, List, [], ◌∷◌, ◌++◌, length, length-concat, append-nil, append_assoc, lt→ltb,
  le→ltb_false, Bytes,
}
use linux_system_monitoring.CyclicFileRead.Queue.{
  Node, State, Surroundings, update, set_next, link_behind, link, dequeue_node, dequeue_at, enqueue,
  send_and_free, dequeue_from, dequeue, empty_queue, allocated,
}
use linux_system_monitoring.CyclicFileRead.Chain.{
  IsChain, update_ne, update_self, IsChain-update, Linked, walk_lem,
}

-- The state holds the queue `ms`, and no node beside those of the queue is allocated.
pub record Holds (s : State) (ms : List Bytes) : Type 0 where
  pub chain : IsChain s.cell ms 0 s.fresh s.head
  pub counted : s.live ≡ length ms
  pub enough : length ms ≤ s.fresh

module _ (env : Surroundings) (line : Bytes) (s : State) where
  abbrev new_line : Bytes
  new_line = line ++ env.timestamp s.fresh

  enqueue_links :
      (s' : State)
      → env.grants s.fresh ≡ true
      → length line + length (env.timestamp s.fresh) < 1024
      → link s.fresh (allocated env line s) ≡ some s'
      → enqueue env line s ≡ some (0, s')
  unfolding enqueue
  enqueue_links s' g l e = rw (g, lt→ltb _ _ l, e)

  link_empty :
      Holds s []
      → (link s.fresh (allocated env line s)
          ≡ some (record (allocated env line s) { head = some s.fresh }))
        × Holds (record (allocated env line s) { head = some s.fresh }) (new_line ∷ [])
  unfolding link link_behind
  link_empty h = (
    rw (h.chain),
    record {
      chain = (s.fresh, none, refl, omega arith, omega arith, update_self s.cell s.fresh _, refl);
      counted = ap suc h.counted;
      enough = omega arith;
    },
  )

  -- The new state behind the last node that was found.
  linked_state : (last : ℕ) → Node → State
  linked_state last node = record (allocated env line s) {
    cell = update (allocated env line s).cell last (some (record node { next = some s.fresh }));
  }

  link_at :
      (a : ℕ) (ms : List Bytes)
      → s.head ≡ some a
      → (l : Linked (allocated env line s).cell (suc s.fresh) a 0 s.fresh ms new_line)
      → link s.fresh (allocated env line s) ≡ some (linked_state l.last l.node)
  unfolding link linked_state
  link_at a ms e l =
      ap (λ p. link_behind s.fresh p (allocated env line s)) e
      ∙ (unfold link_behind in rw l.walk (unfold set_next in rw l.at_last))

  link_more :
      (m : Bytes) (ms : List Bytes)
      → Holds s (m ∷ ms)
      → (s' : State) × (link s.fresh (allocated env line s) ≡ some s')
        × Holds s' ((m ∷ ms) ++ (new_line ∷ []))
        × (s'.sent ≡ s.sent)
        × (s'.fresh ≡ suc s.fresh)
  unfolding linked_state
  link_more m ms h =
      let (a, q, e, low, high, at_a, rest) = h.chain in
      let cell = (allocated env line s).cell in
      let l : Linked cell (suc s.fresh) a 0 s.fresh (m ∷ ms) new_line =
        walk_lem cell s.fresh new_line ms m q (suc s.fresh) a 0 (update_self s.cell s.fresh _)
          (omega (arith, h.enough)) low high (update_ne s.cell s.fresh _ a (omega arith) ∙ at_a)
          (IsChain-update ms s.cell (suc a) s.fresh s.fresh q s.fresh _ (λ b x y. omega arith)
            (omega arith) rest) in
      (
        linked_state l.last l.node,
        link_at a (m ∷ ms) e l,
        record {
          chain =
              subst
                (λ p.
                  IsChain (update cell l.last (some (record (l.node) { next = some s.fresh })))
                    (m ∷ (ms ++ (new_line ∷ []))) 0 (suc s.fresh) p)
                (sym e) l.longer;
          counted = omega (arith, h.counted, length-concat ms new_line);
          enough = omega (arith, h.enough, length-concat ms new_line);
        },
        refl,
        refl,
      )

  -- When malloc succeeds and the line with its timestamp fits into a node, `enqueue` returns 0;
  -- the linked list then holds the queue it held before with the stamped line behind it, in one
  -- more node and no other, and nothing is sent.
  pub enqueue_refines :
      (ms : List Bytes)
      → Holds s ms
      → env.grants s.fresh ≡ true
      → length line + length (env.timestamp s.fresh) < 1024
      → (s' : State) × (enqueue env line s ≡ some (0, s'))
        × Holds s' (ms ++ (new_line ∷ []))
        × (s'.sent ≡ s.sent)
        × (s'.fresh ≡ suc s.fresh)
  enqueue_refines [] h g l = (
    record (allocated env line s) { head = some s.fresh },
    enqueue_links _ g l (link_empty h).0,
    (link_empty h).1,
    refl,
    refl,
  )
  enqueue_refines (m ∷ ms) h g l =
      let (s', e, holds, kept, next) = link_more m ms h in
      (s', enqueue_links s' g l e, holds, kept, next)

  -- Without memory the queue stays as it is.
  pub enqueue_out_of_memory : env.grants s.fresh ≡ false → enqueue env line s ≡ some (1, s)
  unfolding enqueue
  enqueue_out_of_memory g = rw g

  -- A line that does not fit with its timestamp is written behind the end of its node.
  pub enqueue_overflows :
      env.grants s.fresh ≡ true
      → 1024 ≤ length line + length (env.timestamp s.fresh)
      → enqueue env line s ≡ none
  unfolding enqueue
  enqueue_overflows g l = rw (g, le→ltb_false _ _ l)

-- From a node on, the loop sends and frees the whole chain.
dequeue_from_lem :
    (ms : List Bytes) (m : Bytes) (q : Option ℕ) (fuel a : ℕ) (s : State)
    → length ms < fuel
    → s.cell a ≡ some (record { message = m; next = q })
    → IsChain s.cell ms (suc a) s.fresh q
    → (s' : State) × (dequeue_from fuel a s ≡ some s')
      × (s'.head ≡ none)
      × (s'.sent ≡ s.sent ++ (m ∷ ms))
      × (s'.live ≡ s.live - suc (length ms))
      × (s'.fresh ≡ s.fresh)
unfolding dequeue_from dequeue_node send_and_free
dequeue_from_lem ms m q zero a s f at_a rest = absurd (omega arith)
dequeue_from_lem [] m q (suc fuel) a s f at_a rest = (
  record s {
    cell = update s.cell a none;
    live = s.live - 1;
    head = none;
    sent = s.sent ++ (m ∷ []);
  },
  rw at_a (rw rest (rw at_a)),
  refl,
  refl,
  refl,
  refl,
)
dequeue_from_lem (m' ∷ ms) m q (suc fuel) a s f at_a (b, q', e, low, high, at_b, rest) =
    let s1 = record s {
      cell = update s.cell a none;
      live = s.live - 1;
      head = some b;
      sent = s.sent ++ (m ∷ []);
    } in
    let (s', runs, head, sent, live, fresh) =
      dequeue_from_lem ms m' q' fuel b s1 (omega arith)
        (update_ne s.cell a none b (omega arith) ∙ at_b)
        (IsChain-update ms s.cell (suc b) s.fresh s.fresh q' a none (λ c x y. omega arith)
          (omega arith) rest) in
    (
      s',
      rw at_a (rw e (rw at_a runs)),
      head,
      sent ∙ append_assoc s.sent (m ∷ []) (m' ∷ ms),
      omega (arith, live),
      fresh,
    )

-- For a linked list that holds a queue, `dequeue` ends with no access outside the heap, sends
-- exactly the lines of the queue in order, and leaves an empty queue with every node freed.
pub dequeue_refines :
    (s : State) (ms : List Bytes)
    → Holds s ms
    → (s' : State) × (dequeue s ≡ some s') × Holds s' [] × (s'.sent ≡ s.sent ++ ms)
unfolding dequeue dequeue_at
dequeue_refines s [] h = (s, rw (h.chain), h, sym (append-nil s.sent))
dequeue_refines s (m ∷ ms) h =
    let (a, q, e, low, high, at_a, rest) = h.chain in
    let (s', runs, head, sent, live, fresh) =
      dequeue_from_lem ms m q (suc s.fresh) a s (omega (arith, h.enough)) at_a rest in
    (
      s',
      ap (λ p. dequeue_at p s) e ∙ runs,
      record { chain = head; counted = omega (arith, live, h.counted); enough = omega arith },
      sent,
    )

-- Emptying the empty queue loses no node.
pub empty_queue-Holds : (s : State) → Holds s [] → Holds (empty_queue s) []
unfolding empty_queue
empty_queue-Holds s h = record { chain = refl; counted = h.counted; enough = h.enough }
