-- ===== src/Demo/Filled.antt =====
-- The first loop of `fill_memory`, where the memory that `malloc` gives is zero.
use linux_system_monitoring.Base.{
  ℕ, zero, suc, ◌+◌, ◌*◌, ◌≡◌, ◌≢◌, ◌<◌, ◌≤◌, refl, sym, ap, subst, ◌∙◌, arith, true, Option, none,
  some,
}
use linux_system_monitoring.Demo.{
  Block, int, Heap, Allocator, update, last_of, set_next, append, allocated, fill,
}
use linux_system_monitoring.Demo.Row.{
  update_ne, update_self, node_with, Row, Row-same, last_of-Row, Row_last, Row-longer,
}

-- From the heap `f`, in which nothing stands from `p` on, a row of nodes was made.
pub record Filled (n p : ℕ) (f : ℕ → Option Block) (h : Heap) : Type 0 where
  pub row : Row n p h.block
  pub fresh : h.fresh ≡ p + 2 + 2 * n
  pub below : (x : ℕ) → x < p → h.block x ≡ f x
  pub above : (x : ℕ) → h.fresh ≤ x → h.block x ≡ none

module _ (a : Allocator) (gives : (p : ℕ) → a.gives p ≡ true)
    (zeroed : (p : ℕ) → a.stale p ≡ none) where
  new_mem : (h : Heap) → (allocated a h).block h.fresh ≡ node_with h.fresh none
  new_mem h =
      rw (gives (suc h.fresh), zeroed h.fresh)
        (update_ne (update h.block h.fresh (node_with h.fresh none)) (suc h.fresh) (some int)
            h.fresh (omega arith)
          ∙ update_self h.block h.fresh (node_with h.fresh none))

  -- The heap with the node that `malloc` gave.
  with_mem : Heap → ℕ → Option Block
  with_mem h = update h.block h.fresh (node_with h.fresh none)

  new_int : (h : Heap) → (allocated a h).block (suc h.fresh) ≡ some int
  unfolding with_mem
  new_int h =
      rw (gives (suc h.fresh), zeroed h.fresh) (update_self (with_mem h) (suc h.fresh) (some int))

  others : (h : Heap) (x : ℕ) → x ≢ h.fresh → x ≢ suc h.fresh → (allocated a h).block x ≡ h.block x
  unfolding with_mem
  others h x d e =
      rw (gives (suc h.fresh), zeroed h.fresh)
        (update_ne (with_mem h) (suc h.fresh) (some int) x (λ w. e (sym w))
          ∙ update_ne h.block h.fresh (node_with h.fresh none) x (λ w. d (sym w)))

  -- The heap with the new node as the successor of the last one.
  after : Heap → ℕ → Heap
  after h q = record (allocated a h) {
    block = update (allocated a h).block q (node_with q (some h.fresh));
  }

  appends :
      (h : Heap) (p q : ℕ)
      → last_of (suc (suc h.fresh)) (allocated a h).block p ≡ some q
      → (allocated a h).block q ≡ node_with q none
      → append h.fresh (some p) (allocated a h) ≡ some (some p, after h q)
  unfolding append set_next after
  appends h p q walk at = rw walk (rw at refl)

  -- A round of the loop behind the first makes the row longer by one node.
  append-Filled :
      (n p q : ℕ) (f : ℕ → Option Block) (h : Heap)
      → q ≡ p + 2 * n
      → Filled n p f h
      → (append h.fresh (some p) (allocated a h) ≡ some (some p, after h q))
        × Filled (suc n) p f (after h q)
  unfolding after
  append-Filled n p q f h e x = (
    appends h p q
        (last_of-Row n p (suc (suc h.fresh)) (allocated a h).block (omega (arith, x.fresh)) kept
          ∙ ap some (sym e))
        (Row_last n p q (allocated a h).block e kept),
    record {
      row =
          Row-longer n p q (allocated a h).block (after h q).block e (λ y l m d. elsewhere y d)
            (update_self (allocated a h).block q (node_with q (some h.fresh))
              ∙ ap (λ y. node_with q (some y)) next)
            (elsewhere (q + 2) (λ w. omega (arith, w))
              ∙ subst (λ y. (allocated a h).block y ≡ node_with y none) next (new_mem h))
            (elsewhere (suc (q + 2)) (λ w. omega (arith, w))
              ∙ subst (λ y. (allocated a h).block (suc y) ≡ some int) next (new_int h))
            kept;
      fresh = omega (arith, x.fresh);
      below = λ y l.
          elsewhere y (λ w. omega (arith, w, e, l))
          ∙ others h y (λ w. omega (arith, w, l, x.fresh)) (λ w. omega (arith, w, l, x.fresh))
          ∙ x.below y l;
      above = λ y l.
          elsewhere y (λ w. omega (arith, w, l, next))
          ∙ others h y (λ w. omega (arith, w, l)) (λ w. omega (arith, w, l))
          ∙ x.above y (omega (arith, l));
    },
  )
    where
      next : h.fresh ≡ q + 2
      next = omega (arith, x.fresh, e)

      elsewhere : (y : ℕ) → y ≢ q → (after h q).block y ≡ (allocated a h).block y
      elsewhere y d =
          update_ne (allocated a h).block q (node_with q (some h.fresh)) y (λ w. d (sym w))

      kept : Row n p (allocated a h).block
      kept =
          Row-same n p h.block (allocated a h).block
            (λ y l m.
              others h y (λ w. omega (arith, w, m, x.fresh)) (λ w. omega (arith, w, m, x.fresh)))
            x.row

  -- The rounds that are left.
  pub fill-Filled :
      (k n p : ℕ) (f : ℕ → Option Block) (h : Heap)
      → Filled n p f h
      → (h' : Heap) × (fill a k (some p) h ≡ some (some p, h')) × Filled (k + n) p f h'
  unfolding fill
  fill-Filled zero n p f h x =
      (h, refl, subst (λ m. Filled m p f h) (let same : n ≡ 0 + n = omega arith in same) x)
  fill-Filled (suc k) n p f h x =
      let (step, longer) = append-Filled n p (p + 2 * n) f h refl x in
      let (h', runs, filled) = fill-Filled k (suc n) p f (after h (p + 2 * n)) longer in
      (
        h',
        rw (gives h.fresh, step) runs,
        subst (λ m. Filled m p f h') (let same : k + suc n ≡ suc k + n = omega arith in same)
            filled,
      )

  -- The first round, on an empty list.
  pub first-Filled :
      (h : Heap)
      → ((x : ℕ) → h.fresh ≤ x → h.block x ≡ none)
      → Filled 0 h.fresh h.block (allocated a h)
  first-Filled h empty = record {
    row = (new_mem h, new_int h);
    fresh = omega arith;
    below = λ y l. others h y (λ w. omega (arith, w, l)) (λ w. omega (arith, w, l));
    above = λ y l.
        others h y (λ w. omega (arith, w, l)) (λ w. omega (arith, w, l))
        ∙ empty y (omega (arith, l));
  }
