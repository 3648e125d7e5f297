-- ===== src/Demo/Stale.antt =====
-- The pointer that `fill_memory` reads before anything is written to it.
use linux_system_monitoring.Base.{
  ℕ, suc, ◌≡◌, ◌<◌, refl, arith, true, Bool-cases, inl, inr, Option, none, some,
}
use linux_system_monitoring.Demo.{
  mem, Heap, Allocator, as_mem, last_of, append, allocated, fill, fill_memory,
}

module _ (a : Allocator) (h : Heap) where
  -- What stands in the new node, whether there is memory for its `int` or not.
  stale_next :
      (waste : Option ℕ) × ((allocated a h).block h.fresh
        ≡ some (mem (record { waste = waste; next = a.stale h.fresh })))
  stale_next = elim (Bool-cases (a.gives (suc h.fresh))) [
    | inl given ↦ (some (suc h.fresh), rw given (ground arith))
    | inr refused ↦ (none, rw refused (ground arith))
  ]

  in_front : (x : ℕ) → x < h.fresh → (allocated a h).block x ≡ h.block x
  in_front x l = elim (Bool-cases (a.gives (suc h.fresh))) [
    | inl given ↦ rw given (ground (arith, l))
    | inr refused ↦ rw refused (ground (arith, l))
  ]

-- The walk over the list from the first node on, when the second one is to be linked behind it.
walk-faults :
    (a : Allocator) (h : Heap) (g : ℕ)
    → a.stale h.fresh ≡ some g
    → g < h.fresh
    → as_mem (h.block g) ≡ none
    → last_of (suc (suc (allocated a h).fresh)) (allocated a (allocated a h)).block h.fresh ≡ none
unfolding last_of
walk-faults a h g left l absent =
    let (waste, at) = stale_next a h in
    rw
      (
        in_front a (allocated a h) h.fresh (omega arith),
        at,
        left,
        in_front a (allocated a h) g (omega (arith, l)),
        in_front a h g l,
        absent,
      )
      refl

-- When the memory of the first node holds as its next pointer an address in front of it where no
-- node stands, `fill_memory` has no defined result, whether malloc fails or not: the walk to the
-- end of the list follows a pointer that was never written, or a member is written behind NULL.
pub fill_memory_stale :
    (a : Allocator) (h : Heap) (g : ℕ)
    → a.stale h.fresh ≡ some g
    → g < h.fresh
    → as_mem (h.block g) ≡ none
    → fill_memory a h ≡ none
unfolding fill_memory
fill_memory_stale a h g left l absent = elim (Bool-cases (a.gives h.fresh)) [
  | inl given ↦ rw (first_round given, second_round) refl
  | inr refused ↦ unfold fill in rw refused refl
]
  where
    first_round :
        a.gives h.fresh ≡ true → fill a 100 none h ≡ fill a 99 (some h.fresh) (allocated a h)
    first_round given = unfold fill in rw given (unfold append in refl)

    second_round : fill a 99 (some h.fresh) (allocated a h) ≡ none
    second_round = elim (Bool-cases (a.gives (allocated a h).fresh)) [
      | inl given ↦
          unfold fill in rw given (unfold append in rw (walk-faults a h g left l absent) refl)
      | inr refused ↦ unfold fill in rw refused refl
    ]
