-- ===== src/Demo/Forking.antt =====
-- demo.c, `forking` and `main`: the children that are forked, and how each ends.
use linux_system_monitoring.Base.{
  ℕ, zero, suc, ◌≡◌, sym, ap, ◌∙◌, Bool, Bool-cases, inl, inr, Option, none, some, List, [], ◌∷◌,
  ◌++◌, append-nil, append_assoc, if◌then◌else◌,
}
use linux_system_monitoring.Demo.{Heap, Allocator, fill_memory}

-- How a child ends: by `_exit`, by SIGABRT, or by undefined behaviour.
pub data Status : Type 0 where
  exits : ℕ → Status
  aborts : Status
  undefined : Status

-- How a function of the parent leaves: it returns, or it calls `exit`.
pub data Left : Type 0 where
  returns : Left
  exits_with : ℕ → Left

-- The child calls `fill_memory` and `_exit(0)`.
abbrev pub filled : Option Heap → Status
filled none = undefined
filled (some h) = exits 0

-- The rest of the program, if the function returned.
unfoldable pub go_on : (List Status → Left × List Status) → Left × List Status → Left × List Status
go_on later (returns, children) = later children
go_on later (exits_with code, children) = (exits_with code, children)

module _ (a : Allocator) (h : Heap) where
  -- The rounds of `forking` that are left, over whether each `fork` succeeds, and how many there were.
  -- `calc_pi` in the parent gives nothing that is used.
  unfoldable pub forking_from : ℕ → (ℕ → Bool) → ℕ → List Status → List Status
  forking_from zero forks k children = children
  forking_from (suc n) forks k children =
      let later = forking_from n forks (suc k) (children ++ (filled (fill_memory a h) ∷ [])) in
      if forks k then later else children

  -- `forking` ends with `exit(0)`.
  unfoldable pub forking : (ℕ → Bool) → List Status → Left × List Status
  forking forks children = (exits_with 0, forking_from 20 forks 0 children)

  -- The rounds of the second loop of `main` that are left: each child raises SIGABRT.
  unfoldable pub second_loop : ℕ → (ℕ → Bool) → ℕ → List Status → Left × List Status
  second_loop zero forks k children = (exits_with 0, children)
  second_loop (suc n) forks k children =
      let later = second_loop n forks (suc k) (children ++ (aborts ∷ [])) in
      if forks k then later else (exits_with 0, children)

  -- The rounds of the first loop that are left, and the second loop behind them. `again` are the forks of
  -- that one.
  unfoldable pub first_loop : ℕ → (ℕ → Bool) → (ℕ → Bool) → List Status → Left × List Status
  first_loop zero forks again children = second_loop 5 again 0 children
  first_loop (suc n) forks again children =
      go_on (first_loop n forks again) (forking forks children)

  unfoldable pub main : (ℕ → Bool) → (ℕ → Bool) → Left × List Status
  main forks again = first_loop 20 forks again []

  -- The forks that succeed before the first that fails, at most `n`.
  abbrev pub successes : ℕ → (ℕ → Bool) → ℕ → ℕ
  successes zero forks k = 0
  successes (suc n) forks k = if forks k then suc (successes n forks (suc k)) else 0

  abbrev pub copies : Status → ℕ → List Status
  copies s zero = []
  copies s (suc n) = s ∷ copies s n

  forking_from_lem :
      (n : ℕ) (forks : ℕ → Bool) (k : ℕ) (children : List Status)
      → forking_from n forks k children
        ≡ children ++ copies (filled (fill_memory a h)) (successes n forks k)
  unfolding forking_from
  forking_from_lem zero forks k children = sym (append-nil children)
  forking_from_lem (suc n) forks k children = elim (Bool-cases (forks k)) [
    | inl forked ↦ rw forked (
        forking_from_lem n forks (suc k) (children ++ (filled (fill_memory a h) ∷ []))
        ∙ append_assoc children (filled (fill_memory a h) ∷ [])
            (copies (filled (fill_memory a h)) (successes n forks (suc k))))
    | inr failed ↦ rw failed (sym (append-nil children))
  ]

  -- The first call of `forking` ends the program with 0, so that no child raises SIGABRT: the children are
  -- as many as forks succeed before the first that fails, at most 20, and each ends as `fill_memory` does.
  pub main_lem :
      (forks again : ℕ → Bool)
      → main forks again ≡ (exits_with 0, copies (filled (fill_memory a h)) (successes 20 forks 0))
  unfolding main first_loop forking go_on
  main_lem forks again = ap (λ cs. (exits_with 0, cs)) (forking_from_lem 20 forks 0 [])
