-- ===== src/CyclicFileRead/Pid/Search.antt =====
-- The search of pid.c for the next process, where there is one and where there is none.
use linux_system_monitoring.Base.{
  ◌^◌, ltb, lt→ltb, Bool-cases, inl, inr, ℕ, zero, suc, ◌+◌, ◌≡◌, ◌<◌, refl, ap, ◌∙◌, arith, false,
  true, none, some, Bytes,
}
use linux_system_monitoring.CyclicFileRead.Queue.{State, Surroundings}
use linux_system_monitoring.CyclicFileRead.Pid.{Processes, next_process, each_process}

-- The fuel is enough for the largest number of a process, and the number behind that one is an `int`.
abbrev pub Suffices : ℕ → ℕ → Type 0
Suffices max fuel = (max < fuel) × (max + 1 < 2 ^ 31)

-- The first process from `p` on is number `p + d`.
pub record IsNext (ps : Processes) (p d : ℕ) : Type 0 where
  pub there : ps.exists (p + d) ≡ true
  pub first : (n : ℕ) → n < d → ps.exists (p + n) ≡ false

next_away :
    (ps : Processes) (p fuel : ℕ)
    → ps.exists (p + 0) ≡ false
    → p + 1 < 2 ^ 31
    → next_process (suc fuel) ps p ≡ next_process fuel ps (p + 1)
unfolding next_process
next_away ps p fuel e b =
    rw (ap ps.exists {x = p} {y = p + 0} (omega arith) ∙ e, lt→ltb (p + 1) (2 ^ 31) b)

-- When number p + d is an `int` and the first process from p on, more than d rounds of fuel are enough for the
-- search, and it finds that process.
pub next_process_lem :
    (ps : Processes) (d p fuel : ℕ)
    → IsNext ps p d
    → d < fuel
    → p + d < 2 ^ 31
    → next_process fuel ps p ≡ some (p + d)
next_process_lem ps d p zero k f b = absurd (omega arith)
next_process_lem ps zero p (suc fuel) k f b =
    unfold next_process in
    rw (ap ps.exists {x = p} {y = p + 0} (omega arith) ∙ k.there) (ap some (omega arith))
next_process_lem ps (suc d) p (suc fuel) k f b =
    next_away ps p fuel (k.first 0 (omega arith)) (omega (arith, b))
    ∙ next_process_lem ps d (p + 1) fuel
        (record {
          there = ap ps.exists {x = p + 1 + d} {y = p + suc d} (omega arith) ∙ k.there;
          first = λ n h.
              ap ps.exists {x = p + 1 + n} {y = p + suc n} (omega arith)
              ∙ k.first (suc n) (omega arith);
        })
        (omega arith) (omega (arith, b))
    ∙ ap some (omega arith)

-- With no process from `p` on, no fuel is enough.
next_process_endless :
    (ps : Processes) (fuel p : ℕ)
    → ((n : ℕ) → ps.exists (p + n) ≡ false)
    → next_process fuel ps p ≡ none
next_process_endless ps zero p h = unfold next_process in refl
next_process_endless ps (suc fuel) p h = elim (Bool-cases (ltb (p + 1) (2 ^ 31))) [
  | inl inside ↦
      next_away ps p fuel (h 0) (ground (arith, inside))
      ∙ next_process_endless ps fuel (p + 1)
          (λ n. ap ps.exists {x = p + 1 + n} {y = p + suc n} (omega arith) ∙ h (suc n))
  | inr over ↦
      unfold next_process in rw (ap ps.exists {x = p} {y = p + 0} (omega arith) ∙ h 0, over) refl
]

-- When rounds are left and no process has a number from p on, the loop of `pid` ends with no
-- amount of fuel, whatever the largest number is.
pub each_process_endless :
    (env : Surroundings) (ps : Processes) (file : Bytes) (max amount p fuel : ℕ) (s : State)
    → ((n : ℕ) → ps.exists (p + n) ≡ false)
    → each_process fuel env ps file max (suc amount) p s ≡ none
unfolding each_process
each_process_endless env ps file max amount p fuel s h = rw (next_process_endless ps fuel p h)
