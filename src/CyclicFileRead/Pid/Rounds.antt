-- ===== src/CyclicFileRead/Pid/Rounds.antt =====
-- The loop of pid.c over the processes.
use linux_system_monitoring.Base.{
  ◌^◌, lt→ltb, ℕ, suc, ◌+◌, ◌≡◌, ◌≤◌, refl, ap, subst, ◌∙◌, arith, false, Option, some, none, map,
  List, [], ◌∷◌, ◌++◌, append-nil, append_assoc, All, length, le→ltb_false, Bytes,
}
use linux_system_monitoring.CyclicFileRead.Queue.{State, Surroundings}
use linux_system_monitoring.CyclicFileRead.Fifo.{Holds}
use linux_system_monitoring.CyclicFileRead.Stat.Messages.{stamp}
use linux_system_monitoring.CyclicFileRead.Pid.{Processes, write_pid_message, each_process}
use linux_system_monitoring.CyclicFileRead.Pid.Search.{
  Suffices, IsNext, next_process_lem, each_process_endless,
}

-- The processes with numbers from the first one on and below the second, in order.
pub data Running (ps : Processes) : ℕ → ℕ → List ℕ → Type 0 where
  done : {p : ℕ} → Running ps p p []
  next :
      {p d end : ℕ} {qs : List ℕ}
      → IsNext ps p d
      → Running ps (p + d + 1) end qs
      → Running ps p end ((p + d) ∷ qs)

-- One line is put behind what is queued, with the timestamp of its node.
abbrev pub Stands : Surroundings → Bytes → State → List Bytes → Option (ℕ × State) → Type 0
Stands env line s ms result =
    (s' : State) × (result ≡ some (0, s'))
    × Holds s' (ms ++ ((line ++ env.timestamp s.fresh) ∷ []))
    × (s'.sent ≡ s.sent)
    × (s'.fresh ≡ suc s.fresh)

-- That is the line for the process.
abbrev pub Writes : Surroundings → Processes → Bytes → Bytes → ℕ → Type 0
Writes env ps file line q =
    (s : State) (ms : List Bytes)
    → Holds s ms
    → Stands env line s ms (write_pid_message env ps file q s)

-- A round for each process, and more.
abbrev rounds : List ℕ → ℕ → ℕ
rounds [] more = more
rounds (q ∷ qs) more = suc (rounds qs more)

rounds_lem : (qs : List ℕ) (more : ℕ) → rounds qs more ≡ length qs + more
rounds_lem [] more = omega arith
rounds_lem (q ∷ qs) more = omega (arith, rounds_lem qs more)

module _ (env : Surroundings) (ps : Processes) (file : Bytes) (line : ℕ → Bytes) (max fuel : ℕ)
    (f : Suffices max fuel) where
  -- The rounds of the processes that are there; `more` rounds are left behind them.
  pub each_process-Running :
      {p end : ℕ} {qs : List ℕ}
      → Running ps p end qs
      → (more : ℕ) (s : State) (ms : List Bytes) → All (λ q. q ≤ max) qs
      → All (λ q. Writes env ps file (line q) q) qs
      → Holds s ms
      → (s' : State) × (each_process fuel env ps file max (rounds qs more) p s
          ≡ each_process fuel env ps file max more end s')
        × Holds s' (ms ++ stamp env s.fresh (map line qs))
        × (s'.sent ≡ s.sent)
  unfolding each_process
  each_process-Running Running.done more s ms low law h = (s, refl, rw append-nil h, refl)
  each_process-Running (Running.next {p = p} {d = d} {qs = qs} k rest) more s ms low law h =
      let (s1, writes, holds, kept, fresh) = law.0 s ms h in
      let (s', runs, holds', kept') = each_process-Running rest more s1 _ low.1 law.1 holds in
      (
        s',
        rw
            (
              next_process_lem ps d p fuel k (omega (arith, low.0, f.0))
                  (omega (arith, low.0, f.1)),
              le→ltb_false _ _ low.0,
              writes,
              lt→ltb (p + d + 1) (2 ^ 31) (omega (arith, low.0, f.1)),
            )
            runs,
        subst (Holds s')
            (append_assoc ms _ (stamp env s1.fresh (map line qs))
              ∙ ap
                  (λ n. ms ++ ((line (p + d) ++ env.timestamp s.fresh) ∷ stamp env n (map line qs)))
                  fresh)
            holds',
        kept' ∙ kept,
      )

  -- x
  pub each_process_queues :
      {p end : ℕ} (qs : List ℕ) (s : State) (ms : List Bytes)
      → Running ps p end qs
      → All (λ q. q ≤ max) qs
      → All (λ q. Writes env ps file (line q) q) qs
      → Holds s ms
      → (s' : State) × (each_process fuel env ps file max (length qs) p s ≡ some (0, s'))
        × Holds s' (ms ++ stamp env s.fresh (map line qs))
        × (s'.sent ≡ s.sent)
  each_process_queues {p} {end} qs s ms r low law h =
      let (s', runs, holds, kept) = each_process-Running r 0 s ms low law h in
      (
        s',
        ap (λ n. each_process fuel env ps file max n p s) {x = length qs} {y = rounds qs 0}
              (omega (arith, rounds_lem qs 0))
            ∙ runs
            ∙ (unfold each_process in refl),
        holds,
        kept,
      )

  -- y
  pub each_process_too_many :
      {p end : ℕ} (qs : List ℕ) (more : ℕ) (s : State) (ms : List Bytes)
      → Running ps p end qs
      → ((n : ℕ) → ps.exists (end + n) ≡ false)
      → All (λ q. q ≤ max) qs
      → All (λ q. Writes env ps file (line q) q) qs
      → Holds s ms
      → each_process fuel env ps file max (length qs + suc more) p s ≡ none
  each_process_too_many {p} {end} qs more s ms r nobody low law h =
      let (s', runs, holds, kept) = each_process-Running r (suc more) s ms low law h in
      ap (λ n. each_process fuel env ps file max n p s) {x = length qs + suc more}
        {y = rounds qs (suc more)} (omega (arith, rounds_lem qs (suc more)))
      ∙ runs
      ∙ each_process_endless env ps file max more end fuel s' nobody
