-- ===== src/CyclicFileRead/Options/Cycles.antt =====
-- What a cycle of cyclic-file-read sends, and what it leaves behind.
use linux_system_monitoring.Base.{
  ℕ, ◌≡◌, refl, sym, ap, ◌∙◌, subst, Bool, true, false, ◌||◌, ◌==◌, Option, none, some, List, [],
  ◌++◌, append-nil, append_assoc, Bytes, codes, ◌⊎◌,
}
use linux_system_monitoring.CyclicFileRead.Queue.{State}
use linux_system_monitoring.CyclicFileRead.Fifo.{Holds, dequeue_refines}
use linux_system_monitoring.CyclicFileRead.Options.Init.{made, refused}
use linux_system_monitoring.CyclicFileRead.Options.{
  Init, Collector, Collectors, collect, collect_and_send, send_metrics, Program, Flags,
}

-- A collector adds lines to the queue and sends none, whatever it returns.
abbrev pub IsCollector : Collector → Type 0
IsCollector f =
    (s : State) (ms : List Bytes)
    → Holds s ms
    → (r : ℕ) × (s' : State) × (new : List Bytes) × (f s ≡ some (r, s'))
      × Holds s' (ms ++ new)
      × (s'.sent ≡ s.sent)

-- The collectors keep the contract of the queue. `sys` forgets what is queued, and does so only
-- for the empty queue.
pub record AreCollectors (m : Collectors) : Type 0 where
  pub stat : IsCollector m.stat
  pub net : IsCollector m.net
  pub disk : IsCollector m.disk
  pub pid : (file : Bytes) → IsCollector (m.pid file)
  pub sys :
      (s : State)
      → Holds s []
      → (r : ℕ) × (s' : State) × (new : List Bytes) × (m.sys s ≡ some (r, s'))
        × Holds s' new
        × (s'.sent ≡ s.sent)

collect_lem :
    (b : Bool) (f : Collector) (s : State) (ms : List Bytes)
    → IsCollector f
    → Holds s ms
    → (s' : State) × (new : List Bytes) × (collect b f s ≡ some s')
      × Holds s' (ms ++ new)
      × (s'.sent ≡ s.sent)
unfolding collect
collect_lem false f s ms law h = (s, [], refl, subst (Holds s) (sym (append-nil ms)) h, refl)
collect_lem true f s ms law h =
    let (r, s', new, runs, holds, kept) = law s ms h in (s', new, rw runs, holds, kept)

-- The queue is empty again, and lines were sent behind those that were.
abbrev pub Sends : Option State → State → Type 0
Sends result s =
    (s' : State) × (new : List Bytes) × (result ≡ some s') × Holds s' [] × (s'.sent ≡ s.sent ++ new)

collect_and_send_lem :
    (b : Bool) (m : Collectors) (s : State)
    → AreCollectors m
    → Holds s []
    → Sends (collect_and_send b m.sys s) s
unfolding collect_and_send
collect_and_send_lem false m s law h = (s, [], refl, h, sym (append-nil s.sent))
collect_and_send_lem true m s law h =
    let (r, s1, new, runs, holds, kept) = law.sys s h in
    let (s2, sends, empty, sent) = dequeue_refines s1 new holds in
    (s2, new, rw runs sends, empty, sent ∙ ap (λ l. l ++ new) kept)

-- A cycle runs, sends what it queues, and leaves the queue empty.
pub send_metrics-Sends :
    (m : Collectors) (arg : ℕ) (s : State)
    → AreCollectors m
    → Holds s []
    → Sends (send_metrics m arg s) s
unfolding send_metrics
send_metrics-Sends m arg s law h =
    let (s1, n1, r1, h1, k1) =
      collect_lem (arg == 0 || arg == 1 || arg == 8) m.stat s [] law.stat h in
    let (s2, n2, r2, h2, k2) =
      collect_lem (arg == 0 || arg == 2 || arg == 8) m.net s1 _ law.net h1 in
    let (s3, n3, r3, h3, k3) =
      collect_lem (arg == 0 || arg == 3 || arg == 8) m.disk s2 _ law.disk h2 in
    let (s4, n4, r4, h4, k4) =
      collect_lem (arg == 0 || arg == 4 || arg == 9) (m.pid (codes "stat")) s3 _ (law.pid _) h3 in
    let (s5, n5, r5, h5, k5) =
      collect_lem (arg == 0 || arg == 5 || arg == 9) (m.pid (codes "statm")) s4 _ (law.pid _) h4 in
    let (s6, n6, r6, h6, k6) =
      collect_lem (arg == 0 || arg == 6 || arg == 9) (m.pid (codes "io")) s5 _ (law.pid _) h5 in
    let queued = ((((n1 ++ n2) ++ n3) ++ n4) ++ n5) ++ n6 in
    let (s7, r7, h7, sent7) = dequeue_refines s6 queued h6 in
    let (s8, n8, r8, h8, sent8) =
      collect_and_send_lem (arg == 0 || arg == 7 || arg == 8) m s7 law h7 in
    (
      s8,
      queued ++ n8,
      rw (r1, r2, r3, r4, r5, r6, r7) r8,
      h8,
      sent8
          ∙ ap (λ l. l ++ n8) (sent7 ∙ ap (λ l. l ++ queued) (k6 ∙ k5 ∙ k4 ∙ k3 ∙ k2 ∙ k1))
          ∙ append_assoc s.sent queued n8,
    )

-- How a run behind `init_mq` ends: the status is that of the run, the queue is empty, and no message queue
-- is left unless the loop goes on.
pub record Ends (m : Collectors) (result : Option (Option ℕ × Program)) : Type 0 where
  pub status : Option ℕ
  pub program : Program
  pub returns : result ≡ some (status, program)
  pub empty : Holds program.lines []
  pub running : (status ≡ none) ⊎ (program.registered ≡ false)

-- The options ask for help, or are unknown.
abbrev pub Asks : Option Flags → Type 0
Asks none = Unit
Asks (some f) = f.h ≡ true

-- The run stops with 1 and everything as it was, for its options; or it fails to make the message queue; or
-- it makes it, and ends as above.
abbrev pub Outcome :
    Collectors → Init → Option Flags → Program → Option (Option ℕ × Program) → Type 0
Outcome m queue f before result =
    (Asks f × (result ≡ some (some 1, before)))
    ⊎ ((left : Bool) × (queue ≡ refused left)
        × (result ≡ some (some 1, record before { registered = left })))
    ⊎ ((queue ≡ made) × Ends m result)
