-- ===== src/CyclicFileRead/Options/Selection.antt =====
-- Which lines a cycle of cyclic-file-read sends, by the option that is chosen.
use linux_system_monitoring.Base.{
  ℕ, ◌≡◌, refl, sym, ap, subst, ◌∙◌, Bool, true, false, ◌||◌, ◌==◌, some, List, [], ◌++◌,
  append-nil, Bytes, codes,
}
use linux_system_monitoring.CyclicFileRead.Queue.{State}
use linux_system_monitoring.CyclicFileRead.Fifo.{Holds, dequeue_refines}
use linux_system_monitoring.CyclicFileRead.Options.{
  Collector, Collectors, collect, collect_and_send, send_metrics,
}

-- The lines of each collector in this cycle, with their timestamps.
pub record Cycle : Type 0 where
  pub stat : List Bytes
  pub net : List Bytes
  pub disk : List Bytes
  pub pid : Bytes → List Bytes
  pub sys : List Bytes

-- A collector puts these lines behind what is queued, and sends nothing.
abbrev pub Queues : Collector → List Bytes → Type 0
Queues f new =
    (s : State) (ms : List Bytes)
    → Holds s ms
    → (r : ℕ) × (s' : State) × (f s ≡ some (r, s')) × Holds s' (ms ++ new) × (s'.sent ≡ s.sent)

-- `sys` does so for the empty queue.
pub record Gives (m : Collectors) (l : Cycle) : Type 0 where
  pub stat : Queues m.stat l.stat
  pub net : Queues m.net l.net
  pub disk : Queues m.disk l.disk
  pub pid : (file : Bytes) → Queues (m.pid file) (l.pid file)
  pub sys :
      (s : State)
      → Holds s []
      → (r : ℕ) × (s' : State) × (m.sys s ≡ some (r, s')) × Holds s' l.sys × (s'.sent ≡ s.sent)

abbrev pub when : Bool → List Bytes → List Bytes
when true lines = lines
when false lines = []

-- What belongs to an option: 0 without one, 8 for `--sys`, 9 for `--pid`.
abbrev pub files_of : Cycle → ℕ → List Bytes
files_of l arg =
    ((((when (arg == 0 || arg == 1 || arg == 8) l.stat
            ++ when (arg == 0 || arg == 2 || arg == 8) l.net)
          ++ when (arg == 0 || arg == 3 || arg == 8) l.disk)
        ++ when (arg == 0 || arg == 4 || arg == 9) (l.pid (codes "stat")))
      ++ when (arg == 0 || arg == 5 || arg == 9) (l.pid (codes "statm")))
    ++ when (arg == 0 || arg == 6 || arg == 9) (l.pid (codes "io"))

abbrev pub temperatures_of : Cycle → ℕ → List Bytes
temperatures_of l arg = when (arg == 0 || arg == 7 || arg == 8) l.sys

collect_queues :
    (b : Bool) (f : Collector) (new : List Bytes) (s : State) (ms : List Bytes)
    → Queues f new
    → Holds s ms
    → (s' : State) × (collect b f s ≡ some s') × Holds s' (ms ++ when b new) × (s'.sent ≡ s.sent)
unfolding collect
collect_queues false f new s ms law h = (s, refl, subst (Holds s) (sym (append-nil ms)) h, refl)
collect_queues true f new s ms law h =
    let (r, s', runs, holds, kept) = law s ms h in (s', rw runs, holds, kept)

collect_and_send_sys :
    (b : Bool) (m : Collectors) (l : Cycle) (s : State)
    → Gives m l
    → Holds s []
    → (s' : State) × (collect_and_send b m.sys s ≡ some s')
      × Holds s' []
      × (s'.sent ≡ s.sent ++ when b l.sys)
unfolding collect_and_send
collect_and_send_sys false m l s law h = (s, refl, h, sym (append-nil s.sent))
collect_and_send_sys true m l s law h =
    let (r, s1, runs, holds, kept) = law.sys s h in
    let (s2, sends, empty, sent) = dequeue_refines s1 l.sys holds in
    (s2, rw runs sends, empty, sent ∙ ap (λ t. t ++ l.sys) kept)

-- For collectors that put the given lines into the queue and an empty queue, `send_metrics` sends
-- exactly the lines of the collectors that the option chooses, those of the files in the order of
-- the calls and the temperatures last, and leaves the queue empty with every node freed.
pub send_metrics_lem :
    (m : Collectors) (l : Cycle) (arg : ℕ) (s : State)
    → Gives m l
    → Holds s []
    → (s' : State) × (send_metrics m arg s ≡ some s')
      × Holds s' []
      × (s'.sent ≡ (s.sent ++ files_of l arg) ++ temperatures_of l arg)
unfolding send_metrics
send_metrics_lem m l arg s law h =
    let (s1, r1, h1, k1) =
      collect_queues (arg == 0 || arg == 1 || arg == 8) m.stat l.stat s [] law.stat h in
    let (s2, r2, h2, k2) =
      collect_queues (arg == 0 || arg == 2 || arg == 8) m.net l.net s1 _ law.net h1 in
    let (s3, r3, h3, k3) =
      collect_queues (arg == 0 || arg == 3 || arg == 8) m.disk l.disk s2 _ law.disk h2 in
    let (s4, r4, h4, k4) =
      collect_queues (arg == 0 || arg == 4 || arg == 9) (m.pid (codes "stat"))
        (l.pid (codes "stat")) s3 _ (law.pid (codes "stat")) h3 in
    let (s5, r5, h5, k5) =
      collect_queues (arg == 0 || arg == 5 || arg == 9) (m.pid (codes "statm"))
        (l.pid (codes "statm")) s4 _ (law.pid (codes "statm")) h4 in
    let (s6, r6, h6, k6) =
      collect_queues (arg == 0 || arg == 6 || arg == 9) (m.pid (codes "io")) (l.pid (codes "io")) s5
        _ (law.pid (codes "io")) h5 in
    let (s7, r7, h7, sent7) = dequeue_refines s6 (files_of l arg) h6 in
    let (s8, r8, h8, sent8) =
      collect_and_send_sys (arg == 0 || arg == 7 || arg == 8) m l s7 law h7 in
    (
      s8,
      rw (r1, r2, r3, r4, r5, r6, r7) r8,
      h8,
      sent8
          ∙ ap (λ t. t ++ temperatures_of l arg)
              (sent7 ∙ ap (λ t. t ++ files_of l arg) (k6 ∙ k5 ∙ k4 ∙ k3 ∙ k2 ∙ k1)),
    )
