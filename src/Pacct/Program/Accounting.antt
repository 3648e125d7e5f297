-- ===== src/Pacct/Program/Accounting.antt =====
-- What inotify-pacct leaves behind in the system.
use linux_system_monitoring.Base.{
  ℕ, suc, ◌==◌, ◌≡◌, ◌≢◌, refl, ap, ◌∙◌, arith, Bool, Bool-cases, true, false, Option, none, some,
  List, [], ◌∷◌, if◌then◌else◌, ◌>>=◌, ◌⊎◌, inl, inr, All, length,
}
use mathlib.Core.Option.{some-injective, some-ne-none}
use linux_system_monitoring.Posix.{Calls, Kept, IsPosix, Opens, Switches, Waits, closed}
use linux_system_monitoring.MessageQueue.{mq, init_mq}
use linux_system_monitoring.MessageQueue.Sending.{IsMade, init_mq_lem}
use linux_system_monitoring.Inotify.Walk.{Raw, IsRaw, encode_all}
use linux_system_monitoring.Inotify.Setup
use linux_system_monitoring.Inotify.Setup.{Monitor, watched, with_queue, with_instance}
use linux_system_monitoring.Pacct.Values.{Printing}
use linux_system_monitoring.Pacct.Monitor.{send_process, Change, monitor}
use linux_system_monitoring.Pacct.Program.{
  mq_path, acct_file, status, enable_process_accounting, init_inotify, open_file, monitor_file,
  monitor_initialized, monitor_process_accounting, monitored, enabled, main,
}
use linux_system_monitoring.Pacct.Program.Walking.{send_process_from-Walks}

-- A buffer that the kernel wrote, if the read did not fail.
abbrev pub IsWritten : Option Change → Type 0
IsWritten none = Unit
IsWritten (some c) = (rs : List Raw) × (c.buffer ≡ encode_all rs) × All IsRaw rs

module _ {W : Type 0} (c : Calls W) (view : W → Kept) (p : Printing)
    (posix : IsPosix c view mq_path) where
  -- A run is defined, fails or goes on, and accounting stays as it is.
  abbrev Stays : W → Option (Option ℕ × W) → Type 0
  Stays w result =
      (r : Option ℕ) × (w' : W) × (result ≡ some (r, w'))
      × ((r ≡ some 1) ⊎ (r ≡ none))
      × ((view w').accounting ≡ (view w).accounting)

  accounting_of :
      (w w' : W) (k : Kept)
      → view w' ≡ k
      → k.accounting ≡ (view w).accounting
      → (view w').accounting ≡ (view w).accounting
  accounting_of w w' k e same = ap (λ (k : Kept). k.accounting) e ∙ same

  monitor-Stays :
      (fd last : ℕ) (changes : List (Option Change)) (w : W)
      → All IsWritten changes
      → Stays w (monitor (mq c mq_path) p (c.close fd) last changes w)
  unfolding monitor send_process
  monitor-Stays fd last [] w ok = (none, w, refl, inr refl, refl)
  monitor-Stays fd last (none ∷ cs) w ok = (
    some 1,
    c.close fd w,
    refl,
    inl refl,
    accounting_of w (c.close fd w) (closed fd (view w)) (posix.close w fd) refl,
  )
  monitor-Stays fd last (some ch ∷ cs) w ((rs, written, raw), ok) =
      let (f, w1, runs, kept) =
        send_process_from-Walks c view p posix rs (suc (length (encode_all rs))) [] 0
          (length (encode_all rs)) ch.file last w raw refl (omega arith) (omega arith) in
      rw (written, runs) (onward f w1 kept (monitor-Stays fd last cs w1 ok))
    where
      onward :
          (f : ℕ) (w1 : W)
          → Waits view w w1
          → Stays w1 (monitor (mq c mq_path) p (c.close fd) last cs w1)
          → Stays w (
              if f == 1
              then some (some 1, w1)
              else monitor (mq c mq_path) p (c.close fd) last cs w1)
      onward f w1 kept (r, w2, runs, way, same) = elim (Bool-cases (f == 1)) [
        | inl bad ↦ (some 1, w1, rw bad, inl refl, kept.accounting)
        | inr good ↦ (r, w2, rw good runs, way, same ∙ kept.accounting)
      ]

  -- `init_inotify` does not touch accounting.
  watched_lem :
      (fd : ℕ) (w : W) (r : Option ℕ × W)
      → view r.1 ≡ view w
      → (view (watched c mq_path acct_file fd r).1).accounting ≡ (view w).accounting
  unfolding watched
  watched_lem fd w (none, w1) same =
      accounting_of w (c.close fd w1) (closed fd (view w1)) (posix.close w1 fd)
        (ap (λ (k : Kept). k.accounting) same)
  watched_lem fd w (some wd, w1) same = ap (λ (k : Kept). k.accounting) same

  with_queue_lem :
      (fd : ℕ) (w : W) (r : Option ℕ × W)
      → IsMade c view mq_path posix w r
      → (view (with_queue c mq_path acct_file fd r).1).accounting ≡ (view w).accounting
  unfolding with_queue
  with_queue_lem fd w (none, w1) made =
      accounting_of w (c.close fd w1) (closed fd (view w1)) (posix.close w1 fd)
        (ap (λ (k : Kept). k.accounting) made)
  with_queue_lem fd w (some d, w1) (new, made) =
      watched_lem fd w1 (c.inotify_add_watch fd acct_file w1)
        (posix.inotify_add_watch w1 fd acct_file)
      ∙ ap (λ (k : Kept). k.accounting) made

  with_instance_lem :
      (w : W) (r : Option ℕ × W)
      → Opens view (λ k. k) w r
      → (view (with_instance c mq_path acct_file r).1).accounting ≡ (view w).accounting
  unfolding with_instance
  with_instance_lem w (none, w1) o = ap (λ (k : Kept). k.accounting) o
  with_instance_lem w (some fd, w1) (new, o) =
      with_queue_lem fd w1 (init_mq c mq_path w1) (init_mq_lem c view mq_path posix w1)
      ∙ ap (λ (k : Kept). k.accounting) o

  module _ (last : ℕ) (changes : List (Option Change)) (ok : All IsWritten changes) where
    monitor_file-Stays :
        (m : Monitor) (w : W) (r : Option ℕ × W)
        → Opens view (λ k. k) w r
        → Stays w (monitor_file c p last changes m r)
    unfolding monitor_file
    monitor_file-Stays m w (none, w1) o =
        (some 1, w1, refl, inl refl, ap (λ (k : Kept). k.accounting) o)
    monitor_file-Stays m w (some file, w1) (new, o) =
        let (r, w2, runs, way, same) = monitor-Stays m.fd last changes w1 ok in
        (r, w2, runs, way, same ∙ ap (λ (k : Kept). k.accounting) o)

    monitor_initialized-Stays :
        (w : W) (r : Option Monitor × W)
        → (view r.1).accounting ≡ (view w).accounting
        → Stays w (monitor_initialized c p last changes r)
    unfolding monitor_initialized open_file
    monitor_initialized-Stays w (none, w1) same = (some 1, w1, refl, inl refl, same)
    monitor_initialized-Stays w (some m, w1) same =
        let (r, w2, runs, way, more) =
          monitor_file-Stays m w1 (c.fopen acct_file w1) (posix.fopen w1 acct_file) in
        (r, w2, runs, way, more ∙ same)

    monitor_process_accounting-Stays :
        (w : W) → Stays w (monitor_process_accounting c p last changes w)
    unfolding monitor_process_accounting init_inotify Setup.init_inotify
    monitor_process_accounting-Stays w =
        monitor_initialized-Stays w (with_instance c mq_path acct_file (c.inotify_init w))
          (with_instance_lem w (c.inotify_init w) (posix.inotify_init w))

    -- Accounting was not switched on, or it is on whatever came of the monitor.
    abbrev pub Accounting : W → Option (Option ℕ × W) → Type 0
    Accounting w result =
        (r : Option ℕ) × (w' : W) × (result ≡ some (r, w'))
        × (((r ≡ some 1) × (view w' ≡ view w))
            ⊎ (((r ≡ some 2) ⊎ (r ≡ none)) × ((view w').accounting ≡ true)))

    -- The monitor failed or goes on, and accounting is on.
    abbrev LeftOn : Option (Option ℕ × W) → Type 0
    LeftOn result =
        (r : Option ℕ) × (w' : W) × (result ≡ some (r, w'))
        × ((r ≡ some 2) ⊎ (r ≡ none))
        × ((view w').accounting ≡ true)

    monitored_lem :
        (w : W)
        → Stays w (monitor_process_accounting c p last changes w)
        → (view w).accounting ≡ true
        → LeftOn (do
          r ← monitor_process_accounting c p last changes w
          some (monitored c p last changes r))
    unfolding monitored
    monitored_lem w (some r, w', runs, inl e, same) on =
        (some 2, w', rw (runs, some-injective r 1 e), inl refl, same ∙ on)
    monitored_lem w (some r, w', runs, inr e, same) on = absurd (some-ne-none r e)
    monitored_lem w (none, w', runs, way, same) on = (none, w', rw runs, inr refl, same ∙ on)

    enabled_lem :
        (w : W) (r : Bool × W)
        → Switches view true w r
        → Accounting w (enabled c p last changes (status c r))
    unfolding enabled status
    enabled_lem w (false, w1) same = (some 1, w1, refl, inl (refl, same))
    enabled_lem w (true, w1) on =
        let (r, w2, runs, way, still) =
          monitored_lem w1 (monitor_process_accounting-Stays w1)
            (ap (λ (k : Kept). k.accounting) on) in
        (r, w2, runs, inr (way, still))

    -- On a system that keeps what is documented of its calls, with options other than -h and
    -- unknown ones, and for every sequence of reads that fail or give events as the kernel
    -- writes them, `main` of inotify-pacct exits with 1 and nothing changed if accounting
    -- cannot be switched on; otherwise it exits with 2 or goes on, and accounting is on in
    -- both cases.
    pub main-Accounting :
        (os : List ℕ) (w : W)
        → All (λ o. (o ≢ 104) × (o ≢ 63)) os
        → Accounting w (main c p last changes os w)
    unfolding main enable_process_accounting
    main-Accounting [] w plain =
        enabled_lem w (c.acct (some acct_file) w) (posix.enable w acct_file)
    main-Accounting (o ∷ os) w (plain, plains) =
        let not_h : (o == 104) ≡ false = ground (arith, plain.0) in
        let not_unknown : (o == 63) ≡ false = ground (arith, plain.1) in
        rw (not_h, not_unknown) (main-Accounting os w plains)
