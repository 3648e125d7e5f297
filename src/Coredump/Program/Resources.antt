-- ===== src/Coredump/Program/Resources.antt =====
-- What inotify-coredump leaves behind in the system.
use linux_system_monitoring.Base.{
  ℕ, ◌≡◌, ◌≢◌, refl, sym, ap, ◌∙◌, subst, arith, true, Option, none, some, [], ◌∷◌, All, Bytes,
}
use linux_system_monitoring.Posix.{
  Calls, Kept, IsPosix, Opens, Waits, opened, closed, without, exists,
}
use linux_system_monitoring.MessageQueue.{init_mq, remove_mq}
use linux_system_monitoring.MessageQueue.Sending.{IsMade, init_mq_lem, closed-opened}
use linux_system_monitoring.Coredump.{watch_dir}
use linux_system_monitoring.Inotify.Setup
use linux_system_monitoring.Inotify.Setup.{Monitor, watched, with_queue, with_instance}
use linux_system_monitoring.Coredump.Program.{
  mq_path, init_inotify, cleanup, clean_if_ended, run_initialized, run_inotify_coredump,
}
use linux_system_monitoring.Coredump.Program.Keeping.{Suits, event_loop-Keeps}

-- How a run ends, by what was seen before it: without an instance, without a queue, without a watch,
-- with the return value of the loop, or not yet. The descriptor of the queue stays open.
pub data Ending (before : Kept) : Option ℕ → Kept → Type 0 where
  no_instance : Ending before (some 1) before
  no_queue : Ending before (some 1) (record before { queue = none })
  no_watch : (d : ℕ) → Ending before (some 1) (record (opened d before) { queue = some [] })
  ended : (d r : ℕ) → Ending before (some r) (record (opened d before) { queue = none })
  running :
      (d fd : ℕ) (now : Kept)
      → exists now.queue ≡ true
      → now.files ≡ d ∷ fd ∷ before.files
      → now.accounting ≡ before.accounting
      → Ending before none now

module _ {W : Type 0} (c : Calls W) (view : W → Kept) (arrays : Bytes)
    (posix : IsPosix c view mq_path) (suits : Suits c arrays) where
  -- The end of a run over a monitor whose instance and queue are open.
  cleaned :
      (before : Kept) (m : Monitor) (d : ℕ) (w w1 w2 : W) (r : Option ℕ)
      → view w1 ≡ record (opened d (opened m.fd before)) { queue = some [] }
      → d ≢ m.fd
      → Waits view w1 w2
      → Ending before
          (clean_if_ended c arrays m (r, w2)).0
          (view (clean_if_ended c arrays m (r, w2)).1)
  unfolding clean_if_ended cleanup remove_mq
  cleaned before m d w w1 w2 none o new kept =
      running d m.fd (view w2) (kept.queue ∙ ap (λ (k : Kept). exists k.queue) o)
        (kept.files ∙ ap (λ (k : Kept). k.files) o)
        (kept.accounting ∙ ap (λ (k : Kept). k.accounting) o)
  cleaned before m d w w1 w2 (some r) o new kept =
      subst (Ending before (some r))
        (sym (
          posix.mq_unlink _
          ∙ ap (λ (k : Kept). record k { queue = none })
              (posix.close _ m.fd ∙ ap (closed m.fd) (posix.inotify_rm_watch w2 m.fd m.wd))
          ∙ (λ i. record {
            queue = none;
            files = files i;
            accounting = (kept.accounting ∙ ap (λ (k : Kept). k.accounting) o) i;
          })))
        (ended d r)
    where
      left_over : without m.fd (d ∷ m.fd ∷ before.files) ≡ d ∷ before.files
      left_over = ground (arith, new)

      files : without m.fd (view w2).files ≡ d ∷ before.files
      files = ap (without m.fd) (kept.files ∙ ap (λ (k : Kept). k.files) o) ∙ left_over

  watched-Ending :
      (before : Kept) (n d fd : ℕ) (w : W) (r : Option ℕ × W)
      → view w ≡ record (opened d (opened fd before)) { queue = some [] }
      → d ≢ fd
      → view r.1 ≡ view w
      → (e : Option ℕ) × (w' : W) × (run_initialized c arrays n (watched c mq_path watch_dir fd r)
          ≡ some (e, w'))
        × Ending before e (view w')
  unfolding watched run_initialized
  watched-Ending before n d fd w (none, w1) o new same = (
    some 1,
    c.close fd w1,
    refl,
    subst (Ending before (some 1))
        (sym (
          posix.close w1 fd
          ∙ ap (closed fd) (same ∙ o)
          ∙ ap (λ fs. record { queue = some []; files = fs; accounting = before.accounting })
              left_over))
        (no_watch d),
  )
    where
      left_over : without fd (d ∷ fd ∷ before.files) ≡ d ∷ before.files
      left_over = ground (arith, new)
  watched-Ending before n d fd w (some wd, w1) o new same =
      let m : Monitor = record { fd = fd; wd = wd } in
      let (r, w2, runs, kept) = event_loop-Keeps c view arrays posix suits n m w1 in
      let final = clean_if_ended c arrays m (r, w2) in
      (final.0, final.1, rw runs refl, cleaned before m d w1 w1 w2 r (same ∙ o) new kept)

  with_queue-Ending :
      (before : Kept) (n fd : ℕ) (w : W) (r : Option ℕ × W)
      → view w ≡ opened fd before
      → IsMade c view mq_path posix w r
      → (e : Option ℕ) × (w' : W) × (run_initialized c arrays n
            (with_queue c mq_path watch_dir fd r)
          ≡ some (e, w'))
        × Ending before e (view w')
  unfolding with_queue
  with_queue-Ending before n fd w (none, w1) o made = (
    some 1,
    c.close fd w1,
    unfold run_initialized in refl,
    subst (Ending before (some 1))
        (sym (
          posix.close w1 fd
          ∙ ap (closed fd) (made ∙ ap (λ (k : Kept). record k { queue = none }) o)
          ∙ closed-opened fd (record before { queue = none })))
        no_queue,
  )
  with_queue-Ending before n fd w (some d, w1) o (new, made) =
      watched-Ending before n d fd w1 (c.inotify_add_watch fd watch_dir w1)
        (made ∙ ap (λ (k : Kept). record (opened d k) { queue = some [] }) o)
        (subst (λ (k : Kept). All (λ e. d ≢ e) k.files) o new).0
        (posix.inotify_add_watch w1 fd watch_dir)

  with_instance-Ending :
      (n : ℕ) (w : W) (r : Option ℕ × W)
      → Opens view (λ k. k) w r
      → (e : Option ℕ) × (w' : W) × (run_initialized c arrays n
            (with_instance c mq_path watch_dir r)
          ≡ some (e, w'))
        × Ending (view w) e (view w')
  unfolding with_instance
  with_instance-Ending n w (none, w1) o = (
    some 1,
    w1,
    unfold run_initialized in refl,
    subst (Ending (view w) (some 1)) (sym o) no_instance,
  )
  with_instance-Ending n w (some fd, w1) (new, o) =
      with_queue-Ending (view w) n fd w1 (init_mq c mq_path w1) o
        (init_mq_lem c view mq_path posix w1)

  -- On a system that keeps what is documented of its calls and lets the program remove its
  -- queue, and whose reads give events as the kernel writes them, with a name or without,
  -- `run_inotify_coredump` has no undefined behaviour, however long it is observed; it fails at
  -- once with everything as before, or fails without a queue and with the files that were open
  -- before, or fails with a new empty queue left behind because the watch failed, or ends with
  -- the queue removed; while it runs the queue exists and the instance is open. In the last
  -- three cases the descriptor of the new queue is open besides the files of before, and
  -- accounting is never touched.
  pub run_inotify_coredump-Ending :
      (n : ℕ) (w : W)
      → (e : Option ℕ) × (w' : W) × (run_inotify_coredump c arrays n w ≡ some (e, w'))
        × Ending (view w) e (view w')
  unfolding run_inotify_coredump init_inotify Setup.init_inotify
  run_inotify_coredump-Ending n w =
      with_instance-Ending n w (c.inotify_init w) (posix.inotify_init w)
