-- ===== src/Pacct/Program/Cleanup.antt =====
-- inotify-pacct.c, `cleanup`, which stands behind the endless loop.
use linux_system_monitoring.Base.{ℕ, ◌≡◌, ◌≢◌, ap, ◌∙◌, arith, none, some, [], ◌∷◌}
use linux_system_monitoring.Posix.{Calls, Kept, IsPosix, opened, closed, without}
use linux_system_monitoring.MessageQueue.{remove_mq}
use linux_system_monitoring.Inotify.Setup.{Monitor}
use linux_system_monitoring.Pacct.Program.{mq_path}

module _ {W : Type 0} (c : Calls W) where
  unfoldable pub cleanup : Monitor → ℕ → W → W
  cleanup m file w =
      remove_mq c mq_path (c.fclose file (c.close m.fd (c.inotify_rm_watch m.fd m.wd w)))

module _ {W : Type 0} (c : Calls W) (view : W → Kept) (posix : IsPosix c view mq_path) where
  -- After a set-up, whose three descriptors differ and where `d` of the queue stays open, `cleanup` leaves no queue
  -- and the files of before it, and `d` besides.
  cleanup_lem :
      (before : Kept) (m : Monitor) (d file : ℕ) (w : W)
      → (view w ≡ opened file (record (opened d (opened m.fd before)) { queue = some [] }))
      → d ≢ m.fd
      → file ≢ m.fd
      → view (cleanup c m file w) ≡ record (opened d before) { queue = none }
  unfolding cleanup remove_mq
  cleanup_lem before m d file w set_up new newer =
      posix.mq_unlink _
      ∙ ap (λ (k : Kept). record k { queue = none })
          (posix.fclose _ file
            ∙ ap (closed file) (
                posix.close _ m.fd
                ∙ ap (closed m.fd) (posix.inotify_rm_watch w m.fd m.wd ∙ set_up)))
      ∙ ap (λ fs. record { queue = none; files = fs; accounting = before.accounting }) left_over
    where
      left_over : without file (without m.fd (file ∷ d ∷ m.fd ∷ before.files)) ≡ d ∷ before.files
      left_over = ground (arith, new, newer)
