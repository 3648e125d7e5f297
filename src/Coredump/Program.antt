-- ===== src/Coredump/Program.antt =====
-- inotify-coredump from `main` on: the inotify instance, the watch and the message queue.
pub mod Keeping
pub mod Resources
use linux_system_monitoring.Base.{
  ℕ, zero, suc, ◌==◌, ◌||◌, Bool, true, false, Option, none, some, List, [], ◌∷◌, if◌then◌else◌,
  ◌>>=◌, Bytes, codes,
}
use linux_system_monitoring.Posix.{Calls, Read}
use linux_system_monitoring.Posix.Read.{bytes, interrupted, failed}
use linux_system_monitoring.MessageQueue.{remove_mq, mq}
use linux_system_monitoring.Inotify.Setup
use linux_system_monitoring.Inotify.Setup.{Monitor}
use linux_system_monitoring.Signals.{setup_signal_handling}
use linux_system_monitoring.Coredump.{watch_dir, send_coredump}

abbrev pub mq_path : Bytes
mq_path = codes "/inotify_coredump"

module _ {W : Type 0} (c : Calls W) where
  unfoldable pub init_inotify : W → Option Monitor × W
  init_inotify w = Setup.init_inotify c mq_path watch_dir w

module _ {W : Type 0} (c : Calls W) (arrays : Bytes) where
  -- A read that a signal interrupts once `keep_running` is 0 returns 0, and another one that fails -1;
  -- none is -1.
  unfoldable pub received : Read × W → Option Bytes × W
  received (bytes buffer, w) = (some buffer, w)
  received (interrupted, w) = (if c.keep_running w then none else some [], w)
  received (failed, w) = (none, w)

  unfoldable pub receive_coredump : Monitor → W → Option Bytes × W
  receive_coredump m w = received (c.read m.fd w)

  unfoldable pub sent_then : (W → Option (Option ℕ × W)) → ℕ × W → Option (Option ℕ × W)
  sent_then later (code, w) = if code == 1 then some (some 1, w) else later w

  unfoldable pub process : (W → Option (Option ℕ × W)) → Option Bytes × W → Option (Option ℕ × W)
  process later (none, w) = some (some 1, w)
  process later (some buffer, w) = do
    r ← send_coredump (mq c mq_path) arrays buffer w
    sent_then later r

  -- The rounds of `event_loop` while it is observed. The return value is none as long as it goes on, and
  -- 1 for -1.
  unfoldable pub event_loop : ℕ → Monitor → W → Option (Option ℕ × W)
  event_loop zero m w = some (none, w)
  event_loop (suc n) m w =
      let round = process (event_loop n m) (receive_coredump m w) in
      if c.keep_running w then round else some (some 0, w)

  unfoldable pub cleanup : Monitor → W → W
  cleanup m w = remove_mq c mq_path (c.close m.fd (c.inotify_rm_watch m.fd m.wd w))

  unfoldable pub clean_if_ended : Monitor → Option ℕ × W → Option ℕ × W
  clean_if_ended m (none, w) = (none, w)
  clean_if_ended m (some ret, w) = (some ret, cleanup m w)

  unfoldable pub run_initialized : ℕ → Option Monitor × W → Option (Option ℕ × W)
  run_initialized n (none, w) = some (some 1, w)
  run_initialized n (some m, w) = do r ← event_loop n m w; some (clean_if_ended m r)

  unfoldable pub run_inotify_coredump : ℕ → W → Option (Option ℕ × W)
  run_inotify_coredump n w = run_initialized n (init_inotify c w)

  unfoldable pub run_handled : ℕ → ℕ × W → Option (Option ℕ × W)
  run_handled n (handling, w) = if handling == 1 then some (some 1, w) else run_inotify_coredump n w

  -- `main`, from what `getopt` returns up to its -1 on: `h` is 104 and `?` is 63. The exit status is 1 for
  -- -1.
  unfoldable pub main : List ℕ → ℕ → W → Option (Option ℕ × W)
  main [] n w = run_handled n (setup_signal_handling c w)
  main (o ∷ os) n w =
      if o == 104 then some (some 0, w) else if o == 63 then some (some 1, w) else main os n w
