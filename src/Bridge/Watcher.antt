-- ===== src/Bridge/Watcher.antt =====
-- `inotify_mq` from its start on, and the queues that it opens and adds to the epoll instance.
pub mod Descriptors
pub mod Extending
use linux_system_monitoring.Base.{
  ℕ, zero, suc, ◌+◌, ltb, ◌==◌, Bool, true, false, Option, none, some, List, [], ◌∷◌, if◌then◌else◌,
  length, ◌>>=◌, Bytes, codes,
}
use linux_system_monitoring.Posix.{Calls, Read}
use linux_system_monitoring.Posix.Read.{bytes, interrupted, failed}
use linux_system_monitoring.Bridge.Forwarding.{watch_all}

-- The calls that only the bridge makes. `epoll_add` is `epoll_ctl` with EPOLL_CTL_ADD for EPOLLIN.
pub record Epoll (W : Type 0) : Type 0 where
  pub epoll_create1 : W → Option ℕ × W
  pub epoll_add : ℕ → ℕ → W → Bool × W

-- `WATCH_DIR`
abbrev pub watch_dir : Bytes
watch_dir = codes "/dev/mqueue"

-- How the thread stands: it is observed no longer, it returned, or it called `exit`.
pub data Ended : Type 0 where
  waiting : Ended
  returned : Ended
  left : Ended

module _ {W : Type 0} (c : Calls W) (ep : Epoll W) where
  -- The queue is opened for reading; none is -1.
  unfoldable pub initialize_mq : Bytes → W → Option ℕ × W
  initialize_mq mq_path w = c.mq_open mq_path w

  -- The return value of `epoll_ctl`, 1 for -1.
  abbrev status : Bool × W → ℕ × W
  status (ok, w) = (if ok then 0 else 1, w)

  unfoldable pub added : ℕ → Option ℕ × W → ℕ × W
  added epid (none, w) = (1, w)
  added epid (some new_queue, w) = status (ep.epoll_add epid new_queue w)

  -- `slashed_path` is an array of 512 cells.
  unfoldable pub register_queue : ℕ → Bytes → W → Option (ℕ × W)
  register_queue epid mq_path w =
      if ltb (1 + length mq_path) 512
      then some (added epid (initialize_mq (b'/' ∷ mq_path) w))
      else none

  -- The end of the thread.
  unfoldable pub stop_watching : ℕ → ℕ → W → W
  stop_watching fd wd w = c.close fd (c.inotify_rm_watch fd wd w)

  -- A round of the loop, and what follows if it goes on.
  unfoldable pub watch_round : ℕ → ℕ → ℕ → (W → Option (Ended × W)) → Read × W → Option (Ended × W)
  watch_round epid fd wd later (bytes buffer, w) = do
    w' ← watch_all (register_queue epid) buffer w
    later w'
  watch_round epid fd wd later (interrupted, w) = some (returned, stop_watching fd wd w)
  watch_round epid fd wd later (failed, w) = some (returned, stop_watching fd wd w)

  -- The rounds while it is observed.
  unfoldable pub watch_rounds : ℕ → ℕ → ℕ → ℕ → W → Option (Ended × W)
  watch_rounds zero epid fd wd w = some (waiting, w)
  watch_rounds (suc n) epid fd wd w =
      watch_round epid fd wd (watch_rounds n epid fd wd) (c.read fd w)

  -- Without the watch the instance is closed.
  unfoldable pub watching : ℕ → ℕ → ℕ → Option ℕ × W → Option (Ended × W)
  watching n epid fd (none, w) = some (left, c.close fd w)
  watching n epid fd (some wd, w) = watch_rounds n epid fd wd w

  unfoldable pub instance_made : ℕ → ℕ → Option ℕ × W → Option (Ended × W)
  instance_made n epid (none, w) = some (left, w)
  instance_made n epid (some fd, w) = watching n epid fd (c.inotify_add_watch fd watch_dir w)

  unfoldable pub inotify_mq : ℕ → ℕ → W → Option (Ended × W)
  inotify_mq n epid w = instance_made n epid (c.inotify_init w)
