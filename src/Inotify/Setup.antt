-- ===== src/Inotify/Setup.antt =====
-- `init_inotify` of inotify-coredump and inotify-pacct: an inotify instance, a message queue and a watch.
use linux_system_monitoring.Base.{ℕ, Option, none, some, Bytes}
use linux_system_monitoring.Posix.{Calls}
use linux_system_monitoring.MessageQueue.{init_mq}

-- `coredump_monitor_t` and `process_monitor_t`, without the flag for more output.
pub record Monitor : Type 0 where
  pub fd : ℕ
  pub wd : ℕ

-- `path` is the name of the message queue, `name` the file that is watched.
module _ {W : Type 0} (c : Calls W) (path name : Bytes) where
  -- The watch; an error closes the instance.
  unfoldable pub watched : ℕ → Option ℕ × W → Option Monitor × W
  watched fd (none, w) = (none, c.close fd w)
  watched fd (some wd, w) = (some (record { fd = fd; wd = wd }), w)

  -- The message queue.
  unfoldable pub with_queue : ℕ → Option ℕ × W → Option Monitor × W
  with_queue fd (none, w) = (none, c.close fd w)
  with_queue fd (some queue, w) = watched fd (c.inotify_add_watch fd name w)

  unfoldable pub with_instance : Option ℕ × W → Option Monitor × W
  with_instance (none, w) = (none, w)
  with_instance (some fd, w) = with_queue fd (init_mq c path w)

  -- `init_inotify`, with none for -1 and else what it puts into the monitor.
  unfoldable pub init_inotify : W → Option Monitor × W
  init_inotify w = with_instance (c.inotify_init w)
