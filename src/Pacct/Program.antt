-- ===== src/Pacct/Program.antt =====
-- inotify-pacct from `main` on: process accounting, and the monitor of its file.
pub mod Walking
pub mod Accounting
pub mod Cleanup
use linux_system_monitoring.Base.{
  ℕ, zero, suc, ◌==◌, not, Bool, true, false, Option, none, some, List, [], ◌∷◌, if◌then◌else◌,
  ◌>>=◌, Bytes, codes,
}
use linux_system_monitoring.Posix.{Calls}
use linux_system_monitoring.MessageQueue.{mq}
use linux_system_monitoring.Inotify.Setup
use linux_system_monitoring.Inotify.Setup.{Monitor}
use linux_system_monitoring.Pacct.Values.{Acct, Printing}
use linux_system_monitoring.Pacct.Monitor.{Change, monitor}

abbrev pub mq_path : Bytes
mq_path = codes "/inotify_pacct"

abbrev pub acct_file : Bytes
acct_file = codes "/var/log/pacct/acct"

module _ {W : Type 0} (c : Calls W) where
  -- The return value, 0 or 1, of the functions of pacct.c.
  unfoldable pub status : Bool × W → ℕ × W
  status (done, w) = (if done then 0 else 1, w)

  unfoldable pub enable_process_accounting : W → ℕ × W
  enable_process_accounting w = status (c.acct (some acct_file) w)

  unfoldable pub disable_process_accounting : W → ℕ × W
  disable_process_accounting w = status (c.acct none w)

  unfoldable pub init_inotify : W → Option Monitor × W
  init_inotify w = Setup.init_inotify c mq_path acct_file w

  unfoldable pub open_file : W → Option ℕ × W
  open_file w = c.fopen acct_file w

module _ {W : Type 0} (c : Calls W) (p : Printing) (last : ℕ) (changes : List (Option Change)) where
  -- The file is open; `last` is its end.
  unfoldable pub monitor_file : Monitor → Option ℕ × W → Option (Option ℕ × W)
  monitor_file m (none, w) = some (some 1, w)
  monitor_file m (some file, w) = monitor (mq c mq_path) p (c.close m.fd) last changes w

  unfoldable pub monitor_initialized : Option Monitor × W → Option (Option ℕ × W)
  monitor_initialized (none, w) = some (some 1, w)
  monitor_initialized (some m, w) = monitor_file m (open_file c w)

  -- The code behind the endless loop, with the call of `cleanup`, is never reached.
  unfoldable pub monitor_process_accounting : W → Option (Option ℕ × W)
  monitor_process_accounting w = monitor_initialized (init_inotify c w)

  unfoldable pub disabled : ℕ × W → Option ℕ × W
  disabled (code, w) = (if not (code == 0) then some 3 else some 0, w)

  unfoldable pub monitored : Option ℕ × W → Option ℕ × W
  monitored (none, w) = (none, w)
  monitored (some code, w) =
      let end = disabled (disable_process_accounting c w) in
      if not (code == 0) then (some 2, w) else end

  unfoldable pub enabled : ℕ × W → Option (Option ℕ × W)
  enabled (code, w) =
      let rest = (do r ← monitor_process_accounting w; some (monitored r)) in
      if not (code == 0) then some (some 1, w) else rest

  -- `main`, from what `getopt` returns up to its -1 on: `h` is 104 and `?` is 63, with an exit status of
  -- -1, here 255.
  unfoldable pub main : List ℕ → W → Option (Option ℕ × W)
  main [] w = enabled (enable_process_accounting c w)
  main (o ∷ os) w =
      if o == 104 then some (some 0, w) else if o == 63 then some (some 255, w) else main os w
