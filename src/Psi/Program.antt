-- ===== src/Psi/Program.antt =====
-- epoll-psi from `main` on.
use linux_system_monitoring.Base.{
  ℕ, ◌==◌, ltb, ◌≡◌, not, ◌&&◌, ◌||◌, Bool, true, false, Option, none, some, List, [], ◌∷◌, ◌++◌,
  if◌then◌else◌, ◌>>=◌, take, Bytes, codes,
}
use linux_system_monitoring.Integer.{ℤ, pos, negsuc}
use linux_system_monitoring.Psi.{State, Wakeup, run, initial}
use linux_system_monitoring.Psi.Registration.{DirEntry, Registered, exited, paths, register_all}
use linux_system_monitoring.Psi.Registration.Cells.{subdirectories, files_in, files_of}

-- `DEFAULT_DUTY_CYCLE`
abbrev pub default_duty_cycle : ℤ
default_duty_cycle = pos 0

-- What `getopt` returns, and what `atoi` makes of its argument.
pub record Parsed : Type 0 where
  pub opt : ℕ
  pub number : ℤ

-- `c` is 99 and `v` is 118; another option ends the program.
unfoldable pub parse : List Parsed → ℤ → Option ℤ
parse [] duty_cycle = some duty_cycle
parse (p ∷ ps) duty_cycle =
    let changed = parse ps p.number in
    let same = parse ps duty_cycle in
    if p.opt == 99 then changed else if p.opt == 118 then same else none

-- Which of the calls in front of the loop succeed.
pub record Setup : Type 0 where
  pub epoll_create1 : Bool
  pub timerfd_create : Bool
  pub timerfd_settime : Bool
  pub epoll_ctl : Bool
  pub init_mq : Bool

abbrev pub is_positive : ℤ → Bool
is_positive (pos n) = ltb 0 n
is_positive (negsuc n) = false

-- `create_timer_fd`, which exits if it fails.
unfoldable pub create_timer_fd : Setup → Bool
create_timer_fd o = o.timerfd_create && o.timerfd_settime

-- Whether the timer is there, if it is wanted.
unfoldable pub timer_ready : Setup → ℤ → Bool
timer_ready o duty_cycle = not (is_positive duty_cycle) || (create_timer_fd o && o.epoll_ctl)

-- A run: the exit status, none while it goes on, the files that are registered, and the state.
pub record Result : Type 0 where
  pub status : Option ℕ
  pub registered : List Bytes
  pub state : State

abbrev pub exit_with : ℕ → List Bytes → Result
exit_with n registered = record { status = some n; registered = registered; state = initial }

-- The program ends in the loop only if `epoll_wait` fails.
abbrev pub status_of : List (Option Wakeup) → Option ℕ
status_of [] = none
status_of (none ∷ ws) = some 1
status_of (some w ∷ ws) = status_of ws

-- From the registration on.
unfoldable pub enter : Setup → ℤ → List (Option Wakeup) → Registered → Result
enter o duty_cycle ws exited = exit_with 1 []
enter o duty_cycle ws (paths registered) =
    if o.init_mq
    then record {
      status = status_of ws;
      registered = registered;
      state = run duty_cycle ws initial;
    }
    else exit_with 1 registered

-- `entries` is what /sys/fs/cgroup holds, and `opens` says whether a file can be opened and added.
unfoldable pub with_duty_cycle :
    Setup → (Bytes → Bool) → List DirEntry → List (Option Wakeup) → Option ℤ → Option Result
with_duty_cycle o opens entries ws none = some (exit_with 1 [])
with_duty_cycle o opens entries ws (some duty_cycle) =
    if o.epoll_create1 && timer_ready o duty_cycle
    then (do r ← register_all opens entries; some (enter o duty_cycle ws r))
    else some (exit_with 1 [])

unfoldable pub main :
    Setup → (Bytes → Bool) → List DirEntry → List (Option Wakeup) → List Parsed → Option Result
main o opens entries ws ps = with_duty_cycle o opens entries ws (parse ps default_duty_cycle)

-- Every call succeeds.
pub record IsReady (o : Setup) : Type 0 where
  pub epoll_create1 : o.epoll_create1 ≡ true
  pub timerfd_create : o.timerfd_create ≡ true
  pub timerfd_settime : o.timerfd_settime ≡ true
  pub epoll_ctl : o.epoll_ctl ≡ true
  pub init_mq : o.init_mq ≡ true

-- The files that are registered.
abbrev pub watched_files : List DirEntry → List Bytes
watched_files es = files_in (codes "/proc/pressure/") [] ++ files_of (take 9 (subdirectories es))
