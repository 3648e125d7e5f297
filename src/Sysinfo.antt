-- ===== src/Sysinfo.antt =====
-- stats-recording/src/cyclic-sysinfo/cyclic_sysinfo.c, as it is compiled for Linux.
pub mod Rounds
use linux_system_monitoring.Base.{
  ℕ, ◌&&◌, zero, suc, ◌+◌, ◌-◌, ◌*◌, ◌%◌, ◌^◌, ◌==◌, Bool, true, false, Option, none, some, List,
  [], ◌∷◌, ◌++◌, if◌then◌else◌, length, Bytes, codes, concat,
}
use linux_system_monitoring.CString.{snprintf}
use linux_system_monitoring.Integer.{ℤ, pos, negsuc}

-- The fields of `struct sysinfo` that are used; the uptime is not negative.
pub record Info : Type 0 where
  pub uptime : ℕ
  pub totalram : ℕ
  pub freeram : ℕ
  pub mem_unit : ℕ
  pub procs : ℕ

-- The text that `printf` writes for the 64 bits of a number, and the seconds since 1970, by the number of
-- messages before.
pub record Surroundings : Type 0 where
  pub decimal : ℕ → Bytes
  pub seconds : ℕ → ℕ

-- `message`, in an array of 256 cells; a product of two `unsigned long` wraps.
unfoldable pub message : Surroundings → Info → ℕ → Bytes
message env info seconds = snprintf 256 (
    concat (
      codes "sysinfo uptime="
      ∷ env.decimal info.uptime
      ∷ codes ",total_ram="
      ∷ env.decimal (info.totalram * info.mem_unit % 2 ^ 64)
      ∷ codes ",free_ram="
      ∷ env.decimal (info.freeram * info.mem_unit % 2 ^ 64)
      ∷ codes ",process_count="
      ∷ env.decimal info.procs
      ∷ codes " "
      ∷ env.decimal (seconds * 1000000000)
      ∷ []))

-- `gather_sysinfo`; `none` is a failure of `sysinfo`. The list is that of the calls of `send_to_mq` so far; what
-- it returns is not read, so nothing depends on whether the queue took a message.
unfoldable pub gather_sysinfo : Surroundings → Option Info → List Bytes → List Bytes
gather_sysinfo env none sent = sent
gather_sysinfo env (some info) sent = sent ++ (message env info (env.seconds (length sent)) ∷ [])

-- An event of `epoll_wait`: that of the timer, with what `sysinfo` gives, or another.
pub data Event : Type 0 where
  timer : Option Info → Event
  other : Event

-- `for (int n = 0; n < nfds; ++n)`
unfoldable pub handle_events : Surroundings → List Event → List Bytes → List Bytes
handle_events env [] sent = sent
handle_events env (timer info ∷ es) sent = handle_events env es (gather_sysinfo env info sent)
handle_events env (other ∷ es) sent = handle_events env es sent

-- The loop over what `epoll_wait` returns, none for a failure: whether the program has ended, and the
-- messages taken. The list ends where it is observed no longer.
unfoldable pub rounds :
    Surroundings → Bool → List (Option (List Event)) → List Bytes → Bool × List Bytes
rounds env once [] sent = (false, sent)
rounds env once (none ∷ rs) sent = (true, sent)
rounds env true (some es ∷ rs) sent = (true, handle_events env es sent)
rounds env false (some es ∷ rs) sent = rounds env false rs (handle_events env es sent)

-- What can fail in front of the loop, in the order of the calls.
pub record Setup : Type 0 where
  pub timerfd_create : Bool
  pub timerfd_settime : Bool
  pub epoll_create : Bool
  pub epoll_ctl : Bool
  pub init_mq : Bool

-- Behind the options: `once` says that `c` is 0. The result is the exit status, none while the program
-- runs.
unfoldable pub ended : Bool × List Bytes → Option ℕ × List Bytes
ended (true, sent) = (some 0, sent)
ended (false, sent) = (none, sent)

unfoldable pub start :
    Surroundings → Setup → Bool → List (Option (List Event)) → List Bytes → Option ℕ × List Bytes
start env s once rs sent =
    if s.timerfd_create && s.timerfd_settime && s.epoll_create && s.epoll_ctl && s.init_mq
    then ended (rounds env once rs sent)
    else (some 1, sent)

-- What `getopt` returns, and the number that `sscanf` reads in its argument, if any.
pub record Parsed : Type 0 where
  pub opt : ℕ
  pub number : Option ℤ

abbrev pub scan : Option ℤ → ℤ → ℤ
scan none c = c
scan (some n) c = n

-- `c` behind the options: `c` is 99, and no other option changes it.
unfoldable pub cycle_of : List Parsed → ℤ → ℤ
cycle_of [] c = c
cycle_of (p ∷ ps) c = cycle_of ps (if p.opt == 99 then scan p.number c else c)

abbrev pub is_zero : ℤ → Bool
is_zero (pos n) = n == 0
is_zero (negsuc n) = false

unfoldable pub main :
    Surroundings
    → Setup
    → List Parsed
    → List (Option (List Event))
    → List Bytes
    → Option ℕ × List Bytes
main env s ps rs sent = start env s (is_zero (cycle_of ps (pos 0))) rs sent
