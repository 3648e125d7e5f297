-- ===== src/CyclicFileRead/Options.antt =====
-- cyclic-file-read.c: the options, the choice of collectors, and the loop on the timer.
pub mod Cycles
pub mod Collecting
pub mod PerProcess
pub mod Selection
use linux_system_monitoring.Base.{
  ℕ, zero, suc, ◌+◌, ◌==◌, ltb, Bool, true, false, ◌&&◌, ◌||◌, not, Option, none, some, List, [],
  ◌∷◌, if◌then◌else◌, ◌>>=◌, Bytes, codes,
}
use linux_system_monitoring.Integer.{ℤ, pos, negsuc}
use linux_system_monitoring.CyclicFileRead.Queue.{State, Surroundings, dequeue}
use linux_system_monitoring.CyclicFileRead.Disk.{disk}
use linux_system_monitoring.CyclicFileRead.Net.{net}
use linux_system_monitoring.CyclicFileRead.Pid.{Processes, pid}

-- A function that puts lines into the queue and returns 0 or 1; `none` is undefined behaviour.
abbrev pub Collector : Type 0
Collector = State → Option (ℕ × State)

-- The functions that `send_metrics` calls.
pub record Collectors : Type 0 where
  pub stat : Collector
  pub net : Collector
  pub disk : Collector
  pub pid : Bytes → Collector
  pub sys : Collector

-- `if (...) { if (f() == 1) { perror(...); ... } }`: a failure is only reported.
unfoldable pub collect : Bool → Collector → State → Option State
collect false f s = some s
collect true f s = do (_, s') ← f s; some s'

-- `collect`, and `dequeue(v)` behind it.
unfoldable pub collect_and_send : Bool → Collector → State → Option State
collect_and_send false f s = some s
collect_and_send true f s = do (_, s') ← f s; dequeue s'

unfoldable pub send_metrics : Collectors → ℕ → State → Option State
send_metrics m arg s = do
  s1 ← collect (arg == 0 || arg == 1 || arg == 8) m.stat s
  s2 ← collect (arg == 0 || arg == 2 || arg == 8) m.net s1
  s3 ← collect (arg == 0 || arg == 3 || arg == 8) m.disk s2
  s4 ← collect (arg == 0 || arg == 4 || arg == 9) (m.pid (codes "stat")) s3
  s5 ← collect (arg == 0 || arg == 5 || arg == 9) (m.pid (codes "statm")) s4
  s6 ← collect (arg == 0 || arg == 6 || arg == 9) (m.pid (codes "io")) s5
  s7 ← dequeue s6
  collect_and_send (arg == 0 || arg == 7 || arg == 8) m.sys s7

-- What `getopt_long` returns, and what `sscanf` makes of `optarg` as a number, if anything.
pub record Parsed : Type 0 where
  pub rv : ℕ
  pub number : Option ℤ

-- The flags of `main`; `v` does not change what is sent.
pub record Flags : Type 0 where
  pub arg : ℕ
  pub c : ℤ
  pub v : Bool
  pub h : Bool

abbrev pub defaults : Flags
defaults = record { arg = 0; c = pos 5; v = false; h = false }

-- `sscanf(optarg, "%d", &c)` leaves `c` alone if it finds no number.
unfoldable pub scan : Option ℤ → Flags → Flags
scan none f = f
scan (some n) f = record f { c = n }

-- The loop over the options, up to the -1; `none` for an option that is not known.
unfoldable pub parse : List Parsed → Flags → Option Flags
parse [] f = some f
parse (p ∷ ps) f =
    if p.rv == 99
    then parse ps (scan p.number f)
    else if p.rv == 118
    then parse ps (record f { v = true })
    else if p.rv == 104
    then parse ps (record f { h = true })
    else if ltb 0 p.rv && ltb p.rv 10
    then parse ps (record f { arg = p.rv })
    else none

-- What `select` reports in a round of the loop.
pub data Wait : Type 0 where
  failed : Wait
  expired : Wait
  nothing : Wait

-- The state of the program behind `init_mq`, and whether the message queue exists.
pub record Program : Type 0 where
  pub lines : State
  pub registered : Bool

-- `remove_mq(CFR_MQ)`
unfoldable pub remove_mq : Program → Program
remove_mq p = record p { registered = false }

-- `while (1)`, over what `select` reports. The list ends where the program is observed no longer.
unfoldable pub cycles : Collectors → ℕ → List Wait → Program → Option (Option ℕ × Program)
cycles m arg [] p = some (none, p)
cycles m arg (failed ∷ ws) p = some (some 0, remove_mq p)
cycles m arg (nothing ∷ ws) p = cycles m arg ws p
cycles m arg (expired ∷ ws) p = do
  s ← send_metrics m arg p.lines
  cycles m arg ws (record p { lines = s })

-- `c == 0`
abbrev pub is_zero : ℤ → Bool
is_zero (pos n) = n == 0
is_zero (negsuc n) = false

-- What becomes of `init_mq`: the queue is made anew, or the call fails and there is a queue behind it or
-- not.
pub data Init : Type 0 where
  made : Init
  refused : Bool → Init

-- Behind `init_mq`; `timer` says whether `timerfd_create` succeeds. The exit status is none while the loop
-- goes on.
unfoldable pub initialized :
    Collectors → Init → Bool → List Wait → Flags → Program → Option (Option ℕ × Program)
initialized m (refused left) timer ws f p = some (some 1, record p { registered = left })
initialized m made timer ws f p = do
  s' ← send_metrics m f.arg p.lines
  (if is_zero f.c
      then some (some 0, remove_mq (record { lines = s'; registered = true }))
      else if not timer
      then some (some 1, remove_mq (record { lines = s'; registered = true }))
      else cycles m f.arg ws (record { lines = s'; registered = true }))

-- What `main` does once the options are known, with the message queue as it was before.
unfoldable pub run :
    Collectors → Init → Bool → List Wait → Flags → Program → Option (Option ℕ × Program)
run m queue timer ws f p = if f.h then some (some 1, p) else initialized m queue timer ws f p

-- `main`
unfoldable pub start :
    Collectors → Init → Bool → List Wait → Option Flags → Program → Option (Option ℕ × Program)
start m queue timer ws none p = some (some 1, p)
start m queue timer ws (some f) p = run m queue timer ws f p

unfoldable pub main :
    Collectors → Init → Bool → List Parsed → List Wait → Program → Option (Option ℕ × Program)
main m queue timer ps ws p = start m queue timer ws (parse ps defaults) p
