-- ===== src/Tests/Publishing.antt =====
-- The reporters of systemd jobs and of the journal.
use linux_system_monitoring.Base.{Option, ◌≡◌, true, none, some, List, [], ◌∷◌, ◌++◌, arith, codes}
use linux_system_monitoring.Dbus
use linux_system_monitoring.Sysinfo
use linux_system_monitoring.Sysinfo.Rounds.{
  runs_once, finished, gathered, lines, status_of, main_lem,
}
use linux_system_monitoring.Dbus.Signals.{
  Signal, job_new, job_removed, job_misfit, of_manager, of_others,
}
use linux_system_monitoring.Integer.{pos}
use linux_system_monitoring.Posix.{Kept}
use linux_system_monitoring.Tests.Machines.{machine as small_system}
use linux_system_monitoring.Dbus.Program as DbusProgram
use linux_system_monitoring.Dbus.Program.{Bus}
use linux_system_monitoring.Journal.Publish.{Entry}

abbrev env : Dbus.Surroundings
env = record { decimal = λ n. codes "42" }

abbrev signals : List Signal
signals =
    job_new 42 (codes "/job/42") (codes "ssh.service") []
    ∷ of_others (codes "org.freedesktop.DBus") none []
    ∷ of_manager (codes "UnitNew") (Dbus.string (codes "ssh.service") ∷ [])
    ∷ job_misfit true []
    ∷ job_removed 42 (codes "/job/42") (codes "done") (Dbus.other ∷ [])
    ∷ []

abbrev bus : Bus Kept
bus = record { bus_get = λ k. (some 9, k); add_match = λ d rule k. (true, k) }

abbrev entry : Entry
entry = record {
  message = some (codes "MESSAGE=say \"hi\"");
  hostname = some (codes "_HOSTNAME=pi0");
  syslog_identifier = none;
  time = some (codes "Mar-01-10:00:00");
}

abbrev info : Sysinfo.Info
info = record { uptime = 100; totalram = 4; freeram = 2; mem_unit = 1024; procs = 9 }

abbrev machine : Sysinfo.Surroundings
machine = record { decimal = λ n. codes "42"; seconds = λ n. 5 }

abbrev returns : List (Option (List Sysinfo.Event))
returns =
    some (Sysinfo.timer (some info) ∷ Sysinfo.other ∷ [])
    ∷ some (Sysinfo.timer none ∷ Sysinfo.timer (some info) ∷ [])
    ∷ none
    ∷ []

-- `-v -c 5`, and every call succeeds.
abbrev options : List Sysinfo.Parsed
options = record { opt = 118; number = none } ∷ record { opt = 99; number = some (pos 5) } ∷ []

abbrev granted : Sysinfo.Setup
granted = record {
  timerfd_create = true;
  timerfd_settime = true;
  epoll_create = true;
  epoll_ctl = true;
  init_mq = true;
}

main_lem_example : Sysinfo.main machine granted options returns [] ≡ (
  status_of (finished (runs_once options) returns),
  [] ++ lines machine 0 (gathered (runs_once options) returns),
)
main_lem_example = main_lem machine (λ n. omega arith) granted options returns []
