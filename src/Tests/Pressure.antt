-- ===== src/Tests/Pressure.antt =====
-- Eleven cgroups.
use linux_system_monitoring.Base.{ℕ, zero, suc, true, Option, none, some, List, [], ◌∷◌, codes}
use linux_system_monitoring.Integer.{pos}
use linux_system_monitoring.Psi.{Reading, Wakeup, content}
use linux_system_monitoring.Psi.Registration.{DirEntry}
use linux_system_monitoring.Psi.Program.{Setup, Parsed}

abbrev reading : Reading
reading = record {
  avg10 = codes "0.00";
  avg60 = codes "0.01";
  avg300 = codes "0.02";
  total = codes "3";
}

abbrev slice : DirEntry
slice = record { name = codes "user.slice"; is_directory = some true; allowed = true }

abbrev copies : ℕ → List DirEntry
copies zero = []
copies (suc n) = slice ∷ copies n

abbrev granted : Setup
granted = record {
  epoll_create1 = true;
  timerfd_create = true;
  timerfd_settime = true;
  epoll_ctl = true;
  init_mq = true;
}

-- `-c 5 -v`
abbrev options : List Parsed
options = record { opt = 99; number = pos 5 } ∷ record { opt = 118; number = pos 0 } ∷ []

abbrev wakeups : List (Option Wakeup)
wakeups =
    some (record { current_time = 9; time_text = codes "9"; events = content reading ∷ [] })
    ∷ none
    ∷ []
