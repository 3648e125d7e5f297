-- ===== src/Tests/Reporting.antt =====
-- The monitors of pressure stalls, core dumps and accounting records.
use linux_system_monitoring.Base.{
  ◌^◌, ◌<◌, ◌/◌, ◌++◌, Bytes, false, if◌then◌else◌, ℕ, zero, suc, ◌≤◌, ◌≡◌, ltb, refl, true, Option,
  none, some, List, [], ◌∷◌, arith, length, map, codes,
}
use linux_system_monitoring.Inotify.Walk.{Raw, encode_all, zeros}
use linux_system_monitoring.Psi
use linux_system_monitoring.Psi.Batches.{Adds, lines_of_run, run-Adds}
use linux_system_monitoring.MessageQueue.{Sender, Queue, queue_of}
use linux_system_monitoring.Integer.{pos, to_int}
use linux_system_monitoring.FileUtils.{read_file_into_buffer, read_file_into_buffer_lem}
use linux_system_monitoring.Memory.{filled}
use linux_system_monitoring.Coredump
use linux_system_monitoring.Coredump.Line.{IsName}
use linux_system_monitoring.Coredump.Reports.{IsReported, reports, send_coredump_lem}
use linux_system_monitoring.Pacct.Values.{Acct, Printing}
use linux_system_monitoring.Pacct.Monitor
use linux_system_monitoring.Pacct.Compressed.{Reads, comp_to_double-Reads}
use linux_system_monitoring.Pacct.Resend.{IsModify, IsChange, resent, monitor-resent}

abbrev reading : Psi.Reading
reading = record {
  avg10 = codes "0.10";
  avg60 = codes "0.20";
  avg300 = codes "0.30";
  total = codes "9";
}

abbrev wakeups : List (Option Psi.Wakeup)
wakeups =
    some (record {
      current_time = 5;
      time_text = codes "5";
      events = Psi.content reading ∷ Psi.timer ∷ Psi.content reading ∷ [];
    })
    ∷ none
    ∷ []

run-Adds_example :
    Adds Psi.initial (lines_of_run (pos 2) 0 wakeups) (Psi.run (pos 2) wakeups Psi.initial)
run-Adds_example =
    run-Adds (pos 2) wakeups Psi.initial (record { room = omega arith; whole = refl })

length-zeros : (n : ℕ) → length (zeros n) ≡ n
length-zeros zero = refl
length-zeros (suc n) = omega (arith, length-zeros n)

-- An array of 1024 cells.
arrays_room : 1024 ≤ length (zeros 1024)
arrays_room = omega (arith, length-zeros 1024)

abbrev dump : Raw
dump = record { wd = 1; mask = 256; cookie = 0; name = codes "core.\"x"; padding = 9 }

dump-IsName : IsName (codes "core.\"x")
dump-IsName = record { no_nul = grind arith; short = omega arith }

dump-IsReported : IsReported dump
dump-IsReported = record {
  raw = record { mask_small = omega arith; name_small = omega arith; no_nul = grind arith };
  name = dump-IsName;
  ended = λ h. omega arith;
}

abbrev queue : Sender (List Bytes)
queue = queue_of (record { takes = λ n. ltb n 1; timestamp = λ n. codes "7" })

send_coredump_lem_example :
    Coredump.send_coredump queue (zeros 1024) (encode_all (dump ∷ dump ∷ [])) []
    ≡ some (reports queue (zeros 1024) arrays_room (λ n. omega arith) (dump ∷ dump ∷ []) [])
send_coredump_lem_example =
    send_coredump_lem queue (zeros 1024) arrays_room (λ n. omega arith) (dump ∷ dump ∷ []) []
      (dump-IsReported, (dump-IsReported, tt))

comp_to_double-Reads_example : Reads (λ v. v / 100) 7 1024
comp_to_double-Reads_example =
    comp_to_double-Reads (λ v. v / 100) 7 1024 (omega arith) (omega arith)

abbrev printing : Printing
printing = record {
  decimal = λ n. codes "1";
  two_places = λ n. codes "2.00";
  local_time = λ n. codes "t";
}

abbrev acct : Acct
acct = record {
  flag = 1;
  exitcode = 0;
  pid = 7;
  ppid = 1;
  btime = 3;
  utime = 1;
  stime = 2;
  etime = 3;
  mem = 4;
  comm = codes "sh";
}

abbrev mq : Queue
mq = record { takes = λ n. true; timestamp = λ n. codes "7" }

abbrev modified : Raw
modified = record { wd = 1; mask = 2; cookie = 0; name = []; padding = 0 }

modified-IsModify : IsModify modified
modified-IsModify = record {
  raw = record { mask_small = omega arith; name_small = omega arith; no_nul = tt };
  modifies = refl;
}

-- The file of these records, where `fseek` does not fail.
abbrev kept : List Acct → Monitor.File
kept records = record { records = records; unmoved = λ i. (0, []) }

-- A record is added, and another.
abbrev changes : List Monitor.Change
changes =
    record { buffer = encode_all (modified ∷ []); file = kept (acct ∷ []) }
    ∷ record { buffer = encode_all (modified ∷ []); file = kept (acct ∷ acct ∷ []) }
    ∷ []

rewritten-IsChange :
    (records : List Acct)
    → length records < 2 ^ 25
    → IsChange mq printing
        (λ n. refl)
        0
        (record { buffer = encode_all (modified ∷ []); file = kept records })
rewritten-IsChange records small = record {
  event = modified;
  more = [];
  modify = (modified-IsModify, tt);
  reported = refl;
  grown = omega arith;
  held = small;
}

monitor-resent_example :
    Monitor.monitor (queue_of mq) printing (λ sent. sent) 0 (map some changes) []
    ≡ some (none, resent mq printing (λ n. refl) 0 changes [])
monitor-resent_example =
    monitor-resent mq printing (λ n. refl) (λ sent. sent) changes 0 []
      (
        rewritten-IsChange (acct ∷ []) (omega arith),
        (rewritten-IsChange (acct ∷ acct ∷ []) (omega arith), tt),
      )

read_file_into_buffer_lem_example :
    read_file_into_buffer (some (record { contents = codes "some"; failed = false })) (zeros 4) 4
    ≡ (if ltb 4 4 then some (to_int 4, filled (zeros 4) (codes "some" ++ (0 ∷ []))) else none)
read_file_into_buffer_lem_example = read_file_into_buffer_lem (codes "some") (zeros 4)
