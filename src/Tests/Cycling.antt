-- ===== src/Tests/Cycling.antt =====
-- Cycles and runs of cyclic-file-read.
use linux_system_monitoring.Base.{
  ◌≡◌, refl, true, none, some, List, [], ◌∷◌, ◌++◌, arith, map, Bytes, codes,
}
use linux_system_monitoring.Integer.{pos}
use linux_system_monitoring.CyclicFileRead.Queue.{State}
use linux_system_monitoring.CyclicFileRead.Fifo.{Holds}
use linux_system_monitoring.CyclicFileRead.Disk.{disk}
use linux_system_monitoring.CyclicFileRead.Net.{net}
use linux_system_monitoring.CyclicFileRead.Net.Queueing.{net_lines, file_of as net_file_of}
use linux_system_monitoring.CyclicFileRead.Pid.{pid}
use linux_system_monitoring.CyclicFileRead.Options.PerProcess.{pid_lines, pid-Queues}
use linux_system_monitoring.CyclicFileRead.Options.{Program, Collectors, Parsed, Wait, send_metrics}
use linux_system_monitoring.CyclicFileRead.Options.Collecting.{
  stat_alone, stat-Queues, sys-Queues, IsAt, net-Queues, disk-Queues, stamped_at,
}
use linux_system_monitoring.CyclicFileRead.Options.Selection.{
  Queues, Cycle, Gives, files_of, temperatures_of, send_metrics_lem,
}
use linux_system_monitoring.CyclicFileRead.Disk.Messages.{file_of}
use linux_system_monitoring.CyclicFileRead.Stat.Cores.{file_of as stat_file_of}
use linux_system_monitoring.CyclicFileRead.Stat.Parts.{rest_of, stat_lines}
use linux_system_monitoring.CyclicFileRead.Sys.{sys}
use linux_system_monitoring.CyclicFileRead.Sys.Temperatures.{chip_lines}
use linux_system_monitoring.Tests.Queueing.{
  env, env-IsGenerous, start, start-Holds, device, device-IsDevice, heading, heading-IsHeading,
  interface, interface-IsInterface,
}
use linux_system_monitoring.Tests.Processing.{
  content, processes, processes-AreProcesses, processes-AreCounted,
}
use linux_system_monitoring.Tests.Collecting.{
  digits, machine, core, core-IsRow, behind, behind-IsRest, lines_fit, chip, with_dot, chip-IsChip,
}

env-IsAt : IsAt env (codes "7")
env-IsAt = record { generous = env-IsGenerous; still = λ n. refl }

abbrev stat_text : Bytes
stat_text = stat_file_of digits (core ∷ core ∷ []) (rest_of behind)

stat_text-Queues :
    Queues
      (stat_alone digits machine env stat_text)
      (map (λ l. l ++ codes "7") (stat_lines digits machine (codes "3") core (core ∷ [])))
stat_text-Queues =
    stat-Queues digits machine env (codes "7") core (core ∷ []) behind env-IsAt (λ n. refl)
      (core-IsRow, (core-IsRow, tt)) behind-IsRest lines_fit

-- Collectors that read /proc/stat, one interface, one device, one process and one chip.
abbrev collectors : Collectors
collectors = record {
  stat = stat_alone digits machine env stat_text;
  net = net env (some (net_file_of heading (interface ∷ [])));
  disk = disk env (some (file_of (device ∷ [])));
  pid = λ file. pid 101 env processes file;
  sys = sys with_dot env (some (chip ∷ []));
}

-- What they put into the queue.
abbrev cycle : Cycle
cycle = record {
  stat = map (λ l. l ++ codes "7") (stat_lines digits machine (codes "3") core (core ∷ []));
  net = map (λ l. l ++ codes "7") (net_lines (interface ∷ []));
  disk = stamped_at (codes "7") (device ∷ []);
  pid = pid_lines env processes content 100 101 (codes "7") (3 ∷ []);
  sys = map (λ l. l ++ codes "7") (chip_lines with_dot (chip ∷ []));
}

collectors-Gives : Gives collectors cycle
collectors-Gives = record {
  stat = stat_text-Queues;
  net =
      net-Queues env (codes "7") heading (interface ∷ []) env-IsAt heading-IsHeading
        (interface-IsInterface, tt);
  disk = disk-Queues env (device ∷ []) (codes "7") env-IsAt (device-IsDevice, tt);
  pid =
      pid-Queues env processes content 100 101 (codes "7") (3 ∷ []) env-IsAt
        (omega arith, omega arith) (processes-AreProcesses (codes "1")) processes-AreCounted;
  sys = sys-Queues with_dot env (codes "7") (chip ∷ []) env-IsAt (chip-IsChip, tt);
}

send_metrics_lem_example :
    (s' : State) × (send_metrics collectors 8 start ≡ some s')
    × Holds s' []
    × (s'.sent ≡ ([] ++ files_of cycle 8) ++ temperatures_of cycle 8)
send_metrics_lem_example = send_metrics_lem collectors cycle 8 start collectors-Gives start-Holds

-- `--pid -c 3`
abbrev options : List Parsed
options = record { rv = 9; number = none } ∷ record { rv = 99; number = some (pos 3) } ∷ []

abbrev waits : List Wait
waits = Wait.expired ∷ Wait.nothing ∷ Wait.expired ∷ Wait.failed ∷ []

abbrev program : Program
program = record { lines = start; registered = true }
