-- ===== src/Tests/Delivering.antt =====
-- A core dump with a blank and a quote in its name, and the line of a device.
use linux_system_monitoring.Base.{
  ℕ, zero, suc, ◌≡◌, ◌≤◌, refl, arith, true, false, some, map, List, [], ◌∷◌, ◌++◌, length, Bytes,
  codes,
}
use linux_system_monitoring.Inotify.Walk.{zeros}
use linux_system_monitoring.Escape.Reading.{read_string}
use linux_system_monitoring.Bridge.Forwarding.{Broker, Wait, running, forward, process_messages}
use linux_system_monitoring.Bridge.Forwarding.Wait.{ready}
use linux_system_monitoring.Bridge.Lines.{with_host}
use linux_system_monitoring.CyclicFileRead.Queue.{State, dequeue}
use linux_system_monitoring.CyclicFileRead.Disk.{disk}
use linux_system_monitoring.CyclicFileRead.Disk.Messages.{file_of, stamped}
use linux_system_monitoring.CyclicFileRead.Disk.Published.{HasRoom, disk_lines, disk-published}
use linux_system_monitoring.Tests.Queueing.{
  env, env-IsGenerous, start, start-Holds, device, device-IsDevice,
}
use linux_system_monitoring.Coredump.{coredump_to_line_protocol}
use linux_system_monitoring.Coredump.Line.{IsName}
use linux_system_monitoring.Coredump.Published.{tags_of, coredump-published}

abbrev broker : Broker
broker = record { accepts = λ n. true }

abbrev name : Bytes
name = codes "core \"a\""

name-IsName : IsName name
name-IsName = record { no_nul = grind arith; short = omega arith }

length-zeros : (n : ℕ) → length (zeros n) ≡ n
length-zeros zero = refl
length-zeros (suc n) = omega (arith, length-zeros n)

room : 1024 ≤ length (zeros 1024)
room = omega (arith, length-zeros 1024)

coredump-published_example :
    (line rest : Bytes) × (coredump_to_line_protocol (zeros 1024) (zeros 1024) name (codes "7")
      ≡ some (some line))
    × (forward broker (codes "pi0") (some line) []
        ≡ (running, [] ++ (((tags_of (codes "pi0") ++ codes " corefile=\"") ++ rest) ∷ [])))
    × (read_string false rest ≡ some (name, b' ' ∷ codes "7"))
coredump-published_example =
    coredump-published broker (codes "pi0") (zeros 1024) (zeros 1024) name (codes "7") [] room room
      name-IsName (omega arith) (omega arith) refl

-- The line of one device comes in one round.
abbrev wakeups : List Wait
wakeups = ready (map (λ m. some m) (stamped env 0 (device ∷ []))) ∷ []

device-HasRoom : HasRoom (codes "pi0") device
device-HasRoom = record { name_plain = refl; fits = omega arith }

disk-published_example :
    (s1 s2 : State) × (disk env (some (file_of (device ∷ []))) start ≡ some (0, s1))
    × (dequeue s1 ≡ some s2)
    × (s2.sent ≡ [] ++ stamped env 0 (device ∷ []))
    × (process_messages broker (codes "pi0") wakeups []
        ≡ (running, [] ++ map (with_host (codes "pi0")) (disk_lines env 0 (device ∷ []))))
disk-published_example =
    disk-published broker (codes "pi0") env (device ∷ []) start wakeups [] (λ n. refl)
      env-IsGenerous (device-IsDevice, tt) (device-HasRoom, tt) start-Holds refl
