-- ===== src/Tests/Queueing.antt =====
-- The queue of cyclic-file-read, its collectors, and its runs.
use linux_system_monitoring.Base.{
  ℕ, zero, suc, ◌≡◌, ◌≢◌, refl, true, none, some, List, [], ◌∷◌, ◌++◌, arith, All, Bytes, codes,
}
use linux_system_monitoring.CyclicFileRead.Queue.{State, Surroundings, update, enqueue, dequeue}
use linux_system_monitoring.CyclicFileRead.Fifo.{Holds, enqueue_refines, dequeue_refines}
use linux_system_monitoring.CyclicFileRead.Lines.{Laid}
use linux_system_monitoring.CyclicFileRead.Net.{net}
use linux_system_monitoring.CyclicFileRead.Net.Queueing.{
  Heading, IsHeading, Interface, IsInterface, net_lines, net-dequeue, file_of as net_file_of,
}
use linux_system_monitoring.CyclicFileRead.Stat.Messages.{stamp}
use linux_system_monitoring.CyclicFileRead.Disk.Messages.{Device, IsDevice, IsGenerous}

abbrev pub env : Surroundings
env = record { grants = λ n. true; timestamp = λ n. codes "7" }

pub env-IsGenerous : IsGenerous env
env-IsGenerous = record { grants = λ n. refl; short = λ n. omega arith }

abbrev pub start : State
start = record { cell = λ p. none; fresh = 0; live = 0; head = none; sent = [] }

pub start-Holds : Holds start []
start-Holds = record { chain = refl; counted = refl; enough = omega arith }

enqueue_refines_example :
    (s' : State) × (enqueue env (codes "m ") start ≡ some (0, s'))
    × Holds s' ((codes "m " ++ codes "7") ∷ [])
    × (s'.sent ≡ [])
    × (s'.fresh ≡ 1)
enqueue_refines_example = enqueue_refines env (codes "m ") start [] start-Holds refl (omega arith)

-- One line in the queue.
abbrev one_line : State
one_line = record start {
  cell = update start.cell 0 (some (record { message = codes "m 7"; next = none }));
  fresh = 1;
  live = 1;
  head = some 0;
}

one_line-Holds : Holds one_line (codes "m 7" ∷ [])
one_line-Holds = record {
  chain = (0, none, refl, omega arith, omega arith, refl, refl);
  counted = refl;
  enough = omega arith;
}

dequeue_refines_example :
    (s' : State) × (dequeue one_line ≡ some s')
    × Holds s' []
    × (s'.sent ≡ one_line.sent ++ (codes "m 7" ∷ []))
dequeue_refines_example = dequeue_refines one_line (codes "m 7" ∷ []) one_line-Holds

-- The line of a device: `n` ones and a nine.
abbrev pub row : ℕ → Bytes
row zero = codes "9"
row (suc n) = codes "1" ++ (b' ' ∷ row n)

abbrev pub ones : ℕ → List Bytes
ones zero = []
ones (suc n) = codes "1" ∷ ones n

pub row-Laid : (n : ℕ) → Laid (ones n ++ ((codes "9" ++ (b'\n' ∷ [])) ∷ [])) (row n ++ (b'\n' ∷ []))
row-Laid zero = Laid.last (omega arith, (omega arith, tt))
row-Laid (suc n) = Laid.word {t = codes "1"} (omega arith, tt) (row-Laid n)

pub row_one_line : (n : ℕ) → All (λ c. c ≢ b'\n') (row n)
row_one_line zero = (omega arith, tt)
row_one_line (suc n) = (omega arith, (omega arith, row_one_line n))

abbrev pub device : Device
device = record { body = row 19; values = ones 19; final = codes "9" }

pub device-IsDevice : IsDevice device
device-IsDevice = record {
  one_line = row_one_line 19;
  short = omega arith;
  twenty = refl;
  laid = row-Laid 19;
  fits = omega arith;
}

abbrev pub heading : Heading
heading = record { first = codes "Inter-"; second = codes " face" }

pub heading-IsHeading : IsHeading heading
heading-IsHeading = record {
  first_line = grind arith;
  first_short = omega arith;
  second_line = grind arith;
  second_short = omega arith;
}

abbrev pub interface : Interface
interface = record {
  body = codes "eth0:" ++ (b' ' ∷ row 15);
  name = codes "eth0";
  received = ones 8;
  transmitted = ones 7;
  final = codes "9";
}

pub interface-IsInterface : IsInterface interface
interface-IsInterface = record {
  one_line = (
    omega arith,
    (omega arith, (omega arith, (omega arith, (omega arith, (omega arith, row_one_line 15))))),
  );
  short = omega arith;
  laid = Laid.word {t = codes "eth0:"} (grind arith) (row-Laid 15);
  eight = refl;
  seven = refl;
  named = omega arith;
  fits = omega arith;
  fits_back = omega arith;
}

net-dequeue_example :
    (s1 s2 : State) × (net env (some (net_file_of heading (interface ∷ []))) start ≡ some (0, s1))
    × (dequeue s1 ≡ some s2)
    × Holds s2 []
    × (s2.sent ≡ [] ++ ([] ++ stamp env 0 (net_lines (interface ∷ []))))
net-dequeue_example =
    net-dequeue env heading (interface ∷ []) start [] env-IsGenerous heading-IsHeading
      (interface-IsInterface, tt) start-Holds
