-- ===== src/Tests/Collecting.antt =====
-- The collectors of /proc/stat and of the sensors.
use linux_system_monitoring.Base.{
  ℕ, zero, suc, ◌+◌, ◌-◌, ◌*◌, ◌==◌, ◌≡◌, ◌≢◌, ◌≤◌, refl, arith, true, false, Option, none, some,
  List, [], ◌∷◌, ◌++◌, All, Bytes, length, codes,
}
use linux_system_monitoring.Integer.{pos}
use linux_system_monitoring.CyclicFileRead.Queue.{State, Surroundings}
use linux_system_monitoring.CyclicFileRead.Fifo.{Holds}
use linux_system_monitoring.CyclicFileRead.Text.{line_count}
use linux_system_monitoring.CyclicFileRead.Lines.{Laid}
use linux_system_monitoring.CyclicFileRead.Disk.Messages.{IsGenerous}
use linux_system_monitoring.CyclicFileRead.Stat.{Floats, Machine, Cpu, renamed, stat}
use linux_system_monitoring.CyclicFileRead.Stat.Messages.{stamp, node_lines, AreReady}
use linux_system_monitoring.CyclicFileRead.Stat.Cores.{Row, IsRow, Parses, file_of}
use linux_system_monitoring.CyclicFileRead.Stat.Parts.{Rest, IsRest, rest_of, stat_lines, shares}
use linux_system_monitoring.CyclicFileRead.Stat.Whole.{stat_lem, stat_stale}
use linux_system_monitoring.CyclicFileRead.Sys.{Chip, value_text, sys}
use linux_system_monitoring.CyclicFileRead.Sys.Temperatures.{IsChip, chip_lines, sys_lem}

abbrev pub clock : Surroundings
clock = record { grants = λ n. true; timestamp = λ n. codes "7" }

pub clock-IsGenerous : IsGenerous clock
clock-IsGenerous = record { grants = λ n. refl; short = λ n. omega arith }

abbrev pub nothing_queued : State
nothing_queued = record { cell = λ p. none; fresh = 0; live = 0; head = none; sent = [] }

pub nothing_queued-Holds : Holds nothing_queued []
nothing_queued-Holds = record { chain = refl; counted = refl; enough = omega arith }

-- Numbers of one digit.
abbrev digit : Bytes → Option ℕ
digit [] = none
digit (c ∷ cs) = some (c - 48)

abbrev pub digits : Floats ℕ
digits = record {
  parse = digit;
  is_zero = λ n. n == 0;
  nought = 0;
  divide = λ part total. part;
  times_hundred = λ n. n * 1;
  print = λ n. (48 + n) ∷ [];
}

abbrev pub machine : Machine
machine = record { allows = λ n. true; decimal = λ n. codes "0" }

abbrev row : ℕ → Bytes
row zero = codes "8"
row (suc n) = codes "1" ++ (b' ' ∷ row n)

abbrev words : ℕ → List Bytes
words zero = (codes "8" ++ (b'\n' ∷ [])) ∷ []
words (suc n) = codes "1" ∷ words n

row-Laid : (n : ℕ) → Laid (words n) (row n ++ (b'\n' ∷ []))
row-Laid zero = Laid.last (omega arith, (omega arith, tt))
row-Laid (suc n) = Laid.word {t = codes "1"} (omega arith, tt) (row-Laid n)

row_one_line : (n : ℕ) → All (λ c. c ≢ b'\n') (row n)
row_one_line zero = (omega arith, tt)
row_one_line (suc n) = (omega arith, (omega arith, row_one_line n))

abbrev pub core : Row ℕ
core = record {
  body = codes "c" ++ (b' ' ∷ row 9);
  label = codes "c";
  words = words 9;
  values = 1 ∷ 1 ∷ 1 ∷ 1 ∷ 1 ∷ 1 ∷ 1 ∷ 1 ∷ 1 ∷ 8 ∷ [];
}

words_digits : Parses digits (words 9) (1 ∷ 1 ∷ 1 ∷ 1 ∷ 1 ∷ 1 ∷ 1 ∷ 1 ∷ 1 ∷ 8 ∷ [])
words_digits = (refl, (refl, (refl, (refl, (refl, (refl, (refl, (refl, (refl, (refl, tt))))))))))

pub core-IsRow : IsRow digits core
core-IsRow = record {
  one_line = (omega arith, (omega arith, row_one_line 9));
  short = omega arith;
  laid = Laid.word {t = codes "c"} (omega arith, tt) (row-Laid 9);
  ten = refl;
  parses = words_digits;
}

abbrev pub behind : Rest
behind = record {
  interrupts = codes "i";
  switches = codes "x 3";
  label = codes "x";
  ctext = codes "3";
  others = b'\n' ∷ b'\n' ∷ b'\n' ∷ b'\n' ∷ b'\n' ∷ [];
}

pub behind-IsRest : IsRest behind
behind-IsRest = record {
  interrupts_line = (omega arith, tt);
  switches_line = (omega arith, (omega arith, (omega arith, tt)));
  short = omega arith;
  laid =
      Laid.word {t = codes "x"} (omega arith, tt)
        (Laid.last {t = codes "3" ++ (b'\n' ∷ [])} (omega arith, (omega arith, tt)));
  seven = unfold line_count in refl;
}

pub lines_fit : All (λ l. length l ≤ 900) (stat_lines digits machine (codes "3") core (core ∷ []))
lines_fit = (omega arith, (omega arith, tt))

stat_lem_example :
    (s' : State) × (stat digits clock machine
        (some (file_of digits (core ∷ core ∷ []) (rest_of behind)))
        (record { nodes = []; live = 0 })
        nothing_queued
      ≡ some (0, record { nodes = []; live = 0 }, s'))
    × Holds s' ([] ++ stamp clock 0 (stat_lines digits machine (codes "3") core (core ∷ [])))
    × (s'.sent ≡ [])
stat_lem_example =
    stat_lem digits machine clock clock-IsGenerous (λ n. refl) core (core ∷ []) behind 0
      nothing_queued [] (core-IsRow, (core-IsRow, tt)) behind-IsRest lines_fit nothing_queued-Holds

-- A node that an earlier call left.
abbrev left_behind : Cpu ℕ
left_behind = record { name = pos 0; stats = 2 ∷ 2 ∷ 2 ∷ 2 ∷ 2 ∷ 2 ∷ 2 ∷ 2 ∷ 2 ∷ 2 ∷ [] }

left_behind-AreReady :
    AreReady digits machine (codes "3") true (shares digits machine left_behind [])
unfolding renamed
left_behind-AreReady = record { ten = (refl, tt); fits = (omega arith, tt) }

stat_stale_example :
    (s' : State) × (stat digits clock machine
        (some (file_of digits (core ∷ []) (rest_of behind)))
        (record { nodes = left_behind ∷ []; live = 1 })
        nothing_queued
      ≡ some (0, record { nodes = []; live = 0 }, s'))
    × Holds s' (
        []
        ++ stamp clock 0
            (node_lines digits machine (codes "3") true (shares digits machine left_behind [])))
    × (s'.sent ≡ [])
stat_stale_example =
    stat_stale digits machine clock clock-IsGenerous (λ n. refl) core [] behind left_behind [] 1
      nothing_queued [] (core-IsRow, tt) behind-IsRest refl left_behind-AreReady
      nothing_queued-Holds

-- A chip with a fan and two temperatures, the second of which cannot be read.
abbrev pub chip : Chip ℕ
chip = record {
  prefix = codes "k";
  features =
      record { is_temperature = false; name = codes "f"; subfeatures = [] }
      ∷ record {
        is_temperature = true;
        name = codes "t";
        subfeatures = record { is_input = true; flags = 1; value = some 4 } ∷ [];
      }
      ∷ record {
        is_temperature = true;
        name = codes "u";
        subfeatures = record { is_input = true; flags = 1; value = none } ∷ [];
      }
      ∷ [];
}

abbrev pub with_dot : ℕ → Bytes
with_dot n = (48 + n) ∷ b'.' ∷ []

pub chip-IsChip : IsChip with_dot chip
chip-IsChip =
    unfold value_text in
    record { named = (tt, ((omega arith, tt), ((omega arith, tt), tt))); short = omega arith }

sys_lem_example :
    (s' : State) × (sys with_dot clock (some (chip ∷ [])) nothing_queued ≡ some (0, s'))
    × Holds s' (stamp clock 0 (chip_lines with_dot (chip ∷ [])))
    × (s'.sent ≡ [])
sys_lem_example =
    sys_lem with_dot clock clock-IsGenerous (chip ∷ []) nothing_queued (chip-IsChip, tt)
      nothing_queued-Holds
