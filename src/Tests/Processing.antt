-- ===== src/Tests/Processing.antt =====
-- The collector of the processes.
use linux_system_monitoring.Base.{
  ℕ, zero, suc, ◌==◌, ◌≡◌, ◌≤◌, refl, Option, none, some, ◌-◌, if◌then◌else◌, map, List, [], ◌∷◌,
  ◌++◌, arith, All, length, Bytes, codes,
}
use linux_system_monitoring.CyclicFileRead.Queue.{State}
use linux_system_monitoring.CyclicFileRead.Fifo.{Holds}
use linux_system_monitoring.CyclicFileRead.Text.{fgets, first_line}
use linux_system_monitoring.CyclicFileRead.Lines.{Laid}
use linux_system_monitoring.CyclicFileRead.Stat.Messages.{stamp}
use linux_system_monitoring.CyclicFileRead.Pid.{Processes, pid_count, pid}
use linux_system_monitoring.CyclicFileRead.Pid.Stat.{StatFile, stat_text}
use linux_system_monitoring.CyclicFileRead.Pid.Io.{Counter, IsCounter, io_text}
use linux_system_monitoring.CyclicFileRead.Pid.Rounds.{Running}
use linux_system_monitoring.CyclicFileRead.Pid.Writing.{StatmFile, statm_text, Content, IsProcess}
use linux_system_monitoring.CyclicFileRead.Pid.Whole.{
  Api, line_of, AreProcesses, AreCounted, pid_queues, pid_too_many,
}
use linux_system_monitoring.Tests.Queueing.{
  env, env-IsGenerous, start, start-Holds, row, ones, row-Laid, row_one_line,
}

words-Laid : (n : ℕ) → Laid (ones n ++ (codes "9" ∷ [])) (row n)
words-Laid zero = Laid.last (omega arith, tt)
words-Laid (suc n) = Laid.word {t = codes "1"} (omega arith, tt) (words-Laid n)

words_small : (n : ℕ) → All (λ t. length t ≤ 61) (ones n ++ (codes "9" ∷ []))
words_small zero = (omega arith, tt)
words_small (suc n) = (omega arith, words_small n)

abbrev stat_file : StatFile
stat_file = record { body = row 51; values = ones 51; final = codes "9"; behind = [] }

abbrev statm_file : StatmFile
statm_file = record { body = row 6; values = ones 6; final = codes "9"; behind = [] }

abbrev counter : Counter
counter = record { body = codes "r: 1"; name = codes "r:"; value = codes "1" }

counter-IsCounter : IsCounter counter
counter-IsCounter = record {
  one_line = (omega arith, (omega arith, (omega arith, (omega arith, tt))));
  short = omega arith;
  laid =
      Laid.word {t = codes "r:"} (omega arith, (omega arith, tt))
        (Laid.last (omega arith, (omega arith, tt)));
}

abbrev counters : List Counter
counters = counter ∷ counter ∷ counter ∷ counter ∷ counter ∷ counter ∷ counter ∷ []

abbrev pub content : ℕ → Content
content q = record { stat = stat_file; statm = statm_file; io = counters }

-- Numbers of one digit, and of three.
abbrev scan : Bytes → Option ℕ
scan [] = none
scan (c ∷ cs) = if length cs == 3 then some 100 else some (c - 48)

-- Process 3 is the only one; `amount` are counted.
abbrev processes_of : Bytes → Processes
processes_of amount = record {
  exists = λ n. n == 3;
  stat_file = λ n. some (stat_text stat_file);
  statm_file = λ n. some (statm_text statm_file);
  io_pipe = λ n. io_text counters;
  decimal = λ n. codes "3";
  scan = scan;
  max_pipe = codes "100" ++ (b'\n' ∷ []);
  amount_pipe = amount ++ (b'\n' ∷ []);
}

abbrev pub processes : Processes
processes = processes_of (codes "1")

pub processes-AreCounted : AreCounted processes 100 1
unfolding pid_count first_line fgets
processes-AreCounted = record { largest = refl; number = refl }

-- One more is counted.
miscounted-AreCounted : AreCounted (processes_of (codes "2")) 100 2
unfolding pid_count first_line fgets
miscounted-AreCounted = record { largest = refl; number = refl }

three-IsProcess : (amount : Bytes) → IsProcess (processes_of amount) 3 (content 3)
three-IsProcess amount = record {
  stat_there = refl;
  statm_there = refl;
  io_there = refl;
  stat = record {
    one_line = row_one_line 51;
    short = omega arith;
    laid = words-Laid 51;
    many = refl;
    small = words_small 51;
    fits = omega arith;
  };
  statm = record {
    one_line = row_one_line 6;
    short = omega arith;
    laid = row-Laid 6;
    many = refl;
    fits = omega arith;
  };
  io = record {
    counters = (
      counter-IsCounter,
      (
        counter-IsCounter,
        (
          counter-IsCounter,
          (counter-IsCounter, (counter-IsCounter, (counter-IsCounter, (counter-IsCounter, tt)))),
        ),
      ),
    );
    many = refl;
    fits = omega arith;
  };
}

pub processes-AreProcesses :
    (amount : Bytes) → AreProcesses (processes_of amount) content 100 4 (3 ∷ [])
processes-AreProcesses amount = record {
  running =
      Running.next {p = 1} {d = 2} (record { there = refl; first = λ n h. ground arith })
        Running.done;
  low = (omega arith, tt);
  files = (three-IsProcess amount, tt);
}

pid_queues_example :
    (s' : State) × (pid 101 env processes (codes "stat") start ≡ some (0, s'))
    × Holds s' ([] ++ stamp env 0 (map (line_of processes content Api.stat) (3 ∷ [])))
    × (s'.sent ≡ [])
pid_queues_example =
    pid_queues env processes content 100 101 env-IsGenerous Api.stat (3 ∷ []) start []
      (processes-AreProcesses (codes "1")) processes-AreCounted (omega arith, omega arith)
      start-Holds

pid_too_many_example : pid 101 env (processes_of (codes "2")) (codes "io") start ≡ none
pid_too_many_example =
    pid_too_many env (processes_of (codes "2")) content 100 101 env-IsGenerous Api.io (3 ∷ []) 0
      start [] (processes-AreProcesses (codes "2")) (λ n. ground arith) miscounted-AreCounted
      (omega arith, omega arith) start-Holds
