-- ===== src/CyclicFileRead/Pid/Whole.antt =====
-- What a call of `pid` puts into the queue.
use linux_system_monitoring.Base.{
  ◌^◌, lt→ltb, ℕ, suc, ◌+◌, ◌≡◌, ◌≤◌, refl, false, arith, some, none, map, List, [], ◌∷◌, ◌++◌, All,
  length, Bytes, codes, le→ltb_false,
}
use linux_system_monitoring.CString.{str_eq}
use linux_system_monitoring.CyclicFileRead.Queue.{State, Surroundings}
use linux_system_monitoring.CyclicFileRead.Fifo.{Holds}
use linux_system_monitoring.CyclicFileRead.Disk.Messages.{IsGenerous}
use linux_system_monitoring.CyclicFileRead.Stat.Messages.{stamp}
use linux_system_monitoring.CyclicFileRead.Pid.{
  Processes, write_pid_message, each_process, pid_count, pid,
}
use linux_system_monitoring.CyclicFileRead.Pid.Search.{Suffices, next_process_lem}
use linux_system_monitoring.CyclicFileRead.Pid.Stat.{stat_file_line}
use linux_system_monitoring.CyclicFileRead.Pid.Io.{io_line}
use linux_system_monitoring.CyclicFileRead.Pid.Rounds.{
  Running, Writes, each_process_queues, each_process_too_many,
}
use linux_system_monitoring.CyclicFileRead.Pid.Writing.{
  Content, IsProcess, statm_file_line, stat-Writes, statm-Writes, io-Writes,
}

-- The files of a process that `write_pid_message` knows.
pub data Api : Type 0 where
  stat : Api
  statm : Api
  io : Api

abbrev pub name_of : Api → Bytes
name_of Api.stat = codes "stat"
name_of Api.statm = codes "statm"
name_of Api.io = codes "io"

-- The line of a process.
abbrev pub line_of : Processes → (ℕ → Content) → Api → ℕ → Bytes
line_of ps contents Api.stat q = stat_file_line (contents q).stat
line_of ps contents Api.statm q = statm_file_line (ps.decimal q) (contents q).statm
line_of ps contents Api.io q = io_line (ps.decimal q) (contents q).io

-- The processes with numbers below `end`, all of them up to `max`, and their files.
pub record AreProcesses (ps : Processes) (contents : ℕ → Content) (max end : ℕ) (qs : List ℕ)
    : Type 0 where
  pub running : Running ps 1 end qs
  pub low : All (λ q. q ≤ max) qs
  pub files : All (λ q. IsProcess ps q (contents q)) qs

-- The counts that are read: the largest number of a process, and how many there are.
pub record AreCounted (ps : Processes) (max amount : ℕ) : Type 0 where
  pub largest : pid_count ps.scan ps.max_pipe ≡ some max
  pub number : pid_count ps.scan ps.amount_pipe ≡ some amount

module _ (env : Surroundings) (ps : Processes) (contents : ℕ → Content) (max fuel : ℕ)
    (g : IsGenerous env) where
  line_of-Writes :
      (a : Api) (q : ℕ)
      → IsProcess ps q (contents q)
      → Writes env ps (name_of a) (line_of ps contents a q) q
  line_of-Writes Api.stat q ok = stat-Writes env ps q (contents q) g ok
  line_of-Writes Api.statm q ok = statm-Writes env ps q (contents q) g ok
  line_of-Writes Api.io q ok = io-Writes env ps q (contents q) g ok

  all-Writes :
      (a : Api) (qs : List ℕ)
      → All (λ q. IsProcess ps q (contents q)) qs
      → All (λ q. Writes env ps (name_of a) (line_of ps contents a q) q) qs
  all-Writes a [] ok = tt
  all-Writes a (q ∷ qs) ok = (line_of-Writes a q ok.0, all-Writes a qs ok.1)

  -- When memory is there, timestamps fit, qs are the first processes from number 1 on, none
  -- above the largest number, the first line of each stat file is 52 words of at most 61
  -- characters with blanks between them (so that no command name has a blank), the statm and io
  -- files have 7 words and 7 labelled counters, and the lines fit their arrays and with a
  -- timestamp a node, the largest number and the count are read, the number behind the largest
  -- is an int, qs are as many as are counted, and there is more fuel than the largest number,
  -- `pid` returns 0, puts behind the queue, in order, one line for each process made of the
  -- file that is asked for, each with the timestamp of its node, and sends nothing.
  pub pid_queues :
      (a : Api) {end : ℕ} (qs : List ℕ) (s : State) (ms : List Bytes)
      → AreProcesses ps contents max end qs
      → AreCounted ps max (length qs)
      → Suffices max fuel
      → Holds s ms
      → (s' : State) × (pid fuel env ps (name_of a) s ≡ some (0, s'))
        × Holds s' (ms ++ stamp env s.fresh (map (line_of ps contents a) qs))
        × (s'.sent ≡ s.sent)
  unfolding pid
  pid_queues a qs s ms ok counted f h =
      rw (counted.largest, counted.number)
        (each_process_queues env ps (name_of a) (line_of ps contents a) max fuel f qs s ms
          ok.running ok.low (all-Writes a qs ok.files) h)

  -- When memory is there, timestamps fit, qs are all the processes, none above the largest
  -- number, the first line of each stat file is 52 words of at most 61 characters with blanks
  -- between them (so that no command name has a blank), the statm and io files have 7 words and
  -- 7 labelled counters, and the lines fit their arrays and with a timestamp a node, and the
  -- number behind the largest is an int, but more processes are counted than there are, `pid`
  -- has no defined result with any fuel beyond the largest number: the search goes on behind
  -- the last process until its int overflows.
  pub pid_too_many :
      (a : Api) {end : ℕ} (qs : List ℕ) (more : ℕ) (s : State) (ms : List Bytes)
      → AreProcesses ps contents max end qs
      → ((n : ℕ) → ps.exists (end + n) ≡ false)
      → AreCounted ps max (length qs + suc more)
      → Suffices max fuel
      → Holds s ms
      → pid fuel env ps (name_of a) s ≡ none
  unfolding pid
  pid_too_many a qs more s ms ok nobody counted f h =
      rw (counted.largest, counted.number)
        (each_process_too_many env ps (name_of a) (line_of ps contents a) max fuel f qs more s ms
          ok.running nobody ok.low (all-Writes a qs ok.files) h)

-- A file that `write_pid_message` does not know.
pub record IsOther (file : Bytes) : Type 0 where
  pub no_stat : str_eq file (codes "stat") ≡ false
  pub no_statm : str_eq file (codes "statm") ≡ false
  pub no_io : str_eq file (codes "io") ≡ false

module _ (env : Surroundings) (ps : Processes) (file : Bytes) (max fuel : ℕ) (o : IsOther file)
    (f : Suffices max fuel) where
  -- Such a file gives no line.
  each_process-other :
      {p end : ℕ} {qs : List ℕ}
      → Running ps p end qs
      → (s : State) → All (λ q. q ≤ max) qs
      → each_process fuel env ps file max (length qs) p s ≡ some (0, s)
  unfolding each_process write_pid_message
  each_process-other Running.done s low = refl
  each_process-other (Running.next {p = p} {d = d} k rest) s low =
      rw
        (
          next_process_lem ps d p fuel k (omega (arith, low.0, f.0)) (omega (arith, low.0, f.1)),
          le→ltb_false _ _ low.0,
          o.no_stat,
          o.no_statm,
          o.no_io,
          lt→ltb (p + d + 1) (2 ^ 31) (omega (arith, low.0, f.1)),
        )
        (each_process-other rest s low.1)

  pub pid-other :
      {end : ℕ} (qs : List ℕ) (s : State)
      → Running ps 1 end qs
      → All (λ q. q ≤ max) qs
      → AreCounted ps max (length qs)
      → pid fuel env ps file s ≡ some (0, s)
  unfolding pid
  pid-other qs s r low counted = rw (counted.largest, counted.number) (each_process-other r s low)
