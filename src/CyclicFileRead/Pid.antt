-- ===== src/CyclicFileRead/Pid.antt =====
-- pid.c: the files of each process under /proc.
pub mod Io
pub mod Rounds
pub mod Search
pub mod Stat
pub mod Statm
pub mod Whole
pub mod Writing
use linux_system_monitoring.Base.{
  ◌^◌, ℕ, zero, suc, ◌+◌, ◌-◌, ◌==◌, Option, none, some, [], ◌++◌, if◌then◌else◌, not, take, drop,
  ◌>>=◌, Bytes, List, ◌∷◌, ltb, leb, Bool, true, false, ◌&&◌, codes,
}
use linux_system_monitoring.CString.{str_eq, snprintf}
use linux_system_monitoring.CyclicFileRead.Queue.{State, Surroundings, enqueue, max_line}
use linux_system_monitoring.CyclicFileRead.Forms.{pstat_form, pstatm_form, io_form}
use linux_system_monitoring.CyclicFileRead.Text.{
  first_line, fgets, ends_in_newline, chop, tokens, next_token, strcat, append_fields, append_last,
  label_at, line_count,
}

-- The arrays of `write_pid_stat` have 2048 cells.
abbrev long_line : ℕ
long_line = 2048

abbrev max_buffer : ℕ
max_buffer = 64

-- The value goes between quotes, cut to an array of `MAX_BUFFER` cells.
unfoldable pub escape_and_append : Bytes → Bytes → Bytes → Option Bytes
escape_and_append message field value = do
  labelled ← strcat long_line message field
  strcat long_line labelled (snprintf max_buffer (b'"' ∷ (value ++ (b'"' ∷ []))))

-- The fields of /proc/<pid>/stat from number `i` on; those from 1 to 5 are quoted.
unfoldable pub stat_fields : ℕ → List Bytes → Bytes → List Bytes → Option (Bytes × List Bytes)
stat_fields i [] message ts = some (message, ts)
stat_fields i (label ∷ labels) message ts = do
  (t, rest) ← next_token ts
  longer ←
      (if leb 1 i && leb i 5
        then escape_and_append message label t
        else (do labelled ← strcat long_line message label; strcat long_line labelled t))
  stat_fields (i + 1) labels longer rest

unfoldable pub pid_stat_message : Bytes → Option Bytes
pid_stat_message line = do
  (message, ts) ← stat_fields 0 (take 51 pstat_form) [] (tokens line)
  labelled ← strcat long_line message (label_at pstat_form 51)
  (t, _) ← next_token ts
  longer ← strcat long_line labelled t
  strcat long_line longer (label_at pstat_form 52)

-- The return value of `enqueue`, as the callers pass it on.
abbrev status : ℕ × State → ℕ × State
status (failed, s) = (if failed == 1 then 1 else 0, s)

-- `none` for the file is a failed `fopen`.
unfoldable pub write_pid_stat : Surroundings → Option Bytes → State → Option (ℕ × State)
write_pid_stat env none s = some (1, s)
write_pid_stat env (some file) s = do
  line ← first_line long_line file
  (if not (ends_in_newline line)
      then some (1, s)
      else (do message ← pid_stat_message (chop line); r ← enqueue env message s; some (status r)))

unfoldable pub pid_statm_message : Bytes → Bytes → Option Bytes
pid_statm_message id line = do
  begun ← strcat max_line [] (label_at pstatm_form 0)
  named ← strcat max_line begun id
  (message, ts) ← append_fields max_line (take 6 (drop 1 pstatm_form)) named (tokens line)
  append_last max_line (label_at pstatm_form 7) (label_at pstatm_form 8) message ts

unfoldable pub write_pid_statm : Surroundings → Option Bytes → Bytes → State → Option (ℕ × State)
write_pid_statm env none id s = some (1, s)
write_pid_statm env (some file) id s = do
  line ← first_line max_line file
  (if not (ends_in_newline line)
      then some (1, s)
      else (do message ← pid_statm_message id line; r ← enqueue env message s; some (status r)))

-- One line of /proc/<pid>/io for each label: its second token without the newline.
unfoldable pub io_fields : List Bytes → Bytes → Bytes → Option Bytes
io_fields [] message pipe = some message
io_fields (label ∷ labels) message pipe = do
  labelled ← strcat max_line message label
  (_, ts) ← next_token (tokens (fgets (max_buffer - 1) pipe).0)
  (t, _) ← next_token ts
  longer ← strcat max_line labelled (chop t)
  io_fields labels longer (fgets (max_buffer - 1) pipe).1

-- The pipe holds what `sudo cat` writes.
unfoldable pub write_pid_io : Surroundings → Bytes → Bytes → State → Option (ℕ × State)
write_pid_io env pipe id s = do
  begun ← strcat max_line [] (label_at io_form 0)
  named ← strcat max_line begun id
  message ← io_fields (take 7 (drop 1 io_form)) named pipe
  whole ← strcat max_line message (label_at io_form 8)
  r ← enqueue env whole s
  some (status r)

-- `pid_count`: the number that `sscanf` reads, as `scan` tells, from the first line of the pipe.
-- Without a line or a number, `amount` has no value.
unfoldable pub pid_count : (Bytes → Option ℕ) → Bytes → Option ℕ
pid_count scan pipe = do buffer ← first_line max_buffer pipe; scan buffer

-- What the processes' files hold: `none` where a file cannot be opened. A directory under /proc
-- stands for a process. The pipes are those of the two commands that `pid` counts with.
pub record Processes : Type 0 where
  pub exists : ℕ → Bool
  pub stat_file : ℕ → Option Bytes
  pub statm_file : ℕ → Option Bytes
  pub io_pipe : ℕ → Bytes
  pub decimal : ℕ → Bytes
  pub scan : Bytes → Option ℕ
  pub max_pipe : Bytes
  pub amount_pipe : Bytes

unfoldable pub write_pid_message : Surroundings → Processes → Bytes → ℕ → State → Option (ℕ × State)
write_pid_message env ps file p s =
    if str_eq file (codes "stat")
    then write_pid_stat env (ps.stat_file p) s
    else if str_eq file (codes "statm")
    then write_pid_statm env (ps.statm_file p) (ps.decimal p) s
    else if str_eq file (codes "io")
    then write_pid_io env (ps.io_pipe p) (ps.decimal p) s
    else some (0, s)

-- `while (dirctory_check(path) == 1) pnum++;`, with fuel; `none` if the fuel does not lead to a process, or
-- `pnum`, an `int`, overflows.
unfoldable pub next_process : ℕ → Processes → ℕ → Option ℕ
next_process zero ps p = none
next_process (suc fuel) ps p =
    let later = next_process fuel ps (p + 1) in
    if ps.exists p then some p else if ltb (p + 1) (2 ^ 31) then later else none

-- The rounds that are left of the loop of `pid`, from process number `p` on.
unfoldable pub each_process :
    ℕ → Surroundings → Processes → Bytes → ℕ → ℕ → ℕ → State → Option (ℕ × State)
each_process fuel env ps file max zero p s = some (0, s)
each_process fuel env ps file max (suc amount) p s = do
  q ← next_process fuel ps p
  (if ltb max q then some (0, s) else (do
    (failed, s') ← write_pid_message env ps file q s
    (let later = each_process fuel env ps file max amount (q + 1) s' in
        if failed == 1 then some (1, s') else if ltb (q + 1) (2 ^ 31) then later else none)))

unfoldable pub pid : ℕ → Surroundings → Processes → Bytes → State → Option (ℕ × State)
pid fuel env ps file s = do
  max ← pid_count ps.scan ps.max_pipe
  amount ← pid_count ps.scan ps.amount_pipe
  each_process fuel env ps file max amount 1 s
