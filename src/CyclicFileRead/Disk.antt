-- ===== src/CyclicFileRead/Disk.antt =====
-- disk.c: one line for each device of /proc/diskstats.
pub mod Messages
pub mod Published
use linux_system_monitoring.Base.{
  ℕ, zero, suc, ◌-◌, ◌==◌, Option, none, some, [], if◌then◌else◌, not, take, ◌>>=◌, Bytes, List,
  ◌∷◌,
}
use linux_system_monitoring.CyclicFileRead.Queue.{State, Surroundings, enqueue, max_line}
use linux_system_monitoring.CyclicFileRead.Forms.{disk_form}
use linux_system_monitoring.CyclicFileRead.Text.{
  fgets, ends_in_newline, tokens, append_fields, label_at, append_last, line_count,
}

-- The message for one line: 19 labels with the tokens behind them, the label of the last token, that
-- token without its newline, and the final blank.
unfoldable pub disk_message : Bytes → Option Bytes
disk_message line = do
  (message, rest) ← append_fields max_line (take 19 disk_form) [] (tokens line)
  append_last max_line (label_at disk_form 19) (label_at disk_form 20) message rest

-- The rounds of the loop that are left, over what is left of the file.
unfoldable pub write_disk_message : Surroundings → ℕ → Bytes → State → Option (ℕ × State)
write_disk_message env zero file s = some (0, s)
write_disk_message env (suc lines) file s =
    let (line, rest) = fgets (max_line - 1) file in
    if not (ends_in_newline line) then some (1, s) else (do
      message ← disk_message line
      (failed, s') ← enqueue env message s
      (if failed == 1 then some (1, s') else write_disk_message env lines rest s'))

-- `none` for the file is a failed `fopen`.
unfoldable pub disk : Surroundings → Option Bytes → State → Option (ℕ × State)
disk env none s = some (1, s)
disk env (some file) s = write_disk_message env (line_count file) file s
