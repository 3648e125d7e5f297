-- ===== src/CyclicFileRead/Net.antt =====
-- net.c: two lines for each interface of /proc/net/dev.
pub mod Messages
pub mod Queueing
use linux_system_monitoring.Base.{
  ℕ, zero, suc, ◌-◌, ◌==◌, Option, none, some, [], if◌then◌else◌, not, take, drop, ◌>>=◌, Bytes,
  List,
}
use linux_system_monitoring.CyclicFileRead.Queue.{State, Surroundings, enqueue, max_line}
use linux_system_monitoring.CyclicFileRead.Forms.{net_form1, net_form2}
use linux_system_monitoring.CyclicFileRead.Text.{
  fgets, ends_in_newline, chop, tokens, next_token, strcat, append_fields, append_last, label_at,
  line_count,
}

-- `name` is an array of `MAX_BUFFER` cells.
abbrev max_buffer : ℕ
max_buffer = 64

-- The line for what was received, the name, and the tokens that are left for the other direction.
unfoldable pub receive_message : Bytes → Option (Bytes × Bytes × List Bytes)
receive_message line = do
  begun ← strcat max_line [] (label_at net_form1 0)
  (t, rest) ← next_token (tokens line)
  named ← strcat max_line begun (chop t)
  (message, rest') ← append_fields max_line (take 8 (drop 1 net_form1)) named rest
  whole ← strcat max_line message (label_at net_form1 9)
  name ← strcat max_buffer [] (chop t)
  some (whole, name, rest')

-- The line for what was sent.
unfoldable pub transmit_message : Bytes → List Bytes → Option Bytes
transmit_message name ts = do
  begun ← strcat max_line [] (label_at net_form1 0)
  named ← strcat max_line begun name
  (message, rest) ← append_fields max_line (take 7 (drop 1 net_form2)) named ts
  append_last max_line (label_at net_form2 8) (label_at net_form2 9) message rest

-- The rounds of the loop that are left.
unfoldable pub write_interfaces : Surroundings → ℕ → Bytes → State → Option (ℕ × State)
write_interfaces env zero file s = some (0, s)
write_interfaces env (suc lines) file s =
    let (line, rest) = fgets (max_line - 1) file in
    if not (ends_in_newline line) then some (1, s) else (do
      (message, name, ts) ← receive_message line
      (failed, s') ← enqueue env message s
      (if failed == 1 then some (1, s') else (do
        message' ← transmit_message name ts
        (failed', s'') ← enqueue env message' s'
        (if failed' == 1 then some (1, s'') else write_interfaces env lines rest s''))))

-- The first two lines are skipped. With fewer than three the loop makes no round.
unfoldable pub write_net_message : Surroundings → ℕ → Bytes → State → Option (ℕ × State)
write_net_message env lines file s =
    write_interfaces env (lines - 2) (fgets (max_line - 1) (fgets (max_line - 1) file).1).1 s

unfoldable pub net : Surroundings → Option Bytes → State → Option (ℕ × State)
net env none s = some (1, s)
net env (some file) s = write_net_message env (line_count file) file s
