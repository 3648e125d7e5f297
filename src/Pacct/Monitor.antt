-- ===== src/Pacct/Monitor.antt =====
-- inotify-pacct.c: the accounting file is read again from a position whenever it changes.
use linux_system_monitoring.Base.{
  ℕ, zero, suc, ◌+◌, ◌%◌, ◌^◌, ◌==◌, ltb, Option, none, some, List, [], ◌∷◌, if◌then◌else◌, length,
  drop, ◌>>=◌, Bytes,
}
use linux_system_monitoring.MessageQueue.{Sender}
use linux_system_monitoring.Inotify.{event_size, event_at, is_modify}
use linux_system_monitoring.Pacct.Values.{Acct, Printing, construct_payload}

abbrev pub max_msg_size : ℕ
max_msg_size = 1024

-- The accounting file: its records, and for the event at an index of the buffer what is read, and from which
-- position on, if `fseek` fails there and leaves the stream where it is.
pub record File : Type 0 where
  pub records : List Acct
  pub unmoved : ℕ → ℕ × List Acct

-- `fseek` to `last_position`, and what can be read from there. A position is a number of records of 64 bytes,
-- and the `int` keeps the number of bytes modulo 2^32; an offset below 0 is refused.
unfoldable pub records_from : File → ℕ → ℕ → ℕ × List Acct
records_from file i last =
    let r = last % 2 ^ 26 in if ltb r (2 ^ 25) then (r, drop r file.records) else file.unmoved i

-- A return of `read` on the inotify descriptor, and the file by then.
pub record Change : Type 0 where
  pub buffer : Bytes
  pub file : File

module _ {S : Type 0} (q : Sender S) (p : Printing) where
  -- The records of the file from a position on. The result is the return value, the position behind the last
  -- record that was sent, and what became of the queue.
  unfoldable pub send_records : List Acct → ℕ → S → ℕ × ℕ × S
  send_records [] last s = (0, last, s)
  send_records (r ∷ rs) last s =
      let (failed, s') = q.send (construct_payload p r (q.get_timestamp s) max_msg_size) s in
      let later = send_records rs (last + 1) s' in if failed == 1 then (1, last, s') else later

  -- The `while` loop of `send_process` from index `i` on, with fuel.
  unfoldable pub send_process_from : ℕ → Bytes → ℕ → ℕ → File → ℕ → S → Option (ℕ × S)
  send_process_from zero buffer i len file last s = none
  send_process_from (suc fuel) buffer i len file last s =
      let rest = (do
        e ← event_at buffer i
        (if is_modify e
            then (let (at, rs) = records_from file i last in
                let (failed, last', s') = send_records rs at s in
                let later =
                  send_process_from fuel buffer (i + (event_size + e.len)) len file last' s' in
                if failed == 1 then some (1, s') else later)
            else send_process_from fuel buffer (i + (event_size + e.len)) len file last s)) in
      if ltb i len then rest else some (0, s)

  -- `send_process`: `last_position` is a parameter, and what becomes of it stays inside.
  unfoldable pub send_process : Bytes → File → ℕ → S → Option (ℕ × S)
  send_process buffer file last s =
      send_process_from (suc (length buffer)) buffer 0 (length buffer) file last s

  -- The loop of `monitor_process_accounting` over the changes; `none` is a failed read, for which
  -- `read_event` closes the descriptor. There is no return value while the loop goes on.
  unfoldable pub monitor : (S → S) → ℕ → List (Option Change) → S → Option (Option ℕ × S)
  monitor close last [] s = some (none, s)
  monitor close last (none ∷ cs) s = some (some 1, close s)
  monitor close last (some c ∷ cs) s = do
    (failed, s') ← send_process c.buffer c.file last s
    (if failed == 1 then some (some 1, s') else monitor close last cs s')
