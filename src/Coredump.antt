-- ===== src/Coredump.antt =====
-- stats-recording/src/inotify-coredump: a message for each file that appears in the directory of core dumps.
pub mod Line
pub mod Reports
pub mod Program
pub mod Published
use linux_system_monitoring.Base.{
  ℕ, zero, suc, ◌+◌, ◌-◌, ◌^◌, ◌==◌, ltb, leb, not, ◌&&◌, Bool, true, false, Option, none, some,
  List, [], ◌∷◌, ◌++◌, if◌then◌else◌, length, ◌>>=◌, Bytes, codes, concat, minus_one,
}
use linux_system_monitoring.CString.{snprintf}
use linux_system_monitoring.MessageQueue.{Sender}
use linux_system_monitoring.Inotify.{Event, event_size, event_at, is_create, c_string}
use linux_system_monitoring.Escape.{Escaped, escape_tag_value, escape_field_value}

abbrev pub max_msg_size : ℕ
max_msg_size = 1024

abbrev pub watch_dir : Bytes
watch_dir = codes "/var/lib/systemd/coredump"

-- The string in an array that was written.
abbrev pub text_in : Option Bytes → Bytes
text_in none = []
text_in (some buffer) = c_string buffer

-- `coredump_to_line_protocol` in the arrays `tag_path` and `field_name`; `none` is -1. Both halves of
-- its test read `rt2`.
unfoldable pub coredump_to_line_protocol : Bytes → Bytes → Bytes → Bytes → Option (Option Bytes)
coredump_to_line_protocol tag_path field_name coredump_name timestamp = do
  rt1 ← escape_tag_value (some watch_dir) (some tag_path) max_msg_size
  rt2 ← escape_field_value (some coredump_name) (some field_name) max_msg_size
  some (
      if rt2.ret == minus_one
      then none
      else some (
          snprintf max_msg_size (
            concat (
              codes "coredump,path="
              ∷ text_in rt1.output
              ∷ codes " corefile=\""
              ∷ text_in rt2.output
              ∷ codes "\" "
              ∷ timestamp
              ∷ []))))

module _ {S : Type 0} (q : Sender S) (arrays : Bytes) where
  -- What is done about one event; the arrays hold what they did when the function was entered.
  unfoldable pub report : Event → S → Option (ℕ × S)
  report e s =
      if not (e.len == 0) && is_create e
      then (do
        line ← coredump_to_line_protocol arrays arrays e.name (q.get_timestamp s)
        some (elim line [ none ↦ (1, s) | some message ↦ q.send message s ]))
      else some (0, s)

  -- The loop of `send_coredump` from index `i` on, with fuel.
  unfoldable pub send_from : ℕ → Bytes → ℕ → ℕ → S → Option (ℕ × S)
  send_from zero buffer i len s = none
  send_from (suc fuel) buffer i len s =
      let rest = (do
        e ← event_at buffer i
        (failed, s') ← report e s
        (let later = send_from fuel buffer (i + (event_size + e.len)) len s' in
            if failed == 1 then some (1, s') else later)) in
      if ltb i len then rest else some (0, s)

  -- `send_coredump` for a monitor that is not NULL.
  unfoldable pub send_coredump : Bytes → S → Option (ℕ × S)
  send_coredump buffer s = send_from (suc (length buffer)) buffer 0 (length buffer) s
