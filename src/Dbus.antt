-- ===== src/Dbus.antt =====
-- stats-recording/src/dbus-systemd-signals: a message for each systemd job that begins or ends.
pub mod Program
pub mod Signals
use linux_system_monitoring.Base.{
  ℕ, zero, suc, ◌+◌, ◌-◌, Bool, true, false, Option, none, some, List, [], ◌∷◌, ◌++◌, if◌then◌else◌,
  length, ◌>>=◌, Bytes, codes, concat,
}
use linux_system_monitoring.CString.{snprintf, str_eq}

-- An argument of a D-Bus message: a value of one of the types that the handlers test for, or of another.
pub data Argument : Type 0 where
  uint32 : ℕ → Argument
  object_path : Bytes → Argument
  string : Bytes → Argument
  other : Argument

-- A message; a header field that it does not have is NULL.
pub record Message : Type 0 where
  pub interface : Option Bytes
  pub member : Option Bytes
  pub args : List Argument

-- `printf` writes a number in decimal.
pub record Surroundings : Type 0 where
  pub decimal : ℕ → Bytes

-- `send_to_mq(message, MQ_PATH);`: the list is that of the calls so far. The handlers do not read the return
-- value, so nothing that they do depends on whether the queue took a message.
unfoldable pub send : Bytes → List Bytes → List Bytes
send message sent = sent ++ (message ∷ [])

-- The arrays `message` have 256 cells.
unfoldable pub job_new_line : Surroundings → ℕ → Bytes → Bytes
job_new_line env job_id unit_name = snprintf 256 (
    concat (
      codes "systemdSignal,job=new unit=\"" ∷ unit_name ∷ codes "\",id=" ∷ env.decimal job_id ∷ []))

unfoldable pub job_removed_line : Surroundings → ℕ → Bytes → Bytes
job_removed_line env job_id result = snprintf 256 (
    concat (
      codes "systemdSignal,job=removed id="
      ∷ env.decimal job_id
      ∷ codes ",result=\""
      ∷ result
      ∷ codes "\""
      ∷ []))

-- What the argument iterator is at: the third test of the handlers, the second, the first, in the
-- order in which they are nested; `line` makes the text.
unfoldable pub third_argument : (Bytes → Bytes) → List Argument → List Bytes → List Bytes
third_argument line (string text ∷ rest) sent = send (line text) sent
third_argument line (uint32 n ∷ rest) sent = sent
third_argument line (object_path p ∷ rest) sent = sent
third_argument line (other ∷ rest) sent = sent
third_argument line [] sent = sent

unfoldable pub second_argument : (Bytes → Bytes) → List Argument → List Bytes → List Bytes
second_argument line (object_path p ∷ rest) sent = third_argument line rest sent
second_argument line (uint32 n ∷ rest) sent = sent
second_argument line (string text ∷ rest) sent = sent
second_argument line (other ∷ rest) sent = sent
second_argument line [] sent = sent

unfoldable pub first_argument : (ℕ → Bytes → Bytes) → List Argument → List Bytes → List Bytes
first_argument line (uint32 job_id ∷ rest) sent = second_argument (line job_id) rest sent
first_argument line (object_path p ∷ rest) sent = sent
first_argument line (string text ∷ rest) sent = sent
first_argument line (other ∷ rest) sent = sent
first_argument line [] sent = sent

unfoldable pub handle_job_new_signal : Surroundings → Message → List Bytes → List Bytes
handle_job_new_signal env msg sent = first_argument (job_new_line env) msg.args sent

unfoldable pub handle_job_removed_signal : Surroundings → Message → List Bytes → List Bytes
handle_job_removed_signal env msg sent = first_argument (job_removed_line env) msg.args sent

-- The tests on the member, for a message of the manager.
unfoldable pub by_member : Surroundings → Message → Option Bytes → List Bytes → Option (List Bytes)
by_member env msg none sent = none
by_member env msg (some member) sent = some (
    if str_eq member (codes "JobNew")
    then handle_job_new_signal env msg sent
    else if str_eq member (codes "JobRemoved")
    then handle_job_removed_signal env msg sent
    else sent)

-- The body of the loop for a message; `strcmp` of NULL is undefined.
unfoldable pub by_interface :
    Surroundings → Message → Option Bytes → List Bytes → Option (List Bytes)
by_interface env msg none sent = none
by_interface env msg (some interface) sent =
    if str_eq interface (codes "org.freedesktop.systemd1.Manager")
    then by_member env msg msg.member sent
    else some sent

-- `process_dbus_messages`, over what `dbus_connection_pop_message` returns; NULL is slept over. The
-- list ends where the program is observed no longer.
unfoldable pub process_dbus_messages :
    Surroundings → List (Option Message) → List Bytes → Option (List Bytes)
process_dbus_messages env [] sent = some sent
process_dbus_messages env (none ∷ ms) sent = process_dbus_messages env ms sent
process_dbus_messages env (some msg ∷ ms) sent = do
  sent' ← by_interface env msg msg.interface sent
  process_dbus_messages env ms sent'
