-- ===== src/Journal/Publish.antt =====
-- src/publish/publish_influxdb.c and src/mqtt/mqtt.c: a journal entry as a line, and its delivery.
pub mod Entries
use linux_system_monitoring.Base.{
  ℕ, zero, suc, Option, none, some, List, [], ◌∷◌, ◌++◌, ◌>>=◌, Bytes, codes, concat,
}
use linux_system_monitoring.CString.{snprintf}
use linux_system_monitoring.Inotify.{c_string}
use linux_system_monitoring.Journal.Text.{get_field_value, escape_field_value}

abbrev pub max_msg_size : ℕ
max_msg_size = 2048

-- What `sd_journal_get_data` finds for the three fields, none for a failure, and the formatted time.
pub record Entry : Type 0 where
  pub message : Option Bytes
  pub hostname : Option Bytes
  pub syslog_identifier : Option Bytes
  pub time : Option Bytes

-- The text of a field, or what stands for one that is not there.
unfoldable pub field_or : Bytes → Option Bytes → Bytes
field_or default none = default
field_or default (some found) = get_field_value found

-- `time_buffer`
unfoldable pub time_buffer : Option Bytes → Bytes
time_buffer none = codes "Unknown time"
time_buffer (some text) = text

-- The text in the array `field_message` behind the escaping.
abbrev pub text_in : Option Bytes → Bytes
text_in none = []
text_in (some buffer) = c_string buffer

-- The payload that `publish_journal_entry` makes; `field_message` is what the array holds before.
unfoldable pub payload : Bytes → Entry → Bytes → Option Bytes
payload field_message e timestamp = do
  escaped ←
      escape_field_value (some (field_or (codes "No message") e.message)) (some field_message)
        max_msg_size
  some (
      snprintf max_msg_size (
        concat (
          codes "sd-journal,journal_time="
          ∷ time_buffer e.time
          ∷ codes ",pi_name="
          ∷ field_or (codes "Unknown") e.hostname
          ∷ codes ",service="
          ∷ field_or (codes "Unknown") e.syslog_identifier
          ∷ codes " message=\""
          ∷ text_in escaped.output
          ∷ codes "\" "
          ∷ timestamp
          ∷ [])))

-- What `MQTTClient_waitForCompletion` returns.
pub data Completion : Type 0 where
  success : Completion
  disconnected : Completion
  failure : Completion
  other : Completion

-- `publish_mqtt`, over the completions: the return value, 1 for -1 and none while it goes on, and
-- what was handed to `MQTTClient_publishMessage`.
unfoldable pub publish_mqtt : Bytes → List Completion → List Bytes → Option ℕ × List Bytes
publish_mqtt msg [] published = (none, published)
publish_mqtt msg (success ∷ cs) published = (some 0, published ++ (msg ∷ []))
publish_mqtt msg (failure ∷ cs) published = (some 1, published ++ (msg ∷ []))
publish_mqtt msg (disconnected ∷ cs) published = publish_mqtt msg cs (published ++ (msg ∷ []))
publish_mqtt msg (other ∷ cs) published = publish_mqtt msg cs (published ++ (msg ∷ []))

-- The return value of `publish_mqtt` is not read.
unfoldable pub publish_journal_entry :
    Bytes → Entry → Bytes → List Completion → List Bytes → Option (List Bytes)
publish_journal_entry field_message e timestamp cs published = do
  text ← payload field_message e timestamp
  some (publish_mqtt text cs published).1
