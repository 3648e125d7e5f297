-- ===== src/Journal/Publish/Entries.antt =====
-- A journal entry whose line fits is published with a message that is read back.
use linux_system_monitoring.Base.{
  if◌then◌else◌, ◌==◌, ℕ, zero, suc, false, ◌+◌, ◌≡◌, ◌≢◌, ◌≤◌, ◌<◌, refl, ap, ◌∙◌, arith, Option,
  none, some, List, [], ◌∷◌, ◌++◌, append_assoc, append-nil, length, All, Bytes, codes, concat,
}
use linux_system_monitoring.CString.{snprintf_fits, length_of_concat}
use linux_system_monitoring.Memory.{filled}
use linux_system_monitoring.Inotify.{c_string}
use linux_system_monitoring.Escape.{is_field_special}
use linux_system_monitoring.Escape.Exact.{escaped}
use linux_system_monitoring.Escape.Calls.{Writes}
use linux_system_monitoring.Escape.Reading.{read_string, read_string-escaped}
use linux_system_monitoring.Coredump.Line.{c_string-filled, no_nul-escaped, length-escaped}
use linux_system_monitoring.Journal.Text.{get_field_value, escape_field_value}
use linux_system_monitoring.Journal.Overflow.{escape_field_value_within}
use linux_system_monitoring.Journal.Publish.{
  Entry, field_or, time_buffer, payload, Completion, success, disconnected, failure, other,
  publish_mqtt, publish_journal_entry,
}

-- What stands behind the first equals sign of a field's data, and what stands for a field that is missing.
abbrev pub behind_equals : Bytes → Bytes
behind_equals [] = codes "Unknown"
behind_equals (c ∷ cs) = if c == b'=' then cs else behind_equals cs

abbrev pub shown : Bytes → Option Bytes → Bytes
shown missing none = missing
shown missing (some found) = behind_equals found

get_field_value_lem : (found : Bytes) → get_field_value found ≡ behind_equals found
unfolding get_field_value
get_field_value_lem [] = refl
get_field_value_lem (c ∷ cs) = rw (get_field_value_lem cs) refl

field_or_lem :
    (missing : Bytes) (field : Option Bytes) → field_or missing field ≡ shown missing field
unfolding field_or
field_or_lem missing none = refl
field_or_lem missing (some found) = get_field_value_lem found

abbrev pub message_of : Entry → Bytes
message_of e = shown (codes "No message") e.message

-- What stands in front of the message in the line.
abbrev pub head_of : Entry → Bytes
head_of e = concat (
    codes "sd-journal,journal_time="
    ∷ time_buffer e.time
    ∷ codes ",pi_name="
    ∷ shown (codes "Unknown") e.hostname
    ∷ codes ",service="
    ∷ shown (codes "Unknown") e.syslog_identifier
    ∷ codes " message=\""
    ∷ [])

-- The entry and its timestamp fit: the message is a C string of at most 800 characters, and the rest
-- of the line has at most 400.
pub record IsShort (e : Entry) (timestamp : Bytes) : Type 0 where
  pub no_nul : All (λ c. c ≢ 0) (message_of e)
  pub message : length (message_of e) ≤ 800
  pub others :
      length (time_buffer e.time)
        + length (shown (codes "Unknown") e.hostname)
        + length (shown (codes "Unknown") e.syslog_identifier)
        + length timestamp
      ≤ 300

module _ (array : Bytes) (e : Entry) (timestamp : Bytes) (room : 2048 ≤ length array)
    (ok : IsShort e timestamp) where
  escaped_message : Bytes
  escaped_message = escaped is_field_special (message_of e)

  call :
      Writes
        (escape_field_value (some (message_of e)) (some array) 2048)
        array
        2048
        (escaped is_field_special (message_of e))
  call =
      escape_field_value_within (message_of e) array 2048
        (record { some_room = omega arith; is_size = omega arith; in_memory = room })
        (omega (arith, length-escaped is_field_special (message_of e), ok.message))

  text :
      c_string (filled array (escaped is_field_special (message_of e) ++ (0 ∷ [])))
      ≡ escaped is_field_special (message_of e)
  text =
      c_string-filled array (escaped is_field_special (message_of e))
        (no_nul-escaped is_field_special (message_of e) ok.no_nul)

  -- The line behind the opening quote.
  tail_of : Bytes
  tail_of = escaped is_field_special (message_of e) ++ (b'"' ∷ (b' ' ∷ timestamp))

  -- The line in the order of the format.
  whole : Bytes
  whole = concat (
      codes "sd-journal,journal_time="
      ∷ time_buffer e.time
      ∷ codes ",pi_name="
      ∷ shown (codes "Unknown") e.hostname
      ∷ codes ",service="
      ∷ shown (codes "Unknown") e.syslog_identifier
      ∷ codes " message=\""
      ∷ escaped is_field_special (message_of e)
      ∷ codes "\" "
      ∷ timestamp
      ∷ [])

  whole_lem : whole ≡ head_of e ++ tail_of
  unfolding whole tail_of
  whole_lem = simp (append_assoc, append-nil)

  short : length whole < 2048
  unfolding whole
  short = omega (
    arith,
    length_of_concat (
        codes "sd-journal,journal_time="
        ∷ time_buffer e.time
        ∷ codes ",pi_name="
        ∷ shown (codes "Unknown") e.hostname
        ∷ codes ",service="
        ∷ shown (codes "Unknown") e.syslog_identifier
        ∷ codes " message=\""
        ∷ escaped is_field_special (message_of e)
        ∷ codes "\" "
        ∷ timestamp
        ∷ []),
    length-escaped is_field_special (message_of e),
    ok.message,
    ok.others,
  )

  payload_lem : payload array e timestamp ≡ some whole
  unfolding payload whole
  payload_lem =
      rw
        (
          field_or_lem (codes "No message") e.message,
          field_or_lem (codes "Unknown") e.hostname,
          field_or_lem (codes "Unknown") e.syslog_identifier,
          call.result,
          text,
        )
        (ap some (snprintf_fits 2048 whole short))

  pub publish_journal_entry_lem :
      (cs : List Completion) (published : List Bytes)
      → (tail : Bytes) × (publish_journal_entry array e timestamp cs published
          ≡ some (publish_mqtt (head_of e ++ tail) cs published).1)
        × (read_string false tail ≡ some (message_of e, b' ' ∷ timestamp))
  unfolding publish_journal_entry tail_of
  publish_journal_entry_lem cs published = (
    tail_of,
    rw payload_lem (ap (λ t. some (publish_mqtt t cs published).1) whole_lem),
    read_string-escaped (message_of e) (b' ' ∷ timestamp),
  )

-- How often the message is handed over: up to the first completion that ends the loop.
abbrev pub attempts : List Completion → ℕ
attempts [] = 0
attempts (success ∷ cs) = 1
attempts (failure ∷ cs) = 1
attempts (disconnected ∷ cs) = suc (attempts cs)
attempts (other ∷ cs) = suc (attempts cs)

abbrev pub copies : Bytes → ℕ → List Bytes
copies msg zero = []
copies msg (suc n) = msg ∷ copies msg n

-- The completion that ends the loop, none if none does.
abbrev pub verdict : List Completion → Option ℕ
verdict [] = none
verdict (success ∷ cs) = some 0
verdict (failure ∷ cs) = some 1
verdict (disconnected ∷ cs) = verdict cs
verdict (other ∷ cs) = verdict cs

-- Over any sequence of completions, `publish_mqtt` hands over one copy of the message for each
-- completion up to the first success or failure, and returns 0 for a success and an error for a
-- failure.
pub publish_mqtt_lem :
    (msg : Bytes) (cs : List Completion) (published : List Bytes)
    → publish_mqtt msg cs published ≡ (verdict cs, published ++ copies msg (attempts cs))
unfolding publish_mqtt
publish_mqtt_lem msg [] published = rw append-nil
publish_mqtt_lem msg (success ∷ cs) published = refl
publish_mqtt_lem msg (failure ∷ cs) published = refl
publish_mqtt_lem msg (disconnected ∷ cs) published =
    publish_mqtt_lem msg cs (published ++ (msg ∷ [])) ∙ rw append_assoc
publish_mqtt_lem msg (other ∷ cs) published =
    publish_mqtt_lem msg cs (published ++ (msg ∷ [])) ∙ rw append_assoc
