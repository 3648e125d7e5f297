-- ===== src/Coredump/Published.antt =====
-- The way of a core dump from the program that reports it over the bridge to a receiver.
use linux_system_monitoring.Base.{
  ◌+◌, ◌≡◌, ◌≤◌, ◌<◌, refl, ap, ◌∙◌, arith, true, false, some, List, [], ◌∷◌, ◌++◌, append-nil,
  append_assoc, length, length-append, Bytes, codes,
}
use linux_system_monitoring.Escape.{is_tag_special, is_field_special}
use linux_system_monitoring.Escape.Exact.{escaped}
use linux_system_monitoring.Escape.Reading.{read_string, read_string-escaped}
use linux_system_monitoring.Bridge.Hostname.{add_hostname_to_msg}
use linux_system_monitoring.Bridge.Escaped.{add_hostname_to_msg-escaped}
use linux_system_monitoring.Bridge.Forwarding.{Broker, running, forward, send_message_to_broker}
use linux_system_monitoring.Coredump.{watch_dir, coredump_to_line_protocol}
use linux_system_monitoring.Coredump.Line.{
  IsName, coredump_line, coredump_to_line_protocol_lem, length-escaped,
}

-- What stands behind the opening quote of the field.
abbrev pub behind_quote : Bytes → Bytes → Bytes
behind_quote name timestamp = escaped is_field_special name ++ (b'"' ∷ (b' ' ∷ timestamp))

-- The tags with the host name.
abbrev pub tags_of : Bytes → Bytes
tags_of hostname = (codes "coredump,path=" ++ watch_dir) ++ (codes ",host=" ++ hostname)

tagged :
    (hostname name timestamp : Bytes)
    → IsName name
    → length hostname < 64
    → length timestamp ≤ 64
    → add_hostname_to_msg hostname (coredump_line name timestamp)
      ≡ (codes "coredump,path=" ++ watch_dir)
        ++ ((codes ",host=" ++ hostname)
            ++ (b' ' ∷ (codes "corefile=\"" ++ behind_quote name timestamp)))
unfolding coredump_line is_tag_special
tagged hostname name timestamp ok h t =
    ap
      (λ end. add_hostname_to_msg hostname (
        (codes "coredump,path=" ++ watch_dir)
        ++ (codes " corefile=\"" ++ (escaped is_field_special name ++ (codes "\" " ++ end)))))
      (append-nil timestamp)
    ∙ add_hostname_to_msg-escaped hostname (codes "coredump,path=") watch_dir
        (codes "corefile=\"" ++ behind_quote name timestamp)
        (record { no_space = refl; no_backslash = refl }) refl room
  where
    room :
        length (
            (codes "coredump,path=" ++ watch_dir)
            ++ (b' ' ∷ (codes "corefile=\"" ++ behind_quote name timestamp)))
          + length (codes ",host=" ++ hostname)
        < 1024
    room = omega (
      arith,
      length-append (escaped is_field_special name) (b'"' ∷ (b' ' ∷ timestamp)),
      length-escaped is_field_special name,
      ok.short,
      h,
      t,
    )

-- For arrays of at least 1024 cells, the name of a file, a host name shorter than 64, a timestamp
-- of at most 64 characters, and a broker that takes the message, the line that
-- `coredump_to_line_protocol` gives is published by the bridge as the measurement with its path,
-- the host name as a further tag, and the field, from which a receiver reads a string that is
-- exactly the name of the file, with a blank and the timestamp left over.
pub coredump-published :
    (b : Broker) (hostname tag_path field_name name timestamp : Bytes) (published : List Bytes)
    → 1024 ≤ length tag_path
    → 1024 ≤ length field_name
    → IsName name
    → length hostname < 64
    → length timestamp ≤ 64
    → b.accepts (length published) ≡ true
    → (line rest : Bytes) × (coredump_to_line_protocol tag_path field_name name timestamp
        ≡ some (some line))
      × (forward b hostname (some line) published
          ≡ (running, published ++ (((tags_of hostname ++ codes " corefile=\"") ++ rest) ∷ [])))
      × (read_string false rest ≡ some (name, b' ' ∷ timestamp))
unfolding forward send_message_to_broker
coredump-published b hostname tag_path field_name name timestamp published l k ok h t taken = (
  coredump_line name timestamp,
  behind_quote name timestamp,
  coredump_to_line_protocol_lem tag_path field_name name timestamp l k ok t,
  rw (taken, tagged hostname name timestamp ok h t)
      (ap (λ m. (running, published ++ (m ∷ []))) joined),
  read_string-escaped name (b' ' ∷ timestamp),
)
  where
    joined :
        (codes "coredump,path=" ++ watch_dir)
          ++ ((codes ",host=" ++ hostname)
              ++ (b' ' ∷ (codes "corefile=\"" ++ behind_quote name timestamp)))
        ≡ (tags_of hostname ++ codes " corefile=\"") ++ behind_quote name timestamp
    joined = simp append_assoc
