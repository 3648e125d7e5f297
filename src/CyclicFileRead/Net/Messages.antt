-- ===== src/CyclicFileRead/Net/Messages.antt =====
-- What net.c makes of the line of an interface.
use linux_system_monitoring.Base.{
  ◌+◌, ◌≡◌, ◌<◌, ap, ◌∙◌, arith, some, List, [], ◌∷◌, ◌++◌, append_assoc, length, length-append,
  take, drop, drop-append, Bytes, codes,
}
use linux_system_monitoring.CyclicFileRead.Forms.{net_form1, net_form2}
use linux_system_monitoring.CyclicFileRead.Text.{
  tokens, next_token, strcat, append_fields, label_at,
}
use linux_system_monitoring.CyclicFileRead.Lines.{
  Laid, tokens-Laid, interleave, interleave_more, append_fields_lem, fields_and_last, strcat_fits,
  chop-concat,
}
use linux_system_monitoring.CyclicFileRead.Net.{receive_message, transmit_message}

-- The interface, and each label of a direction with its value.
abbrev pub net_line : List Bytes → Bytes → List Bytes → Bytes
net_line form name values =
    (codes "proc-net-dev,interface=" ++ name)
    ++ (interleave (take 8 (drop 1 form)) values ++ codes " ")

drop_eight : (rs us : List Bytes) → length rs ≡ 8 → drop 8 (rs ++ us) ≡ us
drop_eight rs us h =
    ap (λ n. drop n (rs ++ us)) {x = 8} {y = length rs} (omega arith) ∙ drop-append rs us

-- The parts of a line that fits.
line_room :
    (form : List Bytes) (name : Bytes) (values : List Bytes)
    → length (net_line form name values) < 1024
    → (23 + length name < 1024)
      × (length (codes "proc-net-dev,interface=" ++ name)
            + (length (interleave (take 8 (drop 1 form)) values) + 1)
          < 1024)
line_room form name values fits = (omega (arith, fits, whole), omega (arith, fits, whole))
  where
    whole :
        length (net_line form name values)
        ≡ length (codes "proc-net-dev,interface=" ++ name)
          + (length (interleave (take 8 (drop 1 form)) values) + 1)
    whole = omega (
      arith,
      length-append (codes "proc-net-dev,interface=" ++ name)
          (interleave (take 8 (drop 1 form)) values ++ codes " "),
      length-append (interleave (take 8 (drop 1 form)) values) (codes " "),
    )

pub transmit_message_lem :
    (name t : Bytes) (ts : List Bytes)
    → length ts ≡ 7
    → length (net_line net_form2 name (ts ++ (t ∷ []))) < 1024
    → transmit_message name (ts ++ ((t ++ (b'\n' ∷ [])) ∷ []))
      ≡ some (net_line net_form2 name (ts ++ (t ∷ [])))
unfolding transmit_message label_at strcat
transmit_message_lem name t ts n fits =
    rw (strcat_fits 1024 (codes "proc-net-dev,interface=") name (omega (arith, room.0))) (
      fields_and_last 1024 (take 7 (drop 1 net_form2)) (label_at net_form2 8) [] (codes " ")
        (codes "proc-net-dev,interface=" ++ name) ts t b'\n' (omega arith) room.1)
  where
    room :
        (23 + length name < 1024)
        × (length (codes "proc-net-dev,interface=" ++ name)
              + (length (interleave (take 8 (drop 1 net_form2)) (ts ++ (t ∷ []))) + 1)
            < 1024)
    room = line_room net_form2 name (ts ++ (t ∷ [])) fits

pub receive_message_lem :
    (name line : Bytes) (rs us : List Bytes)
    → tokens line ≡ (name ++ (b':' ∷ [])) ∷ (rs ++ us)
    → length rs ≡ 8
    → length name < 64
    → length (net_line net_form1 name rs) < 1024
    → receive_message line ≡ some (net_line net_form1 name rs, name, us)
unfolding receive_message next_token label_at strcat
receive_message_lem name line rs us laid n small fits =
    rw
      (
        laid,
        chop-concat name b':',
        strcat_fits 1024 (codes "proc-net-dev,interface=") name (omega (arith, room.0)),
        fields,
        strcat_fits 1024 (head ++ values) (codes " ")
            (omega (arith, room.1, length-append head values)),
        strcat_fits 64 [] name (omega (arith, small)),
      )
      (ap (λ m. some (m, name, us)) (append_assoc head values (codes " ")))
  where
    head : Bytes
    head = codes "proc-net-dev,interface=" ++ name

    values : Bytes
    values = interleave (take 8 (drop 1 net_form1)) rs

    room : (23 + length name < 1024) × (length head + (length values + 1) < 1024)
    room = line_room net_form1 name rs fits

    eight : length (take 8 (drop 1 net_form1)) ≡ length rs
    eight = omega (arith, n)

    fields :
        append_fields 1024 (take 8 (drop 1 net_form1)) head (rs ++ us) ≡ some (head ++ values, us)
    fields =
        append_fields_lem 1024 (take 8 (drop 1 net_form1)) head (rs ++ us)
          (omega (arith, n, length-append {A = Bytes} rs us))
          (rw (interleave_more (take 8 (drop 1 net_form1)) rs us eight) (omega (arith, room.1)))
        ∙ cc (interleave_more (take 8 (drop 1 net_form1)) rs us eight, drop_eight rs us n)

-- For a line that consists of the name of an interface with a colon, 8 words, and 8 words with a
-- newline behind the last, with a name shorter than 64 and messages shorter than 1024, the
-- message for what was received is the name and each label of `net_form1` with its word, the
-- words that are left are those of the other direction, and the message for what was sent is the
-- name and each label of `net_form2` with its word, without the newline.
pub net_messages_lem :
    (name t line : Bytes) (rs ts : List Bytes)
    → Laid ((name ++ (b':' ∷ [])) ∷ (rs ++ (ts ++ ((t ++ (b'\n' ∷ [])) ∷ [])))) line
    → length rs ≡ 8
    → length ts ≡ 7
    → length name < 64
    → length (net_line net_form1 name rs) < 1024
    → length (net_line net_form2 name (ts ++ (t ∷ []))) < 1024
    → (receive_message line
        ≡ some (net_line net_form1 name rs, name, ts ++ ((t ++ (b'\n' ∷ [])) ∷ [])))
      × (transmit_message name (ts ++ ((t ++ (b'\n' ∷ [])) ∷ []))
          ≡ some (net_line net_form2 name (ts ++ (t ∷ []))))
net_messages_lem name t line rs ts laid n k small fits fits' = (
  receive_message_lem name line rs _ (tokens-Laid laid) n small fits,
  transmit_message_lem name t ts k fits',
)
