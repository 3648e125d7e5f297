-- ===== src/Pacct/Resend.antt =====
-- What inotify-pacct sends, change after change.
use linux_system_monitoring.Base.{
  ◌^◌, ℕ, zero, suc, ◌+◌, ◌-◌, ◌/◌, ◌%◌, ◌==◌, ◌≡◌, ◌≤◌, ◌<◌, refl, sym, ap, ◌∙◌, arith, lt→ltb,
  le→ltb_false, true, none, some, List, [], ◌∷◌, ◌++◌, append-nil, append_assoc, length,
  length-append, length-concat, length-drop, drop, map, All, Bytes,
}
use linux_system_monitoring.Inotify.Walk.{
  Raw, IsRaw, encode, encode_all, event_at-encode, name_field, length-encode,
}
use linux_system_monitoring.Pacct.Values.{Acct, Printing, construct_payload}
use linux_system_monitoring.MessageQueue.{Queue, take_message, queue_of}
use linux_system_monitoring.Pacct.Monitor.{
  max_msg_size, send_records, send_process_from, send_process, File, records_from, Change, monitor,
}

-- An event that says that the file was modified.
pub record IsModify (r : Raw) : Type 0 where
  pub raw : IsRaw r
  pub modifies : (r.mask / 2 % 2 == 1) ≡ true

drop_end {ℓ} : {A : Type ℓ} (xs : List A) (n : ℕ) → length xs ≤ n → drop n xs ≡ []
drop_end [] zero h = refl
drop_end [] (suc n) h = refl
drop_end (x ∷ xs) zero h = absurd (omega arith)
drop_end (x ∷ xs) (suc n) h = drop_end xs n (omega arith)

module _ (q : Queue) (p : Printing) (takes : (n : ℕ) → q.takes n ≡ true) where
  -- The messages for records that are sent when `n` messages were taken before.
  abbrev pub payloads : ℕ → List Acct → List Bytes
  payloads n [] = []
  payloads n (r ∷ rs) = construct_payload p r (q.timestamp n) max_msg_size ∷ payloads (suc n) rs

  triple :
      {a b : ℕ} {l m : List Bytes}
      → a ≡ b
      → l ≡ m
      → ◌≡◌ {A = ℕ × ℕ × List Bytes} (0, a, l) (0, b, m)
  triple e f = λ i. (0, e i, f i)

  send_records_lem :
      (rs : List Acct) (last : ℕ) (sent : List Bytes)
      → send_records (queue_of q) p rs last sent
        ≡ (0, last + length rs, sent ++ payloads (length sent) rs)
  unfolding send_records take_message
  send_records_lem [] last sent = triple (omega arith) (sym (append-nil sent))
  send_records_lem (r ∷ rs) last sent = rw (takes (length sent)) (
      send_records_lem rs (last + 1) (sent ++ (x ∷ []))
      ∙ triple (omega arith)
          (append_assoc sent (x ∷ []) _ ∙ ap (λ n. sent ++ (x ∷ payloads n rs)) (length_next)))
    where
      x : Bytes
      x = construct_payload p r (q.timestamp (length sent)) max_msg_size

      length_next : length (sent ++ (x ∷ [])) ≡ suc (length sent)
      length_next = omega (arith, length-concat sent x)

  records_from_held :
      (file : File) (i last : ℕ)
      → last < 2 ^ 25
      → records_from file i last ≡ (last, drop last file.records)
  unfolding records_from
  records_from_held file i last h =
      let same : last % 2 ^ 26 ≡ last = omega (arith, h) in rw (same, lt→ltb last (2 ^ 25) h) refl

  -- One event: the records behind the position are sent, and the walk goes on behind the event.
  event_step :
      (fuel : ℕ) (front : Bytes) (r : Raw) (rs : List Raw) (i len : ℕ) (file : File) (last : ℕ)
      (sent : List Bytes)
      → IsModify r
      → i ≡ length front
      → i < len
      → last < 2 ^ 25
      → send_process_from
          (queue_of q)
          p
          (suc fuel)
          (front ++ (encode r ++ encode_all rs))
          i
          len
          file
          last
          sent
        ≡ send_process_from
            (queue_of q)
            p
            fuel
            (front ++ (encode r ++ encode_all rs))
            (i + (16 + length (name_field r)))
            len
            file
            (last + length (drop last file.records))
            (sent ++ payloads (length sent) (drop last file.records))
  unfolding send_process_from
  event_step fuel front r rs i len file last sent ok e inside held =
      let (ev, found, reads) = event_at-encode front r (encode_all rs) i e ok.raw in
      rw (lt→ltb i len inside, found)
        (rw (
          reads.mask,
          ok.modifies,
          records_from_held file i last held,
          send_records_lem (drop last file.records) last sent,
          reads.len,
        ))

  -- With nothing behind the position, the events that are left send nothing.
  rest_of_walk :
      (rs : List Raw) (fuel : ℕ) (front : Bytes) (i len : ℕ) (file : File) (last : ℕ)
      (sent : List Bytes)
      → All IsModify rs
      → i ≡ length front
      → len ≡ length front + length (encode_all rs)
      → length (encode_all rs) < fuel
      → length file.records ≤ last
      → last < 2 ^ 25
      → send_process_from (queue_of q) p fuel (front ++ encode_all rs) i len file last sent
        ≡ some (0, sent)
  rest_of_walk rs zero front i len file last sent ok e l f h held = absurd (omega arith)
  rest_of_walk [] (suc fuel) front i len file last sent ok e l f h held =
      unfold send_process_from in rw (le→ltb_false i len (omega arith))
  rest_of_walk (r ∷ rs) (suc fuel) front i len file last sent ok e l f h held =
      event_step fuel front r rs i len file last sent ok.0 e (omega (arith, size)) held
      ∙ (λ j.
          send_process_from (queue_of q) p fuel (assoc j) (i + (16 + length (name_field r))) len
            file (same_last j) (same_sent j))
      ∙ rest_of_walk rs fuel (front ++ encode r) (i + (16 + length (name_field r))) len file last
          sent ok.1 (omega (arith, length-append front (encode r), length-encode r))
          (omega (arith, length-append front (encode r), size))
          (omega (arith, size, length-encode r)) h held
    where
      size : length (encode r ++ encode_all rs) ≡ length (encode r) + length (encode_all rs)
      size = length-append (encode r) (encode_all rs)

      assoc : front ++ (encode r ++ encode_all rs) ≡ (front ++ encode r) ++ encode_all rs
      assoc = sym (append_assoc front (encode r) (encode_all rs))

      same_last : last + length (drop last file.records) ≡ last
      same_last = omega (arith, ap (λ l. length l) (drop_end file.records last h))

      same_sent : sent ++ payloads (length sent) (drop last file.records) ≡ sent
      same_sent =
          ap (λ l. sent ++ payloads (length sent) l) (drop_end file.records last h)
          ∙ append-nil sent

  -- When the queue takes every message, `send_process` on a buffer of one or more modification
  -- events, of a file whose positions an `int` holds, sends the record of every process behind the position it was given once, in order,
  -- and returns 0.
  pub send_process_lem :
      (r : Raw) (rs : List Raw) (file : File) (last : ℕ) (sent : List Bytes)
      → All IsModify (r ∷ rs)
      → last ≤ length file.records
      → length file.records < 2 ^ 25
      → send_process (queue_of q) p (encode_all (r ∷ rs)) file last sent
        ≡ some (0, sent ++ payloads (length sent) (drop last file.records))
  unfolding send_process
  send_process_lem r rs file last sent ok h held =
      event_step (length buffer) [] r rs 0 (length buffer) file last sent ok.0 refl
        (omega (arith, size)) (omega (arith, h, held))
      ∙ rest_of_walk rs (length buffer) (encode r) (0 + (16 + length (name_field r)))
          (length buffer) file (last + length (drop last file.records)) _ ok.1
          (omega (arith, length-encode r)) (omega (arith, size))
          (omega (arith, size, length-encode r)) (omega (arith, length_drop))
          (omega (arith, length_drop, h, held))
    where
      buffer : Bytes
      buffer = encode_all (r ∷ rs)

      size : length (encode r ++ encode_all rs) ≡ length (encode r) + length (encode_all rs)
      size = length-append (encode r) (encode_all rs)

      length_drop : length (drop last file.records) ≡ length file.records - last
      length_drop = length-drop last file.records

  -- A change that reports at least one modification, of a file with the `last` records and more, and less
  -- than 2^25 in all: a record has 64 bytes, and the `int` of `send_process` holds every position.
  pub record IsChange (last : ℕ) (c : Change) : Type 0 where
    pub event : Raw
    pub more : List Raw
    pub modify : All IsModify (event ∷ more)
    pub reported : c.buffer ≡ encode_all (event ∷ more)
    pub grown : last ≤ length c.file.records
    pub held : length c.file.records < 2 ^ 25

  -- What is taken from change to change: every record behind the first position, each time.
  abbrev pub resent : ℕ → List Change → List Bytes → List Bytes
  resent last [] sent = sent
  resent last (c ∷ cs) sent =
      resent last cs (sent ++ payloads (length sent) (drop last c.file.records))

  -- When the queue takes every message and each read reports modifications of a file that does
  -- not shrink below the first position and has fewer than 2^25 records, so that an int holds
  -- every position, the monitor sends, at every change, all records behind that first position
  -- again.
  pub monitor-resent :
      (close : List Bytes → List Bytes) (cs : List Change) (last : ℕ) (sent : List Bytes)
      → All (IsChange last) cs
      → monitor (queue_of q) p close last (map some cs) sent ≡ some (none, resent last cs sent)
  unfolding monitor
  monitor-resent close [] last sent ok = refl
  monitor-resent close (c ∷ cs) last sent (ok, oks) =
      rw
        (ok.reported, send_process_lem ok.event ok.more c.file last sent ok.modify ok.grown ok.held)
        (monitor-resent close cs last (sent ++ payloads (length sent) (drop last c.file.records))
          oks)
