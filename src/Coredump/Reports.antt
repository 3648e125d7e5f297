-- ===== src/Coredump/Reports.antt =====
-- What inotify-coredump sends for the events in a buffer.
use linux_system_monitoring.Base.{
  ℕ, zero, suc, ◌+◌, ◌/◌, ◌%◌, ◌==◌, ◌≡◌, ◌≤◌, ◌<◌, refl, arith, lt→ltb, le→ltb_false, not, ◌&&◌,
  Bool, Bool-cases, inl, inr, some, List, [], ◌∷◌, ◌++◌, append_assoc, if◌then◌else◌, length,
  length-append, All, Bytes,
}
use linux_system_monitoring.Inotify.{Event, event_at}
use linux_system_monitoring.Inotify.Walk.{
  Raw, IsRaw, Reads, encode, encode_all, event_at-encode, name_field, length-encode,
}
use linux_system_monitoring.MessageQueue.{Sender}
use linux_system_monitoring.Coredump.{report, send_from, send_coredump}
use linux_system_monitoring.Coredump.Line.{IsName, coredump_line, coredump_to_line_protocol_lem}

-- A new file with a name.
abbrev pub is_new_file : Raw → Bool
is_new_file r = not (length (name_field r) == 0) && r.mask / 256 % 2 == 1

-- An event as the kernel makes it: a name in it is a file's name, with NULs behind it. An event of the
-- directory itself, or of a queue that is full, has no name and no NUL.
pub record IsReported (r : Raw) : Type 0 where
  pub raw : IsRaw r
  pub name : IsName r.name
  pub ended : 0 < length (name_field r) → 0 < r.padding

module _ {S : Type 0} (q : Sender S) (arrays : Bytes) (room : 1024 ≤ length arrays)
    (short : (s : S) → length (q.get_timestamp s) ≤ 64) where
  -- The return value and the state behind the messages, once the events are handled one after the
  -- other, up to the first message that is not sent.
  abbrev pub reports : List Raw → S → ℕ × S
  reports [] s = (0, s)
  reports (r ∷ rs) s =
      if is_new_file r
      then (let (failed, s') = q.send (coredump_line r.name (q.get_timestamp s)) s in
          if failed == 1 then (1, s') else reports rs s')
      else reports rs s

  -- One event.
  abbrev report_of : Raw → S → ℕ × S
  report_of r s =
      if is_new_file r then q.send (coredump_line r.name (q.get_timestamp s)) s else (0, s)

  report_lem :
      (e : Event) (r : Raw) (sent : S)
      → Reads e r
      → IsReported r
      → report q arrays e sent ≡ some (report_of r sent)
  unfolding report
  report_lem e r sent reads ok = elim (Bool-cases (is_new_file r)) [
    | inl new ↦
        let named : 0 < length (name_field r) = ground (arith, new) in
        rw (
          reads.len,
          reads.mask,
          new,
          reads.name (ok.ended named),
          coredump_to_line_protocol_lem arrays arrays r.name (q.get_timestamp sent) room room
              ok.name (short sent),
        )
    | inr old ↦ rw (reads.len, reads.mask, old)
  ]

  -- The rest of the walk, by the return value for one event.
  reports_step :
      (r : Raw) (rs : List Raw) (sent : S)
      → (if (report_of r sent).0 == 1
          then some (1, (report_of r sent).1)
          else some (reports rs (report_of r sent).1))
        ≡ some (reports (r ∷ rs) sent)
  reports_step r rs sent = ground arith

  send_from_lem :
      (rs : List Raw) (fuel : ℕ) (front : Bytes) (i len : ℕ) (sent : S)
      → All IsReported rs
      → i ≡ length front
      → len ≡ length front + length (encode_all rs)
      → length (encode_all rs) < fuel
      → send_from q arrays fuel (front ++ encode_all rs) i len sent ≡ some (reports rs sent)
  send_from_lem rs zero front i len sent ok e l f = absurd (omega arith)
  send_from_lem [] (suc fuel) front i len sent ok e l f =
      unfold send_from in rw (le→ltb_false i len (omega arith))
  send_from_lem (r ∷ rs) (suc fuel) front i len sent ok e l f =
      let (ev, found, reads) = event_at-encode front r (encode_all rs) i e ok.0.raw in
      step ev found reads (λ sent'.
        send_from_lem rs fuel (front ++ encode r) (i + (16 + length (name_field r))) len sent' ok.1
          (omega (arith, length-append front (encode r), length-encode r))
          (omega (arith, length-append front (encode r), size))
          (omega (arith, size, length-encode r)))
    where
      size : length (encode r ++ encode_all rs) ≡ length (encode r) + length (encode_all rs)
      size = length-append (encode r) (encode_all rs)

      step :
          (ev : Event)
          → event_at (front ++ (encode r ++ encode_all rs)) i ≡ some ev
          → Reads ev r
          → ((sent' : S)
              → send_from q arrays fuel
                  ((front ++ encode r) ++ encode_all rs)
                  (i + (16 + length (name_field r)))
                  len
                  sent'
                ≡ some (reports rs sent'))
          → send_from q arrays (suc fuel) (front ++ (encode r ++ encode_all rs)) i len sent
            ≡ some (reports (r ∷ rs) sent)
      step ev found reads later =
          unfold send_from in
          rw
            (
              lt→ltb i len (omega (arith, size)),
              found,
              report_lem ev r sent reads ok.0,
              reads.len,
              ← append_assoc front (encode r) (encode_all rs),
              later,
            )
            (reports_step r rs sent)

  -- For arrays of at least 1024 cells, timestamps of at most 64 characters, and a buffer of
  -- events as the kernel writes them, with a name or without, `send_coredump` never reads
  -- outside the buffer, sends one line for each new file in order, and returns 0, or ends with
  -- an error at the first line that is not sent.
  pub send_coredump_lem :
      (rs : List Raw) (sent : S)
      → All IsReported rs
      → send_coredump q arrays (encode_all rs) sent ≡ some (reports rs sent)
  unfolding send_coredump
  send_coredump_lem rs sent ok =
      send_from_lem rs (suc (length (encode_all rs))) [] 0 (length (encode_all rs)) sent ok refl
        (omega arith) (omega arith)
