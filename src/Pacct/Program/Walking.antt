-- ===== src/Pacct/Program/Walking.antt =====
-- `send_process` keeps the files, the queue and accounting as they are.
use linux_system_monitoring.Base.{
  ℕ, zero, suc, ◌+◌, ◌==◌, ◌≡◌, ◌<◌, arith, lt→ltb, le→ltb_false, Bool-cases, Option, some, List,
  [], ◌∷◌, ◌++◌, append_assoc, if◌then◌else◌, inl, inr, All, length, length-append, Bytes,
}
use linux_system_monitoring.Posix.{Calls, Kept, IsPosix, Waits}
use linux_system_monitoring.MessageQueue.{mq}
use linux_system_monitoring.MessageQueue.Sending.{Waits-refl, Waits-trans, send_to_mq_lem}
use linux_system_monitoring.Inotify.{Event, event_at, is_modify}
use linux_system_monitoring.Inotify.Walk.{
  Raw, IsRaw, encode, encode_all, event_at-encode, name_field, length-encode,
}
use linux_system_monitoring.Pacct.Values.{Acct, Printing, construct_payload}
use linux_system_monitoring.Pacct.Monitor.{
  max_msg_size, File, records_from, send_records, send_process_from,
}
use linux_system_monitoring.Pacct.Program.{mq_path}

module _ {W : Type 0} (c : Calls W) (view : W → Kept) (p : Printing)
    (posix : IsPosix c view mq_path) where
  send_records-Waits :
      (rs : List Acct) (last : ℕ) (w : W) → Waits view w (send_records (mq c mq_path) p rs last w).2
  unfolding send_records
  send_records-Waits [] last w = Waits-refl w
  send_records-Waits (r ∷ rs) last w =
      step ((mq c mq_path).send message w) (send_to_mq_lem c view mq_path posix message w)
        (send_records-Waits rs (last + 1))
    where
      message : Bytes
      message = construct_payload p r (c.get_timestamp w) max_msg_size

      step :
          (s : ℕ × W)
          → Waits view w s.1
          → ((v : W) → Waits view v (send_records (mq c mq_path) p rs (last + 1) v).2)
          → Waits view w
              (if s.0 == 1
                then (1, last, s.1)
                else send_records (mq c mq_path) p rs (last + 1) s.1).2
      step (f, w') sent later = elim (Bool-cases (f == 1)) [
        | inl bad ↦ rw bad sent
        | inr good ↦ rw good (Waits-trans sent (later w'))
      ]

  -- The walk is defined, and the files, the queue and accounting stay as they are.
  abbrev Walks : W → Option (ℕ × W) → Type 0
  Walks w result = (f : ℕ) × (w' : W) × (result ≡ some (f, w')) × Waits view w w'

  pub send_process_from-Walks :
      (rs : List Raw) (fuel : ℕ) (front : Bytes) (i len : ℕ) (file : File) (last : ℕ) (w : W)
      → All IsRaw rs
      → i ≡ length front
      → len ≡ length front + length (encode_all rs)
      → length (encode_all rs) < fuel
      → Walks w (send_process_from (mq c mq_path) p fuel (front ++ encode_all rs) i len file last w)
  send_process_from-Walks rs zero front i len file last w ok e l f = absurd (omega arith)
  send_process_from-Walks [] (suc fuel) front i len file last w ok e l f =
      (0, w, unfold send_process_from in rw (le→ltb_false i len (omega arith)), Waits-refl w)
  send_process_from-Walks (r ∷ rs) (suc fuel) front i len file last w ok e l f =
      let (ev, found, reads) = event_at-encode front r (encode_all rs) i e ok.0 in
      step ev found reads.len (λ last' w'.
        send_process_from-Walks rs fuel (front ++ encode r) (i + (16 + length (name_field r))) len
          file last' w' ok.1 (omega (arith, length-append front (encode r), length-encode r))
          (omega (arith, length-append front (encode r), size))
          (omega (arith, size, length-encode r)))
    where
      size : length (encode r ++ encode_all rs) ≡ length (encode r) + length (encode_all rs)
      size = length-append (encode r) (encode_all rs)

      rest : ℕ → W → Option (ℕ × W)
      rest last' w' =
          send_process_from (mq c mq_path) p fuel (front ++ (encode r ++ encode_all rs))
            (i + (16 + length (name_field r))) len file last' w'

      onward :
          (s : ℕ × ℕ × W)
          → Waits view w s.2
          → ((last' : ℕ) (w' : W) → Walks w' (rest last' w'))
          → Walks w (if s.0 == 1 then some (1, s.2) else rest s.1 s.2)
      onward (g, last', w') kept later = elim (Bool-cases (g == 1)) [
        | inl bad ↦ (1, w', rw bad, kept)
        | inr good ↦
            let (h, w2, runs, more) = later last' w' in (h, w2, rw good runs, Waits-trans kept more)
      ]

      step :
          (ev : Event)
          → event_at (front ++ (encode r ++ encode_all rs)) i ≡ some ev
          → ev.len ≡ length (name_field r)
          → ((last' : ℕ) (w' : W)
              → Walks w' (
                  send_process_from
                    (mq c mq_path)
                    p
                    fuel
                    ((front ++ encode r) ++ encode_all rs)
                    (i + (16 + length (name_field r)))
                    len
                    file
                    last'
                    w'))
          → Walks w (
              send_process_from
                (mq c mq_path)
                p
                (suc fuel)
                (front ++ (encode r ++ encode_all rs))
                i
                len
                file
                last
                w)
      step ev found size_of later =
          let later' : (last' : ℕ) (w' : W) → Walks w' (rest last' w') =
            (rw (append_assoc front (encode r) (encode_all rs)) at later) in
          unfold send_process_from in
          elim (Bool-cases (is_modify ev)) [
            | inl new ↦
                rw (lt→ltb i len (omega (arith, size)), found, new, size_of)
                  (onward
                    (send_records (mq c mq_path) p (records_from file i last).1
                      (records_from file i last).0 w)
                    (send_records-Waits (records_from file i last).1 (records_from file i last).0 w)
                    later')
            | inr old ↦ rw (lt→ltb i len (omega (arith, size)), found, old, size_of) (later' last w)
          ]
