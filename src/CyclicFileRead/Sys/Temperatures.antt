-- ===== src/CyclicFileRead/Sys/Temperatures.antt =====
-- The lines of temperatures, and the way of the chips into the queue.
use linux_system_monitoring.Base.{
  Option, none, some, true, false, ℕ, zero, suc, ◌+◌, ◌==◌, ◌≡◌, ◌≤◌, ◌<◌, refl, sym, ap, subst,
  ◌∙◌, arith, ltb, Bool, Bool-cases, inl, inr, true, false, ◌&&◌, not, some, List, [], ◌∷◌, ◌++◌,
  append-nil, append_assoc, if◌then◌else◌, All, length, length-append, Bytes, codes,
}
use linux_system_monitoring.CyclicFileRead.Queue.{State, Surroundings, empty_queue}
use linux_system_monitoring.CyclicFileRead.Fifo.{Holds, enqueue_refines, empty_queue-Holds}
use linux_system_monitoring.CyclicFileRead.Text.{strcat}
use linux_system_monitoring.CyclicFileRead.Lines.{strcat_fits}
use linux_system_monitoring.CyclicFileRead.Disk.Messages.{IsGenerous}
use linux_system_monitoring.CyclicFileRead.Stat.Messages.{stamp}
use linux_system_monitoring.CyclicFileRead.Sys.{
  Subfeature, Feature, Chip, has_dot, go_on, value_text, append_subfeature, append_subfeatures,
  append_features, chip_message, each_chip, sys,
}

-- Whether there is a dot in a text.
abbrev pub holds_dot : Bytes → Bool
holds_dot [] = false
holds_dot (c ∷ cs) = if c == b'.' then true else holds_dot cs

has_dot_lem : (s : Bytes) → has_dot s ≡ holds_dot s
unfolding has_dot
has_dot_lem [] = refl
has_dot_lem (c ∷ cs) = rw (has_dot_lem cs) refl

module _ {F : Type 0} (print : F → Bytes) where
  -- A value, 0.00 where it cannot be read.
  abbrev pub shown_value : Option F → Bytes
  shown_value none = codes "0.00"
  shown_value (some v) = print v

  -- What a subfeature, the subfeatures of a feature, and the features of a chip give; a comma stands
  -- between temperatures, also where one gives nothing.
  abbrev pub reading : Bytes → Subfeature F → Bytes
  reading name sub =
      if sub.is_input && not (sub.flags == 0) then name ++ (b'=' ∷ shown_value sub.value) else []

  abbrev pub readings : Bytes → List (Subfeature F) → Bytes
  readings name [] = []
  readings name (sub ∷ subs) = reading name sub ++ readings name subs

  abbrev pub temperatures : Bool → List (Feature F) → Bytes
  temperatures first [] = []
  temperatures first (f ∷ fs) =
      if f.is_temperature
      then (if first then [] else codes ",")
        ++ (readings f.name f.subfeatures ++ temperatures false fs)
      else temperatures first fs

  abbrev pub chip_line : Chip F → Bytes
  chip_line c = (codes "sys-temp,chip=" ++ (c.prefix ++ codes " ")) ++ temperatures true c.features

  -- The lines of the chips with a temperature.
  abbrev pub chip_lines : List (Chip F) → List Bytes
  chip_lines [] = []
  chip_lines (c ∷ cs) =
      if holds_dot (chip_line c) then (chip_line c ++ codes " ") ∷ chip_lines cs else chip_lines cs

  -- Each reading fits into its array.
  abbrev pub IsNamed : Feature F → Type 0
  IsNamed f = All (λ sub. length (f.name ++ (b'=' ∷ shown_value sub.value)) < 64) f.subfeatures

  pub record IsChip (c : Chip F) : Type 0 where
    pub named : All IsNamed c.features
    pub short : length (chip_line c) ≤ 900

  append_subfeatures_lem :
      (name : Bytes) (subs : List (Subfeature F)) (message : Bytes)
      → All (λ sub. length (name ++ (b'=' ∷ shown_value sub.value)) < 64) subs
      → length message + length (readings name subs) < 1024
      → append_subfeatures print name subs message ≡ some (message ++ readings name subs)
  unfolding append_subfeatures append_subfeature value_text
  append_subfeatures_lem name [] message ok fits = ap some (sym (append-nil message))
  append_subfeatures_lem name (sub ∷ subs) message (ok, oks) fits =
      elim (Bool-cases (sub.is_input && not (sub.flags == 0))) [
        | inl read ↦
            let text = name ++ (b'=' ∷ shown_value sub.value) in
            let long : length message + (length text + length (readings name subs)) < 1024 =
              omega (arith, rw read at fits, length-append text (readings name subs)) in
            rw
              (
                read,
                strcat_fits 64 [] text (omega (arith, ok)),
                strcat_fits 1024 message text (omega (arith, long)),
              )
              (append_subfeatures_lem name subs (message ++ text) oks
                  (omega (arith, long, length-append message text))
                ∙ ap some (append_assoc message text (readings name subs)))
        | inr other ↦ rw other (append_subfeatures_lem name subs message oks (rw other at fits))
      ]

  -- A comma in front of all temperatures but the first.
  abbrev comma : Bool → Bytes
  comma first = if first then [] else codes ","

  separated_lem :
      (n : ℕ) (message : Bytes)
      → length message + 1 < 1024
      → (if ltb 0 n then strcat 1024 message (codes ",") else some message)
        ≡ some (message ++ comma (n == 0))
  separated_lem zero message h = ap some (sym (append-nil message))
  separated_lem (suc n) message h =
      let later : ltb 0 (suc n) ≡ true = ground arith in
      let other : (suc n == 0) ≡ false = ground arith in
      rw (later, other) (strcat_fits 1024 message (codes ",") (omega arith))

  -- A feature and those behind it.
  split_lem :
      (first : Bool) (f : Feature F) (fs : List (Feature F))
      → length (comma first ++ (readings f.name f.subfeatures ++ temperatures false fs))
        ≡ length (comma first)
          + (length (readings f.name f.subfeatures) + length (temperatures false fs))
  split_lem first f fs = omega (
    arith,
    length-append (comma first) (readings f.name f.subfeatures ++ temperatures false fs),
    length-append (readings f.name f.subfeatures) (temperatures false fs),
  )

  append_features_lem :
      (fs : List (Feature F)) (n : ℕ) (message : Bytes)
      → All IsNamed fs
      → length message + length (temperatures (n == 0) fs) + 1 < 1024
      → append_features print n fs message ≡ some (message ++ temperatures (n == 0) fs)
  unfolding append_features
  append_features_lem [] n message ok fits = ap some (sym (append-nil message))
  append_features_lem (f ∷ fs) n message (ok, oks) fits = elim (Bool-cases f.is_temperature) [
    | inl hot ↦
        let first = n == 0 in
        let row = readings f.name f.subfeatures in
        let long : length message
              + (length (comma first) + (length row + length (temperatures false fs)))
              + 1
            < 1024 =
          omega (arith, rw hot at fits, split_lem first f fs) in
        let size : length (message ++ comma first) ≡ length message + length (comma first) =
          length-append message (comma first) in
        rw
          (
            hot,
            separated_lem n message (omega (arith, long)),
            append_subfeatures_lem f.name f.subfeatures (message ++ comma first) ok
                (omega (arith, long, size)),
          )
          (later n ((message ++ comma first) ++ row)
              (append_features_lem fs (n + 1) ((message ++ comma first) ++ row) oks)
              (omega (arith, long, size, length-append (message ++ comma first) row))
            ∙ ap some (
                append_assoc (message ++ comma first) row (temperatures false fs)
                ∙ append_assoc message (comma first) (row ++ temperatures false fs)))
    | inr cold ↦ rw cold (append_features_lem fs n message oks (rw cold at fits))
  ]
    where
      later :
          (n : ℕ) (m : Bytes)
          → (length m + length (temperatures (n + 1 == 0) fs) + 1 < 1024
              → append_features print (n + 1) fs m ≡ some (m ++ temperatures (n + 1 == 0) fs))
          → length m + length (temperatures false fs) + 1 < 1024
          → append_features print (n + 1) fs m ≡ some (m ++ temperatures false fs)
      later n m ih h = let zero? : (n + 1 == 0) ≡ false = ground arith in (rw zero? at ih) h

  chip_message_lem : (c : Chip F) → IsChip c → chip_message print c ≡ some (chip_line c)
  unfolding chip_message
  chip_message_lem c ok =
      let head = codes "sys-temp,chip=" ++ (c.prefix ++ codes " ") in
      let long : length head + length (temperatures true c.features) ≤ 900 =
        omega (arith, ok.short, length-append head (temperatures true c.features)) in
      rw (strcat_fits 1024 [] head (omega (arith, long)))
        (append_features_lem c.features 0 head ok.named (omega (arith, long)))

  module _ (env : Surroundings) (g : IsGenerous env) where
    each_chip_lem :
        (cs : List (Chip F)) (s : State) (ms : List Bytes)
        → All IsChip cs
        → Holds s ms
        → (s' : State) × (each_chip print env cs s ≡ some (0, s'))
          × Holds s' (ms ++ stamp env s.fresh (chip_lines cs))
          × (s'.sent ≡ s.sent)
    unfolding each_chip go_on
    each_chip_lem [] s ms ok h = (s, refl, subst (Holds s) (sym (append-nil ms)) h, refl)
    each_chip_lem (c ∷ cs) s ms (ok, oks) h = elim (Bool-cases (holds_dot (chip_line c))) [
      | inl dot ↦
          let line = chip_line c ++ codes " " in
          let size : length line ≡ length (chip_line c) + 1 =
            length-append (chip_line c) (codes " ") in
          let (s1, queued, holds, kept, next) =
            enqueue_refines env line s ms h (g.grants s.fresh)
              (omega (arith, size, ok.short, g.short s.fresh)) in
          let (s', runs, holds', kept') = each_chip_lem cs s1 _ oks holds in
          (
            s',
            rw
                (
                  chip_message_lem c ok,
                  has_dot_lem (chip_line c) ∙ dot,
                  strcat_fits 1024 (chip_line c) (codes " ") (omega (arith, ok.short)),
                  queued,
                )
                runs,
            rw dot (
                subst (Holds s')
                  (append_assoc ms _ (stamp env s1.fresh (chip_lines cs))
                    ∙ ap
                        (λ k. ms ++ ((line ++ env.timestamp s.fresh) ∷ stamp env k (chip_lines cs)))
                        next)
                  holds'),
            kept' ∙ kept,
          )
      | inr none_there ↦
          let (s', runs, holds', kept') = each_chip_lem cs s ms oks h in
          (
            s',
            rw (chip_message_lem c ok, has_dot_lem (chip_line c) ∙ none_there) runs,
            rw none_there holds',
            kept',
          )
    ]

    -- When memory is there, timestamps fit, the queue is empty, and every chip has readings
    -- shorter than 64 characters and a line of at most 900, `sys` returns 0 and queues, in
    -- order, one line for each chip whose text has a dot, with a comma between its
    -- temperatures and the names and values of those inputs whose flags are not 0, 0.00 for a
    -- value that cannot be read, and nothing for the other chips; it sends nothing.
    pub sys_lem :
        (cs : List (Chip F)) (s : State)
        → All IsChip cs
        → Holds s []
        → (s' : State) × (sys print env (some cs) s ≡ some (0, s'))
          × Holds s' (stamp env s.fresh (chip_lines cs))
          × (s'.sent ≡ s.sent)
    unfolding sys empty_queue
    sys_lem cs s ok h = each_chip_lem cs (empty_queue s) [] ok (empty_queue-Holds s h)
