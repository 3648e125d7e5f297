-- ===== src/Journal/Overflow.antt =====
-- When the journal's escaper stays inside its buffer, and when it does not.
use linux_system_monitoring.Base.{
  ℕ, ◌+◌, ◌^◌, ◌≤◌, ◌<◌, ◌≡◌, refl, sym, ap, ◌∙◌, inl, inr, true, false, none, some, [], ◌∷◌, ◌++◌,
  append-nil, append_assoc, arith, ◌==◌, length, Bytes, Bool-cases, lt→ltb, le→ltb_false,
  length-append, length-concat, sub_size,
}
use linux_system_monitoring.Memory.{
  filled, write-filled, write_one, write_two, write-out_of_bounds, length-filled,
}
use linux_system_monitoring.Escape.{is_field_special}
use linux_system_monitoring.Escape.Exact.{escaped_char, escaped}
use linux_system_monitoring.Escape.Calls.{IsBuffer, Writes}
use linux_system_monitoring.Journal.Text.{escape_char, finish, escape_loop, escape_field_value}

module _ (start : Bytes) (n : ℕ) (small : n < 2 ^ 64) (fits : n ≤ length start) where
  escaped_char_pos : (c : ℕ) → 0 < length (escaped_char is_field_special c)
  escaped_char_pos c = ground arith

  round :
      (c : ℕ) (done : Bytes)
      → length (done ++ escaped_char is_field_special c) ≤ n
      → escape_char c (length done) (filled start done)
        ≡ some (
          filled start (done ++ escaped_char is_field_special c),
          length (done ++ escaped_char is_field_special c),
        )
  unfolding escape_char
  round c done h = elim (Bool-cases (is_field_special c)) [
    | inl s ↦ rw s (write_two start done b'\\' c (two s))
    | inr p ↦ rw p (write_one start done c (one p))
  ]
    where
      two : is_field_special c ≡ true → length done + 1 < length start
      two s = omega (arith, rw s at h, length-append done (b'\\' ∷ c ∷ []))

      one : is_field_special c ≡ false → length done < length start
      one p = omega (arith, rw p at h, length-concat done c)

  -- As long as the escaped text fits, the loop writes it, and goes on behind it.
  pub escape_loop-escaped :
      (v w done : Bytes)
      → length (done ++ escaped is_field_special v) < n
      → escape_loop n (v ++ w) (length done) (filled start done)
        ≡ escape_loop n w
            (length (done ++ escaped is_field_special v))
            (filled start (done ++ escaped is_field_special v))
  escape_loop-escaped [] w done h = rw append-nil
  escape_loop-escaped (c ∷ cs) w done h =
      step
      ∙ escape_loop-escaped cs w (done ++ escaped_char is_field_special c) (rw append_assoc h)
      ∙ rw append_assoc
    where
      bound : length done + 1 < n
      bound = omega (
        arith,
        length-append done (escaped is_field_special (c ∷ cs)),
        length-append (escaped_char is_field_special c) (escaped is_field_special cs),
        escaped_char_pos c,
      )

      inside : length (done ++ escaped_char is_field_special c) ≤ n
      inside = omega (
        arith,
        length-append done (escaped is_field_special (c ∷ cs)),
        length-append done (escaped_char is_field_special c),
        length-append (escaped_char is_field_special c) (escaped is_field_special cs),
      )

      step :
          escape_loop n (c ∷ (cs ++ w)) (length done) (filled start done)
          ≡ escape_loop n
              (cs ++ w)
              (length (done ++ escaped_char is_field_special c))
              (filled start (done ++ escaped_char is_field_special c))
      step =
          unfold escape_loop in
          rw (lt→ltb (length done) (sub_size n 1) (omega (arith, bound)), round c done inside)

-- From the last cell on the loop stops.
stops :
    (n : ℕ) (w : Bytes) (j : ℕ) (output : Bytes)
    → sub_size n 1 ≤ j
    → escape_loop n w j output ≡ finish j output
unfolding escape_loop
stops n [] j output h = refl
stops n (c ∷ cs) j output h = rw (le→ltb_false j (sub_size n 1) h)

-- When the escaped value is shorter than the buffer, the escaper of the journal publisher stays
-- inside it, leaves the whole escaped value with a NUL, and returns its length.
pub escape_field_value_within :
    (v o : Bytes) (n : ℕ)
    → IsBuffer o n
    → length (escaped is_field_special v) < n
    → Writes (escape_field_value (some v) (some o) n) o n (escaped is_field_special v)
unfolding escape_field_value finish
escape_field_value_within v o n b h = record { result = rw nonzero (whole ∙ last); terminated = h }
  where
    out : Bytes
    out = escaped is_field_special v

    nonzero : (n == 0) ≡ false
    nonzero = ground (arith, b.some_room)

    whole : escape_loop n v 0 o ≡ escape_loop n [] (length out) (filled o out)
    whole =
        ap (λ t. escape_loop n t 0 o) (sym (append-nil v))
        ∙ escape_loop-escaped o n b.is_size b.in_memory v [] [] h

    last :
        escape_loop n [] (length out) (filled o out)
        ≡ some (record { ret = length out; output = some (filled o (out ++ (0 ∷ []))) })
    last =
        unfold escape_loop in
        rw (write-filled o out 0 (omega (arith, h, b.in_memory)) (length out) refl)

-- When the text in front of a special character escapes to two less than the buffer has cells,
-- the escaper of the journal publisher writes behind the end of the buffer.
pub escape_field_value_overflows :
    (u : Bytes) (d : ℕ) (w o : Bytes) (n : ℕ)
    → IsBuffer o n
    → length o ≡ n
    → length (escaped is_field_special u) + 2 ≡ n
    → is_field_special d ≡ true
    → escape_field_value (some (u ++ (d ∷ w))) (some o) n ≡ none
unfolding escape_field_value
escape_field_value_overflows u d w o n b exact full sp =
    rw nonzero
      (escape_loop-escaped o n b.is_size b.in_memory u (d ∷ w) [] (omega arith) ∙ last_char ∙ past)
  where
    out : Bytes
    out = escaped is_field_special u

    pair : Bytes
    pair = b'\\' ∷ d ∷ []

    nonzero : (n == 0) ≡ false
    nonzero = ground (arith, b.some_room)

    long : length (out ++ pair) ≡ n
    long = omega (arith, length-append out pair)

    last_char :
        escape_loop n (d ∷ w) (length out) (filled o out)
        ≡ escape_loop n w (length (out ++ pair)) (filled o (out ++ pair))
    last_char =
        unfold escape_loop escape_char in
        rw (lt→ltb (length out) (sub_size n 1) (omega (arith, full, b.is_size)), sp)
          (rw (write_two o out b'\\' d (omega (arith, exact, full))))

    past : escape_loop n w (length (out ++ pair)) (filled o (out ++ pair)) ≡ none
    past =
        stops n w _ _ (omega (arith, long, b.is_size, b.some_room))
        ∙ (unfold finish in
            rw (
              write-out_of_bounds (filled o (out ++ pair)) (length (out ++ pair)) 0
                (omega (arith, long, exact, length-filled o (out ++ pair)))))
