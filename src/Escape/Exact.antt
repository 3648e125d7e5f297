-- ===== src/Escape/Exact.antt =====
-- The two escapers in closed form: what they leave in the buffer, for any size of it.
use linux_system_monitoring.Base.{
  ℕ, zero, suc, ◌+◌, ◌-◌, ◌^◌, ◌≤◌, ◌<◌, ◌≡◌, refl, ap, inl, inr, Bool, true, false, ◌&&◌, Option,
  some, [], ◌∷◌, ◌++◌, append-nil, append_assoc, arith, ltb, if◌then◌else◌, Bool-cases, length,
  length-append, length-concat, Bytes, sub_size, lt→ltb, le→ltb_false,
}
use linux_system_monitoring.Memory.{filled, write-filled, write_one, write_two}
use linux_system_monitoring.Escape.{Escaped, escape_char, escape_loop, finish}

module _ (special : ℕ → Bool) where
  -- The escaped form of one character.
  abbrev pub escaped_char : ℕ → Bytes
  escaped_char c = if special c then b'\\' ∷ c ∷ [] else c ∷ []

  -- The escaped form of a value.
  abbrev pub escaped : Bytes → Bytes
  escaped [] = []
  escaped (c ∷ cs) = escaped_char c ++ escaped cs

  -- What goes into `room` cells of the buffer: the last cell takes a character as it is.
  unfoldable pub emitted : Bytes → ℕ → Bytes
  emitted [] room = []
  emitted (c ∷ cs) zero = []
  emitted (c ∷ cs) (suc zero) = c ∷ emitted cs zero
  emitted (c ∷ cs) (suc (suc r)) = escaped_char c ++ emitted cs (if special c then r else suc r)

module _ (special : ℕ → Bool) (start : Bytes) (n : ℕ) (small : n < 2 ^ 64)
    (fits : n ≤ length start) where
  plain :
      (c : ℕ) (done : Bytes)
      → length done < n
      → (special c && ltb (length done) (sub_size n 2)) ≡ false
      → escape_char special n c (length done) (filled start done)
        ≡ some (filled start (done ++ (c ∷ [])), length (done ++ (c ∷ [])))
  unfolding escape_char
  plain c done h e = rw e (write_one start done c (omega arith))

  backslashed :
      (c : ℕ) (done : Bytes)
      → length done + 2 < n
      → special c ≡ true
      → escape_char special n c (length done) (filled start done)
        ≡ some (filled start (done ++ (b'\\' ∷ c ∷ [])), length (done ++ (b'\\' ∷ c ∷ [])))
  unfolding escape_char
  backslashed c done h e =
      rw (e, lt→ltb (length done) (sub_size n 2) (omega arith))
        (write_two start done b'\\' c (omega arith))

  -- What the call leaves, once `out` is all that was written in front of the NUL.
  abbrev pub left : Bytes → Option Escaped
  left out = some (record { ret = length out; output = some (filled start (out ++ (0 ∷ []))) })

  finish_lem :
      (done : Bytes)
      → length done < n
      → finish (special) n (length done) (filled start done) ≡ left done
  unfolding finish
  finish_lem done h = rw (write-filled start done 0 (omega arith) (length done) refl)

  -- One round, and what is left of the loop as the induction hypothesis.
  round :
      (c : ℕ) (cs done : Bytes) (now : Bytes)
      → suc (length done) < n
      → escape_char special n c (length done) (filled start done)
        ≡ some (filled start (done ++ now), length (done ++ now))
      → (later : Bytes)
      → escape_loop special n cs (length (done ++ now)) (filled start (done ++ now))
        ≡ left ((done ++ now) ++ later)
      → escape_loop special n (c ∷ cs) (length done) (filled start done)
        ≡ left (done ++ (now ++ later))
  unfolding escape_loop
  round c cs done now h char later ih =
      rw (lt→ltb (length done) (sub_size n 1) (omega arith), char, ih)
        (ap left (append_assoc done now later))

  escape_loop_lem :
      (v done : Bytes) (room : ℕ)
      → suc (length done + room) ≡ n
      → escape_loop special n v (length done) (filled start done)
        ≡ left (done ++ emitted special v room)
  unfolding emitted
  escape_loop_lem [] done room e =
      rw append-nil (unfold escape_loop in finish_lem done (omega arith))
  escape_loop_lem (c ∷ cs) done zero e = rw append-nil (
      unfold escape_loop in
      rw (le→ltb_false (length done) (sub_size n 1) (omega arith)) (finish_lem done (omega arith)))
  escape_loop_lem (c ∷ cs) done (suc zero) e =
      round c cs done (c ∷ []) (omega arith) (plain c done (omega arith) (ground arith))
        (emitted special cs zero)
        (escape_loop_lem cs (done ++ (c ∷ [])) zero (omega (arith, length-concat done c)))
  escape_loop_lem (c ∷ cs) done (suc (suc r)) e = elim (Bool-cases (special c)) [
    | inl s ↦ rw s (
        round c cs done (b'\\' ∷ c ∷ []) (omega arith) (backslashed c done (omega arith) s)
          (emitted special cs r)
          (escape_loop_lem cs (done ++ (b'\\' ∷ c ∷ [])) r
            (omega (arith, length-append done (b'\\' ∷ c ∷ [])))))
    | inr p ↦ rw p (
        round c cs done (c ∷ []) (omega arith) (plain c done (omega arith) (rw p))
          (emitted special cs (suc r))
          (escape_loop_lem cs (done ++ (c ∷ [])) (suc r) (omega (arith, length-concat done c))))
  ]

  -- The loop from the start, in a buffer with at least one cell.
  pub escape_loop-start :
      (v : Bytes) → 0 < n → escape_loop special n v 0 start ≡ left (emitted special v (n - 1))
  escape_loop-start v h = escape_loop_lem v [] (n - 1) (omega arith)
