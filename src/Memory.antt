-- ===== src/Memory.antt =====
-- Character arrays: writes that fault out of bounds, and what a row of them leaves behind.
use linux_system_monitoring.Base.{
  ℕ, suc, ◌+◌, ◌≡◌, ◌<◌, ◌≤◌, le→ltb_false, refl, sym, ◌+◌, ◌>>=◌, ◌∙◌, ap, arith, Option, none,
  some, [], ◌∷◌, ◌++◌, append_assoc, ltb, if◌then◌else◌, lt→ltb, length, set, drop, length-append,
  length-drop, length-concat, set-append, drop-cons, Bytes,
}

-- `buf[j] = c`
unfoldable pub write : Bytes → ℕ → ℕ → Option Bytes
write buf j c = if ltb j (length buf) then some (set buf j c) else none

-- The array `start` once its first cells hold `done`.
abbrev pub filled : Bytes → Bytes → Bytes
filled start done = done ++ drop (length done) start

module _ (start done : Bytes) (c : ℕ) (h : length done < length start) where
  set-filled : set (filled start done) (length done) c ≡ filled start (done ++ (c ∷ []))
  set-filled = joined
    where
      next : suc (length done) ≡ length (done ++ (c ∷ []))
      next = omega (arith, length-concat done c)

      joined : set (filled start done) (length done) c ≡ filled start (done ++ (c ∷ []))
      joined =
          let (x, e) = drop-cons (length done) start h in
          ap (λ t. set (done ++ t) (length done) c) e
          ∙ set-append done x _ c
          ∙ sym (append_assoc done (c ∷ []) _)
          ∙ ap (λ k. (done ++ (c ∷ [])) ++ drop k start) next

  -- A write just behind what is written extends it.
  pub write-filled :
      (j : ℕ)
      → j ≡ length done
      → write (filled start done) j c ≡ some (filled start (done ++ (c ∷ [])))
  unfolding write
  write-filled j e = rw (e, lt→ltb _ _ inside) (ap some set-filled)
    where
      inside : length done < length (filled start done)
      inside =
          omega
            (arith, length-append done (drop (length done) start), length-drop (length done) start)

-- A write behind the end faults.
pub write-out_of_bounds : (buf : Bytes) (j c : ℕ) → length buf ≤ j → write buf j c ≡ none
unfolding write
write-out_of_bounds buf j c h = rw (le→ltb_false _ _ h)

-- Filling keeps the length.
pub length-filled :
    (start done : Bytes) → length done ≤ length start → length (filled start done) ≡ length start
length-filled start done h =
    omega (arith, length-append done (drop (length done) start), length-drop (length done) start)

-- What a loop body that writes one or two characters hands on: the buffer and the next index.
module _ (start done : Bytes) where
  abbrev pub grown : Bytes → Bytes × ℕ
  grown out = (filled start (done ++ out), length (done ++ out))

  pub write_one :
      (c : ℕ)
      → length done < length start
      → (do o ← write (filled start done) (length done) c; some (o, length done + 1))
        ≡ some (grown (c ∷ []))
  write_one c h =
      rw (write-filled start done c h (length done) refl)
        (ap (λ k. some (filled start (done ++ (c ∷ [])), k)) (sym (length-concat done c)))

  pub write_two :
      (b c : ℕ)
      → length done + 1 < length start
      → (do
        o ← write (filled start done) (length done) b
        o' ← write o (length done + 1) c
        some (o', length done + 1 + 1))
        ≡ some (grown (b ∷ c ∷ []))
  write_two b c h = rw (write-filled start done b (omega arith) (length done) refl) (
      rw
        (write-filled start (done ++ (b ∷ [])) c (omega (arith, length-concat done b))
          (length done + 1) (sym (length-concat done b)))
        (cc (append_assoc done (b ∷ []) (c ∷ []), two)))
    where
      two : length done + 1 + 1 ≡ length (done ++ (b ∷ c ∷ []))
      two = omega (arith, length-append done (b ∷ c ∷ []))
