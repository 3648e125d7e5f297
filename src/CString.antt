-- ===== src/CString.antt =====
-- The C library on strings, as the programs call it: `strchr`, `snprintf`, `strcmp`, decimal output.
use linux_system_monitoring.Base.{
  List, concat, length-append, ◌+◌, refl, sym, ℕ, zero, suc, ◌-◌, ◌≡◌, ◌<◌, arith, Bool, true,
  false, ◌&&◌, Option, none, some, [], ◌∷◌, ◌==◌, if◌then◌else◌, length, take, take_of_le, Bytes,
}
use mathlib.Core.Bool.{true≢false}

-- The position of the first `c`.
unfoldable pub strchr : ℕ → Bytes → Option ℕ
strchr c [] = none
strchr c (d ∷ ds) =
    if d == c then some 0 else elim (strchr c ds) [ none ↦ none | some k ↦ some (suc k) ]

-- `strcmp(a, b) == 0`
unfoldable pub str_eq : Bytes → Bytes → Bool
str_eq [] [] = true
str_eq (a ∷ as') (b ∷ bs) = a == b && str_eq as' bs
str_eq _ _ = false

pub str_eq_sound : (a b : Bytes) → str_eq a b ≡ true → a ≡ b
unfolding str_eq
str_eq_sound [] [] h = refl
str_eq_sound [] (b ∷ bs) h = absurd (true≢false (sym h))
str_eq_sound (a ∷ as') [] h = absurd (true≢false (sym h))
str_eq_sound (a ∷ as') (b ∷ bs) h = ground (arith, h, str_eq_sound as' bs)

-- What `snprintf` leaves in a buffer of `size` cells, `size` not 0, for the formatted text.
unfoldable pub snprintf : ℕ → Bytes → Bytes
snprintf size text = take (size - 1) text

pub snprintf_fits : (size : ℕ) (text : Bytes) → length text < size → snprintf size text ≡ text
unfolding snprintf
snprintf_fits size text h = take_of_le (size - 1) text (omega arith)

-- `s[i]`, with the final NUL and 0 behind it.
unfoldable pub char_at : Bytes → ℕ → ℕ
char_at [] i = 0
char_at (c ∷ cs) zero = c
char_at (c ∷ cs) (suc i) = char_at cs i

-- The lengths of the texts, added up.
abbrev pub total : List Bytes → ℕ
total [] = 0
total (t ∷ ts) = length t + total ts

pub length_of_concat : (ts : List Bytes) → length (concat ts) ≡ total ts
length_of_concat [] = refl
length_of_concat (t ∷ ts) = omega (arith, length-append t (concat ts), length_of_concat ts)
