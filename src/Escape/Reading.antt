-- ===== src/Escape/Reading.antt =====
-- How the receiver reads escaped text back: the readers of Influx line protocol that the escapers
-- write for, and what they make of the escaped form of a value.
use linux_system_monitoring.Base.{
  ℕ, zero, suc, ◌+◌, ◌≤◌, ◌≡◌, ◌≢◌, refl, sym, ap, ◌⊎◌, inl, inr, Bool, true, false, Option, none,
  some, [], ◌∷◌, ◌++◌, append-nil, append_assoc, arith, ◌==◌, ◌||◌, if◌then◌else◌, All, length,
  take, length-zero, Bytes,
}
use linux_system_monitoring.Escape.{is_tag_special, is_field_special}
use linux_system_monitoring.Escape.Exact.{escaped, emitted}

-- A backslash that waits for the next character.
abbrev pub pending : Bool → Bytes
pending true = b'\\' ∷ []
pending false = []

-- Decode a value: a backslash in front of a special character is dropped. The flag says that a
-- backslash has been read and waits.
abbrev pub decode : (ℕ → Bool) → Bool → Bytes → Bytes
decode special p [] = pending p
decode special false (c ∷ cs) =
    if c == b'\\' then decode special true cs else c ∷ decode special false cs
decode special true (c ∷ cs) =
    if special c
    then c ∷ decode special false cs
    else b'\\' ∷ (if c == b'\\' then decode special true cs else c ∷ decode special false cs)

abbrev push : ℕ → Option (Bytes × Bytes) → Option (Bytes × Bytes)
push c none = none
push c (some (v, rest)) = some (c ∷ v, rest)

-- The characters that the line protocol escapes in a string field: a quote and a backslash; and those
-- that end a tag value, or its key: a comma, an equals sign and a blank.
abbrev pub is_quoted : ℕ → Bool
is_quoted c = c == b'"' || c == b'\\'

abbrev pub is_separator : ℕ → Bool
is_separator c = c == b',' || c == b'=' || c == b' '

-- Read a string field behind its opening quote, up to the closing one: the value and the rest.
unfoldable pub read_string : Bool → Bytes → Option (Bytes × Bytes)
read_string p [] = none
read_string false (c ∷ cs) =
    if c == b'"'
    then some ([], cs)
    else if c == b'\\'
    then read_string true cs
    else push c (read_string false cs)
read_string true (c ∷ cs) =
    if is_quoted c
    then push c (read_string false cs)
    else push b'\\' (push c (read_string false cs))

-- Read a tag value up to the first separator that is not escaped: the value and the rest.
unfoldable pub read_tag : Bool → Bytes → Option (Bytes × Bytes)
read_tag p [] = none
read_tag false (c ∷ cs) =
    if is_separator c
    then some ([], c ∷ cs)
    else if c == b'\\'
    then read_tag true cs
    else push c (read_tag false cs)
read_tag true (c ∷ cs) =
    if is_separator c
    then push c (read_tag false cs)
    else push b'\\' (if c == b'\\' then read_tag true cs else push c (read_tag false cs))

-- The number of characters of the value that fit.
pub fitting : (ℕ → Bool) → Bytes → ℕ → ℕ
fitting special [] room = 0
fitting special (c ∷ cs) zero = 0
fitting special (c ∷ cs) (suc zero) = 1
fitting special (c ∷ cs) (suc (suc r)) = suc (fitting special cs (if special c then r else suc r))

module _ (special : ℕ → Bool) where
  pub emitted-zero : (v : Bytes) → emitted special v zero ≡ []
  unfolding emitted
  emitted-zero [] = refl
  emitted-zero (c ∷ cs) = refl

  -- However little room there is, what is written decodes to the beginning of the value, if no
  -- plain backslash is about.
  pub decode-emitted :
      (v : Bytes) (room : ℕ)
      → (special b'\\' ≡ true) ⊎ All (λ c. c ≢ b'\\') v
      → decode special false (emitted special v room) ≡ take (fitting special v room) v
  unfolding emitted fitting
  decode-emitted [] room h = refl
  decode-emitted (c ∷ cs) zero h = refl
  decode-emitted (c ∷ cs) (suc zero) h = ground (arith, h, emitted-zero cs)
  decode-emitted (c ∷ cs) (suc (suc r)) (inl h) =
      ground (arith, decode-emitted cs r (inl h), decode-emitted cs (suc r) (inl h))
  decode-emitted (c ∷ cs) (suc (suc r)) (inr h) =
      ground (arith, h.0, decode-emitted cs r (inr h.1), decode-emitted cs (suc r) (inr h.1))

  -- Decoding takes a whole escaped value back, plain backslashes included.
  pub decode-escaped :
      (v : Bytes) (p : Bool)
      → (p ≡ false) ⊎ (special b'\\' ≡ false)
      → decode special p (escaped special v) ≡ pending p ++ v
  decode-escaped [] p h = sym (append-nil _)
  decode-escaped (c ∷ cs) true h =
      ground (arith, h, decode-escaped cs true, decode-escaped cs false (inl refl))
  decode-escaped (c ∷ cs) false h =
      ground (arith, h, decode-escaped cs true, decode-escaped cs false (inl refl))

  pub length-emitted : (v : Bytes) (room : ℕ) → length (emitted special v room) ≤ room
  unfolding emitted
  length-emitted [] room = omega arith
  length-emitted (c ∷ cs) zero = omega arith
  length-emitted (c ∷ cs) (suc zero) = omega (arith, length-emitted cs zero)
  length-emitted (c ∷ cs) (suc (suc r)) =
      ground (arith, length-emitted cs r, length-emitted cs (suc r))

  -- Where the escaped form fits it is written whole.
  pub emitted-escaped :
      (v : Bytes) (room : ℕ)
      → length (escaped special v) ≤ room
      → emitted special v room ≡ escaped special v
  unfolding emitted
  emitted-escaped [] room h = refl
  emitted-escaped (c ∷ cs) zero h = ground arith
  emitted-escaped (c ∷ cs) (suc zero) h =
      ground (arith, emitted-zero cs, length-zero (escaped special cs))
  emitted-escaped (c ∷ cs) (suc (suc r)) h =
      ground (arith, emitted-escaped cs r, emitted-escaped cs (suc r))

pub read_string-escaped :
    (v rest : Bytes)
    → read_string false (escaped is_field_special v ++ (b'"' ∷ rest)) ≡ some (v, rest)
unfolding read_string is_field_special
read_string-escaped [] rest = refl
read_string-escaped (c ∷ cs) rest = ground (arith, read_string-escaped cs rest)

-- The last character of a value.
abbrev pub ends_in_backslash : Bool → Bytes → Bool
ends_in_backslash p [] = p
ends_in_backslash p (c ∷ cs) = ends_in_backslash (c == b'\\') cs

push_pending : Bool → Option (Bytes × Bytes) → Option (Bytes × Bytes)
push_pending true o = push b'\\' o
push_pending false o = o

pub read_tag-escaped :
    (p : Bool) (v rest : Bytes)
    → ends_in_backslash p v ≡ false
    → read_tag p (escaped is_tag_special v ++ (b' ' ∷ rest)) ≡ some (pending p ++ v, b' ' ∷ rest)
unfolding read_tag is_tag_special
read_tag-escaped false [] rest h = refl
read_tag-escaped true [] rest h = cc
read_tag-escaped false (c ∷ cs) rest h =
    ground (arith, read_tag-escaped false cs rest, read_tag-escaped true cs rest)
read_tag-escaped true (c ∷ cs) rest h =
    ground (arith, read_tag-escaped false cs rest, read_tag-escaped true cs rest)

-- Where only the last free cell is left for a character, it is written with no backslash.
pub emitted_bare :
    (special : ℕ → Bool) (u : Bytes) (c : ℕ) (w : Bytes) (room : ℕ)
    → room ≡ length (escaped special u) + 1
    → emitted special (u ++ (c ∷ w)) room ≡ escaped special u ++ (c ∷ [])
unfolding emitted
emitted_bare special [] c w zero e = absurd (omega arith)
emitted_bare special [] c w (suc zero) e = ap (◌∷◌ c) (emitted-zero special w)
emitted_bare special [] c w (suc (suc r)) e = absurd (omega arith)
emitted_bare special (d ∷ u) c w zero e = absurd (omega arith)
emitted_bare special (d ∷ u) c w (suc zero) e = ground arith
emitted_bare special (d ∷ u) c w (suc (suc r)) e =
    ground (arith, emitted_bare special u c w r, emitted_bare special u c w (suc r))

-- A string value that was cut in front of the backslash of its quote ends early.
pub read_string_cut :
    (u rest : Bytes)
    → read_string false ((escaped is_field_special u ++ (b'"' ∷ [])) ++ rest) ≡ some (u, rest)
read_string_cut u rest = rw append_assoc (read_string-escaped u rest)

-- A backslash at the end of a tag value escapes the separator behind it.
pub read_tag_swallows :
    (p : Bool) (u rest : Bytes) {v : Bytes} {after : Bytes}
    → read_tag false rest ≡ some (v, after)
    → read_tag p (escaped is_tag_special (u ++ (b'\\' ∷ [])) ++ (b' ' ∷ rest))
      ≡ some (pending p ++ (u ++ (b' ' ∷ v)), after)
unfolding read_tag is_tag_special
read_tag_swallows false [] rest h = ground (arith, h)
read_tag_swallows true [] rest h = ground (arith, h)
read_tag_swallows false (c ∷ cs) rest h =
    ground (arith, read_tag_swallows false cs rest h, read_tag_swallows true cs rest h)
read_tag_swallows true (c ∷ cs) rest h =
    ground (arith, read_tag_swallows false cs rest h, read_tag_swallows true cs rest h)
