-- ===== src/Escape/Calls.antt =====
-- What the two escapers promise a caller: no write outside the buffer, a terminated text in it, and
-- one that the receiver reads back.
use linux_system_monitoring.Base.{
  ℕ, ◌+◌, ◌-◌, ◌^◌, ◌≤◌, ◌<◌, ◌≡◌, refl, subst, inl, false, Option, some, [], ◌∷◌, ◌++◌, arith,
  ◌==◌, length, take, Bytes,
}
use linux_system_monitoring.Memory.{filled}
use linux_system_monitoring.Escape.{
  Escaped, is_tag_special, is_field_special, escape_tag_value, escape_field_value,
}
use linux_system_monitoring.Escape.Exact.{escaped, emitted, escape_loop-start}
use linux_system_monitoring.Escape.Reading.{
  decode, read_string, read_tag, fitting, decode-emitted, decode-escaped, length-emitted,
  emitted-escaped, read_string-escaped, read_tag-escaped, ends_in_backslash, emitted_bare,
  read_string_cut, read_tag_swallows,
}

-- A buffer of at least `n` cells, `n` a `size_t` other than 0.
pub record IsBuffer (o : Bytes) (n : ℕ) : Type 0 where
  pub some_room : 0 < n
  pub is_size : n < 2 ^ 64
  pub in_memory : n ≤ length o

-- The call ends with no write out of bounds: the buffer begins with `out` and a NUL, all of it within the
-- first `n` cells and the rest of it as it was, and the length of `out` is returned.
pub record Writes (call : Option Escaped) (o : Bytes) (n : ℕ) (out : Bytes) : Type 0 where
  pub result : call ≡ some (record { ret = length out; output = some (filled o (out ++ (0 ∷ []))) })
  pub terminated : length out < n

tag_call :
    (v o : Bytes) (n : ℕ)
    → IsBuffer o n
    → Writes (escape_tag_value (some v) (some o) n) o n (emitted is_tag_special v (n - 1))
unfolding escape_tag_value
tag_call v o n b = record {
  result = rw nonzero (escape_loop-start is_tag_special o n b.is_size b.in_memory v b.some_room);
  terminated = omega (arith, length-emitted is_tag_special v (n - 1), b.some_room);
}
  where
    nonzero : (n == 0) ≡ false
    nonzero = ground (arith, b.some_room)

field_call :
    (v o : Bytes) (n : ℕ)
    → IsBuffer o n
    → Writes (escape_field_value (some v) (some o) n) o n (emitted is_field_special v (n - 1))
unfolding escape_field_value
field_call v o n b = record {
  result = rw nonzero (escape_loop-start is_field_special o n b.is_size b.in_memory v b.some_room);
  terminated = omega (arith, length-emitted is_field_special v (n - 1), b.some_room);
}
  where
    nonzero : (n == 0) ≡ false
    nonzero = ground (arith, b.some_room)

-- For every value and every buffer of at least n cells, n not 0, `escape_field_value` writes
-- nothing outside the first n cells, ends the text with a NUL, returns its length, and the text
-- decodes to a prefix of the value.
pub escape_field_value_truncates :
    (v o : Bytes) (n : ℕ)
    → IsBuffer o n
    → (out : Bytes) × (k : ℕ) × Writes (escape_field_value (some v) (some o) n) o n out
      × (decode is_field_special false out ≡ take k v)
unfolding is_field_special
escape_field_value_truncates v o n b = (
  _,
  fitting is_field_special v (n - 1),
  field_call v o n b,
  decode-emitted is_field_special v (n - 1) (inl refl),
)

-- When the escaped value fits into the buffer, what `escape_field_value` leaves there, with a
-- closing quote and any text behind it, is read back as a string field with exactly the value,
-- and the text is left over.
pub escape_field_value-read_string :
    (v o : Bytes) (n : ℕ)
    → IsBuffer o n
    → length (escaped is_field_special v) < n
    → (out : Bytes) × Writes (escape_field_value (some v) (some o) n) o n out
      × ((rest : Bytes) → read_string false (out ++ (b'"' ∷ rest)) ≡ some (v, rest))
escape_field_value-read_string v o n b h = (
  _,
  field_call v o n b,
  λ rest.
      rw (emitted-escaped is_field_special v (n - 1) (omega arith)) (read_string-escaped v rest),
)

-- When the escaped value fits into the buffer and does not end in a backslash, what
-- `escape_tag_value` leaves there, with a blank and any text behind it, is read back as a tag
-- value with exactly the value, and the blank and the text are left over.
pub escape_tag_value-read_tag :
    (v o : Bytes) (n : ℕ)
    → IsBuffer o n
    → length (escaped is_tag_special v) < n
    → ends_in_backslash false v ≡ false
    → (out : Bytes) × Writes (escape_tag_value (some v) (some o) n) o n out
      × ((rest : Bytes) → read_tag false (out ++ (b' ' ∷ rest)) ≡ some (v, b' ' ∷ rest))
escape_tag_value-read_tag v o n b h e = (
  _,
  tag_call v o n b,
  λ rest.
      rw (emitted-escaped is_tag_special v (n - 1) (omega arith)) (read_tag-escaped false v rest e),
)

-- When the escaped value fits into the buffer, what `escape_tag_value` leaves there decodes to
-- exactly the value.
pub escape_tag_value-decode :
    (v o : Bytes) (n : ℕ)
    → IsBuffer o n
    → length (escaped is_tag_special v) < n
    → (out : Bytes) × Writes (escape_tag_value (some v) (some o) n) o n out
      × (decode is_tag_special false out ≡ v)
unfolding is_tag_special
escape_tag_value-decode v o n b h = (
  _,
  tag_call v o n b,
  rw (emitted-escaped is_tag_special v (n - 1) (omega arith))
      (decode-escaped is_tag_special v false (inl refl)),
)

-- When the text in front of a quote escapes to two less than the size of the buffer,
-- `escape_field_value` leaves the quote without its backslash, and a reader of string fields ends
-- the value there, whatever stands behind.
pub escape_field_value-bare_quote :
    (u w o : Bytes) (n : ℕ)
    → IsBuffer o n
    → length (escaped is_field_special u) + 2 ≡ n
    → (out : Bytes) × Writes (escape_field_value (some (u ++ (b'"' ∷ w))) (some o) n) o n out
      × ((rest : Bytes) → read_string false (out ++ rest) ≡ some (u, rest))
escape_field_value-bare_quote u w o n b e = (
  _,
  field_call (u ++ (b'"' ∷ w)) o n b,
  λ rest.
      rw (emitted_bare is_field_special u b'"' w (n - 1) (omega arith)) (read_string_cut u rest),
)

-- When a tag value ends in a backslash and fits escaped, what `escape_tag_value` leaves, with a
-- blank and a text behind it, is read as a tag value that holds the blank and the tag value that
-- is read from the text.
pub escape_tag_value-swallows_separator :
    (u o : Bytes) (n : ℕ) (rest v after : Bytes)
    → IsBuffer o n
    → length (escaped is_tag_special (u ++ (b'\\' ∷ []))) < n
    → read_tag false rest ≡ some (v, after)
    → (out : Bytes) × Writes (escape_tag_value (some (u ++ (b'\\' ∷ []))) (some o) n) o n out
      × (read_tag false (out ++ (b' ' ∷ rest)) ≡ some (u ++ (b' ' ∷ v), after))
escape_tag_value-swallows_separator u o n rest v after b h r = (
  _,
  tag_call (u ++ (b'\\' ∷ [])) o n b,
  rw (emitted-escaped is_tag_special (u ++ (b'\\' ∷ [])) (n - 1) (omega arith))
      (read_tag_swallows false u rest r),
)

-- What fits is written escaped and whole.
pub escape_tag_value_fits :
    (v o : Bytes) (n : ℕ)
    → IsBuffer o n
    → length (escaped is_tag_special v) < n
    → Writes (escape_tag_value (some v) (some o) n) o n (escaped is_tag_special v)
escape_tag_value_fits v o n b h =
    subst (Writes (escape_tag_value (some v) (some o) n) o n)
      (emitted-escaped is_tag_special v (n - 1) (omega arith)) (tag_call v o n b)

pub escape_field_value_fits :
    (v o : Bytes) (n : ℕ)
    → IsBuffer o n
    → length (escaped is_field_special v) < n
    → Writes (escape_field_value (some v) (some o) n) o n (escaped is_field_special v)
escape_field_value_fits v o n b h =
    subst (Writes (escape_field_value (some v) (some o) n) o n)
      (emitted-escaped is_field_special v (n - 1) (omega arith)) (field_call v o n b)
