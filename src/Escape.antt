-- ===== src/Escape.antt =====
-- stats-recording/src/utilities/line_protocol_escaper.c: the escaping of tag values and of string
-- field values into a caller's buffer.
pub mod Exact
pub mod Reading
pub mod Calls
use linux_system_monitoring.Base.{
  ℕ, ◌+◌, Bool, ◌&&◌, ◌||◌, Option, none, some, [], ◌∷◌, ◌==◌, ltb, if◌then◌else◌, ◌>>=◌, Bytes,
  sub_size, minus_one,
}
use linux_system_monitoring.Memory.{write}

-- What a call returns and leaves in the caller's buffer.
pub record Escaped : Type 0 where
  pub ret : ℕ
  pub output : Option Bytes

-- `tag_value[i] == ' ' || tag_value[i] == '=' || tag_value[i] == ','`
unfoldable pub is_tag_special : ℕ → Bool
is_tag_special c = c == b' ' || c == b'=' || c == b','

-- `field_value[i] == '\\' || field_value[i] == '"'`
unfoldable pub is_field_special : ℕ → Bool
is_field_special c = c == b'\\' || c == b'"'

-- The text of the two loops, which differ in the test of a character only.
module _ (special : ℕ → Bool) (output_size : ℕ) where
  -- The body of the loop: the buffer and `j` behind it.
  unfoldable pub escape_char : ℕ → ℕ → Bytes → Option (Bytes × ℕ)
  escape_char c j output =
      if special c && ltb j (sub_size output_size 2)
      then (do o ← write output j b'\\'; o' ← write o (j + 1) c; some (o', j + 1 + 1))
      else (do o ← write output j c; some (o, j + 1))

  unfoldable pub finish : ℕ → Bytes → Option Escaped
  finish j output = do o ← write output j 0; some (record { ret = j; output = some o })

  unfoldable pub escape_loop : Bytes → ℕ → Bytes → Option Escaped
  escape_loop [] j output = finish j output
  escape_loop (c ∷ cs) j output =
      if ltb j (sub_size output_size 1)
      then (do (o, j') ← escape_char c j output; escape_loop cs j' o)
      else finish j output

refused : Option Bytes → Option Escaped
refused output = some (record { ret = minus_one; output = output })

-- `none` for an argument is NULL.
unfoldable pub escape_tag_value : Option Bytes → Option Bytes → ℕ → Option Escaped
unfolding refused
escape_tag_value none output n = refused output
escape_tag_value (some v) none n = refused none
escape_tag_value (some v) (some o) n =
    if n == 0 then refused (some o) else escape_loop is_tag_special n v 0 o

unfoldable pub escape_field_value : Option Bytes → Option Bytes → ℕ → Option Escaped
unfolding refused
escape_field_value none output n = refused output
escape_field_value (some v) none n = refused none
escape_field_value (some v) (some o) n =
    if n == 0 then refused (some o) else escape_loop is_field_special n v 0 o
