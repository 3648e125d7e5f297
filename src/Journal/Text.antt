-- ===== src/Journal/Text.antt =====
-- src/publish/publish_influxdb.c: the text of a journal field, and its escaping into a buffer.
use linux_system_monitoring.Base.{
  ℕ, ◌+◌, Option, none, some, [], ◌∷◌, ◌==◌, ltb, if◌then◌else◌, ◌>>=◌, Bytes, codes, sub_size,
  minus_one,
}
use linux_system_monitoring.Memory.{write}
use linux_system_monitoring.Escape.{Escaped, is_field_special}

-- The text behind the first `=` of `NAME=value`.
unfoldable pub get_field_value : Bytes → Bytes
get_field_value [] = codes "Unknown"
get_field_value (c ∷ cs) = if c == b'=' then cs else get_field_value cs

-- The body of the loop writes the backslash without asking for room.
unfoldable pub escape_char : ℕ → ℕ → Bytes → Option (Bytes × ℕ)
escape_char c j output =
    if is_field_special c
    then (do o ← write output j b'\\'; o' ← write o (j + 1) c; some (o', j + 1 + 1))
    else (do o ← write output j c; some (o, j + 1))

unfoldable pub finish : ℕ → Bytes → Option Escaped
finish j output = do o ← write output j 0; some (record { ret = j; output = some o })

unfoldable pub escape_loop : ℕ → Bytes → ℕ → Bytes → Option Escaped
escape_loop n [] j output = finish j output
escape_loop n (c ∷ cs) j output =
    if ltb j (sub_size n 1)
    then (do (o, j') ← escape_char c j output; escape_loop n cs j' o)
    else finish j output

refused : Option Bytes → Option Escaped
refused output = some (record { ret = minus_one; output = output })

unfoldable pub escape_field_value : Option Bytes → Option Bytes → ℕ → Option Escaped
unfolding refused
escape_field_value none output n = refused output
escape_field_value (some v) none n = refused none
escape_field_value (some v) (some o) n = if n == 0 then refused (some o) else escape_loop n v 0 o
