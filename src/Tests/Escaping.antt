-- ===== src/Tests/Escaping.antt =====
-- The two escapers and the journal's escaper.
use linux_system_monitoring.Base.{
  ℕ, ◌+◌, ◌<◌, ◌≡◌, refl, false, none, some, [], ◌∷◌, ◌++◌, arith, length, take, Bytes, codes,
}
use linux_system_monitoring.Escape.{
  is_field_special, is_tag_special, escape_tag_value, escape_field_value,
}
use linux_system_monitoring.Escape.Exact.{escaped}
use linux_system_monitoring.Escape.Reading.{decode, read_string, read_tag}
use linux_system_monitoring.Escape.Calls.{
  IsBuffer, Writes, escape_field_value_truncates, escape_field_value-read_string,
  escape_tag_value-read_tag, escape_field_value-bare_quote, escape_tag_value-swallows_separator,
}
use linux_system_monitoring.Journal.Text
use linux_system_monitoring.Journal.Overflow.{escape_field_value_overflows}

-- A buffer of eight cells.
abbrev buffer : Bytes
buffer = codes "........"

buffer-IsBuffer : IsBuffer buffer 8
buffer-IsBuffer = record { some_room = omega arith; is_size = omega arith; in_memory = omega arith }

escape_field_value_truncates_example :
    (out : Bytes) × (k : ℕ) × Writes
      (escape_field_value (some (codes "a\"b\"c\"d")) (some buffer) 8)
      buffer
      8
      out
    × (decode is_field_special false out ≡ take k (codes "a\"b\"c\"d"))
escape_field_value_truncates_example =
    escape_field_value_truncates (codes "a\"b\"c\"d") buffer 8 buffer-IsBuffer

escape_field_value-read_string_example :
    (out : Bytes) × Writes (escape_field_value (some (codes "a\"b")) (some buffer) 8) buffer 8 out
    × ((rest : Bytes) → read_string false (out ++ (b'"' ∷ rest)) ≡ some (codes "a\"b", rest))
escape_field_value-read_string_example =
    escape_field_value-read_string (codes "a\"b") buffer 8 buffer-IsBuffer room
  where
    room : length (escaped is_field_special (codes "a\"b")) < 8
    room = unfold is_field_special in omega arith

escape_tag_value-read_tag_example :
    (out : Bytes) × Writes (escape_tag_value (some (codes "a b")) (some buffer) 8) buffer 8 out
    × ((rest : Bytes) → read_tag false (out ++ (b' ' ∷ rest)) ≡ some (codes "a b", b' ' ∷ rest))
escape_tag_value-read_tag_example =
    escape_tag_value-read_tag (codes "a b") buffer 8 buffer-IsBuffer room refl
  where
    room : length (escaped is_tag_special (codes "a b")) < 8
    room = unfold is_tag_special in omega arith

escape_field_value-bare_quote_example :
    (out : Bytes) × Writes
      (escape_field_value (some (codes "abcdef" ++ (b'"' ∷ codes "xyz"))) (some buffer) 8)
      buffer
      8
      out
    × ((rest : Bytes) → read_string false (out ++ rest) ≡ some (codes "abcdef", rest))
escape_field_value-bare_quote_example =
    escape_field_value-bare_quote (codes "abcdef") (codes "xyz") buffer 8 buffer-IsBuffer full
  where
    full : length (escaped is_field_special (codes "abcdef")) + 2 ≡ 8
    full = unfold is_field_special in omega arith

escape_tag_value-swallows_separator_example :
    (out : Bytes) × Writes
      (escape_tag_value (some (codes "ab" ++ (b'\\' ∷ []))) (some buffer) 8)
      buffer
      8
      out
    × (read_tag false (out ++ (b' ' ∷ codes "v=1 7"))
        ≡ some (codes "ab" ++ (b' ' ∷ codes "v"), codes "=1 7"))
escape_tag_value-swallows_separator_example =
    escape_tag_value-swallows_separator (codes "ab") buffer 8 (codes "v=1 7") (codes "v")
      (codes "=1 7") buffer-IsBuffer room (unfold read_tag is_tag_special in refl)
  where
    room : length (escaped is_tag_special (codes "ab" ++ (b'\\' ∷ []))) < 8
    room = unfold is_tag_special in omega arith

escape_field_value_overflows_example :
    Text.escape_field_value (some (codes "abcdef" ++ (b'"' ∷ []))) (some buffer) 8 ≡ none
escape_field_value_overflows_example =
    escape_field_value_overflows (codes "abcdef") b'"' [] buffer 8 buffer-IsBuffer refl full
      (unfold is_field_special in refl)
  where
    full : length (escaped is_field_special (codes "abcdef")) + 2 ≡ 8
    full = unfold is_field_special in omega arith
