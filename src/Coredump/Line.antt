-- ===== src/Coredump/Line.antt =====
-- The line for a core dump, whatever the file is called.
use linux_system_monitoring.Base.{
  ℕ, ◌*◌, ◌≡◌, ◌≤◌, ◌<◌, ◌≢◌, refl, ap, ◌∙◌, arith, Bool, Bool-cases, inl, inr, false, some, [],
  ◌∷◌, ◌++◌, append_assoc, ◌==◌, length, length-append, All, Bytes, codes, concat, minus_one,
}
use linux_system_monitoring.CString.{snprintf_fits}
use linux_system_monitoring.Memory.{filled}
use linux_system_monitoring.Inotify.{c_string}
use linux_system_monitoring.Escape.{
  is_tag_special, is_field_special, escape_tag_value, escape_field_value,
}
use linux_system_monitoring.Escape.Exact.{escaped}
use linux_system_monitoring.Escape.Calls.{Writes, escape_field_value_fits, escape_tag_value_fits}
use linux_system_monitoring.Coredump.{watch_dir, coredump_to_line_protocol}

-- The string in front of a NUL is read back.
c_string-append : (out rest : Bytes) → All (λ c. c ≢ 0) out → c_string (out ++ (0 ∷ rest)) ≡ out
unfolding c_string
c_string-append [] rest h = refl
c_string-append (c ∷ cs) rest h = ground (arith, h.0, c_string-append cs rest h.1)

pub c_string-filled :
    (o out : Bytes) → All (λ c. c ≢ 0) out → c_string (filled o (out ++ (0 ∷ []))) ≡ out
c_string-filled o out h = ap c_string (append_assoc out (0 ∷ []) _) ∙ c_string-append out _ h

pub no_nul-escaped :
    (special : ℕ → Bool) (v : Bytes) → All (λ c. c ≢ 0) v → All (λ c. c ≢ 0) (escaped special v)
no_nul-escaped special [] h = tt
no_nul-escaped special (c ∷ cs) h = elim (Bool-cases (special c)) [
  | inl e ↦ rw e (omega arith, (h.0, no_nul-escaped special cs h.1))
  | inr e ↦ rw e (h.0, no_nul-escaped special cs h.1)
]

pub length-escaped : (special : ℕ → Bool) (v : Bytes) → length (escaped special v) ≤ 2 * length v
length-escaped special [] = omega arith
length-escaped special (c ∷ cs) = ground (arith, length-escaped special cs)

-- The name of a file: no NUL, and at most NAME_MAX characters.
pub record IsName (name : Bytes) : Type 0 where
  pub no_nul : All (λ c. c ≢ 0) name
  pub short : length name ≤ 255

-- The line with the escaped name in it.
unfoldable pub coredump_line : Bytes → Bytes → Bytes
coredump_line name timestamp = concat (
    codes "coredump,path="
    ∷ watch_dir
    ∷ codes " corefile=\""
    ∷ escaped is_field_special name
    ∷ codes "\" "
    ∷ timestamp
    ∷ [])

module _ (tag_path field_name name timestamp : Bytes) (tag_room : 1024 ≤ length tag_path)
    (field_room : 1024 ≤ length field_name) (ok : IsName name) where
  escaped_name : Bytes
  escaped_name = escaped is_field_special name

  tag : Writes (escape_tag_value (some watch_dir) (some tag_path) 1024) tag_path 1024 watch_dir
  unfolding is_tag_special
  tag =
      escape_tag_value_fits watch_dir tag_path 1024
        (record { some_room = omega arith; is_size = omega arith; in_memory = tag_room })
        (omega arith)

  field :
      Writes
        (escape_field_value (some name) (some field_name) 1024)
        field_name
        1024
        (escaped is_field_special name)
  field =
      escape_field_value_fits name field_name 1024
        (record { some_room = omega arith; is_size = omega arith; in_memory = field_room })
        (omega (arith, length-escaped is_field_special name, ok.short))

  watch_dir_text : c_string (filled tag_path (watch_dir ++ (0 ∷ []))) ≡ watch_dir
  watch_dir_text = c_string-filled tag_path watch_dir (grind arith)

  name_text :
      c_string (filled field_name (escaped is_field_special name ++ (0 ∷ [])))
      ≡ escaped is_field_special name
  name_text =
      c_string-filled field_name (escaped is_field_special name)
        (no_nul-escaped is_field_special name ok.no_nul)

  -- For arrays of at least 1024 cells, the name of a file, and a timestamp of at most 64
  -- characters, `coredump_to_line_protocol` gives the whole line with the escaped name between
  -- quotes; nothing of it is cut.
  pub coredump_to_line_protocol_lem :
      length timestamp ≤ 64
      → coredump_to_line_protocol tag_path field_name name timestamp
        ≡ some (some (coredump_line name timestamp))
  unfolding coredump_to_line_protocol coredump_line
  coredump_to_line_protocol_lem h =
      rw (tag.result, field.result, valid, watch_dir_text, name_text)
        (ap (λ t. some (some t)) (snprintf_fits 1024 (coredump_line name timestamp) room))
    where
      valid : (length (escaped is_field_special name) == minus_one) ≡ false
      valid = ground (arith, field.terminated)

      room : length (coredump_line name timestamp) < 1024
      room = omega (
        arith,
        length-append (escaped is_field_special name) (codes "\" " ++ (timestamp ++ [])),
        length-append timestamp [],
        length-escaped is_field_special name,
        ok.short,
      )
