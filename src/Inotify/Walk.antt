-- ===== src/Inotify/Walk.antt =====
-- What the kernel writes, and what a walk over it reads.
use linux_system_monitoring.Base.{
  ℕ, zero, suc, ◌+◌, ◌/◌, ◌%◌, ◌^◌, ◌≡◌, ◌≤◌, ◌<◌, ◌≢◌, refl, arith, le→leb, some, List, [], ◌∷◌,
  ◌++◌, length, length-append, drop, drop-append_add, All, Bytes,
}
use linux_system_monitoring.CString.{char_at}
use linux_system_monitoring.Inotify.{Event, event_size, u32_at, c_string, event_at}

-- An event as the kernel writes it: the file's name and the NULs behind it.
pub record Raw : Type 0 where
  pub wd : ℕ
  pub mask : ℕ
  pub cookie : ℕ
  pub name : Bytes
  pub padding : ℕ

abbrev pub zeros : ℕ → Bytes
zeros zero = []
zeros (suc n) = 0 ∷ zeros n

-- The characters of the name and the NULs behind it.
abbrev pub name_field : Raw → Bytes
name_field r = r.name ++ zeros r.padding

abbrev pub le32 : ℕ → Bytes
le32 n = n % 256 ∷ n / 256 % 256 ∷ n / 65536 % 256 ∷ n / 16777216 % 256 ∷ []

abbrev pub encode : Raw → Bytes
encode r =
    le32 r.wd ++ (le32 r.mask ++ (le32 r.cookie ++ (le32 (length (name_field r)) ++ name_field r)))

abbrev pub encode_all : List Raw → Bytes
encode_all [] = []
encode_all (r ∷ rs) = encode r ++ encode_all rs

-- The fields are words, and the name holds no NUL.
pub record IsRaw (r : Raw) : Type 0 where
  pub mask_small : r.mask < 2 ^ 32
  pub name_small : length (name_field r) < 2 ^ 32
  pub no_nul : All (λ c. c ≢ 0) r.name

-- What a program reads of the event: its name only where one is there.
pub record Reads (e : Event) (r : Raw) : Type 0 where
  pub mask : e.mask ≡ r.mask
  pub len : e.len ≡ length (name_field r)
  pub name : 0 < r.padding → e.name ≡ r.name

c_string_lem :
    (name : Bytes) (n : ℕ) (rest : Bytes)
    → All (λ c. c ≢ 0) name
    → 0 < n
    → c_string ((name ++ zeros n) ++ rest) ≡ name
unfolding c_string
c_string_lem [] zero rest h p = absurd (omega arith)
c_string_lem [] (suc n) rest h p = refl
c_string_lem (c ∷ cs) n rest h p = ground (arith, h.0, c_string_lem cs n rest h.1 p)

pub length-encode : (r : Raw) → length (encode r) ≡ event_size + length (name_field r)
length-encode r = omega arith

length-encode-append :
    (r : Raw) (behind : Bytes)
    → length (encode r ++ behind) ≡ 16 + length (name_field r) + length behind
length-encode-append r behind = omega (arith, length-append (encode r) behind)

-- The event at the start of what is left of the buffer.
abbrev event_of : Bytes → Event
event_of s = record { mask = u32_at s 4; len = u32_at s 12; name = c_string (drop 16 s) }

event_of-Reads : (r : Raw) (behind : Bytes) → IsRaw r → Reads (event_of (encode r ++ behind)) r
unfolding char_at
event_of-Reads r behind ok = record {
  mask = omega (arith, ok.mask_small);
  len = omega (arith, ok.name_small);
  name = λ p. c_string_lem r.name r.padding behind ok.no_nul p;
}

-- At the place of an event, whatever stands in front of it and behind it, the event is read.
pub event_at-encode :
    (front : Bytes) (r : Raw) (behind : Bytes) (i : ℕ)
    → i ≡ length front
    → IsRaw r
    → (e : Event) × (event_at (front ++ (encode r ++ behind)) i ≡ some e) × Reads e r
event_at-encode front r behind i e ok =
    (event_of (encode r ++ behind), found, event_of-Reads r behind ok)
  where
    inside : i + 16 ≤ length (front ++ (encode r ++ behind))
    inside = omega (arith, length-append front (encode r ++ behind), length-encode-append r behind)

    at_i : drop i (front ++ (encode r ++ behind)) ≡ encode r ++ behind
    at_i = drop-append_add front (encode r ++ behind) 0 i (omega arith)

    at_name : drop (i + 16) (front ++ (encode r ++ behind)) ≡ drop 16 (encode r ++ behind)
    at_name = drop-append_add front (encode r ++ behind) 16 (i + 16) (omega arith)

    found : event_at (front ++ (encode r ++ behind)) i ≡ some (event_of (encode r ++ behind))
    found =
        unfold event_at in
        rw (le→leb (i + 16) (length (front ++ (encode r ++ behind))) inside, at_name, at_i)
