-- ===== src/Bridge/Escaped.antt =====
-- The bridge and the escaper together: the host name goes behind the whole escaped tag value.
use linux_system_monitoring.Base.{
  ℕ, ◌+◌, ◌≡◌, ◌<◌, refl, ◌∙◌, arith, Bool, true, false, none, [], ◌∷◌, ◌++◌, ◌==◌, length, Bytes,
  codes,
}
use linux_system_monitoring.Escape.{is_tag_special}
use linux_system_monitoring.Escape.Exact.{escaped}
use linux_system_monitoring.Escape.Reading.{ends_in_backslash}
use linux_system_monitoring.Bridge.Hostname.{add_hostname_to_msg}
use linux_system_monitoring.Bridge.Separator.{unescaped_space}
use linux_system_monitoring.Bridge.Lines.{ends_in_backslash-append, add_hostname_to_msg-line}

-- No whitespace of an escaped tag value is bare.
unescaped_space-escaped :
    (p : Bool) (v : Bytes) → unescaped_space p (escaped is_tag_special v) ≡ none
unfolding is_tag_special
unescaped_space-escaped p [] = refl
unescaped_space-escaped p (c ∷ cs) =
    ground (arith, unescaped_space-escaped false cs, unescaped_space-escaped true cs)

unescaped_space-append_none :
    (p : Bool) (m s : Bytes)
    → unescaped_space p m ≡ none
    → ((q : Bool) → unescaped_space q s ≡ none)
    → unescaped_space p (m ++ s) ≡ none
unescaped_space-append_none p [] s h k = k p
unescaped_space-append_none p (c ∷ cs) s h k =
    ground (arith, unescaped_space-append_none (c == b'\\') cs s (tail_none p c cs h) k)
  where
    tail_none :
        (p : Bool) (c : ℕ) (cs : Bytes)
        → unescaped_space p (c ∷ cs) ≡ none
        → unescaped_space (c == b'\\') cs ≡ none
    tail_none p c cs h = ground arith

ends_in_backslash-escaped :
    (p : Bool) (v : Bytes) → ends_in_backslash p (escaped is_tag_special v) ≡ ends_in_backslash p v
unfolding is_tag_special
ends_in_backslash-escaped p [] = refl
ends_in_backslash-escaped p (c ∷ cs) = ground (arith, ends_in_backslash-escaped (c == b'\\') cs)

-- The measurement and key in front of a tag value: no bare whitespace, no backslash at the end.
pub record IsKey (name : Bytes) : Type 0 where
  pub no_space : unescaped_space false name ≡ none
  pub no_backslash : ends_in_backslash false name ≡ false

-- When the message consists of a measurement and key with no bare whitespace, an escaped tag
-- value that does not end in a backslash, a blank and the fields, and fits with the tag,
-- `add_hostname_to_msg` puts the host name behind the whole tag value and in front of the blank.
pub add_hostname_to_msg-escaped :
    (hostname name v fields : Bytes)
    → IsKey name
    → ends_in_backslash false v ≡ false
    → let tags = name ++ escaped is_tag_special v in
      length (tags ++ (b' ' ∷ fields)) + length (codes ",host=" ++ hostname) < 1024
      → add_hostname_to_msg hostname (tags ++ (b' ' ∷ fields))
        ≡ tags ++ ((codes ",host=" ++ hostname) ++ (b' ' ∷ fields))
add_hostname_to_msg-escaped hostname name v fields k e h =
    add_hostname_to_msg-line hostname
      (record { tags = name ++ escaped is_tag_special v; fields = fields })
      (record {
        no_space =
            unescaped_space-append_none false name (escaped is_tag_special v) k.no_space
              (λ q. unescaped_space-escaped q v);
        no_backslash =
            ends_in_backslash-append false name (escaped is_tag_special v)
            ∙ rw (k.no_backslash, ends_in_backslash-escaped false v) e;
        fits = h;
      })
