-- ===== src/Bridge/Tagging.antt =====
-- Where the host name goes, and how long the message becomes.
use linux_system_monitoring.Base.{
  ℕ, ◌+◌, ◌≡◌, ◌≤◌, ◌<◌, refl, arith, false, Option, none, some, ◌++◌, ltb, lt→ltb, le→ltb_false,
  le→leb, lt→leb_false, dec_lt, if◌then◌else◌, length, take, drop, length-append, length-take,
  length-drop, take_of_le, Bytes, codes,
}
use linux_system_monitoring.CString.{snprintf_fits}
use linux_system_monitoring.Bridge.Hostname.{splice_at, host_tag, splice, add_hostname_to_msg}
use linux_system_monitoring.Bridge.Separator.{unescaped_space, separator_lem}

host_tag_lem : (hostname : Bytes) → host_tag hostname ≡ codes ",host=" ++ hostname
unfolding host_tag
host_tag_lem hostname =
    snprintf_fits (7 + length hostname) (codes ",host=" ++ hostname) (omega arith)

-- The message with the tag put in at `w`.
abbrev pub tagged_at : Bytes → Bytes → ℕ → Bytes
tagged_at hostname msg w = take w msg ++ ((codes ",host=" ++ hostname) ++ drop w msg)

length-take-drop : (w : ℕ) (msg : Bytes) → length (take w msg) + length (drop w msg) ≡ length msg
length-take-drop w msg = omega (arith, length-take w msg, length-drop w msg)

length-tagged_at :
    (hostname msg : Bytes) (w : ℕ)
    → length (tagged_at hostname msg w) ≡ length msg + (6 + length hostname)
length-tagged_at hostname msg w = omega (
  arith,
  length-append (take w msg) ((codes ",host=" ++ hostname) ++ drop w msg),
  length-append (codes ",host=" ++ hostname) (drop w msg),
  length-take-drop w msg,
)

-- The tag's place, or none.
abbrev pub insert_tag : Bytes → Bytes → Option ℕ → Bytes
insert_tag hostname msg none = msg
insert_tag hostname msg (some w) = tagged_at hostname msg w

length-insert_tag :
    (hostname msg : Bytes) (place : Option ℕ)
    → (length msg ≤ length (insert_tag hostname msg place))
      × (length (insert_tag hostname msg place) ≤ length msg + (6 + length hostname))
length-insert_tag hostname msg none = omega arith
length-insert_tag hostname msg (some w) = omega (arith, length-tagged_at hostname msg w)

splice_at_lem :
    (hostname msg : Bytes) (place : Option ℕ)
    → length msg + length (codes ",host=" ++ hostname) < 1024
    → splice_at msg (codes ",host=" ++ hostname) place ≡ insert_tag hostname msg place
unfolding splice_at splice
splice_at_lem hostname msg none h = refl
splice_at_lem hostname msg (some w) h =
    rw (snprintf_fits 1024 (tagged_at hostname msg w) bound)
      (take_of_le 1023 (tagged_at hostname msg w) (omega (arith, bound)))
  where
    bound : length (tagged_at hostname msg w) < 1024
    bound = omega (arith, length-tagged_at hostname msg w)

-- For every host name and message, `add_hostname_to_msg` inserts the tag `,host=` with the host
-- name in front of the first whitespace that has no backslash in front of it, if there is one and
-- if the message and the tag are shorter than 1024 together; otherwise the message stays as it
-- is.
pub add_hostname_to_msg_lem :
    (hostname msg : Bytes)
    → add_hostname_to_msg hostname msg ≡ (
        if ltb (length msg + length (codes ",host=" ++ hostname)) 1024
        then insert_tag hostname msg (unescaped_space false msg)
        else msg)
unfolding add_hostname_to_msg
add_hostname_to_msg_lem hostname msg =
    elim (dec_lt (length msg + length (codes ",host=" ++ hostname)) 1024) [
      | yes h ↦ rw (
        host_tag_lem hostname,
        separator_lem msg,
        splice_at_lem hostname msg (unescaped_space false msg) h,
        lt→ltb _ _ h,
        lt→leb_false _ _ h,
      )
      | no h ↦ rw (
        host_tag_lem hostname,
        le→ltb_false (length msg + length (codes ",host=" ++ hostname)) 1024 (omega arith),
        le→leb 1024 (length msg + length (codes ",host=" ++ hostname)) (omega arith),
      )
    ]

-- A message shorter than 1024 characters becomes no shorter under `add_hostname_to_msg` and stays
-- shorter than 1024.
pub length-add_hostname_to_msg :
    (hostname msg : Bytes)
    → length msg < 1024
    → (length msg ≤ length (add_hostname_to_msg hostname msg))
      × (length (add_hostname_to_msg hostname msg) < 1024)
length-add_hostname_to_msg hostname msg h =
    elim (dec_lt (length msg + length (codes ",host=" ++ hostname)) 1024) [
      | yes p ↦
          rw (add_hostname_to_msg_lem hostname msg, lt→ltb _ _ p)
            (
              (length-insert_tag hostname msg (unescaped_space false msg)).0,
              omega (arith, (length-insert_tag hostname msg (unescaped_space false msg)).1),
            )
      | no p ↦
          rw
            (
              add_hostname_to_msg_lem hostname msg,
              le→ltb_false (length msg + length (codes ",host=" ++ hostname)) 1024 (omega arith),
            )
            (omega arith)
    ]
