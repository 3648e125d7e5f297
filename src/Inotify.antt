-- ===== src/Inotify.antt =====
-- The buffer that `read` fills from an inotify descriptor: a row of `struct inotify_event`, each with the
-- name of a file behind it. The bridge, inotify-coredump and inotify-pacct walk over it.
pub mod Setup
pub mod Walk
use linux_system_monitoring.Base.{
  ℕ, zero, suc, ◌+◌, ◌*◌, ◌/◌, ◌%◌, ◌==◌, leb, Bool, Option, none, some, [], ◌∷◌, if◌then◌else◌,
  length, drop, Bytes,
}
use linux_system_monitoring.CString.{char_at}

-- `EVENT_SIZE`
abbrev pub event_size : ℕ
event_size = 16

-- What the programs read of an event: `mask`, `len`, and `name` as a C string.
pub record Event : Type 0 where
  pub mask : ℕ
  pub len : ℕ
  pub name : Bytes

-- A `uint32_t` in the byte order of the target, little endian.
abbrev pub u32_at : Bytes → ℕ → ℕ
u32_at s i =
    char_at s i + 256 * char_at s (i + 1) + 65536 * char_at s (i + 2) + 16777216 * char_at s (i + 3)

-- The characters in front of the first NUL.
unfoldable pub c_string : Bytes → Bytes
c_string [] = []
c_string (c ∷ cs) = if c == 0 then [] else c ∷ c_string cs

-- `(struct inotify_event *) &buffer[i]`; a header that reaches behind the buffer is not read.
unfoldable pub event_at : Bytes → ℕ → Option Event
event_at buffer i =
    if leb (i + event_size) (length buffer)
    then some (record {
      mask = u32_at (drop i buffer) 4;
      len = u32_at (drop i buffer) 12;
      name = c_string (drop (i + event_size) buffer);
    })
    else none

-- `event->mask & IN_CREATE` and `event->mask & IN_MODIFY`
abbrev pub is_create : Event → Bool
is_create e = e.mask / 256 % 2 == 1

abbrev pub is_modify : Event → Bool
is_modify e = e.mask / 2 % 2 == 1
