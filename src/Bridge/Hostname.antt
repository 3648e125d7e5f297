-- ===== src/Bridge/Hostname.antt =====
-- `add_hostname_to_msg` of bridge.c.
use linux_system_monitoring.Base.{
  ℕ, zero, suc, ◌+◌, ◌-◌, ◌&&◌, Option, none, some, ◌++◌, ◌==◌, ltb, leb, if◌then◌else◌, length,
  take, drop, Bytes, codes,
}
use linux_system_monitoring.CString.{strchr, snprintf, char_at}

abbrev pub max_msg_size : ℕ
max_msg_size = 1024

-- `strchr(msg + i, ' ')`, as an index into `msg`.
unfoldable pub strchr_from : Bytes → ℕ → Option ℕ
strchr_from msg i = elim (strchr b' ' (drop i msg)) [ none ↦ none | some k ↦ some (i + k) ]

-- `while (next_whitespace != NULL && *(next_whitespace - 1) == '\\')`, with fuel.
unfoldable pub skip_escaped : ℕ → Bytes → Option ℕ → Option ℕ
skip_escaped zero msg next = next
skip_escaped (suc fuel) msg none = none
skip_escaped (suc fuel) msg (some w) =
    let again = skip_escaped fuel msg (strchr_from msg (w + 1)) in
    if char_at msg (w - 1) == b'\\' then again else some w

-- From the first whitespace of the message.
unfoldable pub from_first : Bytes → Option ℕ → Option ℕ
from_first msg none = none
from_first msg (some w) =
    if ltb 0 w && char_at msg (w - 1) == b'\\'
    then skip_escaped (length msg) msg (strchr_from msg (w + 1))
    else some w

-- The whitespace in front of which the tag goes.
unfoldable pub separator : Bytes → Option ℕ
separator msg = from_first msg (strchr_from msg 0)

-- `tag`, in an array that is as long as the text and its NUL.
unfoldable pub host_tag : Bytes → Bytes
host_tag hostname = snprintf (7 + length hostname) (codes ",host=" ++ hostname)

-- `strncpy` of the text in `buffer` back to `msg`, which has as many cells.
unfoldable pub splice : Bytes → Bytes → ℕ → Bytes
splice msg tag w =
    take (max_msg_size - 1) (snprintf max_msg_size (take w msg ++ (tag ++ drop w msg)))

unfoldable pub splice_at : Bytes → Bytes → Option ℕ → Bytes
splice_at msg tag none = msg
splice_at msg tag (some w) = splice msg tag w

unfoldable pub add_hostname_to_msg : Bytes → Bytes → Bytes
add_hostname_to_msg hostname msg =
    if leb max_msg_size (length msg + length (host_tag hostname))
    then msg
    else splice_at msg (host_tag hostname) (separator msg)
