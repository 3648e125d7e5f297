-- ===== src/CyclicFileRead/Text.antt =====
-- The C library as cyclic-file-read uses it to take lines apart: `fgets`, `strtok`, `strcat`.
use linux_system_monitoring.Base.{
  ◌-◌, ℕ, zero, suc, ◌+◌, Bool, true, false, Option, none, some, List, [], ◌∷◌, ◌++◌, ◌==◌, ltb,
  if◌then◌else◌, length, ◌>>=◌, Bytes,
}

-- What `fgets` reads when at most `room` characters go into its buffer, and the rest of the file.
unfoldable pub fgets : ℕ → Bytes → Bytes × Bytes
fgets zero file = ([], file)
fgets (suc room) [] = ([], [])
fgets (suc room) (c ∷ cs) =
    let (line, rest) = fgets room cs in if c == b'\n' then (c ∷ [], cs) else (c ∷ line, rest)

-- `line_buffer[strlen(line_buffer) - 1] == '\n'`; a line that was not read has no last character.
unfoldable pub ends_in_newline : Bytes → Bool
ends_in_newline [] = false
ends_in_newline (c ∷ []) = c == b'\n'
ends_in_newline (c ∷ d ∷ cs) = ends_in_newline (d ∷ cs)

-- `s[strlen(s) - 1] = '\0'`
unfoldable pub chop : Bytes → Bytes
chop [] = []
chop (c ∷ []) = []
chop (c ∷ d ∷ cs) = c ∷ chop (d ∷ cs)

-- Put a character in front of the token that begins the list.
abbrev pub onto : ℕ → List Bytes → List Bytes
onto c [] = (c ∷ []) ∷ []
onto c (t ∷ ts) = (c ∷ t) ∷ ts

-- The tokens that `strtok(line, " ")` and `strtok(NULL, " ")` return one after the other; the flag
-- says that the character in front belongs to a token.
unfoldable pub pieces : Bool → Bytes → List Bytes
pieces inside [] = if inside then [] ∷ [] else []
pieces inside (c ∷ cs) = elim (c == b' ') [
  | true ↦ (if inside then [] ∷ pieces false cs else pieces false cs)
  | false ↦ onto c (pieces true cs)
]

unfoldable pub tokens : Bytes → List Bytes
unfolding pieces
tokens line = pieces false line

-- The next token; NULL is not followed.
unfoldable pub next_token : List Bytes → Option (Bytes × List Bytes)
next_token [] = none
next_token (t ∷ ts) = some (t, ts)

-- `strcat` onto a string in an array of `size` cells.
unfoldable pub strcat : ℕ → Bytes → Bytes → Option Bytes
strcat size message text =
    if ltb (length message + length text) size then some (message ++ text) else none

-- For each label: append it, and the next token behind it.
unfoldable pub append_fields : ℕ → List Bytes → Bytes → List Bytes → Option (Bytes × List Bytes)
append_fields size [] message ts = some (message, ts)
append_fields size (label ∷ labels) message ts = do
  (t, rest) ← next_token ts
  labelled ← strcat size message label
  longer ← strcat size labelled t
  append_fields size labels longer rest

-- `line_count`: the newlines of the file, which is rewound.
unfoldable pub line_count : Bytes → ℕ
line_count [] = 0
line_count (c ∷ cs) = (if c == b'\n' then 1 else 0) + line_count cs

-- `form[i]`
unfoldable pub label_at : List Bytes → ℕ → Bytes
label_at [] i = []
label_at (l ∷ ls) zero = l
label_at (l ∷ ls) (suc i) = label_at ls i

-- The last label, the last token of a line without its newline, and the text behind it.
unfoldable pub append_last : ℕ → Bytes → Bytes → Bytes → List Bytes → Option Bytes
append_last size label end message ts = do
  labelled ← strcat size message label
  (t, _) ← next_token ts
  longer ← strcat size labelled (chop t)
  strcat size longer end

-- The line that `fgets` reads into an array of that size. At the end of the file the array is not
-- written, and what follows reads cells without a value.
unfoldable pub first_line : ℕ → Bytes → Option Bytes
first_line size [] = none
first_line size (c ∷ cs) = some (fgets (size - 1) (c ∷ cs)).0
