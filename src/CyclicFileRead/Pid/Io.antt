-- ===== src/CyclicFileRead/Pid/Io.antt =====
-- What pid.c makes of /proc/<pid>/io.
use linux_system_monitoring.Base.{
  ◌+◌, ◌≡◌, ◌≢◌, ◌<◌, sym, ap, ◌∙◌, arith, some, List, [], ◌∷◌, ◌++◌, map, append-nil, append_assoc,
  All, length, length-append, take, drop, Bytes, codes,
}
use linux_system_monitoring.CyclicFileRead.Forms.{io_form}
use linux_system_monitoring.CyclicFileRead.Text.{next_token}
use linux_system_monitoring.CyclicFileRead.Lines.{
  Laid, tokens-Laid, strcat_fits, interleave, chop-concat,
}
use linux_system_monitoring.CyclicFileRead.Lines.Reading.{fgets_line}
use linux_system_monitoring.CyclicFileRead.Pid.{io_fields}

-- A line of the file, without its newline: a word and the value behind it.
pub record Counter : Type 0 where
  pub body : Bytes
  pub name : Bytes
  pub value : Bytes

pub record IsCounter (c : Counter) : Type 0 where
  pub one_line : All (λ d. d ≢ b'\n') c.body
  pub short : length c.body < 63
  pub laid : Laid (c.name ∷ (c.value ++ (b'\n' ∷ [])) ∷ []) (c.body ++ (b'\n' ∷ []))

abbrev pub io_text : List Counter → Bytes
io_text [] = []
io_text (c ∷ cs) = c.body ++ (b'\n' ∷ io_text cs)

-- The process, and each of the seven labels with its value.
abbrev pub io_line : Bytes → List Counter → Bytes
io_line id cs =
    (codes "proc-pid-io,pid=" ++ id)
    ++ (interleave (take 7 (drop 1 io_form)) (map (λ c. c.value) cs) ++ codes " ")

pub io_fields_lem :
    (ls : List Bytes) (message : Bytes) (cs : List Counter)
    → length ls ≡ length cs
    → All IsCounter cs
    → length message + length (interleave ls (map (λ c. c.value) cs)) < 1024
    → io_fields ls message (io_text cs) ≡ some (message ++ interleave ls (map (λ c. c.value) cs))
unfolding io_fields next_token
io_fields_lem [] message [] n ok f = ap some (sym (append-nil message))
io_fields_lem [] message (c ∷ cs) n ok f = absurd (omega arith)
io_fields_lem (l ∷ ls) message [] n ok f = absurd (omega arith)
io_fields_lem (l ∷ ls) message (c ∷ cs) n ok f =
    rw
      (
        strcat_fits 1024 message l (omega (arith, long)),
        fgets_line c.body (io_text cs) 63 ok.0.one_line ok.0.short,
        tokens-Laid ok.0.laid,
        chop-concat c.value b'\n',
        strcat_fits 1024 (message ++ l) c.value (omega (arith, long, length-append message l)),
      )
      (io_fields_lem ls ((message ++ l) ++ c.value) cs (omega arith) ok.1
          (omega (arith, long, length-append message l, length-append (message ++ l) c.value))
        ∙ ap some (append_assoc (message ++ l) c.value _ ∙ append_assoc message l _))
  where
    behind : Bytes
    behind = interleave ls (map (λ d. d.value) cs)

    long : length message + (length l + (length c.value + length behind)) < 1024
    long = omega (arith, f, length-append l (c.value ++ behind), length-append c.value behind)
