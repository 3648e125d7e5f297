-- ===== src/CyclicFileRead/Pid/Stat.antt =====
-- What pid.c makes of /proc/<pid>/stat.
use linux_system_monitoring.Base.{
  ℕ, ◌+◌, ◌≡◌, ◌≢◌, ◌≤◌, ◌<◌, refl, sym, ap, ◌∙◌, arith, Bool, true, false, ◌&&◌, leb, some, List,
  [], ◌∷◌, ◌++◌, append-nil, append_assoc, if◌then◌else◌, ◌>>=◌, All, length, length-append, take,
  drop, Bytes, codes,
}
use linux_system_monitoring.CString.{snprintf_fits}
use linux_system_monitoring.CyclicFileRead.Forms.{pstat_form}
use linux_system_monitoring.CyclicFileRead.Text.{next_token, strcat, label_at}
use linux_system_monitoring.CyclicFileRead.Lines.{Laid, tokens-Laid, strcat_fits, drop_all}
use linux_system_monitoring.CyclicFileRead.Pid.{escape_and_append, stat_fields, pid_stat_message}

-- A value as it stands in the line: one between quotes, or bare.
abbrev pub shown : Bool → Bytes → Bytes
shown true t = b'"' ∷ (t ++ (b'"' ∷ []))
shown false t = t

-- Each label with its value behind it, from field `i` on; the values of the fields 1 to 5 are
-- quoted.
abbrev pub shown_fields : ℕ → List Bytes → List Bytes → Bytes
shown_fields i [] ts = []
shown_fields i (l ∷ ls) [] = []
shown_fields i (l ∷ ls) (t ∷ ts) = l ++ (shown (leb 1 i && leb i 5) t ++ shown_fields (i + 1) ls ts)

abbrev pub stat_line : List Bytes → Bytes
stat_line values = shown_fields 0 (take 52 pstat_form) values ++ codes " "

-- A label and a value, quoted or not, that fit.
field_lem :
    (quoted : Bool) (message l t : Bytes)
    → length t ≤ 61
    → length message + (length l + length (shown quoted t)) < 2048
    → (if quoted
        then escape_and_append message l t
        else (do labelled ← strcat 2048 message l; strcat 2048 labelled t))
      ≡ some ((message ++ l) ++ shown quoted t)
unfolding escape_and_append
field_lem true message l t small h =
    rw
      (
        strcat_fits 2048 message l (omega arith),
        snprintf_fits 64 (b'"' ∷ (t ++ (b'"' ∷ []))) (omega (arith, length-append t (b'"' ∷ []))),
      )
      (strcat_fits 2048 (message ++ l) (shown true t) (omega (arith, length-append message l)))
field_lem false message l t small h =
    rw (strcat_fits 2048 message l (omega arith))
      (strcat_fits 2048 (message ++ l) t (omega (arith, length-append message l)))

stat_fields_lem :
    (i : ℕ) (ls : List Bytes) (message : Bytes) (ts : List Bytes)
    → length ls ≤ length ts
    → All (λ t. length t ≤ 61) ts
    → length message + length (shown_fields i ls ts) < 2048
    → stat_fields i ls message ts ≡ some (message ++ shown_fields i ls ts, drop (length ls) ts)
unfolding stat_fields next_token
stat_fields_lem i [] message ts h small f = ap (λ m. some (m, ts)) (sym (append-nil message))
stat_fields_lem i (l ∷ ls) message [] h small f = absurd (omega arith)
stat_fields_lem i (l ∷ ls) message (t ∷ ts) h small f =
    rw (field_lem (leb 1 i && leb i 5) message l t small.0 (omega (arith, long))) (
      stat_fields_lem (i + 1) ls ((message ++ l) ++ value) ts (omega arith) small.1
        (omega (arith, long, length-append message l, length-append (message ++ l) value))
      ∙ ap (λ m. some (m, drop (length ls) ts))
          (append_assoc (message ++ l) value _ ∙ append_assoc message l _))
  where
    value : Bytes
    value = shown (leb 1 i && leb i 5) t

    long : length message + (length l + (length value + length (shown_fields (i + 1) ls ts))) < 2048
    long = omega (
      arith,
      f,
      length-append l (value ++ shown_fields (i + 1) ls ts),
      length-append value (shown_fields (i + 1) ls ts),
    )

-- Labels behind the values' end take none.
shown_fields_more :
    (i : ℕ) (ls ts ts' : List Bytes)
    → length ls ≡ length ts
    → shown_fields i ls (ts ++ ts') ≡ shown_fields i ls ts
shown_fields_more i [] [] ts' h = refl
shown_fields_more i [] (t ∷ ts) ts' h = absurd (omega arith)
shown_fields_more i (l ∷ ls) [] ts' h = absurd (omega arith)
shown_fields_more i (l ∷ ls) (t ∷ ts) ts' h =
    ap (λ m. l ++ (shown (leb 1 i && leb i 5) t ++ m))
      (shown_fields_more (i + 1) ls ts ts' (omega arith))

shown_fields-concat :
    (i n : ℕ) (ls ts : List Bytes) (l t : Bytes)
    → length ls ≡ length ts
    → i + length ls ≡ n
    → shown_fields i (ls ++ (l ∷ [])) (ts ++ (t ∷ []))
      ≡ shown_fields i ls ts ++ (l ++ shown (leb 1 n && leb n 5) t)
shown_fields-concat i n [] [] l t h e =
    ap (◌++◌ l)
      (append-nil _ ∙ ap (λ k. shown (leb 1 k && leb k 5) t) {x = i} {y = n} (omega arith))
shown_fields-concat i n [] (u ∷ ts) l t h e = absurd (omega arith)
shown_fields-concat i n (k ∷ ls) [] l t h e = absurd (omega arith)
shown_fields-concat i n (k ∷ ls) (u ∷ ts) l t h e =
    rw (shown_fields-concat (i + 1) n ls ts l t (omega arith) (omega arith))
      (sym (append_assoc k _ _ ∙ ap (◌++◌ k) (append_assoc (shown (leb 1 i && leb i 5) u) _ _)))

-- The line of the file, without its newline, and the values in it.
pub record StatFile : Type 0 where
  pub body : Bytes
  pub values : List Bytes
  pub final : Bytes
  pub behind : Bytes

abbrev pub stat_text : StatFile → Bytes
stat_text f = f.body ++ (b'\n' ∷ f.behind)

abbrev pub stat_file_line : StatFile → Bytes
stat_file_line f = stat_line (f.values ++ (f.final ∷ []))

-- 52 values that fit between their quotes, and a message that fits with its timestamp.
pub record IsStatFile (f : StatFile) : Type 0 where
  pub one_line : All (λ c. c ≢ b'\n') f.body
  pub short : length f.body < 2047
  pub laid : Laid (f.values ++ (f.final ∷ [])) f.body
  pub many : length f.values ≡ 51
  pub small : All (λ t. length t ≤ 61) (f.values ++ (f.final ∷ []))
  pub fits : length (stat_file_line f) + 64 ≤ 1024

pub pid_stat_message_lem :
    (f : StatFile) → IsStatFile f → pid_stat_message f.body ≡ some (stat_file_line f)
unfolding pid_stat_message next_token label_at
pid_stat_message_lem f ok =
    rw
      (
        tokens-Laid ok.laid,
        fields,
        strcat_fits 2048 row last_label (omega (arith, long)),
        strcat_fits 2048 (row ++ last_label) f.final
            (omega (arith, long, length-append row last_label)),
        strcat_fits 2048 ((row ++ last_label) ++ f.final) (codes " ") (
            omega (
              arith,
              long,
              length-append row last_label,
              length-append (row ++ last_label) f.final,
            )),
      )
      (ap (λ m. some (m ++ codes " ")) (append_assoc row last_label f.final ∙ sym whole))
  where
    row : Bytes
    row = shown_fields 0 (take 51 pstat_form) f.values

    last_label : Bytes
    last_label = label_at pstat_form 51

    whole :
        shown_fields 0 (take 52 pstat_form) (f.values ++ (f.final ∷ []))
        ≡ row ++ (last_label ++ f.final)
    whole =
        shown_fields-concat 0 51 (take 51 pstat_form) f.values last_label f.final
          (omega (arith, ok.many)) (omega arith)

    long : length row + (length last_label + (length f.final + 1)) < 1024
    long = omega (
      arith,
      ok.fits,
      ap length whole,
      length-append (shown_fields 0 (take 52 pstat_form) (f.values ++ (f.final ∷ []))) (codes " "),
      length-append row (last_label ++ f.final),
      length-append last_label f.final,
    )

    fields :
        stat_fields 0 (take 51 pstat_form) [] (f.values ++ (f.final ∷ []))
        ≡ some (row, f.final ∷ [])
    fields =
        stat_fields_lem 0 (take 51 pstat_form) [] (f.values ++ (f.final ∷ []))
          (omega (arith, ok.many, length-append {A = Bytes} f.values (f.final ∷ []))) ok.small
          (rw
            (shown_fields_more 0 (take 51 pstat_form) f.values (f.final ∷ [])
              (omega (arith, ok.many)))
            (omega (arith, long)))
        ∙ cc (
          shown_fields_more 0 (take 51 pstat_form) f.values (f.final ∷ []) (omega (arith, ok.many)),
          drop_all 51 f.values (f.final ∷ []) (omega (arith, ok.many)),
        )
