-- ===== src/CyclicFileRead/Lines.antt =====
-- Lines of text against the tokens in them, and messages against labels and values.
pub mod Reading
use linux_system_monitoring.Base.{
  ℕ, zero, suc, ◌+◌, ◌-◌, ◌≡◌, ◌≢◌, ◌≤◌, ◌<◌, refl, sym, ap, ◌∙◌, arith, true, false, some, List,
  [], ◌∷◌, ◌++◌, append-nil, append_assoc, ◌>>=◌, All, length, length-append, drop, lt→ltb, Bytes,
}
use linux_system_monitoring.CyclicFileRead.Text.{
  first_line, pieces, tokens, next_token, strcat, append_fields, append_last, chop, fgets,
  ends_in_newline,
}

-- No blank in it, and not empty.
abbrev pub IsWord : Bytes → Type 0
IsWord [] = ⊥
IsWord (c ∷ cs) = All (λ d. d ≢ b' ') (c ∷ cs)

-- The line holds these words in order, with blanks between them and in front.
pub data Laid : List Bytes → Bytes → Type 0 where
  last : {t : Bytes} → IsWord t → Laid (t ∷ []) t
  pad : {ts : List Bytes} {s : Bytes} → Laid ts s → Laid ts (b' ' ∷ s)
  word :
      {t : Bytes} {ts : List Bytes} {s : Bytes}
      → IsWord t
      → Laid ts s
      → Laid (t ∷ ts) (t ++ (b' ' ∷ s))

pieces_last : (t : Bytes) → All (λ d. d ≢ b' ') t → pieces true t ≡ t ∷ []
unfolding pieces
pieces_last [] h = refl
pieces_last (c ∷ cs) h = ground (arith, h.0, pieces_last cs h.1)

pieces_word :
    (t rest : Bytes)
    → All (λ d. d ≢ b' ') t
    → pieces true (t ++ (b' ' ∷ rest)) ≡ t ∷ pieces false rest
unfolding pieces
pieces_word [] rest h = refl
pieces_word (c ∷ cs) rest h = ground (arith, h.0, pieces_word cs rest h.1)

-- Outside a word a character that is no blank begins one.
pieces_begin : (c : ℕ) (cs : Bytes) → c ≢ b' ' → pieces false (c ∷ cs) ≡ pieces true (c ∷ cs)
unfolding pieces
pieces_begin c cs h = ground arith

pieces_blank : (s : Bytes) → pieces false (b' ' ∷ s) ≡ pieces false s
unfolding pieces
pieces_blank s = refl

pieces-Laid : {ts : List Bytes} {s : Bytes} → Laid ts s → pieces false s ≡ ts
pieces-Laid (last {t = []} w) = absurd w
pieces-Laid (last {t = c ∷ cs} w) = pieces_begin c cs w.0 ∙ pieces_last (c ∷ cs) w
pieces-Laid (pad {s = s} l) = pieces_blank s ∙ pieces-Laid l
pieces-Laid (word {t = []} w l) = absurd w
pieces-Laid (word {t = c ∷ cs} {s = s} w l) =
    pieces_begin c (cs ++ (b' ' ∷ s)) w.0
    ∙ pieces_word (c ∷ cs) s w
    ∙ ap (◌∷◌ (c ∷ cs)) (pieces-Laid l)

pub no_blank : (t : Bytes) → IsWord t → All (λ c. c ≢ b' ') t
no_blank [] h = absurd h
no_blank (c ∷ cs) h = h

pub Laid-IsWord : {ts : List Bytes} {s : Bytes} → Laid ts s → All IsWord ts
Laid-IsWord (last w) = (w, tt)
Laid-IsWord (pad l) = Laid-IsWord l
Laid-IsWord (word w l) = (w, Laid-IsWord l)

-- `strtok` returns the words of a line.
pub tokens-Laid : {ts : List Bytes} {s : Bytes} → Laid ts s → tokens s ≡ ts
unfolding tokens
tokens-Laid l = pieces-Laid l

pub strcat_fits :
    (size : ℕ) (message text : Bytes)
    → length message + length text < size
    → strcat size message text ≡ some (message ++ text)
unfolding strcat
strcat_fits size message text h = rw (lt→ltb _ _ h)

-- Each label with its value behind it.
abbrev pub interleave : List Bytes → List Bytes → Bytes
interleave [] ts = []
interleave (l ∷ ls) [] = []
interleave (l ∷ ls) (t ∷ ts) = l ++ (t ++ interleave ls ts)

pub append_fields_lem :
    (size : ℕ) (ls : List Bytes) (message : Bytes) (ts : List Bytes)
    → length ls ≤ length ts
    → length message + length (interleave ls ts) < size
    → append_fields size ls message ts ≡ some (message ++ interleave ls ts, drop (length ls) ts)
unfolding append_fields next_token
append_fields_lem size [] message ts h f = ap (λ m. some (m, ts)) (sym (append-nil message))
append_fields_lem size (l ∷ ls) message [] h f = absurd (omega arith)
append_fields_lem size (l ∷ ls) message (t ∷ ts) h f =
    rw (strcat_fits size message l (omega (arith, long))) (
      rw (strcat_fits size (message ++ l) t (omega (arith, long, length-append message l))) (
        append_fields_lem size ls ((message ++ l) ++ t) ts (omega arith)
          (omega (arith, long, length-append message l, length-append (message ++ l) t))
        ∙ ap (λ m. some (m, drop (length ls) ts))
            (append_assoc (message ++ l) t _ ∙ append_assoc message l _)))
  where
    long : length (l ++ (t ++ interleave ls ts)) ≡ length l + (length t + length (interleave ls ts))
    long =
        omega (arith, length-append l (t ++ interleave ls ts), length-append t (interleave ls ts))

pub chop-concat : (t : Bytes) (c : ℕ) → chop (t ++ (c ∷ [])) ≡ t
unfolding chop
chop-concat [] c = refl
chop-concat (a ∷ []) c = refl
chop-concat (a ∷ b ∷ t) c = ap (◌∷◌ a) (chop-concat (b ∷ t) c)

pub append_last_lem :
    (size : ℕ) (label end message t : Bytes) (c : ℕ) (ts : List Bytes)
    → length message + (length label + (length t + length end)) < size
    → append_last size label end message ((t ++ (c ∷ [])) ∷ ts)
      ≡ some (((message ++ label) ++ t) ++ end)
unfolding append_last next_token
append_last_lem size label end message t c ts h =
    rw (strcat_fits size message label (omega arith), chop-concat t c)
      (rw (strcat_fits size (message ++ label) t (omega (arith, length-append message label))) (
        strcat_fits size ((message ++ label) ++ t) end
          (omega (arith, length-append message label, length-append (message ++ label) t))))

pub interleave-append :
    (ls ls' ts ts' : List Bytes)
    → length ls ≡ length ts
    → interleave (ls ++ ls') (ts ++ ts') ≡ interleave ls ts ++ interleave ls' ts'
interleave-append [] ls' [] ts' h = refl
interleave-append [] ls' (t ∷ ts) ts' h = absurd (omega arith)
interleave-append (l ∷ ls) ls' [] ts' h = absurd (omega arith)
interleave-append (l ∷ ls) ls' (t ∷ ts) ts' h =
    rw (interleave-append ls ls' ts ts' (omega arith))
      (sym (append_assoc l _ _ ∙ ap (◌++◌ l) (append_assoc t _ _)))

-- Labels behind the values' end take none.
pub interleave_more :
    (ls ts ts' : List Bytes) → length ls ≡ length ts → interleave ls (ts ++ ts') ≡ interleave ls ts
interleave_more [] [] ts' h = refl
interleave_more [] (t ∷ ts) ts' h = absurd (omega arith)
interleave_more (l ∷ ls) [] ts' h = absurd (omega arith)
interleave_more (l ∷ ls) (t ∷ ts) ts' h =
    ap (λ m. l ++ (t ++ m)) (interleave_more ls ts ts' (omega arith))

interleave-nil : (ls : List Bytes) → interleave ls [] ≡ []
interleave-nil [] = refl
interleave-nil (l ∷ ls) = refl

pub drop_all : (n : ℕ) (ts ts' : List Bytes) → n ≡ length ts → drop n (ts ++ ts') ≡ ts'
drop_all zero [] ts' h = refl
drop_all zero (t ∷ ts) ts' h = absurd (omega arith)
drop_all (suc n) [] ts' h = absurd (omega arith)
drop_all (suc n) (t ∷ ts) ts' h = drop_all n ts ts' (omega arith)

-- A row of labels with values and, behind them, the last value of a line without its newline.
module _ (size : ℕ) (ls : List Bytes) (label : Bytes) (more : List Bytes) (end message : Bytes)
    (values : List Bytes) (t : Bytes) (c : ℕ) (n : length ls ≡ length values) where
  abbrev whole : Bytes
  whole = interleave (ls ++ (label ∷ more)) (values ++ (t ∷ []))

  whole_lem : whole ≡ interleave ls values ++ (label ++ t)
  whole_lem =
      interleave-append ls (label ∷ more) values (t ∷ []) n
      ∙ ap (λ m. interleave ls values ++ (label ++ m))
          (ap (λ m. t ++ m) (interleave-nil more) ∙ append-nil t)

  pub fields_and_last :
      length message + (length whole + length end) < size
      → (do
        (m, rest) ← append_fields size ls message (values ++ ((t ++ (c ∷ [])) ∷ []))
        append_last size label end m rest)
        ≡ some (message ++ (whole ++ end))
  fields_and_last fits =
      ap (λ r. do (m, rest) ← r; append_last size label end m rest) fields
      ∙ append_last_lem size label end (message ++ interleave ls values) t c []
          (omega (arith, long, length-append message (interleave ls values)))
      ∙ ap some joined
    where
      long :
          length message
            + (length (interleave ls values) + (length label + (length t + length end)))
          < size
      long = omega (
        arith,
        rw whole_lem at fits,
        length-append (interleave ls values) (label ++ t),
        length-append label t,
      )

      fields :
          append_fields size ls message (values ++ ((t ++ (c ∷ [])) ∷ []))
          ≡ some (message ++ interleave ls values, (t ++ (c ∷ [])) ∷ [])
      fields =
          append_fields_lem size ls message (values ++ ((t ++ (c ∷ [])) ∷ []))
            (omega (arith, length-append {A = Bytes} values ((t ++ (c ∷ [])) ∷ [])))
            (rw (interleave_more ls values ((t ++ (c ∷ [])) ∷ []) n) (omega (arith, long)))
          ∙ cc (
            interleave_more ls values ((t ++ (c ∷ [])) ∷ []) n,
            drop_all (length ls) values ((t ++ (c ∷ [])) ∷ []) n,
          )

      joined :
          (((message ++ interleave ls values) ++ label) ++ t) ++ end ≡ message ++ (whole ++ end)
      joined = rw whole_lem (simp append_assoc)
