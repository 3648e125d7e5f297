-- ===== src/Bridge/Separator.antt =====
-- The whitespace that `add_hostname_to_msg` finds: the first that no backslash escapes.
use linux_system_monitoring.Base.{
  ℕ, zero, suc, ◌+◌, ◌-◌, ◌≡◌, ◌≤◌, ◌<◌, refl, sym, ap, ◌∙◌, inl, inr, arith, Bool, true, false,
  not, ◌&&◌, Option, none, some, [], ◌∷◌, ◌==◌, ltb, lt→ltb, if◌then◌else◌, Option-cases, length,
  drop, Bytes,
}
use native.Mathlib.Nat.{zero-add}
use linux_system_monitoring.CString.{strchr, char_at}
use linux_system_monitoring.Bridge.Hostname.{strchr_from, skip_escaped, from_first, separator}

abbrev pub shift : ℕ → Option ℕ → Option ℕ
shift i none = none
shift i (some k) = some (i + k)

-- The first whitespace with no backslash in front of it; the flag says that one stands in front.
abbrev pub unescaped_space : Bool → Bytes → Option ℕ
unescaped_space escaped [] = none
unescaped_space escaped (c ∷ cs) =
    if c == b' ' && not escaped then some 0 else shift 1 (unescaped_space (c == b'\\') cs)

-- The character in front of position `k`.
abbrev escaped_at : Bool → Bytes → ℕ → Bool
escaped_at p s zero = p
escaped_at p s (suc k) = char_at s k == b'\\'

unescaped_space-none : (p : Bool) (s : Bytes) → strchr b' ' s ≡ none → unescaped_space p s ≡ none
unfolding strchr
unescaped_space-none p [] h = refl
unescaped_space-none p (c ∷ cs) h = ground (arith, unescaped_space-none (c == b'\\') cs)

shift-shift : (i j : ℕ) (o : Option ℕ) → shift i (shift j o) ≡ shift (i + j) o
shift-shift i j none = refl
shift-shift i j (some k) = ap some (omega arith)

strchr_cons :
    (c : ℕ) (cs : Bytes) (k : ℕ)
    → strchr b' ' (c ∷ cs) ≡ some (suc k)
    → ((c == b' ') ≡ false) × (strchr b' ' cs ≡ some k)
unfolding strchr
strchr_cons c cs k h = ground arith

-- One character that is no whitespace.
unescaped_space_cons :
    (b : Bool) (p : Bool) (c : ℕ) (cs : Bytes) (k : ℕ) (later : Option ℕ)
    → (c == b' ') ≡ false
    → unescaped_space (c == b'\\') cs ≡ (if b then shift (suc k) later else some k)
    → unescaped_space p (c ∷ cs) ≡ (if b then shift (suc (suc k)) later else some (suc k))
unescaped_space_cons true p c cs k later e ih =
    rw (e, ih) (shift-shift 1 (suc k) later ∙ ap (λ n. shift n later) (omega arith))
unescaped_space_cons false p c cs k later e ih = rw (e, ih) (ap some (omega arith))

unescaped_space-some :
    (s : Bytes) (p : Bool) (k : ℕ)
    → strchr b' ' s ≡ some k
    → unescaped_space p s ≡ (
        if escaped_at p s k then shift (suc k) (unescaped_space false (drop (suc k) s)) else some k)
unfolding char_at
unescaped_space-some [] p k h = unfold strchr in cc
unescaped_space-some (c ∷ cs) p zero h = unfold strchr in ground arith
unescaped_space-some (c ∷ cs) p (suc zero) h =
    let (e, t) = strchr_cons c cs zero h in
    unescaped_space_cons _ p c cs zero _ e (unescaped_space-some cs (c == b'\\') zero t)
unescaped_space-some (c ∷ cs) p (suc (suc k)) h =
    let (e, t) = strchr_cons c cs (suc k) h in
    unescaped_space_cons _ p c cs (suc k) _ e (unescaped_space-some cs (c == b'\\') (suc k) t)

char_at-drop : (msg : Bytes) (i k j : ℕ) → j ≡ i + k → char_at msg j ≡ char_at (drop i msg) k
unfolding char_at
char_at-drop msg zero k j e = ap (char_at msg) {y = k} (omega arith)
char_at-drop [] (suc i) k j e = refl
char_at-drop (c ∷ cs) (suc i) k zero e = absurd (omega arith)
char_at-drop (c ∷ cs) (suc i) k (suc j) e = char_at-drop cs i k j (omega arith)

drop-drop : (i j n : ℕ) (s : Bytes) → n ≡ j + i → drop i (drop j s) ≡ drop n s
drop-drop i zero n s e = ap (λ k. drop k s) {y = n} (omega arith)
drop-drop zero (suc j) zero [] e = refl
drop-drop zero (suc j) (suc n) [] e = refl
drop-drop (suc i) (suc j) zero [] e = refl
drop-drop (suc i) (suc j) (suc n) [] e = refl
drop-drop i (suc j) zero (c ∷ cs) e = absurd (omega arith)
drop-drop i (suc j) (suc n) (c ∷ cs) e = drop-drop i j n cs (omega arith)

-- What the code reads in front of a whitespace that it finds from `i` on.
before_whitespace :
    (msg : Bytes) (i k : ℕ)
    → (char_at msg (i - 1) == b'\\') ≡ false
    → 0 < i
    → (char_at msg (i + k - 1) == b'\\') ≡ escaped_at false (drop i msg) k
before_whitespace msg i zero h pos =
    ap (λ n. char_at msg n == b'\\') {x = i + 0 - 1} {y = i - 1} (omega arith) ∙ h
before_whitespace msg i (suc k) h pos =
    ap (λ c. c == b'\\') (char_at-drop msg i k (i + suc k - 1) (omega arith))

strchr_from-none :
    (msg : Bytes) (i : ℕ) → strchr b' ' (drop i msg) ≡ none → strchr_from msg i ≡ none
unfolding strchr_from
strchr_from-none msg i e = rw (e, strchr_from)

strchr_from-some :
    (msg : Bytes) (i k : ℕ) → strchr b' ' (drop i msg) ≡ some k → strchr_from msg i ≡ some (i + k)
unfolding strchr_from
strchr_from-some msg i k e = rw (e, strchr_from)

char_at-strchr : (s : Bytes) (k : ℕ) → strchr b' ' s ≡ some k → char_at s k ≡ b' '
unfolding strchr char_at
char_at-strchr [] k h = cc
char_at-strchr (c ∷ cs) zero h = ground arith
char_at-strchr (c ∷ cs) (suc k) h = ground (arith, char_at-strchr cs k)

drop_of_le : (n : ℕ) (s : Bytes) → length s ≤ n → drop n s ≡ []
drop_of_le zero [] h = refl
drop_of_le zero (c ∷ cs) h = absurd (omega arith)
drop_of_le (suc n) [] h = refl
drop_of_le (suc n) (c ∷ cs) h = drop_of_le n cs (omega arith)

-- One round of the loop, given what the later rounds find.
skip_escaped_round :
    (b : Bool) (msg : Bytes) (i k : ℕ) (again : Option ℕ)
    → again ≡ shift (i + k + 1) (unescaped_space false (drop (i + k + 1) msg))
    → (if b then again else some (i + k))
      ≡ shift i
          (if b then shift (suc k) (unescaped_space false (drop (suc k) (drop i msg))) else some k)
skip_escaped_round false msg i k again h = refl
skip_escaped_round true msg i k again h =
    h
    ∙ ap (λ n. shift n (unescaped_space false (drop n msg))) {y = i + suc k} (omega arith)
    ∙ sym (shift-shift i (suc k) (unescaped_space false (drop (i + suc k) msg)))
    ∙ ap (λ t. shift i (shift (suc k) (unescaped_space false t)))
        (sym (drop-drop (suc k) i (i + suc k) msg refl))

-- The loop finds it, from any whitespace on, with fuel for every character left.
skip_escaped_lem :
    (fuel : ℕ) (msg : Bytes) (i : ℕ)
    → (char_at msg (i - 1) == b'\\') ≡ false
    → 0 < i
    → length msg < fuel + i
    → skip_escaped fuel msg (strchr_from msg i) ≡ shift i (unescaped_space false (drop i msg))
unfolding skip_escaped
skip_escaped_lem zero msg i h pos f =
    rw (drop_of_le i msg (omega arith), strchr_from-none msg i empty)
  where
    empty : strchr b' ' (drop i msg) ≡ none
    empty = rw (drop_of_le i msg (omega arith)) (unfold strchr in refl)
skip_escaped_lem (suc fuel) msg i h pos f = elim (Option-cases (strchr b' ' (drop i msg))) [
  | inl e ↦ rw (strchr_from-none msg i e, unescaped_space-none false (drop i msg) e)
  | inr (k, e) ↦
      rw
        (
          strchr_from-some msg i k e,
          unescaped_space-some (drop i msg) false k e,
          before_whitespace msg i k h pos,
        )
        (skip_escaped_round (escaped_at false (drop i msg) k) msg i k _
          (skip_escaped_lem fuel msg (i + k + 1) (whitespace k e) (omega arith) (omega arith)))
]
  where
    whitespace :
        (k : ℕ) → strchr b' ' (drop i msg) ≡ some k → (char_at msg (i + k + 1 - 1) == b'\\') ≡ false
    whitespace k e =
        rw (char_at-drop msg i k (i + k + 1 - 1) (omega arith), char_at-strchr (drop i msg) k e)

shift_zero : (o : Option ℕ) → shift 0 o ≡ o
shift_zero none = refl
shift_zero (some k) = ap some (omega arith)

-- The code's test in front of the first whitespace.
first_test :
    (msg : Bytes) (k : ℕ) → (ltb 0 k && char_at msg (k - 1) == b'\\') ≡ escaped_at false msg k
first_test msg zero = refl
first_test msg (suc k) =
    rw (lt→ltb 0 (suc k) (omega arith))
      (ap (λ n. char_at msg n == b'\\') {x = suc k - 1} {y = k} (omega arith))

from_first-some :
    (msg : Bytes) (k : ℕ)
    → strchr b' ' msg ≡ some k
    → from_first msg (some k) ≡ unescaped_space false msg
unfolding from_first
from_first-some msg k e =
    rw (first_test msg k, unescaped_space-some msg false k e)
      (ap
          (λ n.
            if escaped_at false msg k
            then skip_escaped (length msg) msg (strchr_from msg (k + 1))
            else some n)
          {y = 0 + k} (omega arith)
        ∙ skip_escaped_round (escaped_at false msg k) msg 0 k _ (
            skip_escaped_lem (length msg) msg (k + 1) whitespace (omega arith) (omega arith)
            ∙ ap (λ n. shift n (unescaped_space false (drop n msg))) {y = 0 + k + 1} (omega arith))
        ∙ shift_zero _)
  where
    whitespace : (char_at msg (k + 1 - 1) == b'\\') ≡ false
    whitespace = rw (char_at-drop msg 0 k (k + 1 - 1) (omega arith), char_at-strchr msg k e)

pub separator_lem : (msg : Bytes) → separator msg ≡ unescaped_space false msg
unfolding separator
separator_lem msg = elim (Option-cases (strchr b' ' msg)) [
  | inl e ↦
      rw (strchr_from-none msg 0 e, unescaped_space-none false msg e) (unfold from_first in refl)
  | inr (k, e) ↦ rw (strchr_from-some msg 0 k e, zero-add) (from_first-some msg k e)
]

-- The position is one of the message.
unescaped_space_lt : (s : Bytes) (p : Bool) (k : ℕ) → unescaped_space p s ≡ some k → k < length s
unescaped_space_lt [] p k h = cc
unescaped_space_lt (c ∷ cs) p k h = elim (Option-cases (unescaped_space (c == b'\\') cs)) [
  | inl e ↦ ground (arith, h, e)
  | inr (j, e) ↦ ground (arith, h, e, unescaped_space_lt cs (c == b'\\') j e)
]
