-- ===== src/Demo/Row.antt =====
-- A list of the demo as nodes at every other address.
use linux_system_monitoring.Base.{
  ℕ, zero, suc, ◌+◌, ◌*◌, ◌≡◌, ◌≢◌, ◌<◌, ◌≤◌, ap, subst, ◌∙◌, arith, Option, none, some,
}
use linux_system_monitoring.Demo.{Block, mem, int, update, last_of}

pub update_ne :
    (f : ℕ → Option Block) (p : ℕ) (v : Option Block) (q : ℕ) → p ≢ q → update f p v q ≡ f q
update_ne f p v q h = ground arith

pub update_self : (f : ℕ → Option Block) (p : ℕ) (v : Option Block) → update f p v p ≡ v
update_self f p v = ground arith

-- A node with the `int` behind it as its `waste`.
abbrev pub node_with : ℕ → Option ℕ → Option Block
node_with p next = some (mem (record { waste = some (suc p); next = next }))

-- A node at `p`, and `n` more in a row, the last without a successor.
abbrev pub Row : ℕ → ℕ → (ℕ → Option Block) → Type 0
Row zero p block = (block p ≡ node_with p none) × (block (suc p) ≡ some int)
Row (suc n) p block =
    (block p ≡ node_with p (some (p + 2))) × (block (suc p) ≡ some int) × Row n (p + 2) block

-- A change outside the row leaves it alone.
pub Row-same :
    (n p : ℕ) (f g : ℕ → Option Block)
    → ((x : ℕ) → p ≤ x → x < p + 2 + 2 * n → g x ≡ f x)
    → Row n p f
    → Row n p g
Row-same zero p f g same (a, b) =
    (same p (omega arith) (omega arith) ∙ a, same (suc p) (omega arith) (omega arith) ∙ b)
Row-same (suc n) p f g same (a, b, rest) = (
  same p (omega arith) (omega arith) ∙ a,
  same (suc p) (omega arith) (omega arith) ∙ b,
  Row-same n (p + 2) f g (λ x l h. same x (omega arith) (omega arith)) rest,
)

pub last_of-Row :
    (n p fuel : ℕ) (block : ℕ → Option Block)
    → n < fuel
    → Row n p block
    → last_of fuel block p ≡ some (p + 2 * n)
unfolding last_of
last_of-Row n p zero block h r = absurd (omega arith)
last_of-Row zero p (suc fuel) block h (a, b) = rw a (ap some (omega arith))
last_of-Row (suc n) p (suc fuel) block h (a, b, rest) =
    rw (a, last_of-Row n (p + 2) fuel block (omega arith) rest) (ap some (omega arith))

pub Row_last :
    (n p q : ℕ) (block : ℕ → Option Block)
    → q ≡ p + 2 * n
    → Row n p block
    → block q ≡ node_with q none
Row_last zero p q block e (a, b) =
    let same : p ≡ q = omega (arith, e) in subst (λ x. block x ≡ node_with x none) same a
Row_last (suc n) p q block e (a, b, rest) = Row_last n (p + 2) q block (omega (arith, e)) rest

-- One node more behind the last one, `q`.
pub Row-longer :
    (n p q : ℕ) (f g : ℕ → Option Block)
    → q ≡ p + 2 * n
    → ((x : ℕ) → p ≤ x → x < q + 2 → x ≢ q → g x ≡ f x)
    → g q ≡ node_with q (some (q + 2))
    → g (q + 2) ≡ node_with (q + 2) none
    → g (suc (q + 2)) ≡ some int
    → Row n p f
    → Row (suc n) p g
Row-longer zero p q f g e same at new behind (a, b) =
    let here : q ≡ p = omega (arith, e) in
    (
      subst (λ x. g x ≡ node_with x (some (x + 2))) here at,
      same (suc p) (omega arith) (omega (arith, e)) (λ w. omega (arith, e, w)) ∙ b,
      (
        subst (λ x. g (x + 2) ≡ node_with (x + 2) none) here new,
        subst (λ x. g (suc (x + 2)) ≡ some int) here behind,
      ),
    )
Row-longer (suc n) p q f g e same at new behind (a, b, rest) = (
  same p (omega arith) (omega (arith, e)) (λ w. omega (arith, e, w)) ∙ a,
  same (suc p) (omega arith) (omega (arith, e)) (λ w. omega (arith, e, w)) ∙ b,
  Row-longer n (p + 2) q f g (omega (arith, e)) (λ x l h d. same x (omega arith) h d) at new behind
      rest,
)
