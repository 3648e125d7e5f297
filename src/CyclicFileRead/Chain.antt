-- ===== src/CyclicFileRead/Chain.antt =====
-- A chain of nodes on the heap, and what the loops over it find.
use linux_system_monitoring.Base.{
  ℕ, zero, suc, ◌≡◌, ◌≤◌, ◌<◌, ◌≢◌, refl, ◌∙◌, arith, Option, none, some, List, [], ◌∷◌, ◌++◌,
  length, Bytes,
}
use linux_system_monitoring.CyclicFileRead.Queue.{Node, update, last_node}

-- From `p` on the heap holds the lines `ms` in order, in nodes at growing addresses below `hi`.
abbrev pub IsChain : (ℕ → Option Node) → List Bytes → ℕ → ℕ → Option ℕ → Type 0
IsChain cell [] lo hi p = p ≡ none
IsChain cell (m ∷ ms) lo hi p =
    (a : ℕ) × (q : Option ℕ) × (p ≡ some a)
    × (lo ≤ a)
    × (a < hi)
    × (cell a ≡ some (record { message = m; next = q }))
    × IsChain cell ms (suc a) hi q

pub update_ne :
    (f : ℕ → Option Node) (p : ℕ) (v : Option Node) (q : ℕ) → p ≢ q → update f p v q ≡ f q
update_ne f p v q h = ground arith

pub update_self : (f : ℕ → Option Node) (p : ℕ) (v : Option Node) → update f p v p ≡ v
update_self f p v = ground arith

-- A write outside the chain leaves it alone, and so does a larger bound.
pub IsChain-update :
    (ms : List Bytes) (cell : ℕ → Option Node) (lo hi hi' : ℕ) (p : Option ℕ) (w : ℕ)
    (v : Option Node)
    → ((a : ℕ) → lo ≤ a → a < hi → w ≢ a)
    → hi ≤ hi'
    → IsChain cell ms lo hi p
    → IsChain (update cell w v) ms lo hi' p
IsChain-update [] cell lo hi hi' p w v h k c = c
IsChain-update (m ∷ ms) cell lo hi hi' p w v h k (a, q, e, low, high, at_a, rest) = (
  a,
  q,
  e,
  low,
  omega arith,
  update_ne cell w v a (h a low high) ∙ at_a,
  IsChain-update ms cell (suc a) hi hi' q w v (λ b x y. h b (omega arith) y) k rest,
)

-- A chain may begin at a smaller bound.
IsChain-lower :
    (ms : List Bytes) (cell : ℕ → Option Node) (lo lo' hi : ℕ) (p : Option ℕ)
    → lo ≤ lo'
    → IsChain cell ms lo' hi p
    → IsChain cell ms lo hi p
IsChain-lower [] cell lo lo' hi p h c = c
IsChain-lower (m ∷ ms) cell lo lo' hi p h (a, q, e, low, high, at_a, rest) =
    (a, q, e, omega arith, high, at_a, rest)

-- What the walk to the end of a chain finds, and what linking the node `hi` there makes of it.
pub record Linked (cell : ℕ → Option Node) (fuel a lo hi : ℕ) (ms : List Bytes) (line : Bytes)
    : Type 0 where
  pub last : ℕ
  pub node : Node
  pub walk : last_node fuel cell a ≡ some last
  pub low : lo ≤ last
  pub high : last < hi
  pub at_last : cell last ≡ some node
  pub longer :
      IsChain
        (update cell last (some (record node { next = some hi })))
        (ms ++ (line ∷ []))
        lo
        (suc hi)
        (some a)

module _ (cell : ℕ → Option Node) (hi : ℕ) (line : Bytes) where
  Linked-one :
      (m : Bytes) (fuel a lo : ℕ)
      → cell hi ≡ some (record { message = line; next = none })
      → lo ≤ a
      → a < hi
      → cell a ≡ some (record { message = m; next = none })
      → Linked cell (suc fuel) a lo hi (m ∷ []) line
  unfolding last_node
  Linked-one m fuel a lo new low high at_a = record {
    last = a;
    node = record { message = m; next = none };
    walk = rw at_a;
    low = low;
    high = high;
    at_last = at_a;
    longer = (
      a,
      some hi,
      refl,
      low,
      omega arith,
      update_self cell a _,
      (hi, none, refl, omega arith, omega arith, update_ne cell a _ hi (omega arith) ∙ new, refl),
    );
  }

  Linked-cons :
      (ms : List Bytes) (m : Bytes) (fuel a b lo : ℕ)
      → lo ≤ a
      → a < hi
      → cell a ≡ some (record { message = m; next = some b })
      → Linked cell fuel b (suc a) hi ms line
      → Linked cell (suc fuel) a lo hi (m ∷ ms) line
  unfolding last_node
  Linked-cons ms m fuel a b lo low high at_a later = record {
    last = later.last;
    node = later.node;
    walk = rw at_a later.walk;
    low = omega (arith, later.low);
    high = later.high;
    at_last = later.at_last;
    longer = (
      a,
      some b,
      refl,
      low,
      omega arith,
      update_ne cell later.last _ a (omega (arith, later.low)) ∙ at_a,
      later.longer,
    );
  }

  pub walk_lem :
      (ms : List Bytes) (m : Bytes) (q : Option ℕ) (fuel a lo : ℕ)
      → cell hi ≡ some (record { message = line; next = none })
      → length ms < fuel
      → lo ≤ a
      → a < hi
      → cell a ≡ some (record { message = m; next = q })
      → IsChain cell ms (suc a) hi q
      → Linked cell fuel a lo hi (m ∷ ms) line
  walk_lem ms m q zero a lo new f low high at_a rest = absurd (omega arith)
  walk_lem [] m q (suc fuel) a lo new f low high at_a rest =
      Linked-one m fuel a lo new low high (rw rest at at_a)
  walk_lem (m' ∷ ms) m q (suc fuel) a lo new f low high at_a (b, q', e, low', high', at_b, rest) =
      Linked-cons (m' ∷ ms) m fuel a b lo low high (rw e at at_a)
        (walk_lem ms m' q' fuel b (suc a) new (omega arith) low' high' at_b rest)
