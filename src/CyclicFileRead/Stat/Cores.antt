-- ===== src/CyclicFileRead/Stat/Cores.antt =====
-- /proc/stat from the file to the queue.
use linux_system_monitoring.Base.{
  if◌then◌else◌, ℕ, suc, ◌+◌, ◌≡◌, ◌≢◌, ◌<◌, refl, ap, ◌∙◌, arith, true, Option, none, some, List,
  [], ◌∷◌, ◌++◌, append-nil, append_assoc, All, length, Bytes,
}
use linux_system_monitoring.Integer.{pos}
use linux_system_monitoring.CyclicFileRead.Text.{next_token}
use linux_system_monitoring.CyclicFileRead.Lines.{Laid, tokens-Laid}
use linux_system_monitoring.CyclicFileRead.Lines.Reading.{
  fgets_line, first_line_lem, ends_in_newline-concat,
}
use linux_system_monitoring.CyclicFileRead.Stat.{
  Floats, Cpu, Cpus, Machine, read_stats, figures, create_list, scale, percentage, scale_nodes,
}

-- A line of a core, without its newline, the words in it, and the figures that they stand for.
pub record Row (F : Type 0) : Type 0 where
  pub body : Bytes
  pub label : Bytes
  pub words : List Bytes
  pub values : List F

module _ {F : Type 0} (fl : Floats F) where
  -- The words are the figures.
  abbrev pub Parses : List Bytes → List F → Type 0
  Parses [] [] = Unit
  Parses (t ∷ ts) (v ∷ vs) = (fl.parse t ≡ some v) × Parses ts vs
  Parses _ _ = ⊥

  -- The last word has the newline behind it.
  pub record IsRow (r : Row F) : Type 0 where
    pub one_line : All (λ c. c ≢ b'\n') r.body
    pub short : length r.body < 1023
    pub laid : Laid (r.label ∷ r.words) (r.body ++ (b'\n' ∷ []))
    pub ten : length r.values ≡ 10
    pub parses : Parses r.words r.values

  abbrev pub file_of : List (Row F) → Bytes → Bytes
  file_of [] rest = rest
  file_of (r ∷ rs) rest = r.body ++ (b'\n' ∷ file_of rs rest)

  read_stats_lem :
      (ts : List Bytes) (vs : List F) (f : Option F)
      → Parses ts vs
      → read_stats fl (length vs) ts f ≡ some vs
  unfolding read_stats next_token
  read_stats_lem [] [] f p = refl
  read_stats_lem [] (v ∷ vs) f p = absurd p
  read_stats_lem (t ∷ ts) [] f p = absurd p
  read_stats_lem (t ∷ ts) (v ∷ vs) f p = rw (p.0) (rw (read_stats_lem ts vs (some v) p.1) refl)

  figures_lem : (r : Row F) → IsRow r → figures fl (r.body ++ (b'\n' ∷ [])) ≡ some r.values
  unfolding figures next_token
  figures_lem r ok = rw (tokens-Laid ok.laid) (
      ap (λ n. read_stats fl n r.words none) {x = 10} {y = length r.values} (omega (arith, ok.ten))
      ∙ read_stats_lem r.words r.values none ok.parses)

  -- The nodes of the rows, numbered from `i` on.
  abbrev pub nodes_of : ℕ → List (Row F) → List (Cpu F)
  nodes_of i [] = []
  nodes_of i (r ∷ rs) = record { name = pos i; stats = r.values } ∷ nodes_of (suc i) rs

  -- Rounds of `create_list` link the nodes behind those that are there.
  pub create_list_lem :
      (m : Machine) (allowed : (n : ℕ) → m.allows n ≡ true) (rs : List (Row F)) (i : ℕ)
      (rest : Bytes) (c : Cpus F)
      → All IsRow rs
      → create_list fl m i (length rs) (file_of rs rest) c
        ≡ some (0, rest, record { nodes = c.nodes ++ nodes_of i rs; live = c.live + length rs })
  unfolding create_list
  create_list_lem m allowed [] i rest c ok = ap (λ d. some (0, rest, d)) (same c.nodes c.live)
    where
      same :
          (ns : List (Cpu F)) (l : ℕ)
          → ◌≡◌ {A = Cpus F}
              (record { nodes = ns; live = l })
              (record { nodes = ns ++ []; live = l + 0 })
      same ns l =
          rw (append-nil ns)
            (ap (λ k. record { nodes = ns; live = k }) {x = l} {y = l + 0} (omega arith))
  create_list_lem m allowed (r ∷ rs) i rest c (ok, oks) =
      rw
        (
          allowed i,
          first_line_lem r.body (file_of rs rest) ok.one_line ok.short,
          ends_in_newline-concat r.body,
          figures_lem r ok,
          fgets_line r.body (file_of rs rest) 1023 ok.one_line ok.short,
        )
        (create_list_lem m allowed rs (i + 1) rest
            (record {
              nodes = c.nodes ++ (record { name = pos i; stats = r.values } ∷ []);
              live = suc c.live;
            })
            oks
          ∙ ap (λ d. some (0, rest, d)) same)
    where
      same :
          ◌≡◌ {A = Cpus F}
            (record {
              nodes =
                  (c.nodes ++ (record { name = pos i; stats = r.values } ∷ []))
                  ++ nodes_of (i + 1) rs;
              live = suc c.live + length rs;
            })
            (record { nodes = c.nodes ++ nodes_of i (r ∷ rs); live = c.live + length (r ∷ rs) })
      same = λ j. record {
        nodes =
            (append_assoc c.nodes (record { name = pos i; stats = r.values } ∷ [])
                  (nodes_of (i + 1) rs)
                ∙ ap (λ k. c.nodes ++ (record { name = pos i; stats = r.values } ∷ nodes_of k rs))
                    {x = i + 1} {y = suc i} (omega arith))
              j;
        live =
            ap (λ k. k) {x = suc c.live + length rs} {y = c.live + suc (length rs)} (omega arith) j;
      }

  -- A figure in percent of the machine's, 0 where that is 0; and figure by figure.
  abbrev pub share : F → F → F
  share total part = if fl.is_zero total then fl.nought else fl.times_hundred (fl.divide part total)

  abbrev pub shares_of : List F → List F → List F
  shares_of (t ∷ ts) (p ∷ ps) = share t p ∷ shares_of ts ps
  shares_of _ _ = []

  scale_lem : (ts ps : List F) → scale fl ts ps ≡ shares_of ts ps
  unfolding scale percentage
  scale_lem [] ps = refl
  scale_lem (t ∷ ts) [] = refl
  scale_lem (t ∷ ts) (p ∷ ps) = ap (◌∷◌ (share t p)) (scale_lem ts ps)

  -- The nodes behind the first, as shares of its figures.
  abbrev pub scaled : List F → List (Cpu F) → List (Cpu F)
  scaled totals [] = []
  scaled totals (c ∷ cs) = record c { stats = shares_of totals c.stats } ∷ scaled totals cs

  pub scale_nodes-append :
      (totals : List F) (cs extra : List (Cpu F))
      → scale_nodes fl (length cs) totals (cs ++ extra) ≡ some (scaled totals cs ++ extra)
  unfolding scale_nodes
  scale_nodes-append totals [] extra = refl
  scale_nodes-append totals (c ∷ cs) extra =
      rw (scale_lem totals c.stats, scale_nodes-append totals cs extra)
