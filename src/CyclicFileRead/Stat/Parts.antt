-- ===== src/CyclicFileRead/Stat/Parts.antt =====
-- The parts of a call of `stat`: the rest of the file, the lines, and the shares.
use linux_system_monitoring.Base.{
  ℕ, suc, ◌+◌, ◌-◌, ◌≡◌, ◌≢◌, ◌<◌, refl, ap, ◌∙◌, arith, false, Option, some, List, [], ◌∷◌, ◌++◌,
  ◌>>=◌, All, length, Bytes,
}
use linux_system_monitoring.Integer.{pos}
use linux_system_monitoring.CyclicFileRead.Text.{line_count}
use linux_system_monitoring.CyclicFileRead.Lines.{Laid}
use linux_system_monitoring.CyclicFileRead.Lines.Reading.{fgets_line}
use linux_system_monitoring.CyclicFileRead.Disk.Messages.{line_count-line}
use linux_system_monitoring.CyclicFileRead.Stat.{
  Floats, Cpu, Machine, fgets_keep, skip_to_newline, scale_nodes, percentages, renamed,
}
use linux_system_monitoring.CyclicFileRead.Stat.Messages.{stat_line, node_lines}
use linux_system_monitoring.CyclicFileRead.Stat.Cores.{
  Row, IsRow, file_of, nodes_of, scaled, shares_of, scale_nodes-append,
}

-- The lines behind the cores: that of the interrupts, that of the context switches with the words in
-- it, and the rest.
pub record Rest : Type 0 where
  pub interrupts : Bytes
  pub switches : Bytes
  pub label : Bytes
  pub ctext : Bytes
  pub others : Bytes

abbrev pub rest_of : Rest → Bytes
rest_of r = r.interrupts ++ (b'\n' ∷ (r.switches ++ (b'\n' ∷ r.others)))

-- The file has seven lines behind the cores.
pub record IsRest (r : Rest) : Type 0 where
  pub interrupts_line : All (λ c. c ≢ b'\n') r.interrupts
  pub switches_line : All (λ c. c ≢ b'\n') r.switches
  pub short : length r.switches < 1023
  pub laid : Laid (r.label ∷ (r.ctext ++ (b'\n' ∷ [])) ∷ []) (r.switches ++ (b'\n' ∷ []))
  pub seven : line_count r.others ≡ 5

pub skip_to_newline_lem :
    (a b : Bytes) → All (λ c. c ≢ b'\n') a → skip_to_newline (a ++ (b'\n' ∷ b)) ≡ b'\n' ∷ b
unfolding skip_to_newline
skip_to_newline_lem [] b h = refl
skip_to_newline_lem (c ∷ cs) b h = ground (arith, h.0, skip_to_newline_lem cs b h.1)

pub fgets_keep_line :
    (buffer : Option Bytes) (body rest : Bytes)
    → All (λ c. c ≢ b'\n') body
    → length body < 1023
    → fgets_keep buffer (body ++ (b'\n' ∷ rest)) ≡ (some (body ++ (b'\n' ∷ [])), rest)
unfolding fgets_keep
fgets_keep_line buffer [] rest h f =
    ap (λ (r : Bytes × Bytes). (some r.0, r.1)) (fgets_line [] rest 1023 h f)
fgets_keep_line buffer (c ∷ cs) rest h f =
    ap (λ (r : Bytes × Bytes). (some r.0, r.1)) (fgets_line (c ∷ cs) rest 1023 h f)

module _ {F : Type 0} (fl : Floats F) (m : Machine) where
  -- The lines of the cores behind the first row, the figures as shares of its figures.
  abbrev pub core_lines : Bytes → List F → ℕ → List (Row F) → List Bytes
  core_lines ctext totals i [] = []
  core_lines ctext totals i (r ∷ rs) =
      stat_line fl m ctext (m.decimal (pos i)) (shares_of fl totals r.values)
      ∷ core_lines ctext totals (suc i) rs

  -- The line of the machine, and those of the cores, numbered from 0 on.
  abbrev pub stat_lines : Bytes → Row F → List (Row F) → List Bytes
  stat_lines ctext r rs = stat_line fl m ctext [] r.values ∷ core_lines ctext r.values 0 rs

  pub node_lines_lem :
      (ctext : Bytes) (totals : List F) (i : ℕ) (rs : List (Row F))
      → node_lines fl m ctext false (scaled fl totals (nodes_of fl (suc i) rs))
        ≡ core_lines ctext totals i rs
  unfolding renamed
  node_lines_lem ctext totals i [] = refl
  node_lines_lem ctext totals i (r ∷ rs) =
      ap (◌∷◌ (stat_line fl m ctext (m.decimal (pos i)) (shares_of fl totals r.values)))
        (node_lines_lem ctext totals (suc i) rs)

  length-scale : (ts ps : List F) → length ts ≡ length ps → length (shares_of fl ts ps) ≡ length ps
  length-scale [] [] h = refl
  length-scale [] (p ∷ ps) h = absurd (omega arith)
  length-scale (t ∷ ts) [] h = absurd (omega arith)
  length-scale (t ∷ ts) (p ∷ ps) h = omega (arith, length-scale ts ps (omega arith))

  pub scaled_ten :
      (totals : List F) (i : ℕ) (rs : List (Row F))
      → length totals ≡ 10
      → All (IsRow fl) rs
      → All (λ c. length c.stats ≡ 10) (scaled fl totals (nodes_of fl i rs))
  scaled_ten totals i [] t ok = tt
  scaled_ten totals i (r ∷ rs) t (ok, oks) = (
    omega (arith, length-scale totals r.values (omega (arith, t, ok.ten)), ok.ten),
    scaled_ten totals (suc i) rs t oks,
  )

  pub length-nodes_of : (i : ℕ) (rs : List (Row F)) → length (nodes_of fl i rs) ≡ length rs
  length-nodes_of i [] = refl
  length-nodes_of i (r ∷ rs) = omega (arith, length-nodes_of (suc i) rs)

  pub length-scaled :
      (totals : List F) (cs : List (Cpu F)) → length (scaled fl totals cs) ≡ length cs
  length-scaled totals [] = refl
  length-scaled totals (c ∷ cs) = omega (arith, length-scaled totals cs)

  pub line_count-file_of :
      (rs : List (Row F)) (rest : Bytes)
      → All (IsRow fl) rs
      → line_count (file_of fl rs rest) ≡ length rs + line_count rest
  line_count-file_of [] rest ok = omega arith
  line_count-file_of (r ∷ rs) rest (ok, oks) = omega (
    arith,
    line_count-line r.body (file_of fl rs rest) ok.one_line,
    line_count-file_of rs rest oks,
  )

  pub line_count-rest_of : (r : Rest) → IsRest r → line_count (rest_of r) ≡ 7
  line_count-rest_of r ok = omega (
    arith,
    line_count-line r.interrupts (r.switches ++ (b'\n' ∷ r.others)) ok.interrupts_line,
    line_count-line r.switches r.others ok.switches_line,
    ok.seven,
  )

  -- The first node, and those behind it as shares of its figures.
  abbrev pub shares : Cpu F → List (Cpu F) → List (Cpu F)
  shares c cs = c ∷ scaled fl c.stats cs

  pub percentages_lem :
      (c : Cpu F) (cs extra : List (Cpu F)) (n : ℕ)
      → n ≡ length cs
      → percentages fl (n + 8) ((c ∷ cs) ++ extra) ≡ some (shares c cs ++ extra)
  unfolding percentages
  percentages_lem c cs extra n e =
      ap (λ k. do cs' ← scale_nodes fl k c.stats (cs ++ extra); some (c ∷ cs')) {x = n + 8 - 8}
        {y = length cs} (omega (arith, e))
      ∙ rw (scale_nodes-append fl c.stats cs extra)
