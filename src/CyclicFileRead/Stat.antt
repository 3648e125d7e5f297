-- ===== src/CyclicFileRead/Stat.antt =====
-- stat.c: one line for the machine and one for each core of /proc/stat.
pub mod Messages
pub mod Cores
pub mod Parts
pub mod Whole
use linux_system_monitoring.Base.{
  ℕ, zero, suc, ◌+◌, ◌-◌, ◌==◌, Bool, true, false, Option, none, some, List, [], ◌∷◌, ◌++◌, map,
  if◌then◌else◌, not, length, take, drop, ◌>>=◌, Bytes,
}
use linux_system_monitoring.Integer.{ℤ, pos, pred}
use linux_system_monitoring.CyclicFileRead.Queue.{State, Surroundings, enqueue, max_line}
use linux_system_monitoring.CyclicFileRead.Forms.{stat_form}
use linux_system_monitoring.CyclicFileRead.Text.{
  fgets, first_line, ends_in_newline, chop, tokens, next_token, strcat, append_fields, label_at,
  line_count,
}

-- All that the code does with a `float`: `sscanf` of a text, the test and the operations of
-- `percentages`, and `%.2f`.
pub record Floats (F : Type 0) : Type 0 where
  pub parse : Bytes → Option F
  pub is_zero : F → Bool
  pub nought : F
  pub divide : F → F → F
  pub times_hundred : F → F
  pub print : F → Bytes

-- `Cpu_t`, without the link.
pub record Cpu (F : Type 0) : Type 0 where
  pub name : ℤ
  pub stats : List F

-- The nodes from `stat_head` on, and how many nodes are allocated.
pub record Cpus (F : Type 0) : Type 0 where
  pub nodes : List (Cpu F)
  pub live : ℕ

-- Whether `malloc` succeeds in a round of `create_list`, and `%d`.
pub record Machine : Type 0 where
  pub allows : ℕ → Bool
  pub decimal : ℤ → Bytes

abbrev pub or_else {ℓ} : {A : Type ℓ} → Option A → Option A → Option A
or_else none b = b
or_else (some a) b = some a

-- `fgets`, which leaves the array alone at the end of the file; none is an array that was not written.
unfoldable pub fgets_keep : Option Bytes → Bytes → Option Bytes × Bytes
fgets_keep buffer [] = (buffer, [])
fgets_keep buffer (c ∷ cs) = let (line, rest) = fgets (max_line - 1) (c ∷ cs) in (some line, rest)

-- `fscanf(file, "%*[^\n]")`
unfoldable pub skip_to_newline : Bytes → Bytes
skip_to_newline [] = []
skip_to_newline (c ∷ cs) = if c == b'\n' then c ∷ cs else skip_to_newline cs

module _ {F : Type 0} (fl : Floats F) where
  -- The figures of a line. A token that is no number leaves `f` alone, which has no value at first.
  unfoldable pub read_stats : ℕ → List Bytes → Option F → Option (List F)
  read_stats zero ts f = some []
  read_stats (suc n) ts f = do
    (t, rest) ← next_token ts
    v ← or_else (fl.parse t) f
    vs ← read_stats n rest (some v)
    some (v ∷ vs)

  unfoldable pub figures : Bytes → Option (List F)
  figures line = do (_, ts) ← next_token (tokens line); read_stats 10 ts none

  -- The rounds of `create_list` from round `i` on. A node whose line is too long is allocated and not
  -- linked.
  unfoldable pub create_list : Machine → ℕ → ℕ → Bytes → Cpus F → Option (ℕ × Bytes × Cpus F)
  create_list m i zero file c = some (0, file, c)
  create_list m i (suc n) file c =
      if m.allows i
      then (do
        line ← first_line max_line file
        (if not (ends_in_newline line)
            then some (1, (fgets (max_line - 1) file).1, record c { live = suc c.live })
            else (do
              stats ← figures line
              create_list m (i + 1) n (fgets (max_line - 1) file).1 (record {
                nodes = c.nodes ++ (record { name = pos i; stats = stats } ∷ []);
                live = suc c.live;
              }))))
      else some (1, file, c)

  -- `current->stats[j]`, as a share of the first node's.
  unfoldable pub percentage : F → F → F
  percentage total part =
      if fl.is_zero total then fl.nought else fl.times_hundred (fl.divide part total)

  unfoldable pub scale : List F → List F → List F
  scale (t ∷ ts) (p ∷ ps) = percentage t p ∷ scale ts ps
  scale _ _ = []

  -- The rounds over the nodes behind the first; a NULL node is not followed.
  unfoldable pub scale_nodes : ℕ → List F → List (Cpu F) → Option (List (Cpu F))
  scale_nodes zero totals cs = some cs
  scale_nodes (suc n) totals [] = none
  scale_nodes (suc n) totals (c ∷ cs) = do
    cs' ← scale_nodes n totals cs
    some (record c { stats = scale totals c.stats } ∷ cs')

  unfoldable pub percentages : ℕ → List (Cpu F) → Option (List (Cpu F))
  percentages lines [] = none
  percentages lines (c ∷ cs) = do cs' ← scale_nodes (lines - 8) c.stats cs; some (c ∷ cs')

  -- `current->name -= 1`, except for the first node.
  unfoldable pub renamed : Bool → Cpu F → Cpu F
  renamed first c = if first then c else record c { name = pred c.name }

  -- The line for a node.
  unfoldable pub core_message : Machine → Bool → Bytes → Cpu F → Option Bytes
  core_message m first ctext c = do
    begun ← strcat max_line [] (label_at stat_form 0)
    named ← (if first then some begun else strcat max_line begun (m.decimal c.name))
    (message, _) ← append_fields max_line (take 10 (drop 1 stat_form)) named (map fl.print c.stats)
    labelled ← strcat max_line message (label_at stat_form 11)
    longer ← strcat max_line labelled ctext
    strcat max_line longer (label_at stat_form 12)

  -- The rounds of the loop of `write_stat_message`, with the nodes as they are behind it.
  unfoldable pub write_nodes :
      Surroundings
      → Machine
      → Bool
      → ℕ
      → Bytes
      → List (Cpu F)
      → State
      → Option (ℕ × List (Cpu F) × State)
  write_nodes env m first zero ctext cs s = some (0, cs, s)
  write_nodes env m first (suc n) ctext [] s = none
  write_nodes env m first (suc n) ctext (c ∷ cs) s = do
    message ← core_message m first ctext (renamed first c)
    (failed, s') ← enqueue env message s
    (if failed == 1 then some (1, renamed first c ∷ cs, s') else (do
      (r, cs', s'') ← write_nodes env m false n ctext cs s'
      some (r, renamed first c ∷ cs', s'')))

  -- The rest of the line behind the cores is skipped, its newline read, and then the line of the
  -- context switches.
  unfoldable pub write_stat_message :
      Surroundings → Machine → Bytes → ℕ → Cpus F → State → Option (ℕ × Cpus F × State)
  write_stat_message env m file lines c s = do
    let newline = fgets_keep none (skip_to_newline file)
    line ← (fgets_keep newline.0 newline.1).0
    (if not (ends_in_newline line) then some (1, c, s) else (do
      (_, ts) ← next_token (tokens line)
      (ctext, _) ← next_token ts
      (r, nodes, s') ← write_nodes env m true (lines - 7) (chop ctext) c.nodes s
      some (r, record c { nodes = nodes }, s')))

  unfoldable pub free_list : Cpus F → Cpus F
  free_list c = record { nodes = []; live = c.live - length c.nodes }

  -- `none` for the file is a failed `fopen`. An error leaves the nodes where they are.
  unfoldable pub after_write : ℕ × Cpus F × State → ℕ × Cpus F × State
  after_write (r, c, s) = if r == 1 then (1, c, s) else (0, free_list c, s)

  unfoldable pub stat :
      Surroundings → Machine → Option Bytes → Cpus F → State → Option (ℕ × Cpus F × State)
  stat env m none c s = some (1, c, s)
  stat env m (some file) c s = do
    (failed, rest, c') ← create_list m 0 (line_count file - 7) file c
    (if failed == 1 then some (1, c', s) else (do
      nodes ← percentages (line_count file) c'.nodes
      r ← write_stat_message env m rest (line_count file) (record c' { nodes = nodes }) s
      some (after_write r)))
