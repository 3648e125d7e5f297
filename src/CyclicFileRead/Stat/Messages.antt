-- ===== src/CyclicFileRead/Stat/Messages.antt =====
-- The lines of stat.c for a list of cores, and the way of a list into the queue.
use linux_system_monitoring.Base.{
  if◌then◌else◌, ℕ, suc, ◌+◌, ◌≡◌, ◌≤◌, ◌<◌, refl, sym, ap, subst, ◌∙◌, arith, Bool, true, false,
  some, List, [], ◌∷◌, ◌++◌, append-nil, append_assoc, map, if◌then◌else◌, ◌>>=◌, All, length,
  length-append, take, drop, Bytes, codes,
}
use linux_system_monitoring.CyclicFileRead.Queue.{State, Surroundings}
use linux_system_monitoring.CyclicFileRead.Fifo.{Holds, enqueue_refines}
use linux_system_monitoring.Integer.{pred}
use linux_system_monitoring.CyclicFileRead.Forms.{stat_form}
use linux_system_monitoring.CyclicFileRead.Text.{strcat, append_fields, label_at}
use linux_system_monitoring.CyclicFileRead.Lines.{interleave, append_fields_lem, strcat_fits}
use linux_system_monitoring.CyclicFileRead.Disk.Messages.{IsGenerous}
use linux_system_monitoring.CyclicFileRead.Stat.{
  Floats, Cpu, Machine, core_message, renamed, write_nodes,
}

-- Lines with the timestamps of their nodes, from node `n` on.
abbrev pub stamp : Surroundings → ℕ → List Bytes → List Bytes
stamp env n [] = []
stamp env n (l ∷ ls) = (l ++ env.timestamp n) ∷ stamp env (suc n) ls

-- The ten labels of the figures.
abbrev pub labels : List Bytes
labels = take 10 (drop 1 stat_form)

module _ {F : Type 0} (fl : Floats F) (m : Machine) (ctext : Bytes) where
  -- A line with the number of the core, its figures, and the context switches.
  abbrev pub stat_line : Bytes → List F → Bytes
  stat_line number stats =
      (codes "proc-stat,core=cpu" ++ number)
      ++ (interleave labels (map fl.print stats) ++ (codes ",ctext=" ++ (ctext ++ codes " ")))

  -- The line of a node; the first has no number.
  abbrev pub node_line : Bool → Cpu F → Bytes
  node_line first c = stat_line (if first then [] else m.decimal c.name) c.stats

  length-map : (vs : List F) → length (map fl.print vs) ≡ length vs
  length-map [] = refl
  length-map (v ∷ vs) = omega (arith, length-map vs)

  -- From the name on.
  fields_lem :
      (named : Bytes) (stats : List F)
      → length stats ≡ 10
      → length (
          named
          ++ (interleave labels (map fl.print stats) ++ (codes ",ctext=" ++ (ctext ++ codes " "))))
        < 1024
      → (do
        (message, _) ← append_fields 1024 labels named (map fl.print stats)
        labelled ← strcat 1024 message (codes ",ctext=")
        longer ← strcat 1024 labelled ctext
        strcat 1024 longer (codes " "))
        ≡ some (
            named
            ++ (interleave labels (map fl.print stats)
                ++ (codes ",ctext=" ++ (ctext ++ codes " "))))
  fields_lem named stats n fits =
      rw
        (append_fields_lem 1024 labels named (map fl.print stats) (omega (arith, length-map stats))
          (omega (arith, whole)))
        (rw
          (strcat_fits 1024 (named ++ row) (codes ",ctext=")
            (omega (arith, whole, length-append named row)))
          (rw
            (strcat_fits 1024 ((named ++ row) ++ codes ",ctext=") ctext (
              omega (
                arith,
                whole,
                length-append named row,
                length-append (named ++ row) (codes ",ctext="),
              )))
            (strcat_fits 1024 (((named ++ row) ++ codes ",ctext=") ++ ctext) (codes " ") (
                omega (
                  arith,
                  whole,
                  length-append named row,
                  length-append (named ++ row) (codes ",ctext="),
                  length-append ((named ++ row) ++ codes ",ctext=") ctext,
                ))
              ∙ ap some joined)))
    where
      row : Bytes
      row = interleave labels (map fl.print stats)

      whole : length named + (length row + (7 + (length ctext + 1))) < 1024
      whole = omega (
        arith,
        fits,
        length-append named (row ++ (codes ",ctext=" ++ (ctext ++ codes " "))),
        length-append row (codes ",ctext=" ++ (ctext ++ codes " ")),
        length-append ctext (codes " "),
      )

      joined :
          (((named ++ row) ++ codes ",ctext=") ++ ctext) ++ codes " "
          ≡ named ++ (row ++ (codes ",ctext=" ++ (ctext ++ codes " ")))
      joined =
          append_assoc ((named ++ row) ++ codes ",ctext=") ctext (codes " ")
          ∙ append_assoc (named ++ row) (codes ",ctext=") (ctext ++ codes " ")
          ∙ append_assoc named row (codes ",ctext=" ++ (ctext ++ codes " "))

  core_message_lem :
      (first : Bool) (c : Cpu F)
      → length c.stats ≡ 10
      → length (node_line first c) < 1024
      → core_message fl m first ctext c ≡ some (node_line first c)
  unfolding core_message label_at strcat
  core_message_lem true c n fits = fields_lem (codes "proc-stat,core=cpu") c.stats n fits
  core_message_lem false c n fits =
      rw
        (strcat_fits 1024 (codes "proc-stat,core=cpu") (m.decimal c.name) (
          omega (
            arith,
            fits,
            length-append (codes "proc-stat,core=cpu" ++ m.decimal c.name) (
                interleave labels (map fl.print c.stats)
                ++ (codes ",ctext=" ++ (ctext ++ codes " "))),
          )))
        (fields_lem (codes "proc-stat,core=cpu" ++ m.decimal c.name) c.stats n fits)

  -- A node behind the first is numbered one less.
  abbrev pub shown : Bool → Cpu F → Cpu F
  shown first c = if first then c else record c { name = pred c.name }

  -- The lines of the nodes.
  abbrev pub node_lines : Bool → List (Cpu F) → List Bytes
  node_lines first [] = []
  node_lines first (c ∷ cs) = node_line first (shown first c) ∷ node_lines false cs

  -- Nodes with ten figures each, and lines that fit.
  pub record AreReady (first : Bool) (cs : List (Cpu F)) : Type 0 where
    pub ten : All (λ c. length c.stats ≡ 10) cs
    pub fits : All (λ l. length l ≤ 900) (node_lines first cs)

  module _ (env : Surroundings) (g : IsGenerous env) where
    -- The rounds go over the nodes that there are lines for; nodes behind them stay as they are.
    pub write_nodes-append :
        (cs extra : List (Cpu F)) (first : Bool) (s : State) (ms : List Bytes)
        → AreReady first cs
        → Holds s ms
        → (cs' : List (Cpu F)) × (s' : State) × (write_nodes fl env m first
              (length cs)
              ctext
              (cs ++ extra)
              s
            ≡ some (0, cs' ++ extra, s'))
          × Holds s' (ms ++ stamp env s.fresh (node_lines first cs))
          × (s'.sent ≡ s.sent)
          × (length cs' ≡ length cs)
    unfolding write_nodes renamed
    write_nodes-append [] extra first s ms r h =
        ([], s, refl, subst (Holds s) (sym (append-nil ms)) h, refl, refl)
    write_nodes-append (c ∷ cs) extra first s ms r h =
        let c' = shown first c in
        let line = node_line first c' in
        let (s1, queued, holds, kept, next) =
          enqueue_refines env line s ms h (g.grants s.fresh)
            (omega (arith, r.fits.0, g.short s.fresh)) in
        let (cs', s', runs, holds', kept', n) =
          write_nodes-append cs extra false s1 _ (record { ten = r.ten.1; fits = r.fits.1 })
            holds in
        (
          c' ∷ cs',
          s',
          rw
              (
                core_message_lem first c' (ten_figures first c r.ten.0) (omega (arith, r.fits.0)),
                queued,
                runs,
              )
              refl,
          subst (Holds s')
              (append_assoc ms _ (stamp env s1.fresh (node_lines false cs))
                ∙ ap
                    (λ k.
                      ms ++ ((line ++ env.timestamp s.fresh) ∷ stamp env k (node_lines false cs)))
                    next)
              holds',
          kept' ∙ kept,
          omega (arith, n),
        )
      where
        ten_figures :
            (first : Bool) (c : Cpu F) → length c.stats ≡ 10 → length (shown first c).stats ≡ 10
        ten_figures true c e = e
        ten_figures false c e = e
