-- ===== src/CyclicFileRead/Stat/Whole.antt =====
-- A whole call of `stat`.
use linux_system_monitoring.Base.{
  ℕ, suc, ◌+◌, ◌-◌, ◌≡◌, ◌≤◌, refl, sym, ap, subst, ◌∙◌, arith, true, none, some, List, [], ◌∷◌,
  ◌++◌, append-nil, ◌>>=◌, All, length, length-append, Bytes,
}
use linux_system_monitoring.Integer.{pos}
use linux_system_monitoring.CyclicFileRead.Queue.{State, Surroundings}
use linux_system_monitoring.CyclicFileRead.Fifo.{Holds}
use linux_system_monitoring.CyclicFileRead.Text.{next_token, line_count}
use linux_system_monitoring.CyclicFileRead.Lines.{tokens-Laid, chop-concat}
use linux_system_monitoring.CyclicFileRead.Lines.Reading.{ends_in_newline-concat}
use linux_system_monitoring.CyclicFileRead.Disk.Messages.{IsGenerous}
use linux_system_monitoring.CyclicFileRead.Stat.{
  Floats, Cpu, Cpus, Machine, create_list, renamed, write_nodes, write_stat_message, free_list,
  after_write, stat,
}
use linux_system_monitoring.CyclicFileRead.Stat.Messages.{
  stamp, stat_line, node_lines, AreReady, write_nodes-append,
}
use linux_system_monitoring.CyclicFileRead.Stat.Cores.{
  Row, IsRow, file_of, nodes_of, create_list_lem,
}
use linux_system_monitoring.CyclicFileRead.Stat.Parts.{
  Rest, rest_of, IsRest, skip_to_newline_lem, fgets_keep_line, stat_lines, node_lines_lem,
  scaled_ten, length-nodes_of, length-scaled, line_count-file_of, line_count-rest_of, shares,
  percentages_lem,
}

module _ {F : Type 0} (fl : Floats F) (m : Machine) where
  module _ (env : Surroundings) (g : IsGenerous env) (allowed : (n : ℕ) → m.allows n ≡ true) where
    write_stat_message_lem :
        (rest : Rest) (cs extra : List (Cpu F)) (n live : ℕ) (s : State) (ms : List Bytes)
        → IsRest rest
        → suc n ≡ length cs
        → AreReady fl m rest.ctext true cs
        → Holds s ms
        → (cs' : List (Cpu F)) × (s' : State) × (write_stat_message fl env m
              (rest_of rest)
              (n + 8)
              (record { nodes = cs ++ extra; live = live })
              s
            ≡ some (0, record { nodes = cs' ++ extra; live = live }, s'))
          × Holds s' (ms ++ stamp env s.fresh (node_lines fl m rest.ctext true cs))
          × (s'.sent ≡ s.sent)
          × (length cs' ≡ length cs)
    unfolding write_stat_message next_token
    write_stat_message_lem rest cs extra n live s ms ok e r h =
        let (cs', s', runs, holds, kept, same) =
          write_nodes-append fl m rest.ctext env g cs extra true s ms r h in
        (
          cs',
          s',
          rw
              (
                skip_to_newline_lem rest.interrupts (rest.switches ++ (b'\n' ∷ rest.others))
                    ok.interrupts_line,
                fgets_keep_line none [] (rest.switches ++ (b'\n' ∷ rest.others)) tt (omega arith),
                fgets_keep_line (some (b'\n' ∷ [])) rest.switches rest.others ok.switches_line
                    ok.short,
                ends_in_newline-concat rest.switches,
                tokens-Laid ok.laid,
                chop-concat rest.ctext b'\n',
              )
              (ap
                  (λ k. do
                    (f, nodes, t) ← write_nodes fl env m true k rest.ctext (cs ++ extra) s
                    some (f, record { nodes = nodes; live = live }, t))
                  {x = n + 8 - 7} {y = length cs} (omega (arith, e))
                ∙ rw runs refl),
          holds,
          kept,
          same,
        )

    -- A call behind which the nodes of the file stand behind nodes that were there: the lines are those
    -- of as many nodes from the front as the file has cores.
    stat_on :
        (r : Row F) (rs : List (Row F)) (rest : Rest) (c : Cpu F) (cs extra : List (Cpu F))
        (old : Cpus F) (s : State) (ms : List Bytes)
        → All (IsRow fl) (r ∷ rs)
        → IsRest rest
        → old.nodes ++ nodes_of fl 0 (r ∷ rs) ≡ (c ∷ cs) ++ extra
        → length rs ≡ length cs
        → AreReady fl m rest.ctext true (shares fl m c cs)
        → Holds s ms
        → (s' : State) × (stat fl env m (some (file_of fl (r ∷ rs) (rest_of rest))) old s
            ≡ some (0, record { nodes = []; live = old.live - length old.nodes }, s'))
          × Holds s' (ms ++ stamp env s.fresh (node_lines fl m rest.ctext true (shares fl m c cs)))
          × (s'.sent ≡ s.sent)
    unfolding stat free_list after_write
    stat_on r rs rest c cs extra old s ms ok rest_ok split e ready h =
        let (cs', s', runs, holds, kept, n) =
          write_stat_message_lem rest (shares fl m c cs) extra (length rs)
            (old.live + suc (length rs)) s ms rest_ok
            (omega (arith, e, length-scaled fl m c.stats cs)) ready h in
        (
          s',
          rw (lines, created)
              (rw (split, percentages_lem fl m c cs extra (length rs) e, runs)
                (ap (λ k. some (0, record { nodes = []; live = k }, s'))
                  {x = old.live + suc (length rs) - length (cs' ++ extra)}
                  {y = old.live - length old.nodes}
                  (omega
                    (arith, freed, length-append cs' extra, n, length-scaled fl m c.stats cs)))),
          holds,
          kept,
        )
      where
        file : Bytes
        file = file_of fl (r ∷ rs) (rest_of rest)

        lines : line_count file ≡ length rs + 8
        lines = omega (
          arith,
          line_count-file_of fl m (r ∷ rs) (rest_of rest) ok,
          line_count-rest_of fl m rest rest_ok,
        )

        created :
            create_list fl m 0 (length rs + 8 - 7) file old
            ≡ some (
              0,
              rest_of rest,
              record {
                nodes = old.nodes ++ nodes_of fl 0 (r ∷ rs);
                live = old.live + suc (length rs);
              },
            )
        created =
            ap (λ k. create_list fl m 0 k file old) {x = length rs + 8 - 7} {y = suc (length rs)}
              (omega arith)
            ∙ create_list_lem fl m allowed (r ∷ rs) 0 (rest_of rest) old ok

        freed : length old.nodes + suc (length rs) ≡ suc (length cs) + length extra
        freed = omega (
          arith,
          length-append old.nodes (nodes_of fl 0 (r ∷ rs)),
          length-nodes_of fl m 1 rs,
          ap length split,
          length-append cs extra,
        )

    -- When memory is there, timestamps fit, no nodes of an earlier call are left, and
    -- /proc/stat has a line of ten numbers for the machine and for each core, seven lines
    -- behind them, and gives lines of at most 900 characters, `stat` returns 0 and puts
    -- behind the queue the line of the machine with its figures, then for each core in order
    -- a line with its number and each figure as a share of the figure of the machine, all
    -- with the count of context switches; it sends nothing and frees every node that it
    -- allocated.
    pub stat_lem :
        (r : Row F) (rs : List (Row F)) (rest : Rest) (live : ℕ) (s : State) (ms : List Bytes)
        → All (IsRow fl) (r ∷ rs)
        → IsRest rest
        → All (λ l. length l ≤ 900) (stat_lines fl m rest.ctext r rs)
        → Holds s ms
        → (s' : State) × (stat fl env m
              (some (file_of fl (r ∷ rs) (rest_of rest)))
              (record { nodes = []; live = live })
              s
            ≡ some (0, record { nodes = []; live = live }, s'))
          × Holds s' (ms ++ stamp env s.fresh (stat_lines fl m rest.ctext r rs))
          × (s'.sent ≡ s.sent)
    stat_lem r rs rest live s ms (ok, oks) rest_ok fits h =
        let (s', runs, holds, kept) =
          stat_on r rs rest (record { name = pos 0; stats = r.values }) (nodes_of fl 1 rs) []
            (record { nodes = []; live = live }) s ms (ok, oks) rest_ok
            (sym (append-nil (nodes_of fl 0 (r ∷ rs)))) (sym (length-nodes_of fl m 1 rs)) ready h in
        (
          s',
          runs
              ∙ ap (λ k. some (0, record { nodes = []; live = k }, s')) {x = live - 0} {y = live}
                  (omega arith),
          subst (λ l. Holds s' (ms ++ stamp env s.fresh l)) ready_lines holds,
          kept,
        )
      where
        nodes : List (Cpu F)
        nodes = shares fl m (record { name = pos 0; stats = r.values }) (nodes_of fl 1 rs)

        ready_lines : node_lines fl m rest.ctext true nodes ≡ stat_lines fl m rest.ctext r rs
        ready_lines =
            unfold renamed in
            ap (◌∷◌ (stat_line fl m rest.ctext [] r.values))
              (node_lines_lem fl m rest.ctext r.values 0 rs)

        ready : AreReady fl m rest.ctext true nodes
        ready = record {
          ten = (ok.ten, scaled_ten fl m r.values 1 rs ok.ten oks);
          fits = subst (All (λ l. length l ≤ 900)) (sym ready_lines) fits;
        }

    -- When nodes are left from an earlier call that failed, as many as the file has rows, a
    -- call of `stat` under the same conditions returns 0 and puts into the queue the lines of
    -- the nodes that were left, their figures scaled and renumbered once more, and nothing of
    -- the file but the count of context switches; it then frees all nodes of the list, those
    -- that were left and its own.
    pub stat_stale :
        (r : Row F) (rs : List (Row F)) (rest : Rest) (c : Cpu F) (cs : List (Cpu F)) (live : ℕ)
        (s : State) (ms : List Bytes)
        → All (IsRow fl) (r ∷ rs)
        → IsRest rest
        → length rs ≡ length cs
        → AreReady fl m rest.ctext true (shares fl m c cs)
        → Holds s ms
        → (s' : State) × (stat fl env m
              (some (file_of fl (r ∷ rs) (rest_of rest)))
              (record { nodes = c ∷ cs; live = live })
              s
            ≡ some (0, record { nodes = []; live = live - length (c ∷ cs) }, s'))
          × Holds s' (ms ++ stamp env s.fresh (node_lines fl m rest.ctext true (shares fl m c cs)))
          × (s'.sent ≡ s.sent)
    stat_stale r rs rest c cs live s ms ok rest_ok e ready h =
        stat_on r rs rest c cs (nodes_of fl 0 (r ∷ rs)) (record { nodes = c ∷ cs; live = live }) s
          ms ok rest_ok refl e ready h
