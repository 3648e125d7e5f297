-- ===== src/CyclicFileRead/Options/Collecting.antt =====
-- Functions of cyclic-file-read that keep the contract of a collector.
use linux_system_monitoring.Base.{
  ℕ, suc, ◌≡◌, refl, subst, ◌≤◌, arith, true, some, map, ◌>>=◌, List, [], ◌∷◌, ◌++◌, All, length,
  Bytes,
}
use linux_system_monitoring.CyclicFileRead.Queue.{State, Surroundings, enqueue}
use linux_system_monitoring.CyclicFileRead.Fifo.{Holds, enqueue_refines}
use linux_system_monitoring.CyclicFileRead.Stat.{Floats, Machine, stat}
use linux_system_monitoring.CyclicFileRead.Stat.Messages.{stamp}
use linux_system_monitoring.CyclicFileRead.Stat.Cores.{Row, IsRow, file_of as stat_file_of}
use linux_system_monitoring.CyclicFileRead.Stat.Parts.{Rest, IsRest, rest_of, stat_lines}
use linux_system_monitoring.CyclicFileRead.Stat.Whole.{stat_lem}
use linux_system_monitoring.CyclicFileRead.Sys.{Chip, sys}
use linux_system_monitoring.CyclicFileRead.Sys.Temperatures.{IsChip, chip_lines, sys_lem}
use linux_system_monitoring.CyclicFileRead.Disk.{disk}
use linux_system_monitoring.CyclicFileRead.Disk.Messages.{
  Device, IsDevice, IsGenerous, file_of, stamped, disk_queues, disk_line,
}
use linux_system_monitoring.CyclicFileRead.Net.{net}
use linux_system_monitoring.CyclicFileRead.Net.Queueing.{
  Heading, Interface, IsHeading, IsInterface, net_lines, net_queues, file_of as net_file_of,
}
use linux_system_monitoring.CyclicFileRead.Options.{Collector}
use linux_system_monitoring.CyclicFileRead.Options.Cycles.{IsCollector}
use linux_system_monitoring.CyclicFileRead.Options.Selection.{Queues}

-- One line is put into the queue.
pub enqueue-IsCollector :
    (env : Surroundings) (line : Bytes)
    → IsGenerous env
    → length line ≤ 900
    → IsCollector (enqueue env line)
enqueue-IsCollector env line g l s ms h =
    let (s', runs, holds, kept, next) =
      enqueue_refines env line s ms h (g.grants s.fresh) (omega (arith, g.short s.fresh)) in
    (0, s', (line ++ env.timestamp s.fresh) ∷ [], runs, holds, kept)

-- The devices' lines are put into the queue.
pub disk-IsCollector :
    (env : Surroundings) (ds : List Device)
    → IsGenerous env
    → All IsDevice ds
    → IsCollector (disk env (some (file_of ds)))
disk-IsCollector env ds g ok s ms h =
    let (s', runs, holds, kept) = disk_queues env ds s ms g ok h in
    (0, s', stamped env s.fresh ds, runs, holds, kept)

-- A cycle in which the clock stands still.
pub record IsAt (env : Surroundings) (now : Bytes) : Type 0 where
  pub generous : IsGenerous env
  pub still : (n : ℕ) → env.timestamp n ≡ now

pub enqueue-Queues :
    (env : Surroundings) (line now : Bytes)
    → IsAt env now
    → length line ≤ 900
    → Queues (enqueue env line) ((line ++ now) ∷ [])
enqueue-Queues env line now a l s ms h =
    let (s', runs, holds, kept, next) =
      enqueue_refines env line s ms h (a.generous.grants s.fresh)
        (omega (arith, a.generous.short s.fresh)) in
    (0, s', runs, subst (λ t. Holds s' (ms ++ ((line ++ t) ∷ []))) (a.still s.fresh) holds, kept)

-- The devices' lines with one timestamp.
abbrev pub stamped_at : Bytes → List Device → List Bytes
stamped_at now [] = []
stamped_at now (d ∷ ds) = (disk_line (d.values ++ (d.final ∷ [])) ++ now) ∷ stamped_at now ds

stamped_lem :
    (env : Surroundings) (now : Bytes) (n : ℕ) (ds : List Device)
    → IsAt env now
    → stamped env n ds ≡ stamped_at now ds
stamped_lem env now n [] a = refl
stamped_lem env now n (d ∷ ds) a = rw (a.still n, stamped_lem env now (suc n) ds a)

pub disk-Queues :
    (env : Surroundings) (ds : List Device) (now : Bytes)
    → IsAt env now
    → All IsDevice ds
    → Queues (disk env (some (file_of ds))) (stamped_at now ds)
disk-Queues env ds now a ok s ms h =
    let (s', runs, holds, kept) = disk_queues env ds s ms a.generous ok h in
    (0, s', runs, subst (λ l. Holds s' (ms ++ l)) (stamped_lem env now s.fresh ds a) holds, kept)

pub stamp_lem :
    (env : Surroundings) (now : Bytes) (n : ℕ) (lines : List Bytes)
    → IsAt env now
    → stamp env n lines ≡ map (λ l. l ++ now) lines
stamp_lem env now n [] a = refl
stamp_lem env now n (l ∷ ls) a = rw (a.still n, stamp_lem env now (suc n) ls a)

pub net-Queues :
    (env : Surroundings) (now : Bytes) (hd : Heading) (is : List Interface)
    → IsAt env now
    → IsHeading hd
    → All IsInterface is
    → Queues (net env (some (net_file_of hd is))) (map (λ l. l ++ now) (net_lines is))
net-Queues env now hd is a hh ok s ms h =
    let (s', runs, holds, kept) = net_queues env hd is s ms a.generous hh ok h in
    (
      0,
      s',
      runs,
      subst (λ l. Holds s' (ms ++ l)) (stamp_lem env now s.fresh (net_lines is) a) holds,
      kept,
    )

module _ {F : Type 0} (fl : Floats F) (m : Machine) where
  -- `stat` with no nodes at the start; what it leaves of them is not looked at.
  abbrev pub stat_alone : Surroundings → Bytes → Collector
  stat_alone env file s = do
    (r, _, s') ← stat fl env m (some file) (record { nodes = []; live = 0 }) s
    some (r, s')

  pub stat-Queues :
      (env : Surroundings) (now : Bytes) (r : Row F) (rs : List (Row F)) (rest : Rest)
      → IsAt env now
      → ((n : ℕ) → m.allows n ≡ true)
      → All (IsRow fl) (r ∷ rs)
      → IsRest rest
      → All (λ l. length l ≤ 900) (stat_lines fl m rest.ctext r rs)
      → Queues
          (stat_alone env (stat_file_of fl (r ∷ rs) (rest_of rest)))
          (map (λ l. l ++ now) (stat_lines fl m rest.ctext r rs))
  stat-Queues env now r rs rest a allowed ok rest_ok fits s ms h =
      let (s', runs, holds, kept) =
        stat_lem fl m env a.generous allowed r rs rest 0 s ms ok rest_ok fits h in
      (
        0,
        s',
        rw runs,
        subst (λ l. Holds s' (ms ++ l))
            (stamp_lem env now s.fresh (stat_lines fl m rest.ctext r rs) a) holds,
        kept,
      )

-- Lines that are put into the queue, whatever they are.
pub Queues-IsCollector : (f : Collector) (new : List Bytes) → Queues f new → IsCollector f
Queues-IsCollector f new law s ms h =
    let (r, s', runs, holds, kept) = law s ms h in (r, s', new, runs, holds, kept)

-- The chips' lines are put into the empty queue.
pub sys-Queues :
    {F : Type 0} (print : F → Bytes) (env : Surroundings) (now : Bytes) (cs : List (Chip F))
    → IsAt env now
    → All (IsChip print) cs
    → (s : State) → Holds s []
    → (r : ℕ) × (s' : State) × (sys print env (some cs) s ≡ some (r, s'))
      × Holds s' (map (λ l. l ++ now) (chip_lines print cs))
      × (s'.sent ≡ s.sent)
sys-Queues print env now cs a ok s h =
    let (s', runs, holds, kept) = sys_lem print env a.generous cs s ok h in
    (0, s', runs, subst (Holds s') (stamp_lem env now s.fresh (chip_lines print cs) a) holds, kept)
