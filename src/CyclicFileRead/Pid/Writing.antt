-- ===== src/CyclicFileRead/Pid/Writing.antt =====
-- The way of the three files of a process into the queue.
use linux_system_monitoring.Base.{
  ℕ, ◌+◌, ◌≡◌, ◌≢◌, ◌≤◌, ◌<◌, refl, arith, some, map, List, [], ◌∷◌, ◌++◌, append_assoc, All,
  length, length-append, take, drop, Bytes, codes,
}
use linux_system_monitoring.CString.{str_eq}
use linux_system_monitoring.CyclicFileRead.Forms.{io_form}
use linux_system_monitoring.CyclicFileRead.Text.{strcat, label_at}
use linux_system_monitoring.CyclicFileRead.Lines.{Laid, chop-concat, strcat_fits, interleave}
use linux_system_monitoring.CyclicFileRead.Lines.Reading.{first_line_fits, ends_in_newline-concat}
use linux_system_monitoring.CyclicFileRead.Queue.{State, Surroundings}
use linux_system_monitoring.CyclicFileRead.Fifo.{Holds, enqueue_refines}
use linux_system_monitoring.CyclicFileRead.Disk.Messages.{IsGenerous}
use linux_system_monitoring.CyclicFileRead.Pid.{
  Processes, write_pid_stat, write_pid_statm, write_pid_io, write_pid_message,
}
use linux_system_monitoring.CyclicFileRead.Pid.Stat.{
  StatFile, IsStatFile, stat_text, stat_file_line, pid_stat_message_lem,
}
use linux_system_monitoring.CyclicFileRead.Pid.Statm.{statm_line, write_pid_statm_refines}
use linux_system_monitoring.CyclicFileRead.Pid.Io.{
  Counter, IsCounter, io_text, io_line, io_fields_lem,
}
use linux_system_monitoring.CyclicFileRead.Pid.Rounds.{Stands, Writes}

-- The first line of a statm file, without its newline, and the values in it.
pub record StatmFile : Type 0 where
  pub body : Bytes
  pub values : List Bytes
  pub final : Bytes
  pub behind : Bytes

abbrev pub statm_text : StatmFile → Bytes
statm_text f = f.body ++ (b'\n' ∷ f.behind)

-- The files of a process.
pub record Content : Type 0 where
  pub stat : StatFile
  pub statm : StatmFile
  pub io : List Counter

abbrev pub statm_file_line : Bytes → StatmFile → Bytes
statm_file_line id f = statm_line id (f.values ++ (f.final ∷ []))

pub record IsStatmFile (id : Bytes) (f : StatmFile) : Type 0 where
  pub one_line : All (λ c. c ≢ b'\n') f.body
  pub short : length f.body < 1023
  pub laid : Laid (f.values ++ ((f.final ++ (b'\n' ∷ [])) ∷ [])) (f.body ++ (b'\n' ∷ []))
  pub many : length f.values ≡ 6
  pub fits : length (statm_file_line id f) + 64 ≤ 1024

pub record IsIo (id : Bytes) (cs : List Counter) : Type 0 where
  pub counters : All IsCounter cs
  pub many : length cs ≡ 7
  pub fits : length (io_line id cs) + 64 ≤ 1024

-- The process has these files, and they are as the kernel writes them.
pub record IsProcess (ps : Processes) (q : ℕ) (c : Content) : Type 0 where
  pub stat_there : ps.stat_file q ≡ some (stat_text c.stat)
  pub statm_there : ps.statm_file q ≡ some (statm_text c.statm)
  pub io_there : ps.io_pipe q ≡ io_text c.io
  pub stat : IsStatFile c.stat
  pub statm : IsStatmFile (ps.decimal q) c.statm
  pub io : IsIo (ps.decimal q) c.io

module _ (env : Surroundings) (g : IsGenerous env) (s : State) (ms : List Bytes)
    (h : Holds s ms) where
  write_pid_stat_refines :
      (f : StatFile)
      → IsStatFile f
      → Stands env (stat_file_line f) s ms (write_pid_stat env (some (stat_text f)) s)
  unfolding write_pid_stat
  write_pid_stat_refines f ok =
      let (s', queued, holds, kept, next) =
        enqueue_refines env (stat_file_line f) s ms h (g.grants s.fresh)
          (omega (arith, ok.fits, g.short s.fresh)) in
      (
        s',
        rw
            (
              first_line_fits 2048 f.body f.behind ok.one_line (omega (arith, ok.short)),
              ends_in_newline-concat f.body,
              chop-concat f.body b'\n',
              pid_stat_message_lem f ok,
              queued,
            )
            refl,
        holds,
        kept,
        next,
      )

  write_pid_io_refines :
      (id : Bytes) (cs : List Counter)
      → IsIo id cs
      → Stands env (io_line id cs) s ms (write_pid_io env (io_text cs) id s)
  unfolding write_pid_io label_at strcat
  write_pid_io_refines id cs ok =
      let (s', queued, holds, kept, next) =
        enqueue_refines env (io_line id cs) s ms h (g.grants s.fresh)
          (omega (arith, ok.fits, g.short s.fresh)) in
      (
        s',
        rw
            (
              strcat_fits 1024 (codes "proc-pid-io,pid=") id (omega (arith, long)),
              io_fields_lem (take 7 (drop 1 io_form)) named cs (omega (arith, ok.many)) ok.counters
                  (omega (arith, long)),
              strcat_fits 1024 (named ++ row) (codes " ")
                  (omega (arith, long, length-append named row)),
              append_assoc named row (codes " "),
              queued,
            )
            refl,
        holds,
        kept,
        next,
      )
    where
      named : Bytes
      named = codes "proc-pid-io,pid=" ++ id

      row : Bytes
      row = interleave (take 7 (drop 1 io_form)) (map (λ c. c.value) cs)

      long : 16 + length id + (length row + 1) < 1024
      long = omega (
        arith,
        ok.fits,
        length-append named (row ++ codes " "),
        length-append row (codes " "),
        length-append (codes "proc-pid-io,pid=") id,
      )

  write_pid_statm_file :
      (id : Bytes) (f : StatmFile)
      → IsStatmFile id f
      → Stands env (statm_file_line id f) s ms (write_pid_statm env (some (statm_text f)) id s)
  write_pid_statm_file id f ok =
      write_pid_statm_refines env id f.body f.behind f.final f.values ms s ok.one_line ok.short
        ok.laid ok.many (omega (arith, ok.fits, g.short s.fresh)) (g.grants s.fresh) h

-- The line of a process.
module _ (env : Surroundings) (ps : Processes) (q : ℕ) (c : Content) (g : IsGenerous env)
    (ok : IsProcess ps q c) where
  pub stat-Writes : Writes env ps (codes "stat") (stat_file_line c.stat) q
  unfolding write_pid_message str_eq
  stat-Writes s ms h = rw (ok.stat_there) (write_pid_stat_refines env g s ms h c.stat ok.stat)

  pub statm-Writes : Writes env ps (codes "statm") (statm_file_line (ps.decimal q) c.statm) q
  unfolding write_pid_message str_eq
  statm-Writes s ms h =
      rw (ok.statm_there) (write_pid_statm_file env g s ms h (ps.decimal q) c.statm ok.statm)

  pub io-Writes : Writes env ps (codes "io") (io_line (ps.decimal q) c.io) q
  unfolding write_pid_message str_eq
  io-Writes s ms h = rw (ok.io_there) (write_pid_io_refines env g s ms h (ps.decimal q) c.io ok.io)
