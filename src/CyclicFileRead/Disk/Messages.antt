-- ===== src/CyclicFileRead/Disk/Messages.antt =====
-- What disk.c makes of /proc/diskstats.
use linux_system_monitoring.Base.{
  ℕ, suc, ◌+◌, ◌≡◌, ◌≢◌, ◌≤◌, ◌<◌, refl, ap, subst, ◌∙◌, arith, true, some, List, [], ◌∷◌, ◌++◌,
  append-nil, append_assoc, All, length, length-append, take, Bytes, codes,
}
use linux_system_monitoring.CyclicFileRead.Forms.{disk_form}
use linux_system_monitoring.CyclicFileRead.Text.{label_at, line_count}
use linux_system_monitoring.CyclicFileRead.Lines.{Laid, tokens-Laid, interleave, fields_and_last}
use linux_system_monitoring.CyclicFileRead.Lines.Reading.{fgets_line, ends_in_newline-concat}
use linux_system_monitoring.CyclicFileRead.Queue.{State, Surroundings, dequeue}
use linux_system_monitoring.CyclicFileRead.Fifo.{Holds, enqueue_refines, dequeue_refines}
use linux_system_monitoring.CyclicFileRead.Disk.{disk_message, write_disk_message, disk}

-- The line for one device: each of the 20 labels with its value.
abbrev pub disk_line : List Bytes → Bytes
disk_line values = interleave disk_form values ++ codes " "

-- For a line of 20 words, the last with a newline behind it, that gives a message shorter than
-- 1024, the message is each label of `disk_form` with the word of its place behind it, without
-- the newline, and a blank at the end.
pub disk_message_lem :
    (values : List Bytes) (t line : Bytes)
    → length values ≡ 19
    → Laid (values ++ ((t ++ (b'\n' ∷ [])) ∷ [])) line
    → length (disk_line (values ++ (t ∷ []))) < 1024
    → disk_message line ≡ some (disk_line (values ++ (t ∷ [])))
unfolding disk_message label_at
disk_message_lem values t line n l fits = rw (tokens-Laid l) (
    fields_and_last 1024 (take 19 disk_form) (label_at disk_form 19) (codes " " ∷ []) (codes " ") []
      values t b'\n' (omega arith)
      (omega (arith, fits, length-append (interleave disk_form (values ++ (t ∷ []))) (codes " "))))

-- A line of the file, without its newline, and the values in it.
pub record Device : Type 0 where
  pub body : Bytes
  pub values : List Bytes
  pub final : Bytes

-- The line is one of /proc/diskstats, and what is made of it fits into a message with its timestamp.
pub record IsDevice (d : Device) : Type 0 where
  pub one_line : All (λ c. c ≢ b'\n') d.body
  pub short : length d.body < 1023
  pub twenty : length d.values ≡ 19
  pub laid : Laid (d.values ++ ((d.final ++ (b'\n' ∷ [])) ∷ [])) (d.body ++ (b'\n' ∷ []))
  pub fits : length (disk_line (d.values ++ (d.final ∷ []))) + 64 ≤ 1024

abbrev pub file_of : List Device → Bytes
file_of [] = []
file_of (d ∷ ds) = d.body ++ (b'\n' ∷ file_of ds)

-- The queued lines, each with the timestamp of its node, from node `n` on.
abbrev pub stamped : Surroundings → ℕ → List Device → List Bytes
stamped env n [] = []
stamped env n (d ∷ ds) =
    (disk_line (d.values ++ (d.final ∷ [])) ++ env.timestamp n) ∷ stamped env (suc n) ds

-- Memory is there, and a timestamp fits into an array of 64 cells.
pub record IsGenerous (env : Surroundings) : Type 0 where
  pub grants : (n : ℕ) → env.grants n ≡ true
  pub short : (n : ℕ) → length (env.timestamp n) < 64

write_disk_message_refines :
    (env : Surroundings) (ds : List Device) (s : State) (ms : List Bytes)
    → IsGenerous env
    → All IsDevice ds
    → Holds s ms
    → (s' : State) × (write_disk_message env (length ds) (file_of ds) s ≡ some (0, s'))
      × Holds s' (ms ++ stamped env s.fresh ds)
      × (s'.sent ≡ s.sent)
unfolding write_disk_message
write_disk_message_refines env [] s ms g ok h = (s, refl, rw append-nil h, refl)
write_disk_message_refines env (d ∷ ds) s ms g (ok, oks) h =
    let (s1, queued, holds, kept, next) =
      enqueue_refines env (disk_line (d.values ++ (d.final ∷ []))) s ms h (g.grants s.fresh)
        (omega (arith, ok.fits, g.short s.fresh)) in
    let (s', runs, holds', kept') = write_disk_message_refines env ds s1 _ g oks holds in
    (
      s',
      rw
          (
            fgets_line d.body (file_of ds) 1023 ok.one_line ok.short,
            ends_in_newline-concat d.body,
            disk_message_lem d.values d.final (d.body ++ (b'\n' ∷ [])) ok.twenty ok.laid
                (omega (arith, ok.fits)),
            queued,
          )
          runs,
      subst (Holds s')
          (append_assoc ms _ (stamped env s1.fresh ds)
            ∙ ap
                (λ n.
                  ms
                  ++ ((disk_line (d.values ++ (d.final ∷ [])) ++ env.timestamp s.fresh)
                      ∷ stamped env n ds))
                next)
          holds',
      kept' ∙ kept,
    )

pub line_count-line :
    (body rest : Bytes)
    → All (λ c. c ≢ b'\n') body
    → line_count (body ++ (b'\n' ∷ rest)) ≡ suc (line_count rest)
unfolding line_count
line_count-line [] rest h = omega arith
line_count-line (c ∷ cs) rest h = ground (arith, h.0, line_count-line cs rest h.1)

line_count-file_of : (ds : List Device) → All IsDevice ds → line_count (file_of ds) ≡ length ds
line_count-file_of [] h = unfold line_count in refl
line_count-file_of (d ∷ ds) h =
    line_count-line d.body (file_of ds) h.0.one_line ∙ ap suc (line_count-file_of ds h.1)

-- `disk` queues the line of each device.
pub disk_queues :
    (env : Surroundings) (ds : List Device) (s : State) (ms : List Bytes)
    → IsGenerous env
    → All IsDevice ds
    → Holds s ms
    → (s' : State) × (disk env (some (file_of ds)) s ≡ some (0, s'))
      × Holds s' (ms ++ stamped env s.fresh ds)
      × (s'.sent ≡ s.sent)
unfolding disk
disk_queues env ds s ms g ok h =
    let (s', runs, holds, kept) = write_disk_message_refines env ds s ms g ok h in
    (
      s',
      ap (λ n. write_disk_message env n (file_of ds) s) (line_count-file_of ds ok) ∙ runs,
      holds,
      kept,
    )

-- When memory is there, timestamps fit, and /proc/diskstats consists of lines of 20 words that
-- fit, `disk` returns 0 and a following `dequeue` sends what was queued before and then, for each
-- device in order, its 20 values behind their labels with the timestamp of its node, and leaves
-- the queue empty.
pub disk-dequeue :
    (env : Surroundings) (ds : List Device) (s : State) (ms : List Bytes)
    → IsGenerous env
    → All IsDevice ds
    → Holds s ms
    → (s1 s2 : State) × (disk env (some (file_of ds)) s ≡ some (0, s1))
      × (dequeue s1 ≡ some s2)
      × Holds s2 []
      × (s2.sent ≡ s.sent ++ (ms ++ stamped env s.fresh ds))
disk-dequeue env ds s ms g ok h =
    let (s1, runs, holds, kept) = disk_queues env ds s ms g ok h in
    let (s2, sends, empty, sent) = dequeue_refines s1 (ms ++ stamped env s.fresh ds) holds in
    (s1, s2, runs, sends, empty, sent ∙ ap (λ l. l ++ (ms ++ stamped env s.fresh ds)) kept)
