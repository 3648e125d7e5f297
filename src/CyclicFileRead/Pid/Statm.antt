-- ===== src/CyclicFileRead/Pid/Statm.antt =====
-- What pid.c makes of /proc/<pid>/statm.
use linux_system_monitoring.Base.{
  All, suc, ◌≢◌, true, ◌+◌, ◌≡◌, ◌<◌, refl, arith, some, List, [], ◌∷◌, ◌++◌, length, length-append,
  take, drop, Bytes, codes,
}
use linux_system_monitoring.CyclicFileRead.Queue.{State, Surroundings}
use linux_system_monitoring.CyclicFileRead.Fifo.{Holds, enqueue_refines}
use linux_system_monitoring.CyclicFileRead.Forms.{pstatm_form}
use linux_system_monitoring.CyclicFileRead.Text.{strcat, label_at}
use linux_system_monitoring.CyclicFileRead.Lines.{
  Laid, tokens-Laid, interleave, fields_and_last, strcat_fits,
}
use linux_system_monitoring.CyclicFileRead.Lines.Reading.{first_line_lem, ends_in_newline-concat}
use linux_system_monitoring.CyclicFileRead.Pid.{pid_statm_message, write_pid_statm}

-- The process, and each of the seven labels with its value.
abbrev pub statm_line : Bytes → List Bytes → Bytes
statm_line id values =
    (codes "proc-pid-statm,pid=" ++ id)
    ++ (interleave (take 7 (drop 1 pstatm_form)) values ++ codes " ")

pid_statm_message_lem :
    (id t line : Bytes) (ts : List Bytes)
    → Laid (ts ++ ((t ++ (b'\n' ∷ [])) ∷ [])) line
    → length ts ≡ 6
    → length (statm_line id (ts ++ (t ∷ []))) < 1024
    → pid_statm_message id line ≡ some (statm_line id (ts ++ (t ∷ [])))
unfolding pid_statm_message label_at strcat
pid_statm_message_lem id t line ts laid n fits =
    rw
      (
        tokens-Laid laid,
        strcat_fits 1024 (codes "proc-pid-statm,pid=") id (omega (arith, fits, whole)),
      )
      (fields_and_last 1024 (take 6 (drop 1 pstatm_form)) (label_at pstatm_form 7) [] (codes " ")
        (codes "proc-pid-statm,pid=" ++ id) ts t b'\n' (omega arith) (omega (arith, fits, whole)))
  where
    whole :
        length (statm_line id (ts ++ (t ∷ [])))
        ≡ length (codes "proc-pid-statm,pid=" ++ id)
          + (length (interleave (take 7 (drop 1 pstatm_form)) (ts ++ (t ∷ []))) + 1)
    whole = omega (
      arith,
      length-append (codes "proc-pid-statm,pid=" ++ id)
          (interleave (take 7 (drop 1 pstatm_form)) (ts ++ (t ∷ [])) ++ codes " "),
      length-append (interleave (take 7 (drop 1 pstatm_form)) (ts ++ (t ∷ []))) (codes " "),
    )

-- When a line of at most 1022 characters and 7 words begins the file, memory is there, and the
-- message fits into a node with its timestamp, `write_pid_statm` returns 0 and puts behind the
-- queue one line with the process, each of the 7 labels with its word, and the timestamp, and
-- sends nothing.
pub write_pid_statm_refines :
    (env : Surroundings) (id body rest t : Bytes) (ts ms : List Bytes) (s : State)
    → All (λ c. c ≢ b'\n') body
    → length body < 1023
    → Laid (ts ++ ((t ++ (b'\n' ∷ [])) ∷ [])) (body ++ (b'\n' ∷ []))
    → length ts ≡ 6
    → length (statm_line id (ts ++ (t ∷ []))) + length (env.timestamp s.fresh) < 1024
    → env.grants s.fresh ≡ true
    → Holds s ms
    → (s' : State) × (write_pid_statm env (some (body ++ (b'\n' ∷ rest))) id s ≡ some (0, s'))
      × Holds s' (ms ++ ((statm_line id (ts ++ (t ∷ [])) ++ env.timestamp s.fresh) ∷ []))
      × (s'.sent ≡ s.sent)
      × (s'.fresh ≡ suc s.fresh)
unfolding write_pid_statm
write_pid_statm_refines env id body rest t ts ms s one_line short laid n fits g h =
    let (s', queued, holds, kept, next) =
      enqueue_refines env (statm_line id (ts ++ (t ∷ []))) s ms h g fits in
    (
      s',
      rw
          (
            first_line_lem body rest one_line short,
            ends_in_newline-concat body,
            pid_statm_message_lem id t (body ++ (b'\n' ∷ [])) ts laid n (omega (arith, fits)),
            queued,
          )
          refl,
      holds,
      kept,
      next,
    )
