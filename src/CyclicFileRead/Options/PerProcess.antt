-- ===== src/CyclicFileRead/Options/PerProcess.antt =====
-- `pid` as a collector, for every file name.
use linux_system_monitoring.Base.{
  ℕ, ◌≡◌, refl, sym, subst, Bool-cases, map, List, [], ◌++◌, append-nil, length, Bytes, codes, inl,
  inr, if◌then◌else◌,
}
use linux_system_monitoring.CString.{str_eq, str_eq_sound}
use linux_system_monitoring.CyclicFileRead.Queue.{Surroundings}
use linux_system_monitoring.CyclicFileRead.Fifo.{Holds}
use linux_system_monitoring.CyclicFileRead.Pid.{Processes, pid}
use linux_system_monitoring.CyclicFileRead.Pid.Search.{Suffices}
use linux_system_monitoring.CyclicFileRead.Pid.Writing.{Content}
use linux_system_monitoring.CyclicFileRead.Pid.Whole.{
  Api, name_of, line_of, AreProcesses, AreCounted, pid_queues, IsOther, pid-other,
}
use linux_system_monitoring.CyclicFileRead.Options.Collecting.{IsAt, stamp_lem}
use linux_system_monitoring.CyclicFileRead.Options.Selection.{Queues}

module _ (env : Surroundings) (ps : Processes) (contents : ℕ → Content) (max fuel : ℕ)
    (now : Bytes) where
  -- The lines of the processes, with one timestamp.
  abbrev pub api_lines : Api → List ℕ → List Bytes
  api_lines a qs = map (λ l. l ++ now) (map (line_of ps contents a) qs)

  -- By the name of the file.
  abbrev pub pid_lines : List ℕ → Bytes → List Bytes
  pid_lines qs file =
      if str_eq file (codes "stat")
      then api_lines Api.stat qs
      else if str_eq file (codes "statm")
      then api_lines Api.statm qs
      else if str_eq file (codes "io")
      then api_lines Api.io qs
      else []

  module _ {end : ℕ} (qs : List ℕ) (a : IsAt env now) (f : Suffices max fuel)
      (ok : AreProcesses ps contents max end qs) (counted : AreCounted ps max (length qs)) where
    api-Queues : (api : Api) → Queues (pid fuel env ps (name_of api)) (api_lines api qs)
    api-Queues api s ms h =
        let (s', runs, holds, kept) =
          pid_queues env ps contents max fuel a.generous api qs s ms ok counted f h in
        (
          0,
          s',
          runs,
          subst (λ l. Holds s' (ms ++ l))
              (stamp_lem env now s.fresh (map (line_of ps contents api) qs) a) holds,
          kept,
        )

    other-Queues : (file : Bytes) → IsOther file → Queues (pid fuel env ps file) []
    other-Queues file o s ms h = (
      0,
      s,
      pid-other env ps file max fuel o f qs s ok.running ok.low counted,
      subst (Holds s) (sym (append-nil ms)) h,
      refl,
    )

    pub pid-Queues : (file : Bytes) → Queues (pid fuel env ps file) (pid_lines qs file)
    unfolding str_eq
    pid-Queues file = elim (Bool-cases (str_eq file (codes "stat"))) [
      | inl e ↦ named Api.stat (str_eq_sound file (codes "stat") e)
      | inr e ↦ elim (Bool-cases (str_eq file (codes "statm"))) [
        | inl e' ↦ named Api.statm (str_eq_sound file (codes "statm") e')
        | inr e' ↦ elim (Bool-cases (str_eq file (codes "io"))) [
          | inl e'' ↦ named Api.io (str_eq_sound file (codes "io") e'')
          | inr e'' ↦
              rw (e, e', e'')
                (other-Queues file (record { no_stat = e; no_statm = e'; no_io = e'' }))
        ]
      ]
    ]
      where
        lines-name_of : (api : Api) → pid_lines qs (name_of api) ≡ api_lines api qs
        lines-name_of Api.stat = refl
        lines-name_of Api.statm = refl
        lines-name_of Api.io = refl

        named : (api : Api) → file ≡ name_of api → Queues (pid fuel env ps file) (pid_lines qs file)
        named api e =
            subst (λ n. Queues (pid fuel env ps n) (pid_lines qs n)) (sym e)
              (rw (lines-name_of api) (api-Queues api))
