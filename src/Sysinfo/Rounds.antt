-- ===== src/Sysinfo/Rounds.antt =====
-- What cyclic-sysinfo sends over its rounds.
use linux_system_monitoring.Base.{
  ◌==◌, ℕ, suc, ◌+◌, ◌*◌, ◌%◌, ◌^◌, ◌≡◌, ◌≤◌, ◌<◌, refl, sym, ap, ◌∙◌, arith, Bool, true, false,
  ◌&&◌, if◌then◌else◌, Option, none, some, List, [], ◌∷◌, ◌++◌, append-nil, append_assoc, length,
  length-append, Bytes, codes, concat,
}
use linux_system_monitoring.Integer.{ℤ, pos, negsuc}
use linux_system_monitoring.CString.{snprintf_fits, length_of_concat}
use linux_system_monitoring.Sysinfo.{
  Info, Surroundings, message, gather_sysinfo, Event, handle_events, rounds, timer, other, ended,
  start, main, Setup, Parsed, cycle_of, scan,
}

-- The information that is gathered in the rounds up to the end of the program, in order.
abbrev pub of_events : List Event → List Info
of_events [] = []
of_events (timer none ∷ es) = of_events es
of_events (timer (some info) ∷ es) = info ∷ of_events es
of_events (other ∷ es) = of_events es

abbrev pub gathered : Bool → List (Option (List Event)) → List Info
gathered once [] = []
gathered once (none ∷ rs) = []
gathered true (some es ∷ rs) = of_events es
gathered false (some es ∷ rs) = of_events es ++ gathered false rs

-- Whether the program has ended.
abbrev pub finished : Bool → List (Option (List Event)) → Bool
finished once [] = false
finished once (none ∷ rs) = true
finished true (some es ∷ rs) = true
finished false (some es ∷ rs) = finished false rs

-- The whole line, of which nothing is cut.
abbrev pub line : Surroundings → Info → ℕ → Bytes
line env info seconds = concat (
    codes "sysinfo uptime="
    ∷ env.decimal info.uptime
    ∷ codes ",total_ram="
    ∷ env.decimal (info.totalram * info.mem_unit % 2 ^ 64)
    ∷ codes ",free_ram="
    ∷ env.decimal (info.freeram * info.mem_unit % 2 ^ 64)
    ∷ codes ",process_count="
    ∷ env.decimal info.procs
    ∷ codes " "
    ∷ env.decimal (seconds * 1000000000)
    ∷ [])

abbrev pub lines : Surroundings → ℕ → List Info → List Bytes
lines env n [] = []
lines env n (info ∷ is) = line env info (env.seconds n) ∷ lines env (suc n) is

-- The numbers that were read for -c, in order; the last one or the default; and whether it is 0.
abbrev pub numbers : List Parsed → List ℤ
numbers [] = []
numbers (p ∷ ps) =
    (if p.opt == 99 then elim p.number [ none ↦ [] | some n ↦ n ∷ [] ] else []) ++ numbers ps

abbrev pub last_or : ℤ → List ℤ → ℤ
last_or c [] = c
last_or c (n ∷ ns) = last_or n ns

abbrev pub is_null : ℤ → Bool
is_null (pos n) = n == 0
is_null (negsuc n) = false

abbrev pub runs_once : List Parsed → Bool
runs_once ps = is_null (last_or (pos 0) (numbers ps))

cycle_of_lem : (ps : List Parsed) (c : ℤ) → cycle_of ps c ≡ last_or c (numbers ps)
unfolding cycle_of
cycle_of_lem [] c = refl
cycle_of_lem (p ∷ ps) c = chosen (p.opt == 99) p.number (cycle_of_lem ps)
  where
    chosen :
        (b : Bool) (number : Option ℤ)
        → ((k : ℤ) → cycle_of ps k ≡ last_or k (numbers ps))
        → cycle_of ps (if b then scan number c else c)
          ≡ last_or c
              ((if b then elim number [ none ↦ [] | some n ↦ n ∷ [] ] else []) ++ numbers ps)
    chosen true none later = later c
    chosen true (some n) later = later n
    chosen false number later = later c

-- The program has ended with 0, or runs.
abbrev pub status_of : Bool → Option ℕ
status_of true = some 0
status_of false = none

module _ (env : Surroundings) (short : (n : ℕ) → length (env.decimal n) ≤ 20) where
  message_lem : (info : Info) (seconds : ℕ) → message env info seconds ≡ line env info seconds
  unfolding message
  message_lem info seconds = snprintf_fits 256 (line env info seconds) room
    where
      room : length (line env info seconds) < 256
      room = omega (
        arith,
        length_of_concat (
            codes "sysinfo uptime="
            ∷ env.decimal info.uptime
            ∷ codes ",total_ram="
            ∷ env.decimal (info.totalram * info.mem_unit % 2 ^ 64)
            ∷ codes ",free_ram="
            ∷ env.decimal (info.freeram * info.mem_unit % 2 ^ 64)
            ∷ codes ",process_count="
            ∷ env.decimal info.procs
            ∷ codes " "
            ∷ env.decimal (seconds * 1000000000)
            ∷ []),
        short info.uptime,
        short (info.totalram * info.mem_unit % 2 ^ 64),
        short (info.freeram * info.mem_unit % 2 ^ 64),
        short info.procs,
        short (seconds * 1000000000),
      )

  lines-append :
      (n : ℕ) (is js : List Info)
      → lines env n (is ++ js) ≡ lines env n is ++ lines env (n + length is) js
  lines-append n [] js = ap (λ k. lines env k js) {x = n} {y = n + 0} (omega arith)
  lines-append n (i ∷ is) js = ap (◌∷◌ (line env i (env.seconds n))) (
      lines-append (suc n) is js
      ∙ ap (λ k. lines env (suc n) is ++ lines env k js) {x = suc n + length is}
          {y = n + suc (length is)} (omega arith))

  length-lines : (n : ℕ) (is : List Info) → length (lines env n is) ≡ length is
  length-lines n [] = refl
  length-lines n (i ∷ is) = omega (arith, length-lines (suc n) is)

  -- Lines for some figures, and behind them those for more.
  more :
      (sent : List Bytes) (is js : List Info)
      → (sent ++ lines env (length sent) is)
          ++ lines env (length (sent ++ lines env (length sent) is)) js
        ≡ sent ++ lines env (length sent) (is ++ js)
  more sent is js =
      ap (λ k. (sent ++ lines env (length sent) is) ++ lines env k js)
        {x = length (sent ++ lines env (length sent) is)} {y = length sent + length is}
        (omega
          (arith, length-append sent (lines env (length sent) is), length-lines (length sent) is))
      ∙ append_assoc sent (lines env (length sent) is) (lines env (length sent + length is) js)
      ∙ ap (λ l. sent ++ l) (sym (lines-append (length sent) is js))

  handle_events_lem :
      (es : List Event) (sent : List Bytes)
      → handle_events env es sent ≡ sent ++ lines env (length sent) (of_events es)
  unfolding handle_events gather_sysinfo
  handle_events_lem [] sent = rw append-nil
  handle_events_lem (timer none ∷ es) sent = handle_events_lem es sent
  handle_events_lem (timer (some info) ∷ es) sent =
      rw (message_lem info (env.seconds (length sent))) (
        handle_events_lem es (sent ++ (line env info (env.seconds (length sent)) ∷ []))
        ∙ more sent (info ∷ []) (of_events es))
  handle_events_lem (other ∷ es) sent = handle_events_lem es sent

  rounds_lem :
      (once : Bool) (rs : List (Option (List Event))) (sent : List Bytes)
      → rounds env once rs sent
        ≡ (finished once rs, sent ++ lines env (length sent) (gathered once rs))
  unfolding rounds
  rounds_lem once [] sent = rw append-nil
  rounds_lem once (none ∷ rs) sent = rw append-nil
  rounds_lem true (some es ∷ rs) sent = rw (handle_events_lem es sent)
  rounds_lem false (some es ∷ rs) sent = rw (handle_events_lem es sent) (
      rounds_lem false rs (sent ++ lines env (length sent) (of_events es))
      ∙ ap (λ l. (finished false rs, l)) (more sent (of_events es) (gathered false rs)))

  ended_lem : (over : Bool) (sent : List Bytes) → ended (over, sent) ≡ (status_of over, sent)
  unfolding ended
  ended_lem true sent = refl
  ended_lem false sent = refl

  -- When the text of 64 bits has at most 20 characters, `main` of cyclic-sysinfo, for all
  -- options, exits with 1 and sends nothing if a call in front of its loop fails; otherwise it
  -- calls `send_to_mq` with one whole line for each timer event at which `sysinfo` succeeds, in
  -- order, up to the end of the first round when the last number read for -c, or the default,
  -- is 0, and exits with 0 exactly if `epoll_wait` failed or that round is over.
  pub main_lem :
      (s : Setup) (ps : List Parsed) (rs : List (Option (List Event))) (sent : List Bytes)
      → main env s ps rs sent ≡ (
          if s.timerfd_create && s.timerfd_settime && s.epoll_create && s.epoll_ctl && s.init_mq
          then (
            status_of (finished (runs_once ps) rs),
            sent ++ lines env (length sent) (gathered (runs_once ps) rs),
          )
          else (some 1, sent))
  unfolding main start
  main_lem s ps rs sent =
      let once = runs_once ps in
      rw (
        cycle_of_lem ps (pos 0),
        rounds_lem once rs sent,
        ended_lem (finished once rs) (sent ++ lines env (length sent) (gathered once rs)),
      )
