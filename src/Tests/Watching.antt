-- ===== src/Tests/Watching.antt =====
-- The watcher of the bridge on a small machine.
use mathlib.Core.Option.{some-injective, none-ne-some}
use linux_system_monitoring.Base.{
  ℕ, zero, suc, ◌+◌, ◌≡◌, ◌≢◌, ◌<◌, refl, sym, ap, arith, true, false, Option, none, some, List, [],
  ◌∷◌, ◌++◌, All, Bytes, codes,
}
use linux_system_monitoring.Posix.{Calls, Read, without}
use linux_system_monitoring.Posix.Read.{bytes, interrupted, failed}
use linux_system_monitoring.Inotify.Walk.{Raw, encode_all}
use linux_system_monitoring.Bridge.Forwarding.Registration.{IsEntry}
use linux_system_monitoring.Bridge.Watcher.{Epoll, inotify_mq}
use linux_system_monitoring.Bridge.Watcher.Extending.{Seen, IsKernel}
use linux_system_monitoring.Bridge.Watcher.Descriptors.{Gives, inotify_mq-Outcome}

-- What is seen, the path that was opened last, and the reads that are left.
record Machine : Type 0 where
  seen : Seen
  last : Bytes
  reads : ℕ

-- A descriptor above all that are open.
abbrev total : List ℕ → ℕ
total [] = 0
total (d ∷ ds) = d + total ds

abbrev above : List ℕ → ℕ
above ds = suc (total ds)

above_apart : (d : ℕ) (ds : List ℕ) → total ds < d → All (λ e. d ≢ e) ds
above_apart d [] h = tt
above_apart d (e ∷ ds) h = (omega arith, above_apart d ds (omega arith))

-- The queue /a is made.
abbrev queue_made : Raw
queue_made = record { wd = 1; mask = 256; cookie = 0; name = codes "a"; padding = 15 }

queue_made-IsEntry : IsEntry queue_made
queue_made-IsEntry = record {
  raw = record { mask_small = omega arith; name_small = omega arith; no_nul = grind arith };
  ended = λ h. omega arith;
  short = omega arith;
}

abbrev open_next : Bytes → Machine → Option ℕ × Machine
open_next path m = (
  some (above m.seen.files),
  record m { seen = record m.seen { files = above m.seen.files ∷ m.seen.files }; last = path },
)

abbrev read_next : ℕ → Machine → Read × Machine
read_next zero m = (failed, m)
read_next (suc n) m = (bytes (encode_all (queue_made ∷ [])), record m { reads = n })

abbrev machine : Calls Machine
machine = record {
  mq_unlink = λ p m. m;
  mq_create = λ p m. (none, m);
  mq_open = open_next;
  mq_send = λ d t m. (false, m);
  mq_close = λ d m. m;
  inotify_init = open_next [];
  inotify_add_watch = λ d n m. (some 1, m);
  inotify_rm_watch = λ d n m. m;
  read = λ d m. read_next m.reads m;
  close = λ d m. record m { seen = record m.seen { files = without d m.seen.files } };
  fopen = λ n m. (none, m);
  fclose = λ d m. m;
  acct = λ n m. (false, m);
  sigaction = λ n m. (true, m);
  keep_running = λ m. true;
  get_timestamp = λ m. [];
}

abbrev epoll : Epoll Machine
epoll = record {
  epoll_create1 = λ m. (some 4, m);
  epoll_add = λ epid d m.
      (true, record m { seen = record m.seen { set = m.seen.set ++ ((d, m.last) ∷ []) } });
}

abbrev contents : Read → Option Bytes
contents (bytes b) = some b
contents interrupted = none
contents failed = none

whole_events :
    (n : ℕ) (m m' : Machine) (buffer : Bytes)
    → read_next n m ≡ (bytes buffer, m')
    → (rs : List Raw) × (buffer ≡ encode_all rs) × All IsEntry rs
whole_events zero m m' buffer e =
    absurd (none-ne-some buffer (ap (λ (r : Read × Machine). contents r.0) e))
whole_events (suc n) m m' buffer e = (
  queue_made ∷ [],
  sym (some-injective _ _ (ap (λ (r : Read × Machine). contents r.0) e)),
  (queue_made-IsEntry, tt),
)

machine-IsKernel : IsKernel machine epoll (λ m. m.seen) 4
machine-IsKernel = record {
  inotify_init = λ m. (above_apart (above m.seen.files) m.seen.files (omega arith), refl);
  inotify_add_watch = λ m d n. refl;
  inotify_rm_watch = λ m d n. refl;
  mq_open = λ m p. (above_apart (above m.seen.files) m.seen.files (omega arith), refl);
  epoll_add = λ m m' p d e.
      ap (λ t. record m'.seen { set = m'.seen.set ++ ((d, t) ∷ []) })
        (sym (ap (λ (r : Option ℕ × Machine). r.1.last) e));
  read = λ m d. reads_same m.reads m;
  events = λ m0 m1 m m' fd buffer made e. whole_events m.reads m m' buffer e;
  close = λ m d h. refl;
}
  where
    reads_same : (n : ℕ) (m : Machine) → (read_next n m).1.seen ≡ m.seen
    reads_same zero m = refl
    reads_same (suc n) m = refl

-- Descriptors 3 and 4 are open; one read gives an event, the next one fails.
abbrev start : Machine
start = record { seen = record { files = 4 ∷ 3 ∷ []; set = [] }; last = []; reads = 1 }

inotify_mq-Outcome_example :
    Gives
      (λ (m : Machine). m.seen)
      (record { files = 4 ∷ 3 ∷ []; set = [] })
      (inotify_mq machine epoll 5 4 start)
inotify_mq-Outcome_example =
    inotify_mq-Outcome machine epoll (λ m. m.seen) 4 machine-IsKernel 5 start tt
