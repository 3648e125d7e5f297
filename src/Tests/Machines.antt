-- ===== src/Tests/Machines.antt =====
-- A small operating system, and the programs on it.
use linux_system_monitoring.Base.{
  if◌then◌else◌, ℕ, zero, suc, ◌+◌, ◌≡◌, ◌≢◌, ◌<◌, refl, sym, ap, arith, Bool, true, false, Option,
  none, some, List, [], ◌∷◌, ◌++◌, All, Bytes, length, codes,
}
use linux_system_monitoring.Posix.{Calls, Read, Kept, IsPosix, Opens, Waits, opened, closed, exists}
use linux_system_monitoring.MessageQueue.Sending.{Waits-refl}
use linux_system_monitoring.Inotify.Walk.{Raw, zeros, encode_all}
use linux_system_monitoring.Coredump.Reports.{IsReported}
use linux_system_monitoring.Coredump.Program as CoredumpProgram
use linux_system_monitoring.Coredump.Program.Keeping.{Suits}
use linux_system_monitoring.Coredump.Program.Resources.{Ending, run_inotify_coredump-Ending}
use linux_system_monitoring.Pacct.Values.{Printing}
use linux_system_monitoring.Pacct.Monitor.{Change}
use linux_system_monitoring.Pacct.Program as PacctProgram
use linux_system_monitoring.Pacct.Program.Accounting.{Accounting, main-Accounting}

-- A descriptor that is not open.
abbrev total : List ℕ → ℕ
total [] = 0
total (d ∷ ds) = d + total ds

fresh_above : (n : ℕ) (ds : List ℕ) → total ds < n → All (λ e. n ≢ e) ds
fresh_above n [] h = tt
fresh_above n (d ∷ ds) h = (omega (arith, h), fresh_above n ds (omega (arith, h)))

abbrev open_next : (Kept → Kept) → Kept → Option ℕ × Kept
open_next change k = (some (suc (total k.files)), change (opened (suc (total k.files)) k))

open_next-Opens : (change : Kept → Kept) (k : Kept) → Opens (λ k. k) change k (open_next change k)
open_next-Opens change k = (fresh_above (suc (total k.files)) k.files (omega arith), refl)

abbrev open_queue : Kept → Option ℕ × Kept
open_queue k = if exists k.queue then open_next (λ k. k) k else (none, k)

abbrev append : Bytes → Kept → Option (List Bytes) → Bool × Kept
append message k none = (false, k)
append message k (some ms) = (true, record k { queue = some (ms ++ (message ∷ [])) })

append-Waits :
    (message : Bytes) (k : Kept) (q : Option (List Bytes))
    → k.queue ≡ q
    → Waits (λ k. k) k (append message k q).1
append-Waits message k none e = Waits-refl k
append-Waits message k (some ms) e = record {
  queue = sym (ap exists e);
  files = refl;
  accounting = refl;
}

-- A core dump with a name.
abbrev dump : Raw
dump = record { wd = 1; mask = 256; cookie = 0; name = codes "core"; padding = 4 }

abbrev no_message : Option (List Bytes) → Bool
no_message (some []) = true
no_message _ = false

-- It runs until a message is there.
abbrev pub machine : Calls Kept
machine = record {
  mq_unlink = λ name k. record k { queue = none };
  mq_create = λ name k. open_next (λ k. record k { queue = some [] }) k;
  mq_open = λ name k. open_queue k;
  mq_send = λ d message k. append message k k.queue;
  mq_close = λ d k. closed d k;
  inotify_init = λ k. open_next (λ k. k) k;
  inotify_add_watch = λ d name k. (some 1, k);
  inotify_rm_watch = λ d n k. k;
  read = λ d k. (Read.bytes (encode_all (dump ∷ [])), k);
  close = λ d k. closed d k;
  fopen = λ name k. open_next (λ k. k) k;
  fclose = λ d k. closed d k;
  acct = λ name k. (true, record k { accounting = exists name });
  sigaction = λ n k. (true, k);
  keep_running = λ k. no_message k.queue;
  get_timestamp = λ k. codes "7";
}

open_queue-Opens : (k : Kept) → Opens (λ k. k) (λ k. k) k (open_queue k)
open_queue-Opens k = chosen (exists k.queue)
  where
    chosen : (b : Bool) → Opens (λ k. k) (λ k. k) k (if b then open_next (λ k. k) k else (none, k))
    chosen true = open_next-Opens (λ k. k) k
    chosen false = refl

pub machine-IsPosix : (path : Bytes) → IsPosix machine (λ k. k) path
machine-IsPosix path = record {
  mq_unlink = λ k. refl;
  mq_create = λ k e. open_next-Opens (λ k. record k { queue = some [] }) k;
  mq_open = λ k. open_queue-Opens k;
  mq_send = λ k k' d message e. append-Waits message k' k'.queue refl;
  mq_close = λ k d. refl;
  inotify_init = λ k. open_next-Opens (λ k. k) k;
  inotify_add_watch = λ k d name. refl;
  inotify_rm_watch = λ k d n. refl;
  read = λ k d. Waits-refl k;
  close = λ k d. refl;
  fopen = λ k name. open_next-Opens (λ k. k) k;
  fclose = λ k d. refl;
  enable = λ k name. refl;
  disable = λ k. refl;
  sigaction = λ k n. refl;
}

abbrev pub quiet : Kept
quiet = record { queue = none; files = 3 ∷ []; accounting = false }

length-zeros : (n : ℕ) → length (zeros n) ≡ n
length-zeros zero = refl
length-zeros (suc n) = omega (arith, length-zeros n)

dump-IsReported : IsReported dump
dump-IsReported = record {
  raw = record { mask_small = omega arith; name_small = omega arith; no_nul = grind arith };
  name = record { no_nul = grind arith; short = omega arith };
  ended = λ h. omega arith;
}

machine-Suits : Suits machine (zeros 1024)
machine-Suits = record {
  room = omega (arith, length-zeros 1024);
  short = λ k. omega arith;
  events = λ k k' d buffer e. (dump ∷ [], sym (ap text e), (dump-IsReported, tt));
}
  where
    text : Read × Kept → Bytes
    text (Read.bytes b, k) = b
    text (Read.interrupted, k) = []
    text (Read.failed, k) = []

run_inotify_coredump-Ending_example :
    (e : Option ℕ) × (k : Kept) × (CoredumpProgram.run_inotify_coredump machine (zeros 1024) 3 quiet
      ≡ some (e, k))
    × Ending quiet e k
run_inotify_coredump-Ending_example =
    run_inotify_coredump-Ending machine (λ k. k) (zeros 1024)
      (machine-IsPosix CoredumpProgram.mq_path) machine-Suits 3 quiet

abbrev printing : Printing
printing = record {
  decimal = λ n. codes "1";
  two_places = λ n. codes "2.00";
  local_time = λ n. codes "t";
}

-- The file changes, and then cannot be read.
abbrev changes : List (Option Change)
changes =
    some (record {
      buffer = encode_all (dump ∷ []);
      file = record { records = []; unmoved = λ i. (0, []) };
    })
    ∷ none
    ∷ []

main-Accounting_example :
    Accounting machine
      (λ k. k)
      printing
      (machine-IsPosix PacctProgram.mq_path)
      0
      changes
      ((dump ∷ [], refl, (dump-IsReported.raw, tt)), (tt, tt))
      quiet
      (PacctProgram.main machine printing 0 changes (118 ∷ []) quiet)
main-Accounting_example =
    main-Accounting machine (λ k. k) printing (machine-IsPosix PacctProgram.mq_path) 0 changes
      ((dump ∷ [], refl, (dump-IsReported.raw, tt)), (tt, tt)) (118 ∷ []) quiet
      ((omega arith, omega arith), tt)
