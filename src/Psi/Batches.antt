-- ===== src/Psi/Batches.antt =====
-- Batching loses, repeats and reorders nothing.
use linux_system_monitoring.Base.{
  suc, leb, Bool, codes, concat, ℕ, ◌+◌, ◌%◌, ◌==◌, ==_iff, ◌≡◌, ◌<◌, sym, ap, ◌∙◌, arith,
  Bool-cases, inl, inr, Option, none, some, List, [], ◌∷◌, ◌++◌, append-nil, append_assoc,
  if◌then◌else◌, length, length-append, length-concat, Bytes,
}
use linux_system_monitoring.Integer.{ℤ, pos, negsuc}
use linux_system_monitoring.CString.{snprintf}
use linux_system_monitoring.Psi.{
  Event, timer, content, State, Wakeup, due, add_to_batch, handle_event, handle_events, wake, run,
  process_psi_data, Reading,
}

-- The line for a reading, of at most 1023 characters, and the name of the resource of an event.
abbrev pub resource_name : ℕ → Bytes
resource_name n =
    if n % 3 == 0 then codes "cpu" else if n % 3 == 1 then codes "io" else codes "memory"

abbrev pub psi_line : Reading → Bytes → Bytes → Bytes
psi_line psi name time = snprintf 1024 (
    concat (
      codes "psi,resource="
      ∷ name
      ∷ codes " avg10="
      ∷ psi.avg10
      ∷ codes ",avg60="
      ∷ psi.avg60
      ∷ codes ",avg300="
      ∷ psi.avg300
      ∷ codes ",total="
      ∷ psi.total
      ∷ codes " "
      ∷ time
      ∷ []))

-- Whether a duty cycle, which may be negative, is over.
abbrev pub is_over : ℤ → ℕ → ℕ → Bool
is_over (pos d) last now = leb (last + d) now
is_over (negsuc d) last now = leb last (now + suc d)

-- The lines that an event, the events of a wakeup from number `n` on, and a run make, in order.
abbrev pub lines_of_event : Bytes → ℕ → Event → List Bytes
lines_of_event time n (content psi) = psi_line psi (resource_name n) time ∷ []
lines_of_event time n _ = []

abbrev pub lines_of_events : Bytes → ℕ → List Event → List Bytes
lines_of_events time n [] = []
lines_of_events time n (e ∷ es) = lines_of_event time n e ++ lines_of_events time (n + 1) es

-- A wakeup before the duty cycle is over is skipped, and its events with it.
abbrev pub lines_of_run : ℤ → ℕ → List (Option Wakeup) → List Bytes
lines_of_run duty_cycle last [] = []
lines_of_run duty_cycle last (none ∷ ws) = []
lines_of_run duty_cycle last (some w ∷ ws) =
    if is_over duty_cycle last w.current_time
    then lines_of_events w.time_text 0 w.events ++ lines_of_run duty_cycle w.current_time ws
    else lines_of_run duty_cycle last ws

-- What was sent and what waits, in order.
abbrev pub produced : State → List Bytes
produced s = s.sent ++ s.batch

-- Fewer than ten lines wait, and whole batches were sent.
pub record IsBatched (s : State) : Type 0 where
  pub room : length s.batch < 10
  pub whole : length s.sent % 10 ≡ 0

-- The state has produced `lines` since `s`.
pub record Adds (s : State) (lines : List Bytes) (s' : State) : Type 0 where
  pub all : produced s' ≡ produced s ++ lines
  pub batched : IsBatched s'

add_to_batch-Adds :
    (line : Bytes) (s : State) → IsBatched s → Adds s (line ∷ []) (add_to_batch line s)
unfolding add_to_batch
add_to_batch-Adds line s b = elim (Bool-cases (length (s.batch ++ (line ∷ [])) == 10)) [
  | inl full ↦ rw full (record {
    all = append-nil _ ∙ sym (append_assoc s.sent s.batch (line ∷ []));
    batched = record {
      room = omega arith;
      whole = omega (
        arith,
        b.whole,
        (==_iff _ _).0 full,
        length-append {A = Bytes} s.sent (s.batch ++ (line ∷ [])),
      );
    };
  })
  | inr open_ ↦ rw open_ (record {
    all = sym (append_assoc s.sent s.batch (line ∷ []));
    batched = record {
      room = ground (arith, open_, b.room, length-concat {A = Bytes} s.batch line);
      whole = b.whole;
    };
  })
]

handle_event-Adds :
    (time : Bytes) (n : ℕ) (e : Event) (s : State)
    → IsBatched s
    → Adds s (lines_of_event time n e) (handle_event time n e s)
unfolding handle_event process_psi_data
handle_event-Adds time n timer s b = record { all = sym (append-nil _); batched = b }
handle_event-Adds time n (content psi) s b = add_to_batch-Adds _ s b
handle_event-Adds time n _ s b = record { all = sym (append-nil _); batched = b }

Adds-trans :
    {s t u : State} {ls ls' : List Bytes} → Adds s ls t → Adds t ls' u → Adds s (ls ++ ls') u
Adds-trans {s} {t} {u} {ls} {ls'} a b = record {
  all = b.all ∙ ap (λ l. l ++ ls') a.all ∙ append_assoc (produced s) ls ls';
  batched = b.batched;
}

handle_events-Adds :
    (time : Bytes) (es : List Event) (n : ℕ) (s : State)
    → IsBatched s
    → Adds s (lines_of_events time n es) (handle_events time n es s)
unfolding handle_events
handle_events-Adds time [] n s b = record { all = sym (append-nil _); batched = b }
handle_events-Adds time (e ∷ es) n s b =
    let first = handle_event-Adds time n e s b in
    Adds-trans first (handle_events-Adds time es (n + 1) (handle_event time n e s) first.batched)

-- From a state in which fewer than ten lines wait and whole batches were sent, the main loop of
-- epoll-psi keeps both, and what it sent with what waits is what it was before with the lines of
-- the wakeups that the duty cycle lets through behind it, in order and each once.
pub run-Adds :
    (duty_cycle : ℤ) (ws : List (Option Wakeup)) (s : State)
    → IsBatched s
    → Adds s (lines_of_run duty_cycle s.last_read_time ws) (run duty_cycle ws s)
unfolding run wake
run-Adds duty_cycle [] s b = record { all = sym (append-nil _); batched = b }
run-Adds duty_cycle (none ∷ ws) s b = record { all = sym (append-nil _); batched = b }
run-Adds duty_cycle (some w ∷ ws) s b =
    elim (Bool-cases (is_over duty_cycle s.last_read_time w.current_time)) [
      | inl due ↦ rw due (
          Adds-trans (read w s b) (
            run-Adds duty_cycle ws
              (record (handle_events w.time_text 0 w.events s) { last_read_time = w.current_time })
              (read w s b).batched))
      | inr early ↦ rw early (run-Adds duty_cycle ws s b)
    ]
  where
    read :
        (w : Wakeup) (s : State)
        → IsBatched s
        → Adds s
            (lines_of_events w.time_text 0 w.events)
            (record (handle_events w.time_text 0 w.events s) { last_read_time = w.current_time })
    read w s b =
        let a = handle_events-Adds w.time_text w.events 0 s b in
        record { all = a.all; batched = record { room = a.batched.room; whole = a.batched.whole } }
