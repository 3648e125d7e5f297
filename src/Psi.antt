-- ===== src/Psi.antt =====
-- stats-recording/src/epoll-psi/epoll_psi.c: pressure stall information, read when epoll reports it, and
-- sent in batches.
pub mod Batches
pub mod Program
pub mod Registration
use linux_system_monitoring.Base.{
  ℕ, zero, suc, ◌+◌, ◌-◌, ◌%◌, ◌==◌, leb, Bool, true, false, Option, none, some, List, [], ◌∷◌,
  ◌++◌, if◌then◌else◌, length, Bytes, codes, concat,
}
use linux_system_monitoring.CString.{snprintf}
use linux_system_monitoring.Integer.{ℤ, pos, negsuc}

abbrev pub message_batch_size : ℕ
message_batch_size = 10

abbrev pub buffer_size : ℕ
buffer_size = 1024

-- `resources[n % 3]`
abbrev pub resource : ℕ → Bytes
resource n =
    let r = n % 3 in if r == 0 then codes "cpu" else if r == 1 then codes "io" else codes "memory"

-- What `sscanf` and the conversions of `snprintf` make of the text that was read; the averages are
-- floating-point numbers, which enter as the text that `%.2f` prints for them.
pub record Reading : Type 0 where
  pub avg10 : Bytes
  pub avg60 : Bytes
  pub avg300 : Bytes
  pub total : Bytes

-- `process_psi_data`: the line for a reading, cut to the size of its array.
unfoldable pub process_psi_data : Reading → Bytes → Bytes → ℕ → Bytes
process_psi_data psi resource_name time output_size = snprintf output_size (
    concat (
      codes "psi,resource="
      ∷ resource_name
      ∷ codes " avg10="
      ∷ psi.avg10
      ∷ codes ",avg60="
      ∷ psi.avg60
      ∷ codes ",avg300="
      ∷ psi.avg300
      ∷ codes ",total="
      ∷ psi.total
      ∷ codes " "
      ∷ time
      ∷ []))

-- What becomes of one event that `epoll_wait` returned: the timer, a failed `lseek` or `read`, an
-- empty read, or text.
pub data Event : Type 0 where
  timer : Event
  lseek_failed : Event
  read_failed : Event
  empty : Event
  content : Reading → Event

-- `message_batch` up to `batch_index`, `last_read_time`, and the messages handed to `send_to_mq`.
pub record State : Type 0 where
  pub batch : List Bytes
  pub last_read_time : ℕ
  pub sent : List Bytes

-- `batch_index++`, and the batch is sent and begun anew when it is full.
unfoldable pub add_to_batch : Bytes → State → State
add_to_batch line s =
    let batch = s.batch ++ (line ∷ []) in
    if length batch == message_batch_size
    then record s { batch = []; sent = s.sent ++ batch }
    else record s { batch = batch }

-- The body of the loop over the events, for event number `n`.
unfoldable pub handle_event : Bytes → ℕ → Event → State → State
handle_event time n timer s = s
handle_event time n lseek_failed s = s
handle_event time n read_failed s = s
handle_event time n empty s = s
handle_event time n (content psi) s =
    add_to_batch (process_psi_data psi (resource n) time buffer_size) s

unfoldable pub handle_events : Bytes → ℕ → List Event → State → State
handle_events time n [] s = s
handle_events time n (e ∷ es) s = handle_events time (n + 1) es (handle_event time n e s)

-- One return of `epoll_wait`: `time(NULL)`, its text, which the lines of the wakeup take as their time,
-- and the events.
pub record Wakeup : Type 0 where
  pub current_time : ℕ
  pub time_text : Bytes
  pub events : List Event

-- `current_time - last_read_time >= duty_cycle`
abbrev pub due : ℤ → ℕ → ℕ → Bool
due (pos d) last_read_time current_time = leb (last_read_time + d) current_time
due (negsuc d) last_read_time current_time = leb last_read_time (current_time + suc d)

-- A round of the main loop.
unfoldable pub wake : ℤ → Wakeup → State → State
wake duty_cycle w s =
    if due duty_cycle s.last_read_time w.current_time
    then record (handle_events w.time_text 0 w.events s) { last_read_time = w.current_time }
    else s

-- The main loop over the returns of `epoll_wait`; `none` is a failure, which ends the program.
unfoldable pub run : ℤ → List (Option Wakeup) → State → State
run duty_cycle [] s = s
run duty_cycle (none ∷ ws) s = s
run duty_cycle (some w ∷ ws) s = run duty_cycle ws (wake duty_cycle w s)

abbrev pub initial : State
initial = record { batch = []; last_read_time = 0; sent = [] }
