-- ===== src/Bridge/Forwarding.antt =====
-- The two threads of the bridge: `process_messages` forwards the messages of the queues, and
-- `inotify_mq` registers the queues that appear.
pub mod Delivery
pub mod Registration
use linux_system_monitoring.Base.{
  ℕ, zero, suc, ◌+◌, ◌-◌, ◌==◌, ltb, leb, not, ◌&&◌, Bool, true, false, Option, none, some, List,
  [], ◌∷◌, ◌++◌, if◌then◌else◌, length, ◌>>=◌, Bytes,
}
use linux_system_monitoring.Inotify.{Event, event_size, event_at, is_create}
use linux_system_monitoring.Bridge.Hostname.{add_hostname_to_msg}

-- What `epoll_wait` reports in a round: a failure, or for each ready queue what `mq_receive` gives, as
-- the C string in the array, none for a failure.
pub data Wait : Type 0 where
  failed : Wait
  ready : List (Option Bytes) → Wait

-- How the thread stands: it goes on, or it called `exit`.
pub data Thread : Type 0 where
  running : Thread
  exited : Thread

-- What the broker got so far, and whether the client takes the next message.
pub record Broker : Type 0 where
  pub accepts : ℕ → Bool

-- `send_message_to_broker`: the process exits if the message is not taken.
unfoldable pub send_message_to_broker : Broker → Bytes → List Bytes → Thread × List Bytes
send_message_to_broker b msg published =
    if b.accepts (length published) then (running, published ++ (msg ∷ [])) else (exited, published)

-- The body of the loop over the events, on what `mq_receive` gives.
unfoldable pub forward : Broker → Bytes → Option Bytes → List Bytes → Thread × List Bytes
forward b hostname none published = (exited, published)
forward b hostname (some msg) published =
    send_message_to_broker b (add_hostname_to_msg hostname msg) published

-- The rest of the program, if the thread still runs.
unfoldable pub go_on :
    (List Bytes → Thread × List Bytes) → Thread × List Bytes → Thread × List Bytes
go_on later (running, published) = later published
go_on later (exited, published) = (exited, published)

-- `for (int n = 0; n < nfds; ++n)`
unfoldable pub forward_all : Broker → Bytes → List (Option Bytes) → List Bytes → Thread × List Bytes
forward_all b hostname [] published = (running, published)
forward_all b hostname (r ∷ rs) published =
    go_on (forward_all b hostname rs) (forward b hostname r published)

-- `process_messages`, over what `epoll_wait` reports. The list ends where the thread is observed no longer.
unfoldable pub process_messages : Broker → Bytes → List Wait → List Bytes → Thread × List Bytes
process_messages b hostname [] published = (running, published)
process_messages b hostname (failed ∷ ws) published = (exited, published)
process_messages b hostname (ready rs ∷ ws) published =
    go_on (process_messages b hostname ws) (forward_all b hostname rs published)

-- `register_queue`: whether `initialize_mq` and `epoll_ctl` succeed for the queue behind the slash; 0
-- or -1 (here 1), and the paths that are watched. `slashed_path` is an array of 512 cells.
unfoldable pub register_queue : (Bytes → Bool) → Bytes → List Bytes → Option (ℕ × List Bytes)
register_queue opens name watched =
    if ltb (1 + length name) 512
    then some (if opens (b'/' ∷ name) then (0, watched ++ ((b'/' ∷ name) ∷ [])) else (1, watched))
    else none

-- `inotify_mq`, where `register` is `register_queue` on the state that it changes. What is done about one
-- event; 1 leaves the loop.
unfoldable pub watch : {S : Type 0} → (Bytes → S → Option (ℕ × S)) → Event → S → Option (ℕ × S)
watch register e s = if not (e.len == 0) && is_create e then register e.name s else some (0, s)

-- The loop over the events that one `read` gave, from index `i` on, with fuel. A queue that cannot be
-- registered ends the loop, and the rest of the buffer is not looked at.
unfoldable pub watch_from :
    {S : Type 0} → ℕ → (Bytes → S → Option (ℕ × S)) → Bytes → ℕ → ℕ → S → Option S
watch_from zero register buffer i len s = none
watch_from (suc fuel) register buffer i len s =
    let rest = (do
      e ← event_at buffer i
      (stop, s') ← watch register e s
      (let later = watch_from fuel register buffer (i + (event_size + e.len)) len s' in
          if stop == 1 then some s' else later)) in
    if ltb i len then rest else some s

unfoldable pub watch_all : {S : Type 0} → (Bytes → S → Option (ℕ × S)) → Bytes → S → Option S
watch_all register buffer s = watch_from (suc (length buffer)) register buffer 0 (length buffer) s
