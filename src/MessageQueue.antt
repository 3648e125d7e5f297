-- ===== src/MessageQueue.antt =====
-- utilities/mq.c: a message queue with a name, and one message to it.
pub mod Sending
use linux_system_monitoring.Base.{
  ℕ, Bool, true, false, Option, none, some, List, [], ◌∷◌, ◌++◌, if◌then◌else◌, length, Bytes,
}
use linux_system_monitoring.Posix.{Calls}

module _ {W : Type 0} (c : Calls W) (path : Bytes) where
  -- The descriptor of the new queue, or none for -1. An older queue with the name is removed first.
  unfoldable pub init_mq : W → Option ℕ × W
  init_mq w = c.mq_create path (c.mq_unlink path w)

  unfoldable pub close_after : ℕ → Bool × W → ℕ × W
  close_after mq (sent, w) = (if sent then 0 else 1, c.mq_close mq w)

  unfoldable pub send_and_close : Bytes → Option ℕ × W → ℕ × W
  send_and_close message (none, w) = (1, w)
  send_and_close message (some mq, w) = close_after mq (c.mq_send mq message w)

  -- The return value is 0 or -1 (here 1).
  unfoldable pub send_to_mq : Bytes → W → ℕ × W
  send_to_mq message w = send_and_close message (c.mq_open path w)

  unfoldable pub remove_mq : W → W
  remove_mq w = c.mq_unlink path w

-- What a program needs of `send_to_mq` and `get_timestamp`, over the state that they change.
pub record Sender (S : Type 0) : Type 0 where
  pub send : Bytes → S → ℕ × S
  pub get_timestamp : S → Bytes

-- The functions themselves.
abbrev pub mq : {W : Type 0} → Calls W → Bytes → Sender W
mq c path = record { send = send_to_mq c path; get_timestamp = c.get_timestamp }

-- The queue by itself: whether it takes the next message, and the text of the time for it, depend on
-- how many it took. The state is the messages that were taken, in order.
pub record Queue : Type 0 where
  pub takes : ℕ → Bool
  pub timestamp : ℕ → Bytes

unfoldable pub take_message : Queue → Bytes → List Bytes → ℕ × List Bytes
take_message q message sent =
    if q.takes (length sent) then (0, sent ++ (message ∷ [])) else (1, sent)

abbrev pub queue_of : Queue → Sender (List Bytes)
queue_of q = record { send = take_message q; get_timestamp = λ sent. q.timestamp (length sent) }
