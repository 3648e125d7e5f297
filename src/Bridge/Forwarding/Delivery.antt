-- ===== src/Bridge/Forwarding/Delivery.antt =====
-- The bridge publishes each message it takes once, in order and tagged, until the first failure.
use linux_system_monitoring.Base.{
  ℕ, suc, if◌then◌else◌, length-concat, arith, ◌≡◌, refl, ap, ◌∙◌, Bool-cases, inl, inr, Option,
  none, some, List, [], ◌∷◌, ◌++◌, append-nil, append_assoc, length, Bytes,
}
use linux_system_monitoring.Bridge.Hostname.{add_hostname_to_msg}
use linux_system_monitoring.Bridge.Forwarding.{
  Wait, Thread, running, exited, Broker, send_message_to_broker, forward, go_on, forward_all,
  process_messages,
}

-- What `mq_receive` gives in all rounds, one after the other, up to a failure of `epoll_wait`, which
-- counts as a failure to receive.
abbrev pub received : List Wait → List (Option Bytes)
received [] = []
received (Wait.failed ∷ ws) = none ∷ []
received (Wait.ready rs ∷ ws) = rs ++ received ws

-- The messages that are forwarded: tagged, up to the first that is not received or not taken.
abbrev pub delivered : Broker → Bytes → List (Option Bytes) → ℕ → List Bytes
delivered b hostname [] n = []
delivered b hostname (none ∷ rs) n = []
delivered b hostname (some msg ∷ rs) n =
    if b.accepts n then add_hostname_to_msg hostname msg ∷ delivered b hostname rs (suc n) else []

-- Whether the thread is still running behind them.
abbrev pub thread_after : Broker → List (Option Bytes) → ℕ → Thread
thread_after b [] n = running
thread_after b (none ∷ rs) n = exited
thread_after b (some msg ∷ rs) n = if b.accepts n then thread_after b rs (suc n) else exited

-- The thread and what is published.
abbrev pub outcome : Broker → Bytes → List (Option Bytes) → List Bytes → Thread × List Bytes
outcome b hostname rs published =
    (thread_after b rs (length published), published ++ delivered b hostname rs (length published))

outcome_step :
    (b : Broker) (hostname msg : Bytes) (rs : List (Option Bytes)) (published : List Bytes)
    → go_on
        (outcome b hostname rs)
        (send_message_to_broker b (add_hostname_to_msg hostname msg) published)
      ≡ outcome b hostname (some msg ∷ rs) published
unfolding go_on send_message_to_broker
outcome_step b hostname msg rs published = elim (Bool-cases (b.accepts (length published))) [
  | inl taken ↦ rw taken (
      ap
        (λ n. (
          thread_after b rs n,
          (published ++ (add_hostname_to_msg hostname msg ∷ [])) ++ delivered b hostname rs n,
        ))
        {x = length (published ++ (add_hostname_to_msg hostname msg ∷ []))}
        {y = suc (length published)}
        (omega (arith, length-concat published (add_hostname_to_msg hostname msg)))
      ∙ rw append_assoc)
  | inr refused ↦ rw (refused, append-nil)
]

-- Rounds one behind the other are one round.
forward_all-append :
    (b : Broker) (hostname : Bytes) (later : List Bytes → Thread × List Bytes)
    (rs qs : List (Option Bytes)) (published : List Bytes)
    → ((p : List Bytes) → later p ≡ outcome b hostname qs p)
    → go_on later (forward_all b hostname rs published) ≡ outcome b hostname (rs ++ qs) published
unfolding forward_all forward
forward_all-append b hostname later [] qs published h = unfold go_on in h published
forward_all-append b hostname later (none ∷ rs) qs published h = unfold go_on in rw append-nil
forward_all-append b hostname later (some msg ∷ rs) qs published h =
    next (send_message_to_broker b (add_hostname_to_msg hostname msg) published)
      (λ p. forward_all-append b hostname later rs qs p h)
    ∙ outcome_step b hostname msg (rs ++ qs) published
  where
    next :
        (r : Thread × List Bytes)
        → ((p : List Bytes)
            → go_on later (forward_all b hostname rs p) ≡ outcome b hostname (rs ++ qs) p)
        → go_on later (go_on (forward_all b hostname rs) r)
          ≡ go_on (outcome b hostname (rs ++ qs)) r
    next (running, p) k = unfold go_on in k p
    next (exited, p) k = unfold go_on in refl

-- Over any sequence of results of `epoll_wait` and `mq_receive`, `process_messages` publishes
-- each message that is received exactly once, in order, tagged with the host name, up to the
-- first failure to wait, to receive or to publish, at which the thread exits.
pub process_messages_lem :
    (b : Broker) (hostname : Bytes) (ws : List Wait) (published : List Bytes)
    → process_messages b hostname ws published ≡ outcome b hostname (received ws) published
unfolding process_messages
process_messages_lem b hostname [] published = rw append-nil
process_messages_lem b hostname (Wait.failed ∷ ws) published = rw append-nil
process_messages_lem b hostname (Wait.ready rs ∷ ws) published =
    forward_all-append b hostname (process_messages b hostname ws) rs (received ws) published
      (λ p. process_messages_lem b hostname ws p)
