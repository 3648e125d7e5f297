-- ===== src/Tests/Interleaved.antt =====
-- A program and the two threads of the bridge.
use linux_system_monitoring.Base.{
  ℕ, Bool, ◌≢◌, refl, true, none, some, List, [], ◌∷◌, arith, Bytes, codes,
}
use mathlib.Core.List.{cons-ne-nil}
use linux_system_monitoring.CString.{str_eq}
use linux_system_monitoring.Bridge.Hostname.{add_hostname_to_msg}
use linux_system_monitoring.Bridge.Forwarding.{Broker, running, forward, send_message_to_broker}
use linux_system_monitoring.Bridge.System.{
  System, Action, Run, put, name_as, is_watched, add_queue, register_queue, makes_step,
  removes_step, sends_step, registers_step, waits_step, takes_step, begin, and_then,
}
use linux_system_monitoring.Bridge.System.Action.{makes, removes, sends, registers, waits, takes}
use linux_system_monitoring.Bridge.System.Interleaving.{empty_system, IsFaithful, Run-IsFaithful}
use linux_system_monitoring.Bridge.System.Missed.{IsMissed, Run-IsMissed}

abbrev broker : Broker
broker = record { accepts = λ n. true }

abbrev can : ℕ → Bool
can q = true

abbrev host : Bytes
host = codes "pi0"

abbrev psi : Bytes
psi = codes "psi"

-- The queue is made, a message sent, the queue registered and removed, another one made under its name, and
-- a message sent to that; then the first message is taken.
abbrev earlier : List Action
earlier =
    sends 1 (codes "b 2")
    ∷ makes psi
    ∷ removes psi
    ∷ registers psi
    ∷ sends 0 (codes "a 1")
    ∷ makes psi
    ∷ []

abbrev done : List Action
done = takes 0 (codes "a 1") ∷ waits ∷ earlier

abbrev after_making : System
after_making = record empty_system {
  made = 1;
  named = name_as psi (some 0) (λ n. none);
  unseen = psi ∷ [];
}

abbrev after_sending : System
after_sending = record after_making { holds = put 0 (codes "a 1" ∷ []) after_making.holds }

abbrev after_registering : System
after_registering = record after_sending { unseen = []; watched = 0 ∷ [] }

abbrev after_removing : System
after_removing = record after_registering { named = name_as psi none after_registering.named }

abbrev after_making_again : System
after_making_again = record after_removing {
  made = 2;
  named = name_as psi (some 1) after_removing.named;
  unseen = psi ∷ [];
}

abbrev after_sending_again : System
after_sending_again = record after_making_again {
  holds = put 1 (codes "b 2" ∷ []) after_making_again.holds;
}

abbrev after_waiting : System
after_waiting = record after_sending_again { ready = 0 ∷ [] }

abbrev after_all : System
after_all = record after_sending_again {
  holds = put 0 [] after_sending_again.holds;
  published = add_hostname_to_msg host (codes "a 1") ∷ [];
  process = running;
}

run_earlier : Run broker host can empty_system earlier after_sending_again
run_earlier =
    and_then {s = after_making_again}
      (and_then {s = after_removing}
        (and_then {s = after_registering}
          (and_then {s = after_sending}
            (and_then {s = after_making} (and_then {s = empty_system} begin (makes_step psi refl))
              (sends_step psi (codes "a 1") 0 (unfold str_eq in refl)))
            (registers_step psi [] (0 ∷ []) refl refl
              (unfold register_queue in unfold add_queue in unfold str_eq in refl)))
          (removes_step psi))
        (makes_step psi (unfold str_eq in refl)))
      (sends_step psi (codes "b 2") 1 (unfold str_eq in refl))

some_wait : after_sending_again.holds 0 ≢ []
some_wait none_wait = cons-ne-nil (codes "a 1") [] none_wait

run : Run broker host can empty_system done after_all
run =
    and_then {s = after_waiting}
      (and_then {s = after_sending_again} run_earlier
        (waits_step (0 ∷ []) refl refl ((unfold is_watched in refl, some_wait), tt)))
      (takes_step 0 (codes "a 1") [] (add_hostname_to_msg host (codes "a 1") ∷ []) running [] refl
        refl (unfold is_watched in refl) refl
        (unfold forward in unfold send_message_to_broker in refl))

Run-IsFaithful_example : IsFaithful host done after_all
Run-IsFaithful_example = Run-IsFaithful broker host can done after_all run

-- The queue was there before the bridge, and its program goes on sending.
abbrev before_bridge : System
before_bridge = record empty_system {
  made = 1;
  holds = put 0 (codes "a 1" ∷ []) (λ q. []);
  named = name_as psi (some 0) (λ n. none);
}

abbrev after_missing : System
after_missing = record before_bridge {
  holds = put 0 (codes "a 1" ∷ codes "b 2" ∷ []) before_bridge.holds;
}

missing : Run broker host can before_bridge (sends 0 (codes "b 2") ∷ []) after_missing
missing =
    and_then {s = before_bridge} begin (sends_step psi (codes "b 2") 0 (unfold str_eq in refl))

Run-IsMissed_example : IsMissed 0 before_bridge (sends 0 (codes "b 2") ∷ []) after_missing
Run-IsMissed_example =
    Run-IsMissed broker host can 0 before_bridge after_missing (sends 0 (codes "b 2") ∷ [])
      (record { made = omega arith; unwatched = unfold is_watched in refl; unnamed = tt }) missing
