-- ===== src/Bridge/System/Interleaving.antt =====
-- In every order of the steps, the bridge publishes what it took, and takes what was sent, in order.
use linux_system_monitoring.Base.{
  ◌≤◌, ℕ, ◌==◌, ◌≡◌, refl, sym, ap, subst, ◌∙◌, length, arith, Bool, Bool-cases, ◌≢◌, true, none,
  some, List, [], ◌∷◌, ◌++◌, append-nil, append_assoc, if◌then◌else◌, inl, inr, Bytes,
}
use linux_system_monitoring.Bridge.Hostname.{add_hostname_to_msg}
use linux_system_monitoring.Bridge.Forwarding.{
  Broker, Thread, running, exited, forward, send_message_to_broker,
}
use linux_system_monitoring.Bridge.System.{
  System, Action, Step, Run, put, makes_step, removes_step, sends_step, registers_step, drops_step,
  waits_step, fails_step, takes_step, begin, and_then,
}
use linux_system_monitoring.Bridge.System.Action.{
  makes, removes, sends, registers, waits, gives_up, takes,
}

-- The messages that were sent to a queue, those that were taken out of it, and all that were taken, tagged.
abbrev pub sent_to : ℕ → List Action → List Bytes
sent_to q [] = []
sent_to q (makes k ∷ done) = sent_to q done
sent_to q (removes k ∷ done) = sent_to q done
sent_to q (sends n m ∷ done) = if n == q then sent_to q done ++ (m ∷ []) else sent_to q done
sent_to q (registers k ∷ done) = sent_to q done
sent_to q (waits ∷ done) = sent_to q done
sent_to q (gives_up ∷ done) = sent_to q done
sent_to q (takes n m ∷ done) = sent_to q done

abbrev pub taken_from : ℕ → List Action → List Bytes
taken_from q [] = []
taken_from q (makes k ∷ done) = taken_from q done
taken_from q (removes k ∷ done) = taken_from q done
taken_from q (sends n m ∷ done) = taken_from q done
taken_from q (registers k ∷ done) = taken_from q done
taken_from q (waits ∷ done) = taken_from q done
taken_from q (gives_up ∷ done) = taken_from q done
taken_from q (takes n m ∷ done) =
    if n == q then taken_from q done ++ (m ∷ []) else taken_from q done

abbrev pub tagged : Bytes → List Action → List Bytes
tagged hostname [] = []
tagged hostname (makes k ∷ done) = tagged hostname done
tagged hostname (removes k ∷ done) = tagged hostname done
tagged hostname (sends n m ∷ done) = tagged hostname done
tagged hostname (registers k ∷ done) = tagged hostname done
tagged hostname (waits ∷ done) = tagged hostname done
tagged hostname (gives_up ∷ done) = tagged hostname done
tagged hostname (takes n m ∷ done) = tagged hostname done ++ (add_hostname_to_msg hostname m ∷ [])

abbrev pub empty_system : System
empty_system = record {
  made = 0;
  holds = λ q. [];
  named = λ n. none;
  unseen = [];
  watched = [];
  published = [];
  process = running;
  ready = [];
}

-- What was taken and not published: nothing while the bridge runs; once it exited, the message that the
-- broker refused, if that is why.
abbrev pub Unpublished : Thread → List Bytes → Type 0
Unpublished running lost = lost ≡ []
Unpublished exited lost = length lost ≤ 1

abbrev pub Accounts : List Bytes → Thread → List Bytes → Type 0
Accounts taken process published =
    (lost : List Bytes) × (taken ≡ published ++ lost) × Unpublished process lost

-- What was taken, tagged, is what is published and what is lost; and for each queue, what was sent to it is
-- what was taken from it and then what waits.
pub record IsFaithful (hostname : Bytes) (done : List Action) (s : System) : Type 0 where
  pub published : Accounts (tagged hostname done) s.process s.published
  pub in_order : (q : ℕ) → sent_to q done ≡ taken_from q done ++ s.holds q

pub put_there : (q : ℕ) (ms : List Bytes) (holds : ℕ → List Bytes) → put q ms holds q ≡ ms
put_there q ms holds = let same : (q == q) ≡ true = ground arith in rw same

pub same_queue : (q n : ℕ) → (q == n) ≡ true → (holds : ℕ → List Bytes) → holds n ≡ holds q
same_queue q n same holds = let e : n ≡ q = ground (arith, same) in ap holds e

forward_lem :
    (b : Broker) (hostname message : Bytes) (published : List Bytes)
    → Accounts
        (published ++ (add_hostname_to_msg hostname message ∷ []))
        (forward b hostname (some message) published).0
        (forward b hostname (some message) published).1
unfolding forward send_message_to_broker
forward_lem b hostname message published = elim (Bool-cases (b.accepts (length published))) [
  | inl taken ↦ rw taken ([], sym (append-nil _), refl)
  | inr refused ↦ rw refused (add_hostname_to_msg hostname message ∷ [], refl, omega arith)
]

-- Nothing is lost while the bridge runs.
pub Accounts-running :
    (taken published : List Bytes) (process : Thread)
    → process ≡ running
    → Accounts taken process published
    → taken ≡ published
Accounts-running taken published running runs (lost, all, none_lost) =
    all ∙ ap (λ l. published ++ l) none_lost ∙ append-nil published
Accounts-running taken published exited runs h = absurd (exited≢running runs)
  where
    is_running : Thread → Type 0
    is_running running = Unit
    is_running exited = ⊥

    exited≢running : exited ≢ running
    exited≢running p = subst is_running (sym p) tt

module _ (b : Broker) (hostname : Bytes) (can : ℕ → Bool) where
  Step-IsFaithful :
      (done : List Action) (s s' : System) (a : Action)
      → IsFaithful hostname done s
      → Step b hostname can s a s'
      → IsFaithful hostname (a ∷ done) s'
  Step-IsFaithful done s s' a h (makes_step name new) = record {
    published = h.published;
    in_order = h.in_order;
  }
  Step-IsFaithful done s s' a h (removes_step name) = record {
    published = h.published;
    in_order = h.in_order;
  }
  Step-IsFaithful done s s' a h (sends_step name message q there) = record {
    published = h.published;
    in_order = λ n. elim (Bool-cases (q == n)) [
      | inl same ↦ rw same (
          ap (λ l. l ++ (message ∷ []))
            (h.in_order n ∙ ap (λ w. taken_from n done ++ w) (same_queue q n same s.holds))
          ∙ append_assoc (taken_from n done) (s.holds q) (message ∷ []))
      | inr other ↦ rw other (h.in_order n)
    ];
  }
  Step-IsFaithful done s s' a h (registers_step name names watched runs new added) = record {
    published = h.published;
    in_order = h.in_order;
  }
  Step-IsFaithful done s s' a h (drops_step name dropped names watched runs new failed) = record {
    published = h.published;
    in_order = h.in_order;
  }
  Step-IsFaithful done s s' a h (waits_step qs runs idle full) = record {
    published = h.published;
    in_order = h.in_order;
  }
  Step-IsFaithful done s s' a h (fails_step runs) = record {
    published = (
      [],
      Accounts-running (tagged hostname done) s.published s.process runs h.published
          ∙ sym (append-nil s.published),
      omega arith,
    );
    in_order = h.in_order;
  }
  Step-IsFaithful done s s' a h
        (takes_step q message ms published process qs runs turn there queued out) =
      record {
        published =
            subst
              (λ (r : Thread × List Bytes).
                Accounts (tagged hostname done ++ (add_hostname_to_msg hostname message ∷ [])) r.0
                  r.1)
              out
              (rw (Accounts-running (tagged hostname done) s.published s.process runs h.published)
                (forward_lem b hostname message s.published));
        in_order = λ n. elim (Bool-cases (q == n)) [
          | inl same ↦ rw same (
              (h.in_order n
                ∙ ap (λ w. taken_from n done ++ w) (same_queue q n same s.holds ∙ queued))
              ∙ sym (append_assoc (taken_from n done) (message ∷ []) ms))
          | inr other ↦ rw other (h.in_order n)
        ];
      }

  -- In every interleaving, from a system without queues on, of programs that make, remove and
  -- make anew queues and send messages with the two threads of the bridge, what was taken from
  -- the queues, tagged and in the order in which it was taken, is what is published, and at
  -- most one message more once the bridge exited; and the messages that were sent to a queue,
  -- whatever became of its name, are those that were taken from it and then those that wait in
  -- it, in order.
  pub Run-IsFaithful :
      (done : List Action) (s : System)
      → Run b hostname can empty_system done s
      → IsFaithful hostname done s
  Run-IsFaithful done s begin = record { published = ([], refl, refl); in_order = λ n. refl }
  Run-IsFaithful done s (and_then run step) = Step-IsFaithful _ _ s _ (Run-IsFaithful _ _ run) step
