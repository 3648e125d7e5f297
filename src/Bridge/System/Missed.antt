-- ===== src/Bridge/System/Missed.antt =====
-- Queues that the bridge never watches.
use linux_system_monitoring.Base.{
  ℕ, ◌+◌, ◌==◌, ltb, ◌≡◌, ◌≢◌, ◌<◌, refl, sym, ap, subst, ◌∙◌, arith, Bool, Bool-cases, true, false,
  Option, none, some, List, [], ◌∷◌, ◌++◌, append-nil, append_assoc, All, All-append, All-behind,
  inl, inr, length, Bytes,
}
use mathlib.Core.Bool.{true≢false}
use mathlib.Core.Option.{some-injective, some-ne-none}
use linux_system_monitoring.CString.{str_eq}
use linux_system_monitoring.Bridge.Forwarding.{Broker}
use linux_system_monitoring.Bridge.System.{
  System, is_watched, add_queue, register_queue, Action, Step, Run, name_as, makes_step,
  removes_step, sends_step, registers_step, drops_step, waits_step, fails_step, takes_step, begin,
  and_then,
}
use linux_system_monitoring.Bridge.System.Interleaving.{sent_to, taken_from, same_queue}

-- The queue was made, is not watched, and no new name that is to be looked at stands for it.
pub record IsCutOff (q : ℕ) (s : System) : Type 0 where
  pub made : q < s.made
  pub unwatched : is_watched q s.watched ≡ false
  pub unnamed : All (λ n. s.named n ≢ some q) s.unseen

is_watched-append :
    (q n : ℕ) (ns : List ℕ)
    → (q == n) ≡ false
    → is_watched q ns ≡ false
    → is_watched q (ns ++ (n ∷ [])) ≡ false
unfolding is_watched
is_watched-append q n [] other h = rw other refl
is_watched-append q n (k ∷ ns) other h = elim (Bool-cases (q == k)) [
  | inl same ↦ absurd (true≢false (rw same at h))
  | inr differ ↦ rw differ (is_watched-append q n ns other (rw differ at h))
]

add_queue-unwatched :
    (can : ℕ → Bool) (q : ℕ) (o : Option ℕ) (watched : List ℕ)
    → o ≢ some q
    → is_watched q watched ≡ false
    → is_watched q (add_queue can o watched).1 ≡ false
unfolding add_queue
add_queue-unwatched can q none watched other h = h
add_queue-unwatched can q (some n) watched other h = elim (Bool-cases (can n)) [
  | inl taken ↦ rw taken (is_watched-append q n watched (ground (arith, differ)) h)
  | inr refused ↦ rw refused h
]
  where
    differ : n ≢ q
    differ e = other (ap some e)

module _ (can : ℕ → Bool) where
  -- Whatever became of the name, the queue is not watched afterwards either.
  register_queue-unwatched :
      (q r : ℕ) (name : Bytes) (s : System) (watched : List ℕ)
      → s.named name ≢ some q
      → is_watched q s.watched ≡ false
      → register_queue can name s ≡ some (r, watched)
      → is_watched q watched ≡ false
  unfolding register_queue
  register_queue-unwatched q r name s watched other h e =
      elim (Bool-cases (ltb (1 + length name) 512)) [
        | inl short ↦
            subst (λ (p : ℕ × List ℕ). is_watched q p.1 ≡ false)
              (some-injective (add_queue can (s.named name) s.watched) (r, watched) (rw short at e))
              (add_queue-unwatched can q (s.named name) s.watched other h)
        | inr long ↦ absurd (some-ne-none (r, watched) (sym (rw long at e)))
      ]

-- A name that comes to stand for another queue or for none stands for this one no more than before.
name_as-other :
    (name : Bytes) (o : Option ℕ) (named : Bytes → Option ℕ) (q : ℕ) (ns : List Bytes)
    → o ≢ some q
    → All (λ n. named n ≢ some q) ns
    → All (λ n. name_as name o named n ≢ some q) ns
name_as-other name o named q [] other h = tt
name_as-other name o named q (n ∷ ns) other h = (
  elim (Bool-cases (str_eq name n)) [ inl same ↦ rw same other | inr differ ↦ rw differ h.0 ],
  name_as-other name o named q ns other h.1,
)

-- From `start` on nothing was taken from the queue, and what was sent to it waits.
pub record IsMissed (q : ℕ) (start : System) (done : List Action) (s : System) : Type 0 where
  pub cut_off : IsCutOff q s
  pub none_taken : taken_from q done ≡ []
  pub waits : s.holds q ≡ start.holds q ++ sent_to q done

module _ (b : Broker) (hostname : Bytes) (can : ℕ → Bool) where
  Step-IsMissed :
      (q : ℕ) (start s s' : System) (done : List Action) (a : Action)
      → IsMissed q start done s
      → Step b hostname can s a s'
      → IsMissed q start (a ∷ done) s'
  Step-IsMissed q start s s' done a h (makes_step name new) = record {
    cut_off = record {
      made = omega (arith, h.cut_off.made);
      unwatched = h.cut_off.unwatched;
      unnamed = name_as-other name (some s.made) s.named q (s.unseen ++ (name ∷ [])) another (
          All-append (λ n. s.named n ≢ some q) s.unseen (name ∷ []) h.cut_off.unnamed
            ((λ e. some-ne-none q (sym e ∙ new)), tt));
    };
    none_taken = h.none_taken;
    waits = h.waits;
  }
    where
      another : some s.made ≢ some q
      another e =
          let same : s.made ≡ q = some-injective s.made q e in omega (arith, h.cut_off.made, same)
  Step-IsMissed q start s s' done a h (removes_step name) = record {
    cut_off = record {
      made = h.cut_off.made;
      unwatched = h.cut_off.unwatched;
      unnamed =
          name_as-other name none s.named q s.unseen (λ e. some-ne-none q (sym e))
            h.cut_off.unnamed;
    };
    none_taken = h.none_taken;
    waits = h.waits;
  }
  Step-IsMissed q start s s' done a h (sends_step name message n there) = record {
    cut_off = record {
      made = h.cut_off.made;
      unwatched = h.cut_off.unwatched;
      unnamed = h.cut_off.unnamed;
    };
    none_taken = h.none_taken;
    waits = elim (Bool-cases (n == q)) [
      | inl same ↦ rw same (
          ap (λ l. l ++ (message ∷ [])) (sym (same_queue n q same s.holds) ∙ h.waits)
          ∙ append_assoc (start.holds q) (sent_to q done) (message ∷ []))
      | inr differ ↦ rw differ h.waits
    ];
  }
  Step-IsMissed q start s s' done a h (registers_step name names watched runs new added) = record {
    cut_off = record {
      made = h.cut_off.made;
      unwatched =
          register_queue-unwatched can q 0 name s watched
            (subst (All (λ n. s.named n ≢ some q)) new h.cut_off.unnamed).0 h.cut_off.unwatched
            added;
      unnamed = (subst (All (λ n. s.named n ≢ some q)) new h.cut_off.unnamed).1;
    };
    none_taken = h.none_taken;
    waits = h.waits;
  }
  Step-IsMissed q start s s' done a h (drops_step name dropped names watched runs new failed) =
      record {
        cut_off = record {
          made = h.cut_off.made;
          unwatched =
              register_queue-unwatched can q 1 name s watched
                (subst (All (λ n. s.named n ≢ some q)) new h.cut_off.unnamed).0 h.cut_off.unwatched
                failed;
          unnamed =
              All-behind (λ n. s.named n ≢ some q) dropped names
                (subst (All (λ n. s.named n ≢ some q)) new h.cut_off.unnamed).1;
        };
        none_taken = h.none_taken;
        waits = h.waits;
      }
  Step-IsMissed q start s s' done a h (waits_step qs runs idle full) = record {
    cut_off = record {
      made = h.cut_off.made;
      unwatched = h.cut_off.unwatched;
      unnamed = h.cut_off.unnamed;
    };
    none_taken = h.none_taken;
    waits = h.waits;
  }
  Step-IsMissed q start s s' done a h (fails_step runs) = record {
    cut_off = record {
      made = h.cut_off.made;
      unwatched = h.cut_off.unwatched;
      unnamed = h.cut_off.unnamed;
    };
    none_taken = h.none_taken;
    waits = h.waits;
  }
  Step-IsMissed q start s s' done a h
        (takes_step n message ms published process qs runs turn there waits out) =
      let differ : (n == q) ≡ false = watched_or_not (n == q) refl in
      record {
        cut_off = record {
          made = h.cut_off.made;
          unwatched = h.cut_off.unwatched;
          unnamed = h.cut_off.unnamed;
        };
        none_taken = rw differ h.none_taken;
        waits = rw differ h.waits;
      }
    where
      watched_or_not : (t : Bool) → (n == q) ≡ t → t ≡ false
      watched_or_not false e = refl
      watched_or_not true e =
          let same : n ≡ q = ground (arith, e) in
          absurd
            (true≢false (sym there ∙ ap (λ k. is_watched k s.watched) same ∙ h.cut_off.unwatched))

  -- When a queue was made, is not watched, and no new name that the bridge has still to look at
  -- stands for it, no interleaving from there on takes a message from it: what was in it and
  -- what is sent to it waits in it, in order, and it stays cut off in the same way.
  pub Run-IsMissed :
      (q : ℕ) (start s : System) (done : List Action)
      → IsCutOff q start
      → Run b hostname can start done s
      → IsMissed q start done s
  Run-IsMissed q start s done cut begin = record {
    cut_off = cut;
    none_taken = refl;
    waits = sym (append-nil (start.holds q));
  }
  Run-IsMissed q start s done cut (and_then {done = before} {a = a} {s = s1} run step) =
      Step-IsMissed q start s1 s before a (Run-IsMissed q start s1 before cut run) step
