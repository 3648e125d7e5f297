-- ===== src/Bridge/System.antt =====
-- The programs that send, the kernel's queues, and the two threads of the bridge, one step at a time.
pub mod Interleaving
pub mod Draining
pub mod Missed
use linux_system_monitoring.Base.{
  All, ◌≢◌, ℕ, suc, ◌+◌, ◌==◌, ltb, ◌≡◌, Bool, true, false, ◌||◌, Option, none, some, List, [], ◌∷◌,
  ◌++◌, if◌then◌else◌, length, Bytes,
}
use linux_system_monitoring.CString.{str_eq}
use linux_system_monitoring.Bridge.Forwarding.{Broker, Thread, running, exited, forward}

-- The queues are numbered as they are made, and a queue that was removed lives on without a name. `holds`
-- are the messages in each, `named` is the queue that a name stands for, `unseen` the names of new queues
-- that `inotify_mq` has not seen, `watched` the queues in the epoll set, a descriptor each, and `process` is the
-- bridge. `ready` are those of the descriptors that the last `epoll_wait` reported and that are not read yet.
pub record System : Type 0 where
  pub made : ℕ
  pub holds : ℕ → List Bytes
  pub named : Bytes → Option ℕ
  pub unseen : List Bytes
  pub watched : List ℕ
  pub published : List Bytes
  pub process : Thread
  pub ready : List ℕ

abbrev pub put : ℕ → List Bytes → (ℕ → List Bytes) → ℕ → List Bytes
put q ms holds n = if q == n then ms else holds n

abbrev pub name_as : Bytes → Option ℕ → (Bytes → Option ℕ) → Bytes → Option ℕ
name_as name q named n = if str_eq name n then q else named n

-- Whether a queue is watched.
unfoldable pub is_watched : ℕ → List ℕ → Bool
is_watched q [] = false
is_watched q (n ∷ ns) = q == n || is_watched q ns

-- `takes` is whether `epoll_ctl` takes a queue. The return value, 1 for -1, and the queues watched.
unfoldable pub add_queue : (ℕ → Bool) → Option ℕ → List ℕ → ℕ × List ℕ
add_queue takes none watched = (1, watched)
add_queue takes (some q) watched = if takes q then (0, watched ++ (q ∷ [])) else (1, watched)

-- `register_queue` on the queue that the name stands for now. `slashed_path` is an array of 512 cells.
unfoldable pub register_queue : (ℕ → Bool) → Bytes → System → Option (ℕ × List ℕ)
register_queue takes name s =
    if ltb (1 + length name) 512 then some (add_queue takes (s.named name) s.watched) else none

-- Who acts: a program makes or removes its queue or sends a message, a thread of the bridge looks at a new
-- queue or takes a message. The number is the queue's.
pub data Action : Type 0 where
  makes : Bytes → Action
  removes : Bytes → Action
  sends : ℕ → Bytes → Action
  registers : Bytes → Action
  waits : Action
  gives_up : Action
  takes : ℕ → Bytes → Action

-- The queues are first in, first out. Where a queue cannot be registered, the rest of the events that were
-- read with it is dropped. `epoll_wait` reports descriptors of queues that hold messages, and `mq_receive`
-- is called once for each of them; where a queue is empty by then, it blocks, and there is no step. The bridge
-- ends when one of the two fails, or when the broker refuses a message.
pub data Step (b : Broker) (hostname : Bytes) (can : ℕ → Bool) (s : System)
    : Action → System → Type 0 where
  makes_step :
      (name : Bytes)
      → s.named name ≡ none
      → Step b hostname can s (Action.makes name) (record s {
        made = suc s.made;
        named = name_as name (some s.made) s.named;
        unseen = s.unseen ++ (name ∷ []);
      })
  removes_step :
      (name : Bytes)
      → Step b hostname can s (Action.removes name) (record s { named = name_as name none s.named })
  sends_step :
      (name message : Bytes) (q : ℕ)
      → s.named name ≡ some q
      → Step b hostname can s
          (Action.sends q message)
          (record s { holds = put q (s.holds q ++ (message ∷ [])) s.holds })
  registers_step :
      (name : Bytes) (names : List Bytes) (watched : List ℕ)
      → s.process ≡ running
      → s.unseen ≡ name ∷ names
      → register_queue can name s ≡ some (0, watched)
      → Step b hostname can s
          (Action.registers name)
          (record s { unseen = names; watched = watched })
  drops_step :
      (name : Bytes) (dropped names : List Bytes) (watched : List ℕ)
      → s.process ≡ running
      → s.unseen ≡ name ∷ (dropped ++ names)
      → register_queue can name s ≡ some (1, watched)
      → Step b hostname can s
          (Action.registers name)
          (record s { unseen = names; watched = watched })
  waits_step :
      (qs : List ℕ)
      → s.process ≡ running
      → s.ready ≡ []
      → All (λ q. (is_watched q s.watched ≡ true) × (s.holds q ≢ [])) qs
      → Step b hostname can s Action.waits (record s { ready = qs })
  fails_step :
      s.process ≡ running → Step b hostname can s Action.gives_up (record s { process = exited })
  takes_step :
      (q : ℕ) (message : Bytes) (ms published : List Bytes) (process : Thread) (qs : List ℕ)
      → s.process ≡ running
      → s.ready ≡ q ∷ qs
      → is_watched q s.watched ≡ true
      → s.holds q ≡ message ∷ ms
      → forward b hostname (some message) s.published ≡ (process, published)
      → Step b hostname can s (Action.takes q message) (record s {
        holds = put q ms s.holds;
        published = published;
        process = process;
        ready = qs;
      })

-- The actions so far, the last one first.
pub data Run (b : Broker) (hostname : Bytes) (can : ℕ → Bool) (start : System)
    : List Action → System → Type 0 where
  begin : Run b hostname can start [] start
  and_then :
      {done : List Action} {a : Action} {s s' : System}
      → Run b hostname can start done s
      → Step b hostname can s a s'
      → Run b hostname can start (a ∷ done) s'
