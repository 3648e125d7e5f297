-- ===== src/MessageQueue/Sending.antt =====
-- What `send_to_mq` and `init_mq` leave behind.
use linux_system_monitoring.Base.{
  ℕ, ◌≡◌, ◌≢◌, refl, ap, ◌∙◌, subst, arith, Bool, Option, none, some, [], ◌∷◌, All, Bytes,
}
use linux_system_monitoring.Posix.{
  Calls, Kept, Opens, IsPosix, Waits, exists, without, opened, closed,
}
use linux_system_monitoring.MessageQueue.{init_mq, close_after, send_and_close, send_to_mq}

pub closed-opened : (d : ℕ) (k : Kept) → closed d (opened d k) ≡ k
closed-opened d k =
    ap (λ fs. record k { files = fs }) {x = without d (d ∷ k.files)} {y = k.files} (ground arith)

-- The same files are open, and the queue is there or not as before.
pub Waits-refl : {W : Type 0} {view : W → Kept} (w : W) → Waits view w w
Waits-refl w = record { queue = refl; files = refl; accounting = refl }

pub Waits-trans :
    {W : Type 0} {view : W → Kept} {w w1 w2 : W}
    → Waits view w w1
    → Waits view w1 w2
    → Waits view w w2
Waits-trans a b = record {
  queue = b.queue ∙ a.queue;
  files = b.files ∙ a.files;
  accounting = b.accounting ∙ a.accounting;
}

pub Waits-view : {W : Type 0} {view : W → Kept} {w w' : W} → view w' ≡ view w → Waits view w w'
Waits-view e = record {
  queue = ap (λ (k : Kept). exists k.queue) e;
  files = ap (λ (k : Kept). k.files) e;
  accounting = ap (λ (k : Kept). k.accounting) e;
}

module _ {W : Type 0} (c : Calls W) (view : W → Kept) (path : Bytes)
    (posix : IsPosix c view path) where
  close_after_lem :
      (w w' : W) (d : ℕ) (r : Bool × W)
      → view w' ≡ opened d (view w)
      → Waits view w' r.1
      → Waits view w (close_after c path d r).1
  unfolding close_after
  close_after_lem w w' d (b, w2) o sent = record {
    queue =
        ap (λ (k : Kept). exists k.queue) (posix.mq_close w2 d)
        ∙ sent.queue
        ∙ ap (λ (k : Kept). exists k.queue) o;
    files =
        ap (λ (k : Kept). k.files) (posix.mq_close w2 d)
        ∙ ap (without d) (sent.files ∙ ap (λ (k : Kept). k.files) o)
        ∙ ap (λ (k : Kept). k.files) (closed-opened d (view w));
    accounting =
        ap (λ (k : Kept). k.accounting) (posix.mq_close w2 d)
        ∙ sent.accounting
        ∙ ap (λ (k : Kept). k.accounting) o;
  }

  send_and_close_lem :
      (message : Bytes) (w : W) (r : Option ℕ × W)
      → c.mq_open path w ≡ r
      → Opens view (λ k. k) w r
      → Waits view w (send_and_close c path message r).1
  unfolding send_and_close
  send_and_close_lem message w (none, w') e o = Waits-view o
  send_and_close_lem message w (some d, w') e (new, o) =
      close_after_lem w w' d (c.mq_send d message w') o (posix.mq_send w w' d message e)

  -- On a system that keeps what is documented of its calls, `send_to_mq` leaves no file open, and
  -- the queue is there or not as before, whether it succeeds or not.
  pub send_to_mq_lem : (message : Bytes) (w : W) → Waits view w (send_to_mq c path message w).1
  unfolding send_to_mq
  send_to_mq_lem message w = send_and_close_lem message w (c.mq_open path w) refl (posix.mq_open w)

  -- A queue that was made is new and empty, and stays open; otherwise there is none.
  abbrev pub IsMade : W → Option ℕ × W → Type 0
  IsMade w (none, w') = view w' ≡ record (view w) { queue = none }
  IsMade w (some d, w') =
      All (λ e. d ≢ e) (view w).files × (view w' ≡ record (opened d (view w)) { queue = some [] })

  pub init_mq_lem : (w : W) → IsMade w (init_mq c path w)
  unfolding init_mq
  init_mq_lem w =
      made (c.mq_create path (c.mq_unlink path w))
        (posix.mq_create (c.mq_unlink path w) (ap (λ (k : Kept). k.queue) unlinked))
    where
      unlinked : view (c.mq_unlink path w) ≡ record (view w) { queue = none }
      unlinked = posix.mq_unlink w

      made :
          (r : Option ℕ × W)
          → Opens view (λ k. record k { queue = some [] }) (c.mq_unlink path w) r
          → IsMade w r
      made (none, w') o = o ∙ unlinked
      made (some d, w') (new, o) = (
        subst (λ (k : Kept). All (λ e. d ≢ e) k.files) unlinked new,
        o ∙ ap (λ (k : Kept). record (opened d k) { queue = some [] }) unlinked,
      )
