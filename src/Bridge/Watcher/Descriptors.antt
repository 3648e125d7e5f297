-- ===== src/Bridge/Watcher/Descriptors.antt =====
-- The descriptors that `inotify_mq` opens, and those in the epoll instance.
use mathlib.Core.List.{Memᴰ}
use linux_system_monitoring.Base.{
  ℕ, zero, suc, ◌+◌, ◌≡◌, ◌≢◌, refl, sym, ap, ◌∙◌, subst, arith, Bool, Bool-cases, inl, inr, true,
  false, Option, none, some, List, [], ◌∷◌, ◌++◌, append-nil, ◌==◌, All, length, lt→ltb, Bytes,
}
use linux_system_monitoring.Posix.{Calls, Read, without}
use linux_system_monitoring.Posix.Read.{bytes, interrupted, failed}
use linux_system_monitoring.Inotify.Walk.{Raw}
use linux_system_monitoring.Bridge.Forwarding.Registration.{
  IsEntry, is_new_queue, registered, watch_all-registered,
}
use linux_system_monitoring.Bridge.Watcher.{
  Epoll, Ended, waiting, returned, left, watch_dir, initialize_mq, added, register_queue,
  stop_watching, watch_round, watch_rounds, watching, instance_made, inotify_mq,
}
use linux_system_monitoring.Bridge.Watcher.Extending.{
  Seen, Opens, Adds, IsKernel, apart_lem, without-middle, Extends, extended, extended_set,
}

-- How the thread stands, by what was seen before it. Once it returned, the inotify instance is closed;
-- the queues stay open.
pub data Outcome (before : Seen) : Ended → Seen → Type 0 where
  refused : Outcome before left before
  gone :
      (opened : List ℕ) (new : List (ℕ × Bytes)) (now : Seen)
      → now.files ≡ opened ++ before.files
      → now.set ≡ before.set ++ new
      → All (λ (e : ℕ × Bytes). Memᴰ e.0 opened) new
      → Outcome before returned now
  reading : (fd : ℕ) (now : Seen) → Extends fd before now → Outcome before waiting now

-- What a run gives.
abbrev pub Gives : {W : Type 0} → (W → Seen) → Seen → Option (Ended × W) → Type 0
Gives {W} view before result =
    (e : Ended) × (w' : W) × (result ≡ some (e, w')) × Outcome before e (view w')

module _ {W : Type 0} (c : Calls W) (ep : Epoll W) (view : W → Seen) (epid : ℕ)
    (law : IsKernel c ep view epid) where
  -- What `epoll_ctl` gives for a queue that was opened.
  status_lem :
      (fd d : ℕ) (path : Bytes) (before : Seen) (w w1 : W) (r : Bool × W)
      → Extends fd before (view w)
      → Opens view w (some d, w1)
      → Adds view d path w1 r
      → Extends fd before (view r.1)
  status_lem fd d path before w w1 (false, w2) x o a =
      subst (Extends fd before) (sym (a ∙ o.1)) (extended fd d before (view w) x o.0)
  status_lem fd d path before w w1 (true, w2) x o a =
      subst (Extends fd before)
        (sym (a ∙ ap (λ (s : Seen). record s { set = s.set ++ ((d, path) ∷ []) }) o.1))
        (extended_set fd d path before (view w) x o.0)

  added_lem :
      (fd : ℕ) (path : Bytes) (before : Seen) (w : W) (r : Option ℕ × W)
      → Extends fd before (view w)
      → c.mq_open path w ≡ r
      → Opens view w r
      → Extends fd before (view (added c ep epid r).1)
  unfolding added
  added_lem fd path before w (none, w1) x e o = subst (Extends fd before) (sym o) x
  added_lem fd path before w (some d, w1) x e o =
      status_lem fd d path before w w1 (ep.epoll_add epid d w1) x o (law.epoll_add w w1 path d e)

  registered_lem :
      (fd : ℕ) (before : Seen) (rs : List Raw) (w : W)
      → All IsEntry rs
      → Extends fd before (view w)
      → (w' : W) × (registered (register_queue c ep epid) rs w ≡ some w')
        × Extends fd before (view w')
  unfolding register_queue initialize_mq
  registered_lem fd before [] w ok x = (w, refl, x)
  registered_lem fd before (r ∷ rs) w ok x = elim (Bool-cases (is_new_queue r)) [
    | inl new ↦
        rw (new, lt→ltb (1 + length r.name) 512 (omega (arith, ok.0.short)))
          (elim (Bool-cases (result.0 == 1)) [
            | inl stops ↦ rw stops (result.1, refl, kept)
            | inr goes ↦ rw goes (registered_lem fd before rs result.1 ok.1 kept)
          ])
    | inr old ↦ rw old (registered_lem fd before rs w ok.1 x)
  ]
    where
      result : ℕ × W
      result = added c ep epid (c.mq_open (b'/' ∷ r.name) w)

      kept : Extends fd before (view result.1)
      kept =
          added_lem fd (b'/' ∷ r.name) before w (c.mq_open (b'/' ∷ r.name) w) x refl
            (law.mq_open w (b'/' ∷ r.name))

  stopped-Outcome :
      (fd wd : ℕ) (before : Seen) (w w1 : W)
      → view w1 ≡ view w
      → Extends fd before (view w)
      → Gives view before (some (returned, stop_watching c ep fd wd w1))
  unfolding stop_watching
  stopped-Outcome fd wd before w w1 same x = (
    returned,
    c.close fd (c.inotify_rm_watch fd wd w1),
    refl,
    gone x.opened x.new _
        (ap (λ (s : Seen). s.files) closing
          ∙ ap (without fd) x.files
          ∙ without-middle fd x.opened before.files x.fresh)
        (ap (λ (s : Seen). s.set) closing ∙ x.set) x.inside,
  )
    where
      unchanged : view (c.inotify_rm_watch fd wd w1) ≡ view w
      unchanged = law.inotify_rm_watch w1 fd wd ∙ same

      closing :
          view (c.close fd (c.inotify_rm_watch fd wd w1))
          ≡ record (view w) { files = without fd (view w).files }
      closing =
          law.close (c.inotify_rm_watch fd wd w1) fd
            (subst (λ (s : Seen). All (λ (e : ℕ × Bytes). fd ≢ e.0) s.set) (sym unchanged) x.apart)
          ∙ ap (λ (s : Seen). record s { files = without fd s.files }) unchanged

  watch_round-Outcome :
      (fd wd : ℕ) (before : Seen) (w0 w1 w : W) (later : W → Option (Ended × W)) (r : Read × W)
      → c.inotify_init w0 ≡ (some fd, w1)
      → Extends fd before (view w)
      → ((w' : W) → Extends fd before (view w') → Gives view before (later w'))
      → c.read fd w ≡ r
      → view r.1 ≡ view w
      → Gives view before (watch_round c ep epid fd wd later r)
  unfolding watch_round
  watch_round-Outcome fd wd before w0 w1 w later (bytes buffer, w2) made x rest e same =
      let (rs, written, ok) = law.events w0 w1 w w2 fd buffer made e in
      let (w3, runs, x') =
        registered_lem fd before rs w2 ok (subst (Extends fd before) (sym same) x) in
      rw (written, watch_all-registered (register_queue c ep epid) rs w2 ok, runs) (rest w3 x')
  watch_round-Outcome fd wd before w0 w1 w later (interrupted, w2) made x rest e same =
      stopped-Outcome fd wd before w w2 same x
  watch_round-Outcome fd wd before w0 w1 w later (failed, w2) made x rest e same =
      stopped-Outcome fd wd before w w2 same x

  watch_rounds-Outcome :
      (n fd wd : ℕ) (before : Seen) (w0 w1 w : W)
      → c.inotify_init w0 ≡ (some fd, w1)
      → Extends fd before (view w)
      → Gives view before (watch_rounds c ep n epid fd wd w)
  unfolding watch_rounds
  watch_rounds-Outcome zero fd wd before w0 w1 w made x = (waiting, w, refl, reading fd (view w) x)
  watch_rounds-Outcome (suc n) fd wd before w0 w1 w made x =
      watch_round-Outcome fd wd before w0 w1 w (watch_rounds c ep n epid fd wd) (c.read fd w) made x
        (λ w' x'. watch_rounds-Outcome n fd wd before w0 w1 w' made x') refl (law.read w fd)

  watching-Outcome :
      (n fd : ℕ) (before : Seen) (w0 w1 : W) (r : Option ℕ × W)
      → c.inotify_init w0 ≡ (some fd, w1)
      → view r.1 ≡ record before { files = fd ∷ before.files }
      → All (λ e. fd ≢ e) before.files
      → All (λ (e : ℕ × Bytes). Memᴰ e.0 before.files) before.set
      → Gives view before (watching c ep n epid fd r)
  unfolding watching
  watching-Outcome n fd before w0 w1 (none, w2) made o new are_open = (
    left,
    c.close fd w2,
    refl,
    subst (Outcome before left)
        (sym (
          law.close w2 fd (
            subst (λ (s : Seen). All (λ (e : ℕ × Bytes). fd ≢ e.0) s.set) (sym o)
              (apart_lem fd before.files before.set new are_open))
          ∙ ap (λ (s : Seen). record s { files = without fd s.files }) o
          ∙ ap (λ fs. record before { files = fs }) (without-middle fd [] before.files tt)))
        refused,
  )
  watching-Outcome n fd before w0 w1 (some wd, w2) made o new are_open =
      watch_rounds-Outcome n fd wd before w0 w1 w2 made (
        subst (Extends fd before) (sym o) (record {
          opened = [];
          new = [];
          files = refl;
          set = sym (append-nil before.set);
          fresh = tt;
          apart = apart_lem fd before.files before.set new are_open;
          inside = tt;
        }))

  instance_made-Outcome :
      (n : ℕ) (w : W) (r : Option ℕ × W)
      → c.inotify_init w ≡ r
      → Opens view w r
      → All (λ (e : ℕ × Bytes). Memᴰ e.0 (view w).files) (view w).set
      → Gives view (view w) (instance_made c ep n epid r)
  unfolding instance_made
  instance_made-Outcome n w (none, w1) made o are_open =
      (left, w1, refl, subst (Outcome (view w) left) (sym o) refused)
  instance_made-Outcome n w (some fd, w1) made o are_open =
      watching-Outcome n fd (view w) w w1 (c.inotify_add_watch fd watch_dir w1) made
        (law.inotify_add_watch w1 fd watch_dir ∙ o.1) o.0 are_open

  -- On a system that keeps what is documented of its calls, whose reads of an inotify instance
  -- give events as the kernel writes them, and whose epoll instance holds open descriptors
  -- only, every run of `inotify_mq` has no undefined behaviour; when it exits, the descriptors
  -- that are open and those in the epoll instance are the ones before; when it returns, the
  -- inotify instance is closed, and what came into the epoll instance is among the queues that
  -- were opened and stay open; and while it waits, one inotify instance is open besides.
  pub inotify_mq-Outcome :
      (n : ℕ) (w : W)
      → All (λ (e : ℕ × Bytes). Memᴰ e.0 (view w).files) (view w).set
      → Gives view (view w) (inotify_mq c ep n epid w)
  unfolding inotify_mq
  inotify_mq-Outcome n w are_open =
      instance_made-Outcome n w (c.inotify_init w) refl (law.inotify_init w) are_open
