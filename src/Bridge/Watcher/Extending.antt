-- ===== src/Bridge/Watcher/Extending.antt =====
-- The calls of the bridge's watcher as they are promised, and descriptors that are opened.
use mathlib.Core.List.Memᴰ.{head, tail, not-nil}
use mathlib.Core.List.{Memᴰ}
use linux_system_monitoring.Base.{
  ℕ, ◌≡◌, ◌≢◌, refl, sym, ap, ◌∙◌, subst, arith, Bool, true, false, Option, none, some, List, [],
  ◌∷◌, ◌++◌, append_assoc, All, All-append, Bytes,
}
use linux_system_monitoring.Posix.{Calls, without}
use linux_system_monitoring.Posix.Read.{bytes}
use linux_system_monitoring.Inotify.Walk.{Raw, encode_all}
use linux_system_monitoring.Bridge.Forwarding.Registration.{IsEntry}
use linux_system_monitoring.Bridge.Watcher.{Epoll}

-- What is seen of a state: the descriptors that are open, and those in the epoll instance, each with
-- the path of its queue.
pub record Seen : Type 0 where
  pub files : List ℕ
  pub set : List (ℕ × Bytes)

module _ {W : Type 0} (view : W → Seen) where
  -- A call that opens a descriptor, or does nothing.
  abbrev pub Opens : W → Option ℕ × W → Type 0
  Opens w (none, w') = view w' ≡ view w
  Opens w (some d, w') =
      All (λ e. d ≢ e) (view w).files × (view w' ≡ record (view w) { files = d ∷ (view w).files })

  -- A descriptor comes into the epoll instance, or nothing is done.
  abbrev pub Adds : ℕ → Bytes → W → Bool × W → Type 0
  Adds d path w (false, w') = view w' ≡ view w
  Adds d path w (true, w') = view w' ≡ record (view w) { set = (view w).set ++ ((d, path) ∷ []) }

-- What is promised of the calls, for the epoll instance `epid`: the laws of the manual pages, and that
-- reads of an inotify instance give whole events.
pub record IsKernel {W : Type 0} (c : Calls W) (ep : Epoll W) (view : W → Seen) (epid : ℕ)
    : Type 0 where
  pub inotify_init : (w : W) → Opens view w (c.inotify_init w)
  pub inotify_add_watch :
      (w : W) (d : ℕ) (name : Bytes) → view (c.inotify_add_watch d name w).1 ≡ view w
  pub inotify_rm_watch : (w : W) (d n : ℕ) → view (c.inotify_rm_watch d n w) ≡ view w
  pub mq_open : (w : W) (path : Bytes) → Opens view w (c.mq_open path w)
  pub epoll_add :
      (w w' : W) (path : Bytes) (d : ℕ)
      → c.mq_open path w ≡ (some d, w')
      → Adds view d path w' (ep.epoll_add epid d w')
  pub read : (w : W) (d : ℕ) → view (c.read d w).1 ≡ view w
  pub events :
      (w0 w1 w w' : W) (fd : ℕ) (buffer : Bytes)
      → c.inotify_init w0 ≡ (some fd, w1)
      → c.read fd w ≡ (bytes buffer, w')
      → (rs : List Raw) × (buffer ≡ encode_all rs) × All IsEntry rs
  pub close :
      (w : W) (d : ℕ)
      → All (λ (e : ℕ × Bytes). d ≢ e.0) (view w).set
      → view (c.close d w) ≡ record (view w) { files = without d (view w).files }

all_lookup : (P : ℕ → Type 0) {d : ℕ} (ds : List ℕ) → All P ds → Memᴰ d ds → P d
all_lookup P [] h m = absurd (not-nil m)
all_lookup P (e ∷ ds) h (head p) = subst P (sym p) h.0
all_lookup P (e ∷ ds) h (tail m) = all_lookup P ds h.1 m

-- Descriptors that are among the open ones are apart from one that is not open.
pub apart_lem :
    (fd : ℕ) (files : List ℕ) (set : List (ℕ × Bytes))
    → All (λ e. fd ≢ e) files
    → All (λ (e : ℕ × Bytes). Memᴰ e.0 files) set
    → All (λ (e : ℕ × Bytes). fd ≢ e.0) set
apart_lem fd files [] h m = tt
apart_lem fd files (e ∷ set) h m =
    (all_lookup (λ e. fd ≢ e) files h m.0, apart_lem fd files set h m.1)

all_tail :
    (d : ℕ) (ds : List ℕ) (es : List (ℕ × Bytes))
    → All (λ (e : ℕ × Bytes). Memᴰ e.0 ds) es
    → All (λ (e : ℕ × Bytes). Memᴰ e.0 (d ∷ ds)) es
all_tail d ds [] h = tt
all_tail d ds (e ∷ es) h = (tail h.0, all_tail d ds es h.1)

-- One in the middle of a list is apart from `d`.
middle_apart : (d fd : ℕ) (opened rest : List ℕ) → All (λ e. d ≢ e) (opened ++ (fd ∷ rest)) → fd ≢ d
middle_apart d fd [] rest h = λ p. h.0 (sym p)
middle_apart d fd (o ∷ os) rest h = middle_apart d fd os rest h.1

pub without-middle :
    (fd : ℕ) (opened rest : List ℕ)
    → All (λ d. fd ≢ d) opened
    → without fd (opened ++ (fd ∷ rest)) ≡ opened ++ rest
without-middle fd [] rest h = ground arith
without-middle fd (o ∷ os) rest h = ground (arith, h.0, without-middle fd os rest h.1)

-- Between the start and the end of the loop: `opened` are the descriptors of the queues, `new` what came
-- into the epoll instance.
pub record Extends (fd : ℕ) (before now : Seen) : Type 0 where
  pub opened : List ℕ
  pub new : List (ℕ × Bytes)
  pub files : now.files ≡ opened ++ (fd ∷ before.files)
  pub set : now.set ≡ before.set ++ new
  pub fresh : All (λ d. fd ≢ d) opened
  pub apart : All (λ (e : ℕ × Bytes). fd ≢ e.0) now.set
  pub inside : All (λ (e : ℕ × Bytes). Memᴰ e.0 opened) new

-- A descriptor more.
pub extended :
    (fd d : ℕ) (before now : Seen)
    → Extends fd before now
    → All (λ e. d ≢ e) now.files
    → Extends fd before (record now { files = d ∷ now.files })
extended fd d before now x away = record {
  opened = d ∷ x.opened;
  new = x.new;
  files = ap (◌∷◌ d) x.files;
  set = x.set;
  fresh =
      (middle_apart d fd x.opened before.files (subst (All (λ e. d ≢ e)) x.files away), x.fresh);
  apart = x.apart;
  inside = all_tail d x.opened x.new x.inside;
}

-- The descriptor that was opened last is in the epoll instance.
pub extended_set :
    (fd d : ℕ) (path : Bytes) (before now : Seen)
    → (x : Extends fd before now) → All (λ e. d ≢ e) now.files
    → Extends fd before (record { files = d ∷ now.files; set = now.set ++ ((d, path) ∷ []) })
unfolding extended
extended_set fd d path before now x away =
    let y = extended fd d before now x away in
    record {
      opened = y.opened;
      new = x.new ++ ((d, path) ∷ []);
      files = y.files;
      set = ap (λ l. l ++ ((d, path) ∷ [])) x.set ∙ append_assoc before.set x.new ((d, path) ∷ []);
      fresh = y.fresh;
      apart =
          All-append (λ (e : ℕ × Bytes). fd ≢ e.0) now.set ((d, path) ∷ []) x.apart (y.fresh.0, tt);
      inside =
          All-append (λ (e : ℕ × Bytes). Memᴰ e.0 y.opened) x.new ((d, path) ∷ []) y.inside
            (head refl, tt);
    }
