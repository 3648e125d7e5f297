-- ===== src/Posix.antt =====
-- The calls of the operating system that the programs make, and what their manual pages promise of them.
use linux_system_monitoring.Base.{
  ℕ, ◌==◌, ◌≡◌, ◌≢◌, Bool, true, false, Option, none, some, List, [], ◌∷◌, if◌then◌else◌, All,
  Bytes,
}

-- A `read`, which a signal may interrupt.
pub data Read : Type 0 where
  bytes : Bytes → Read
  interrupted : Read
  failed : Read

-- `W` is the state of the machine. A call that returns a descriptor gives none for an error; one that
-- returns 0 or -1 gives whether it succeeds.
pub record Calls (W : Type 0) : Type 0 where
  pub mq_unlink : Bytes → W → W
  pub mq_create : Bytes → W → Option ℕ × W
  pub mq_open : Bytes → W → Option ℕ × W
  pub mq_send : ℕ → Bytes → W → Bool × W
  pub mq_close : ℕ → W → W
  pub inotify_init : W → Option ℕ × W
  pub inotify_add_watch : ℕ → Bytes → W → Option ℕ × W
  pub inotify_rm_watch : ℕ → ℕ → W → W
  pub read : ℕ → W → Read × W
  pub close : ℕ → W → W
  pub fopen : Bytes → W → Option ℕ × W
  pub fclose : ℕ → W → W
  pub acct : Option Bytes → W → Bool × W
  pub sigaction : ℕ → W → Bool × W
  pub keep_running : W → Bool
  pub get_timestamp : W → Bytes

-- What is seen of a state: the messages in the queue of a program, if it exists, the files that the
-- program has open, and whether process accounting is on.
pub record Kept : Type 0 where
  pub queue : Option (List Bytes)
  pub files : List ℕ
  pub accounting : Bool

-- Without the first that is `d`.
abbrev pub without : ℕ → List ℕ → List ℕ
without d [] = []
without d (e ∷ es) = if d == e then es else e ∷ without d es

abbrev pub exists {ℓ} : {A : Type ℓ} → Option A → Bool
exists none = false
exists (some a) = true

abbrev pub opened : ℕ → Kept → Kept
opened d k = record k { files = d ∷ k.files }

abbrev pub closed : ℕ → Kept → Kept
closed d k = record k { files = without d k.files }

module _ {W : Type 0} (view : W → Kept) where
  -- A call that opens a file, and changes what is seen besides if it succeeds.
  abbrev pub Opens : (Kept → Kept) → W → Option ℕ × W → Type 0
  Opens change w (none, w') = view w' ≡ view w
  Opens change w (some d, w') =
      All (λ e. d ≢ e) (view w).files × (view w' ≡ change (opened d (view w)))

  -- What a call keeps that may block: other processes may take messages meanwhile.
  pub record Waits (w w' : W) : Type 0 where
    pub queue : exists (view w').queue ≡ exists (view w).queue
    pub files : (view w').files ≡ (view w).files
    pub accounting : (view w').accounting ≡ (view w).accounting

  abbrev pub Switches : Bool → W → Bool × W → Type 0
  Switches on w (false, w') = view w' ≡ view w
  Switches on w (true, w') = view w' ≡ record (view w) { accounting = on }

-- What is promised of the calls, for the queue with this name, which the process may remove. `mq_send` may
-- block until there is room, and other processes may take messages, so it says of the queue only that it stays.
pub record IsPosix {W : Type 0} (c : Calls W) (view : W → Kept) (path : Bytes) : Type 0 where
  pub mq_unlink : (w : W) → view (c.mq_unlink path w) ≡ record (view w) { queue = none }
  pub mq_create :
      (w : W)
      → (view w).queue ≡ none
      → Opens view (λ k. record k { queue = some [] }) w (c.mq_create path w)
  pub mq_open : (w : W) → Opens view (λ k. k) w (c.mq_open path w)
  pub mq_send :
      (w w' : W) (d : ℕ) (message : Bytes)
      → c.mq_open path w ≡ (some d, w')
      → Waits view w' (c.mq_send d message w').1
  pub mq_close : (w : W) (d : ℕ) → view (c.mq_close d w) ≡ closed d (view w)
  pub inotify_init : (w : W) → Opens view (λ k. k) w (c.inotify_init w)
  pub inotify_add_watch :
      (w : W) (d : ℕ) (name : Bytes) → view (c.inotify_add_watch d name w).1 ≡ view w
  pub inotify_rm_watch : (w : W) (d n : ℕ) → view (c.inotify_rm_watch d n w) ≡ view w
  pub read : (w : W) (d : ℕ) → Waits view w (c.read d w).1
  pub close : (w : W) (d : ℕ) → view (c.close d w) ≡ closed d (view w)
  pub fopen : (w : W) (name : Bytes) → Opens view (λ k. k) w (c.fopen name w)
  pub fclose : (w : W) (d : ℕ) → view (c.fclose d w) ≡ closed d (view w)
  pub enable : (w : W) (name : Bytes) → Switches view true w (c.acct (some name) w)
  pub disable : (w : W) → Switches view false w (c.acct none w)
  pub sigaction : (w : W) (n : ℕ) → view (c.sigaction n w).1 ≡ view w
