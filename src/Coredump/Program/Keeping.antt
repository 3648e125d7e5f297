-- ===== src/Coredump/Program/Keeping.antt =====
-- The loop of inotify-coredump keeps its files, its queue and accounting as they are.
use linux_system_monitoring.Base.{
  ℕ, zero, suc, ◌==◌, ◌≡◌, ◌≤◌, refl, sym, ap, ◌∙◌, Bool-cases, Option, none, some, List, [], ◌∷◌,
  if◌then◌else◌, inl, inr, All, length, Bytes,
}
use mathlib.Core.Option.{some-injective, none-ne-some}
use linux_system_monitoring.Posix.{Calls, Read, Kept, IsPosix, Waits}
use linux_system_monitoring.Posix.Read.{bytes, interrupted, failed}
use linux_system_monitoring.MessageQueue.{mq}
use linux_system_monitoring.MessageQueue.Sending.{Waits-refl, Waits-trans, send_to_mq_lem}
use linux_system_monitoring.Inotify.Walk.{Raw, encode_all}
use linux_system_monitoring.Coredump.Line.{coredump_line}
use linux_system_monitoring.Coredump.Reports.{IsReported, is_new_file, reports, send_coredump_lem}
use linux_system_monitoring.Inotify.Setup.{Monitor}
use linux_system_monitoring.Coredump.Program.{
  mq_path, received, receive_coredump, sent_then, process, event_loop,
}

-- What a read gives are events as the kernel writes them, and times are short.
pub record Suits {W : Type 0} (c : Calls W) (arrays : Bytes) : Type 0 where
  pub room : 1024 ≤ length arrays
  pub short : (w : W) → length (c.get_timestamp w) ≤ 64
  pub events :
      (w w' : W) (d : ℕ) (buffer : Bytes)
      → c.read d w ≡ (bytes buffer, w')
      → (rs : List Raw) × (buffer ≡ encode_all rs) × All IsReported rs

module _ {W : Type 0} (c : Calls W) (view : W → Kept) (arrays : Bytes)
    (posix : IsPosix c view mq_path) (suits : Suits c arrays) where
  reports-Waits :
      (rs : List Raw) (w : W)
      → Waits view w (reports (mq c mq_path) arrays suits.room suits.short rs w).1
  reports-Waits [] w = Waits-refl w
  reports-Waits (r ∷ rs) w = elim (Bool-cases (is_new_file r)) [
    | inl new ↦ rw new (
        step ((mq c mq_path).send (coredump_line r.name (c.get_timestamp w)) w)
          (send_to_mq_lem c view mq_path posix (coredump_line r.name (c.get_timestamp w)) w)
          (reports-Waits rs))
    | inr old ↦ rw old (reports-Waits rs w)
  ]
    where
      step :
          (s : ℕ × W)
          → Waits view w s.1
          → ((v : W) → Waits view v (reports (mq c mq_path) arrays suits.room suits.short rs v).1)
          → Waits view w
              (if s.0 == 1
                then (1, s.1)
                else reports (mq c mq_path) arrays suits.room suits.short rs s.1).1
      step (f, w') sent later = elim (Bool-cases (f == 1)) [
        | inl bad ↦ rw bad sent
        | inr good ↦ rw good (Waits-trans sent (later w'))
      ]

  -- A run is defined, and the files, the queue and accounting stay as they are.
  abbrev Keeps : W → Option (Option ℕ × W) → Type 0
  Keeps w result = (r : Option ℕ) × (w' : W) × (result ≡ some (r, w')) × Waits view w w'

  sent_then-Keeps :
      (later : W → Option (Option ℕ × W)) (code : ℕ) (w w' : W)
      → ((v : W) → Keeps v (later v))
      → Waits view w w'
      → Keeps w (sent_then c arrays later (code, w'))
  unfolding sent_then
  sent_then-Keeps later code w w' law kept = elim (Bool-cases (code == 1)) [
    | inl bad ↦ (some 1, w', rw bad, kept)
    | inr good ↦ let (r, w2, runs, more) = law w' in (r, w2, rw good runs, Waits-trans kept more)
  ]

  process-Keeps :
      (later : W → Option (Option ℕ × W)) (w w' : W) (b : Option Bytes)
      → ((v : W) → Keeps v (later v))
      → Waits view w w'
      → ((buffer : Bytes)
          → b ≡ some buffer
          → (rs : List Raw) × (buffer ≡ encode_all rs) × All IsReported rs)
      → Keeps w (process c arrays later (b, w'))
  unfolding process
  process-Keeps later w w' none law kept events = (some 1, w', refl, kept)
  process-Keeps later w w' (some buffer) law kept events =
      let (rs, written, ok) = events buffer refl in
      let handed = send_coredump_lem (mq c mq_path) arrays suits.room suits.short rs w' ok in
      let end = reports (mq c mq_path) arrays suits.room suits.short rs w' in
      let (r, w2, runs, more) =
        sent_then-Keeps later end.0 w end.1 law (Waits-trans kept (reports-Waits rs w')) in
      (r, w2, rw (written, handed) runs, more)

  received-Keeps :
      (later : W → Option (Option ℕ × W)) (w w' : W) (d : ℕ) (b : Read)
      → ((v : W) → Keeps v (later v))
      → c.read d w ≡ (b, w')
      → Waits view w w'
      → Keeps w (process c arrays later (received c arrays (b, w')))
  unfolding received
  received-Keeps later w w' d (bytes buffer) law e kept =
      process-Keeps later w w' (some buffer) law kept
        (λ b' s. suits.events w w' d b' (e ∙ ap (λ (x : Option Bytes). (bytes (text x), w')) s))
    where
      text : Option Bytes → Bytes
      text none = []
      text (some x) = x
  received-Keeps later w w' d interrupted law e kept = elim (Bool-cases (c.keep_running w')) [
    | inl on ↦ rw on (process-Keeps later w w' none law kept (λ b' s. absurd (none-ne-some b' s)))
    | inr off ↦ rw off (process-Keeps later w w' (some []) law kept nothing)
  ]
    where
      nothing :
          (buffer : Bytes)
          → some [] ≡ some buffer
          → (rs : List Raw) × (buffer ≡ encode_all rs) × All IsReported rs
      nothing buffer s = ([], sym (some-injective [] buffer s), tt)
  received-Keeps later w w' d failed law e kept =
      process-Keeps later w w' none law kept (λ b' s. absurd (none-ne-some b' s))

  pub event_loop-Keeps : (n : ℕ) (m : Monitor) (w : W) → Keeps w (event_loop c arrays n m w)
  unfolding event_loop receive_coredump
  event_loop-Keeps zero m w = (none, w, refl, Waits-refl w)
  event_loop-Keeps (suc n) m w = elim (Bool-cases (c.keep_running w)) [
    | inl on ↦ rw on (
        received-Keeps (event_loop c arrays n m) w (c.read m.fd w).1 m.fd (c.read m.fd w).0
          (event_loop-Keeps n m) refl (posix.read w m.fd))
    | inr off ↦ (some 0, w, rw off, Waits-refl w)
  ]
