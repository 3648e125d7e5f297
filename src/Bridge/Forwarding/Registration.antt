-- ===== src/Bridge/Forwarding/Registration.antt =====
-- Which queues the bridge watches once events of the directory of queues are read.
use linux_system_monitoring.Base.{
  ℕ, zero, suc, ◌+◌, ◌/◌, ◌%◌, ◌==◌, ◌≡◌, ◌≤◌, ◌<◌, refl, arith, lt→ltb, le→ltb_false, not, ◌&&◌,
  Bool, Bool-cases, inl, inr, Option, none, some, ◌∙◌, ◌>>=◌, List, [], ◌∷◌, ◌++◌, append_assoc,
  if◌then◌else◌, length, length-append, All, Bytes,
}
use linux_system_monitoring.Inotify.{Event, event_at}
use linux_system_monitoring.Inotify.Walk.{
  Raw, IsRaw, Reads, encode, encode_all, event_at-encode, name_field, length-encode,
}
use linux_system_monitoring.Bridge.Forwarding.{register_queue, watch, watch_from, watch_all}

-- A queue is created.
abbrev pub is_new_queue : Raw → Bool
is_new_queue r = not (length (name_field r) == 0) && r.mask / 256 % 2 == 1

-- An event as the kernel makes it: NULs stand behind a name, which has at most NAME_MAX characters. An
-- event of the directory itself, or of a queue that is full, has no name and no NUL.
pub record IsEntry (r : Raw) : Type 0 where
  pub raw : IsRaw r
  pub ended : 0 < length (name_field r) → 0 < r.padding
  pub short : length r.name ≤ 255

module _ {S : Type 0} (register : Bytes → S → Option (ℕ × S)) where
  -- Each new queue is registered, up to the first for which this fails.
  abbrev pub registered : List Raw → S → Option S
  registered [] s = some s
  registered (r ∷ rs) s =
      if is_new_queue r
      then (do
        (stop, s') ← register r.name s
        (let later = registered rs s' in if stop == 1 then some s' else later))
      else registered rs s

  -- One event.
  abbrev watch_of : Raw → S → Option (ℕ × S)
  watch_of r s = if is_new_queue r then register r.name s else some (0, s)

  watch_lem :
      (e : Event) (r : Raw) (s : S) → Reads e r → IsEntry r → watch register e s ≡ watch_of r s
  unfolding watch
  watch_lem e r s reads ok = elim (Bool-cases (is_new_queue r)) [
    | inl new ↦
        let named : 0 < length (name_field r) = ground (arith, new) in
        rw (reads.len, reads.mask, new, reads.name (ok.ended named))
    | inr old ↦ rw (reads.len, reads.mask, old)
  ]

  -- The rest of the walk, behind one event.
  registered_step :
      (r : Raw) (rs : List Raw) (s : S)
      → (do
        (stop, s') ← watch_of r s
        (let later = registered rs s' in if stop == 1 then some s' else later))
        ≡ registered (r ∷ rs) s
  registered_step r rs s = elim (Bool-cases (is_new_queue r)) [
    | inl new ↦ rw new
    | inr old ↦ rw old
  ]

  watch_from_lem :
      (rs : List Raw) (fuel : ℕ) (front : Bytes) (i len : ℕ) (s : S)
      → All IsEntry rs
      → i ≡ length front
      → len ≡ length front + length (encode_all rs)
      → length (encode_all rs) < fuel
      → watch_from fuel register (front ++ encode_all rs) i len s ≡ registered rs s
  watch_from_lem rs zero front i len s ok e l f = absurd (omega arith)
  watch_from_lem [] (suc fuel) front i len s ok e l f =
      unfold watch_from in rw (le→ltb_false i len (omega arith))
  watch_from_lem (r ∷ rs) (suc fuel) front i len s ok e l f =
      let (ev, found, reads) = event_at-encode front r (encode_all rs) i e ok.0.raw in
      step ev found reads (λ s'.
        watch_from_lem rs fuel (front ++ encode r) (i + (16 + length (name_field r))) len s' ok.1
          (omega (arith, length-append front (encode r), length-encode r))
          (omega (arith, length-append front (encode r), size))
          (omega (arith, size, length-encode r)))
    where
      size : length (encode r ++ encode_all rs) ≡ length (encode r) + length (encode_all rs)
      size = length-append (encode r) (encode_all rs)

      step :
          (ev : Event)
          → event_at (front ++ (encode r ++ encode_all rs)) i ≡ some ev
          → Reads ev r
          → ((s' : S)
              → watch_from fuel register
                  ((front ++ encode r) ++ encode_all rs)
                  (i + (16 + length (name_field r)))
                  len
                  s'
                ≡ registered rs s')
          → watch_from (suc fuel) register (front ++ (encode r ++ encode_all rs)) i len s
            ≡ registered (r ∷ rs) s
      step ev found reads later = by_result (watch_of r s) refl
        where
          by_result :
              (result : Option (ℕ × S))
              → watch_of r s ≡ result
              → watch_from (suc fuel) register (front ++ (encode r ++ encode_all rs)) i len s
                ≡ registered (r ∷ rs) s
          by_result none e' =
              unfold watch_from in
              rw (
                lt→ltb i len (omega (arith, size)),
                found,
                watch_lem ev r s reads ok.0,
                e',
                ← registered_step r rs s,
                e',
              )
          by_result (some (stop, s')) e' =
              unfold watch_from in
              rw (
                lt→ltb i len (omega (arith, size)),
                found,
                watch_lem ev r s reads ok.0,
                ← registered_step r rs s,
                e',
                reads.len,
                ← append_assoc front (encode r) (encode_all rs),
                later s',
              )

  -- The walk over a buffer of events as the kernel writes them.
  pub watch_all-registered :
      (rs : List Raw) (s : S)
      → All IsEntry rs
      → watch_all register (encode_all rs) s ≡ registered rs s
  unfolding watch_all
  watch_all-registered rs s ok =
      watch_from_lem rs (suc (length (encode_all rs))) [] 0 (length (encode_all rs)) s ok refl
        (omega arith) (omega arith)

module _ (opens : Bytes → Bool) where
  -- The paths that are watched: those of new queues, up to the first that does not open.
  abbrev pub registered_paths : List Raw → List Bytes → List Bytes
  registered_paths [] watched = watched
  registered_paths (r ∷ rs) watched =
      if is_new_queue r
      then (if opens (b'/' ∷ r.name)
          then registered_paths rs (watched ++ ((b'/' ∷ r.name) ∷ []))
          else watched)
      else registered_paths rs watched

  registered-paths :
      (rs : List Raw) (watched : List Bytes)
      → All IsEntry rs
      → registered (register_queue opens) rs watched ≡ some (registered_paths rs watched)
  unfolding register_queue
  registered-paths [] watched ok = refl
  registered-paths (r ∷ rs) watched ok = elim (Bool-cases (is_new_queue r)) [
    | inl new ↦
        rw (new, lt→ltb (1 + length r.name) 512 (omega (arith, ok.0.short)))
          (elim (Bool-cases (opens (b'/' ∷ r.name))) [
            | inl e ↦ rw e (registered-paths rs (watched ++ ((b'/' ∷ r.name) ∷ [])) ok.1)
            | inr e ↦ rw e
          ])
    | inr old ↦ rw old (registered-paths rs watched ok.1)
  ]

  -- For a buffer of events as the kernel writes them, the loop over the events reads nothing
  -- outside the buffer and adds to the watched paths, in order, a slash with the name of each
  -- new queue, up to the first that does not open, behind which the rest of the buffer is
  -- ignored.
  pub watch_all_lem :
      (rs : List Raw) (watched : List Bytes)
      → All IsEntry rs
      → watch_all (register_queue opens) (encode_all rs) watched
        ≡ some (registered_paths rs watched)
  watch_all_lem rs watched ok =
      watch_all-registered (register_queue opens) rs watched ok ∙ registered-paths rs watched ok
