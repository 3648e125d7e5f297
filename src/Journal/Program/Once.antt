-- ===== src/Journal/Program/Once.antt =====
-- What is published of the journal.
mod Passing
use linux_system_monitoring.Base.{
  ℕ, zero, suc, ◌≡◌, refl, sym, ap, ◌∙◌, Bool, true, false, Option, none, some, List, [], ◌∷◌, ◌++◌,
  append-nil, append_assoc, ◌>>=◌, ◌⊎◌, inl, inr, Bytes,
}
use linux_system_monitoring.Journal.Publish.{Entry}
use linux_system_monitoring.Journal.Program.{
  Services, Drained, init_mqtt, host_of, with_cursor, at_entry, drain, sought, drained, woken,
  follow, at_tail, opened, with_host, journal_to_influxdb,
}
use linux_system_monitoring.Journal.Program.Drained.{unfinished, failed, finished}
use linux_system_monitoring.Journal.Program.Once.Passing.{Published, none_new, then_new}

-- What is promised of the journal. `past` are the entries up to and with the one it stands at. A cursor
-- leads back in front of its entry. The entries are such that they can be published.
pub record IsJournal {J S : Type 0} (v : Services J) (publish : Entry → S → Option S)
    (past : J → List Entry) : Type 0 where
  pub wait : (j : J) → past (v.wait j).1 ≡ past j
  pub next : (j j' : J) → v.next j ≡ (true, j') → past j' ≡ past j ++ (v.entry j' ∷ [])
  pub ends : (j j' : J) → v.next j ≡ (false, j') → past j' ≡ past j
  pub get_cursor : (j : J) → past (v.get_cursor j).1 ≡ past j
  pub seek_cursor :
      (j j1 k k' : J) (c : ℕ)
      → v.get_cursor j ≡ (some c, j1)
      → past k ≡ past j1
      → v.seek_cursor c k ≡ (true, k')
      → past (v.next k').1 ≡ past k
  pub lost : (c : ℕ) (k k' : J) → v.seek_cursor c k ≡ (false, k') → past k' ≡ past k
  pub close : (j : J) → past (v.close j) ≡ past j
  pub printable : (j : J) (s : S) → (s' : S) × (publish (v.entry j) s ≡ some s')

module _ {J S : Type 0} (v : Services J) (publish : Entry → S → Option S) (past : J → List Entry)
    (law : IsJournal v publish past) where
  -- A cursor is one of the entry that the journal stands at.
  abbrev Marks : J → Option ℕ → Type 0
  Marks k none = Unit
  Marks k (some c) = (j : J) × (j1 : J) × (v.get_cursor j ≡ (some c, j1)) × (past k ≡ past j1)

  abbrev MarksEnd : J → Drained → Type 0
  MarksEnd j (finished cursor) = Marks j cursor
  MarksEnd j unfinished = Unit
  MarksEnd j failed = Unit

  -- The loop over the new entries is defined, publishes those that it passes, and keeps the cursor.
  abbrev Drains : J → S → Option (Drained × J × S) → Type 0
  Drains j s result =
      (d : Drained) × (j' : J) × (s' : S) × (result ≡ some (d, j', s'))
      × Published publish past j s j' s'
      × MarksEnd j' d

  with_cursor-Drains :
      (later : Option ℕ → J → S → Option (Drained × J × S)) (j : J) (s : S) (r : Option ℕ × J)
      → ((cursor : Option ℕ) (k : J) (t : S) → Marks k cursor → Drains k t (later cursor k t))
      → v.get_cursor j ≡ r
      → past r.1 ≡ past j
      → Drains j s (with_cursor v publish later s r)
  unfolding with_cursor
  with_cursor-Drains later j s (none, j1) rest e same =
      (failed, j1, s, refl, none_new publish past j j1 s same, tt)
  with_cursor-Drains later j s (some c, j1) rest e same =
      let (d, j2, s2, runs, new, marks) = rest (some c) j1 s (j, j1, e, refl) in
      (
        d,
        j2,
        s2,
        runs,
        then_new publish past j j1 j2 s s s2 (none_new publish past j j1 s same) new,
        marks,
      )

  Marks-after : (cursor : Option ℕ) (j j' : J) → past j' ≡ past j → Marks j cursor → Marks j' cursor
  Marks-after none j j' e m = tt
  Marks-after (some c) j j' e (k, k1, got, at) = (k, k1, got, e ∙ at)

  at_entry-Drains :
      (later : Option ℕ → J → S → Option (Drained × J × S)) (cursor : Option ℕ) (j : J) (s : S)
      (r : Bool × J)
      → ((cursor : Option ℕ) (k : J) (t : S) → Marks k cursor → Drains k t (later cursor k t))
      → v.next j ≡ r
      → Marks j cursor
      → Drains j s (at_entry v publish later cursor s r)
  unfolding at_entry
  at_entry-Drains later cursor j s (false, j1) rest e m = (
    finished cursor,
    j1,
    s,
    refl,
    none_new publish past j j1 s (law.ends j j1 e),
    Marks-after cursor j j1 (law.ends j j1 e) m,
  )
  at_entry-Drains later cursor j s (true, j1) rest e m =
      let (s1, printed) = law.printable j1 s in
      let (d, j2, s2, runs, new, marks) =
        with_cursor-Drains later j1 s1 (v.get_cursor j1) rest refl (law.get_cursor j1) in
      (
        d,
        j2,
        s2,
        rw printed runs,
        then_new publish past j j1 j2 s s1 s2 (v.entry j1 ∷ [], law.next j j1 e, rw printed) new,
        marks,
      )

  drain-Drains :
      (n : ℕ) (cursor : Option ℕ) (j : J) (s : S)
      → Marks j cursor
      → Drains j s (drain v publish n cursor j s)
  unfolding drain
  drain-Drains zero cursor j s m = (unfinished, j, s, refl, none_new publish past j j s refl, tt)
  drain-Drains (suc n) cursor j s m =
      at_entry-Drains (drain v publish n) cursor j s (v.next j) (drain-Drains n) refl m

  -- A run is defined, and publishes the entries that it passes.
  abbrev pub Follows : J → S → Option (Option ℕ × J × S) → Type 0
  Follows j s result =
      (r : Option ℕ) × (j' : J) × (s' : S) × (result ≡ some (r, j', s'))
      × Published publish past j s j' s'

  Follows-after :
      (j j1 : J) (s s1 : S) (result : Option (Option ℕ × J × S))
      → Published publish past j s j1 s1
      → Follows j1 s1 result
      → Follows j s result
  Follows-after j j1 s s1 result new (r, j2, s2, runs, more) =
      (r, j2, s2, runs, then_new publish past j j1 j2 s s1 s2 new more)

  sought-Follows :
      (later : J → S → Option (Option ℕ × J × S)) (c : ℕ) (j : J) (s : S) (r : Bool × J)
      → ((k : J) (t : S) → Follows k t (later k t))
      → v.seek_cursor c j ≡ r
      → Marks j (some c)
      → Follows j s (sought v publish later s r)
  unfolding sought
  sought-Follows later c j s (false, j1) rest e m = (
    some 1,
    v.close j1,
    s,
    refl,
    none_new publish past j (v.close j1) s (law.close j1 ∙ law.lost c j j1 e),
  )
  sought-Follows later c j s (true, j1) rest e (k, k1, got, at) =
      Follows-after j (v.next j1).1 s s _
        (none_new publish past j (v.next j1).1 s (law.seek_cursor k k1 j j1 c got at e))
        (rest (v.next j1).1 s)

  drained-Follows :
      (later : J → S → Option (Option ℕ × J × S)) (d : Drained) (j : J) (s : S)
      → ((k : J) (t : S) → Follows k t (later k t))
      → MarksEnd j d
      → Follows j s (drained v publish later (d, j, s))
  unfolding drained
  drained-Follows later unfinished j s rest m = (none, j, s, refl, none_new publish past j j s refl)
  drained-Follows later failed j s rest m =
      (some 1, v.close j, s, refl, none_new publish past j (v.close j) s (law.close j))
  drained-Follows later (finished none) j s rest m = rest j s
  drained-Follows later (finished (some c)) j s rest m =
      sought-Follows later c j s (v.seek_cursor c j) rest refl m

  woken-Follows :
      (k : ℕ) (later : J → S → Option (Option ℕ × J × S)) (j : J) (s : S) (r : Bool × J)
      → ((k : J) (t : S) → Follows k t (later k t))
      → past r.1 ≡ past j
      → Follows j s (woken v publish k later s r)
  unfolding woken
  woken-Follows k later j s (false, j1) rest same =
      (some 1, v.close j1, s, refl, none_new publish past j (v.close j1) s (law.close j1 ∙ same))
  woken-Follows k later j s (true, j1) rest same =
      let (d, j2, s2, runs, new, marks) = drain-Drains k none j1 s tt in
      rw runs (
        Follows-after j j2 s s2 _
          (then_new publish past j j1 j2 s s s2 (none_new publish past j j1 s same) new)
          (drained-Follows later d j2 s2 rest marks))

  follow-Follows : (n k : ℕ) (j : J) (s : S) → Follows j s (follow v publish n k j s)
  unfolding follow
  follow-Follows zero k j s = (none, j, s, refl, none_new publish past j j s refl)
  follow-Follows (suc n) k j s =
      woken-Follows k (follow v publish n k) j s (v.wait j) (follow-Follows n k) (law.wait j)

  -- The set-up failed and nothing was published, or the journal was sought to its tail, the next entry called for once,
  -- and followed from there.
  abbrev pub Starts : S → Option (Option ℕ × J × S) → Type 0
  Starts s result =
      ((j' : J) × (result ≡ some (some 1, j', s)))
      ⊎ ((k : J) × (j1 : J) × (v.seek_tail k ≡ (true, j1)) × Follows (v.next j1).1 s result)

  at_tail-Starts :
      (n k : ℕ) (s : S) (j : J) (r : Bool × J)
      → v.seek_tail j ≡ r
      → Starts s (at_tail v publish n k s r)
  unfolding at_tail
  at_tail-Starts n k s j (false, j1) e = inl (v.close j1, refl)
  at_tail-Starts n k s j (true, j1) e = inr (j, j1, e, follow-Follows n k (v.next j1).1 s)

  opened-Starts : (n k : ℕ) (s : S) (r : Bool × J) → Starts s (opened v publish n k s r)
  unfolding opened
  opened-Starts n k s (false, j1) = inl (j1, refl)
  opened-Starts n k s (true, j1) = at_tail-Starts n k s j1 (v.seek_tail j1) refl

  with_host-Starts :
      (n k : ℕ) (j : J) (s : S) (host : Option Bytes) → Starts s (with_host v publish n k j s host)
  unfolding with_host
  with_host-Starts n k j s none = inl (j, refl)
  with_host-Starts n k j s (some host) =
      opened-Starts n k s (v.open_directory (init_mqtt v publish host j).1)

  -- For a journal whose cursors lead back in front of their entries and whose entries can be
  -- published, `journal_to_influxdb` has no undefined behaviour, however long it is observed:
  -- it fails in its set-up and publishes nothing, or it goes to the tail of the journal and
  -- calls for the next entry once, and from there, whether it goes on or fails, it has
  -- published exactly the entries that it passed, each once and in order, over all its returns
  -- to a cursor.
  pub journal_to_influxdb-Starts :
      (n k : ℕ) (arguments : List Bytes) (input : Bytes) (j : J) (s : S)
      → Starts s (journal_to_influxdb v publish n k arguments input j s)
  unfolding journal_to_influxdb
  journal_to_influxdb-Starts n k arguments input j s =
      with_host-Starts n k j s (host_of arguments input)
