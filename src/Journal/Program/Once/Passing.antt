-- ===== src/Journal/Program/Once/Passing.antt =====
-- The entries that are passed from one state of the journal to another, and published.
use linux_system_monitoring.Base.{
  ◌≡◌, refl, sym, ap, ◌∙◌, Option, none, some, List, [], ◌∷◌, ◌++◌, append-nil, append_assoc, ◌>>=◌,
}
use linux_system_monitoring.Journal.Publish.{Entry}

-- The entries are published in order, each once.
abbrev pub publish_all : {S : Type 0} → (Entry → S → Option S) → List Entry → S → Option S
publish_all publish [] s = some s
publish_all publish (e ∷ es) s = do s' ← publish e s; publish_all publish es s'

module _ {J S : Type 0} (publish : Entry → S → Option S) (past : J → List Entry) where
  publish_all-append :
      (es fs : List Entry) (s : S)
      → publish_all publish (es ++ fs) s
        ≡ (do s' ← publish_all publish es s; publish_all publish fs s')
  publish_all-append [] fs s = refl
  publish_all-append (e ∷ es) fs s = after (publish e s) (publish_all-append es fs)
    where
      after :
          (o : Option S)
          → ((t : S)
              → publish_all publish (es ++ fs) t
                ≡ (do s' ← publish_all publish es t; publish_all publish fs s'))
          → (do t ← o; publish_all publish (es ++ fs) t)
            ≡ (do s' ← (do t ← o; publish_all publish es t); publish_all publish fs s')
      after none ih = refl
      after (some t) ih = ih t

  -- From one state to another, the entries that were passed are those that were published.
  abbrev pub Published : J → S → J → S → Type 0
  Published j s j' s' =
      (news : List Entry) × (past j' ≡ past j ++ news) × (publish_all publish news s ≡ some s')

  pub none_new : (j j' : J) (s : S) → past j' ≡ past j → Published j s j' s
  none_new j j' s e = ([], e ∙ sym (append-nil (past j)), refl)

  pub then_new :
      (j j1 j2 : J) (s s1 s2 : S)
      → Published j s j1 s1
      → Published j1 s1 j2 s2
      → Published j s j2 s2
  then_new j j1 j2 s s1 s2 (es, e, p) (fs, f, q) = (
    es ++ fs,
    f ∙ ap (λ l. l ++ fs) e ∙ append_assoc (past j) es fs,
    publish_all-append es fs s ∙ rw (p, q),
  )
