-- ===== src/Tests/Following.antt =====
-- The journal, followed from its tail.
use linux_system_monitoring.Base.{
  if◌then◌else◌, ℕ, zero, suc, ◌≡◌, refl, sym, ap, ◌∙◌, arith, Bool, true, false, Option, none,
  some, List, [], ◌∷◌, ◌++◌, length, Bytes, codes,
}
use mathlib.Core.Bool.{not, true≢false}
use mathlib.Core.Option.{none-ne-some}
use linux_system_monitoring.Inotify.Walk.{zeros}
use linux_system_monitoring.Journal.Text.{get_field_value}
use linux_system_monitoring.Journal.Publish.{
  Entry, success, field_or, time_buffer, publish_journal_entry,
}
use linux_system_monitoring.Journal.Publish.Entries.{IsShort, publish_journal_entry_lem}
use linux_system_monitoring.Journal.Program.{Services, journal_to_influxdb}
use linux_system_monitoring.Journal.Program.Once.{IsJournal, Starts, journal_to_influxdb-Starts}

abbrev greeting : Entry
greeting = record {
  message = some (codes "MESSAGE=hi");
  hostname = some (codes "_HOSTNAME=pi0");
  syslog_identifier = none;
  time = some (codes "Mar-01-10:00:00");
}

greeting-IsShort : IsShort greeting (codes "7")
unfolding field_or get_field_value time_buffer
greeting-IsShort = record { no_nul = grind arith; message = omega arith; others = omega arith }

length-zeros : (n : ℕ) → length (zeros n) ≡ n
length-zeros zero = refl
length-zeros (suc n) = omega (arith, length-zeros n)

abbrev publish : Entry → List Bytes → Option (List Bytes)
publish e published = publish_journal_entry (zeros 2048) e (codes "7") (success ∷ []) published

-- The journal stands in front of its one new entry, or at it.
abbrev journal : Services Bool
journal = record {
  create = λ host j. j;
  connect = λ j. (true, j);
  open_directory = λ j. (true, j);
  seek_tail = λ j. (true, true);
  wait = λ j. (true, j);
  next = λ j. (not j, true);
  entry = λ j. greeting;
  get_cursor = λ j. (if j then some 1 else none, j);
  seek_cursor = λ c j. (true, false);
  close = λ j. j;
}

abbrev past : Bool → List Entry
past true = greeting ∷ []
past false = []

came : (j j' : Bool) → journal.next j ≡ (true, j') → past j' ≡ past j ++ (greeting ∷ [])
came true j' e = absurd (true≢false (sym (ap (λ (r : Bool × Bool). r.0) e)))
came false j' e = ap (λ (r : Bool × Bool). past r.1) (sym e)

ended : (j j' : Bool) → journal.next j ≡ (false, j') → past j' ≡ past j
ended true j' e = ap (λ (r : Bool × Bool). past r.1) (sym e)
ended false j' e = absurd (true≢false (ap (λ (r : Bool × Bool). r.0) e))

back :
    (j j1 k k' : Bool) (c : ℕ)
    → journal.get_cursor j ≡ (some c, j1)
    → past k ≡ past j1
    → journal.seek_cursor c k ≡ (true, k')
    → past (journal.next k').1 ≡ past k
back false j1 k k' c e p q = absurd (none-ne-some c (ap (λ (r : Option ℕ × Bool). r.0) e))
back true j1 k k' c e p q = ap (λ (r : Option ℕ × Bool). past r.1) e ∙ sym p

journal-IsJournal : IsJournal journal publish past
journal-IsJournal = record {
  wait = λ j. refl;
  next = came;
  ends = ended;
  get_cursor = λ j. refl;
  seek_cursor = back;
  lost = λ c k k' e. absurd (true≢false (ap (λ (r : Bool × Bool). r.0) e));
  close = λ j. refl;
  printable = λ j s.
      let (tail, runs, reads) =
        publish_journal_entry_lem (zeros 2048) greeting (codes "7")
          (omega (arith, length-zeros 2048)) greeting-IsShort (success ∷ []) s in
      (_, runs);
}

journal_to_influxdb-Starts_example :
    Starts journal publish past journal-IsJournal []
      (journal_to_influxdb journal publish 3 5 (codes "localhost" ∷ []) [] false [])
journal_to_influxdb-Starts_example =
    journal_to_influxdb-Starts journal publish past journal-IsJournal 3 5 (codes "localhost" ∷ [])
      [] false []
