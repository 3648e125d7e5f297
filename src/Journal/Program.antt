-- ===== src/Journal/Program.antt =====
-- src/sd-journal-to-influxdb/sd_journal_to_influxdb.c and the connection of src/mqtt/mqtt.c: new entries of
-- the journal are published one by one.
pub mod Once
use linux_system_monitoring.Base.{
  ◌-◌, ℕ, zero, suc, ◌==◌, ltb, Bool, true, false, Option, none, some, List, [], ◌∷◌, ◌++◌,
  if◌then◌else◌, ◌>>=◌, length, Bytes, codes,
}
use linux_system_monitoring.CString.{str_eq}
use linux_system_monitoring.CyclicFileRead.Text.{fgets, ends_in_newline, chop}
use linux_system_monitoring.Journal.Publish.{Entry}

-- The calls of the journal's and the client's library. `J` is the state of the machine; a call that
-- returns a code gives whether it succeeds, `next` whether it came to an entry, which `entry` then tells.
pub record Services (J : Type 0) : Type 0 where
  pub create : Bytes → J → J
  pub connect : J → Bool × J
  pub open_directory : J → Bool × J
  pub seek_tail : J → Bool × J
  pub wait : J → Bool × J
  pub next : J → Bool × J
  pub entry : J → Entry
  pub get_cursor : J → Option ℕ × J
  pub seek_cursor : ℕ → J → Bool × J
  pub close : J → J

abbrev pub max_host_length : ℕ
max_host_length = 100

-- The host is empty before.
unfoldable pub set_host : Bytes → Bytes
set_host input =
    if str_eq input (codes "server")
    then codes "tcp://sep-cm0-server.ibr.cs.tu-bs.de:1883/"
    else if str_eq input (codes "localhost")
    then codes "tcp://localhost:1883/"
    else []

-- The first argument, or else a line of the input without its newline; none for the end of the input.
unfoldable pub host_of : List Bytes → Bytes → Option Bytes
host_of (argument ∷ others) input = some (set_host argument)
host_of [] [] = none
host_of [] (c ∷ cs) =
    let line = (fgets (max_host_length - 1) (c ∷ cs)).0 in
    some (set_host (if ends_in_newline line then chop line else line))

-- How the loop over the new entries ends: it is observed no longer, it fails, or there are no more; the
-- cursor is that of the last one.
pub data Drained : Type 0 where
  unfinished : Drained
  failed : Drained
  finished : Option ℕ → Drained

-- `close_mqtt`, where `disconnect` is the call of the client's library, and `destroy` too: 0 or 1.
unfoldable pub close_mqtt : {J : Type 0} → (J → Bool × J) → (J → J) → J → ℕ × J
close_mqtt disconnect destroy j =
    let (done, j') = disconnect j in if done then (0, destroy j') else (1, j')

-- `publish` is `publish_journal_entry`, on what was published.
module _ {J S : Type 0} (v : Services J) (publish : Entry → S → Option S) where
  -- The return value is 0 or 1.
  unfoldable pub init_mqtt : Bytes → J → ℕ × J
  init_mqtt host j =
      let (connected, j') = v.connect (v.create host j) in (if connected then 0 else 1, j')

  unfoldable pub with_cursor :
      (Option ℕ → J → S → Option (Drained × J × S)) → S → Option ℕ × J → Option (Drained × J × S)
  with_cursor later s (none, j) = some (failed, j, s)
  with_cursor later s (some c, j) = later (some c) j s

  unfoldable pub at_entry :
      (Option ℕ → J → S → Option (Drained × J × S))
      → Option ℕ
      → S
      → Bool × J
      → Option (Drained × J × S)
  at_entry later cursor s (false, j) = some (finished cursor, j, s)
  at_entry later cursor s (true, j) = do
    s' ← publish (v.entry j) s
    with_cursor later s' (v.get_cursor j)

  -- `while (sd_journal_next(j) > 0)`
  unfoldable pub drain : ℕ → Option ℕ → J → S → Option (Drained × J × S)
  drain zero cursor j s = some (unfinished, j, s)
  drain (suc n) cursor j s = at_entry (drain n) cursor s (v.next j)

  -- The journal is closed, and 1 returned.
  abbrev pub fails : J → S → Option (Option ℕ × J × S)
  fails j s = some (some 1, v.close j, s)

  unfoldable pub sought :
      (J → S → Option (Option ℕ × J × S)) → S → Bool × J → Option (Option ℕ × J × S)
  sought later s (false, j) = fails j s
  sought later s (true, j) = later (v.next j).1 s

  unfoldable pub drained :
      (J → S → Option (Option ℕ × J × S)) → Drained × J × S → Option (Option ℕ × J × S)
  drained later (unfinished, j, s) = some (none, j, s)
  drained later (failed, j, s) = fails j s
  drained later (finished none, j, s) = later j s
  drained later (finished (some c), j, s) = sought later s (v.seek_cursor c j)

  unfoldable pub woken :
      ℕ → (J → S → Option (Option ℕ × J × S)) → S → Bool × J → Option (Option ℕ × J × S)
  woken k later s (false, j) = fails j s
  woken k later s (true, j) = do r ← drain k none j s; drained later r

  -- `while (1)`: `n` rounds are observed, and `k` entries in each. There is no return value while it goes
  -- on.
  unfoldable pub follow : ℕ → ℕ → J → S → Option (Option ℕ × J × S)
  follow zero k j s = some (none, j, s)
  follow (suc n) k j s = woken k (follow n k) s (v.wait j)

  unfoldable pub at_tail : ℕ → ℕ → S → Bool × J → Option (Option ℕ × J × S)
  at_tail n k s (false, j) = fails j s
  at_tail n k s (true, j) = follow n k (v.next j).1 s

  unfoldable pub opened : ℕ → ℕ → S → Bool × J → Option (Option ℕ × J × S)
  opened n k s (false, j) = some (some 1, j, s)
  opened n k s (true, j) = at_tail n k s (v.seek_tail j)

  -- What `init_mqtt` returns is not read.
  unfoldable pub with_host : ℕ → ℕ → J → S → Option Bytes → Option (Option ℕ × J × S)
  with_host n k j s none = some (some 1, j, s)
  with_host n k j s (some host) = opened n k s (v.open_directory (init_mqtt host j).1)

  unfoldable pub journal_to_influxdb :
      ℕ → ℕ → List Bytes → Bytes → J → S → Option (Option ℕ × J × S)
  journal_to_influxdb n k arguments input j s = with_host n k j s (host_of arguments input)
