-- ===== src/Dbus/Program.antt =====
-- dbus-systemd-signals from `main` on: its message queue, its connection to the bus, and the loop.
use linux_system_monitoring.Base.{
  ℕ, ◌≡◌, Bool, true, false, Option, none, some, List, [], ◌∷◌, ◌>>=◌, All, length, map, ◌≤◌, ◌<◌,
  Bytes, codes,
}
use linux_system_monitoring.Posix.{Calls, Kept, IsPosix, opened}
use linux_system_monitoring.MessageQueue.{init_mq}
use linux_system_monitoring.Dbus.Signals.{Signal, IsSignal, delivered, sends_all}
use linux_system_monitoring.Dbus.{Surroundings, Message, process_dbus_messages}

-- `MQ_PATH`
abbrev pub mq_path : Bytes
mq_path = codes "/dbus"

-- The library: the connection to the system's bus, none for NULL, and whether a match rule is added
-- without an error.
pub record Bus (W : Type 0) : Type 0 where
  pub bus_get : W → Option ℕ × W
  pub add_match : ℕ → Bytes → W → Bool × W

abbrev pub match_rule : Bytes
match_rule = codes "type='signal',interface='org.freedesktop.systemd1.Manager'"

-- The exit status, none while the program runs; the machine as the program left it, or as it was when the
-- loop began; and the texts that the loop has handed to `send_to_mq`.
abbrev pub Result : Type 0 → Type 0
Result W = Option ℕ × W × List Bytes

module _ {W : Type 0} (c : Calls W) (bus : Bus W) (env : Surroundings) where
  unfoldable pub initialize_message_queue : W → Option ℕ × W
  initialize_message_queue w = init_mq c mq_path w

  unfoldable pub connect_to_dbus_system_bus : W → Option ℕ × W
  connect_to_dbus_system_bus w = bus.bus_get w

  unfoldable pub add_dbus_match : ℕ → W → Bool × W
  add_dbus_match connection w = bus.add_match connection match_rule w

  -- `ms` is what the bus gives to the loop.
  unfoldable pub listen : List (Option Message) → Bool × W → Option (Result W)
  listen ms (false, w) = some (some 1, w, [])
  listen ms (true, w) = do sent ← process_dbus_messages env ms []; some (none, w, sent)

  unfoldable pub connected : List (Option Message) → Option ℕ × W → Option (Result W)
  connected ms (none, w) = some (some 1, w, [])
  connected ms (some connection, w) = listen ms (add_dbus_match connection w)

  unfoldable pub queue_made : List (Option Message) → Option ℕ × W → Option (Result W)
  queue_made ms (none, w) = some (some 1, w, [])
  queue_made ms (some mq, w) = connected ms (connect_to_dbus_system_bus w)

  unfoldable pub monitor_and_report_systemd_events : List (Option Message) → W → Option (Result W)
  monitor_and_report_systemd_events ms w = queue_made ms (initialize_message_queue w)

  -- From what `getopt` returns on; no option changes what is sent.
  unfoldable pub main : List ℕ → List (Option Message) → W → Option (Result W)
  main [] ms w = monitor_and_report_systemd_events ms w
  main (o ∷ os) ms w = main os ms w

-- How a run stands, by what was seen before it: without a queue, with an error and the new queue left
-- behind, or in the loop, which began with the new queue and handed on `whole`.
pub data Ending (before : Kept) (whole : List Bytes) : Option ℕ → Kept → List Bytes → Type 0 where
  no_queue : Ending before whole (some 1) (record before { queue = none }) []
  left_behind :
      (d : ℕ) → Ending before whole (some 1) (record (opened d before) { queue = some [] }) []
  listening :
      (d : ℕ) → Ending before whole none (record (opened d before) { queue = some [] }) whole

-- The bus neither opens files of the program nor touches its queue.
pub record IsBus {W : Type 0} (bus : Bus W) (view : W → Kept) : Type 0 where
  pub bus_get : (w : W) → view (bus.bus_get w).1 ≡ view w
  pub add_match : (w : W) (d : ℕ) (rule : Bytes) → view (bus.add_match d rule w).1 ≡ view w

module _ {W : Type 0} (c : Calls W) (bus : Bus W) (env : Surroundings) (view : W → Kept)
    (short : (n : ℕ) → n < 4294967296 → length (env.decimal n) ≤ 10)
    (posix : IsPosix c view mq_path) (law : IsBus bus view) (gs : List Signal)
    (ok : All IsSignal gs) where
  -- The messages of the signals.
  abbrev pub signals : List (Option Message)
  signals = map (λ g. some (delivered g)) gs

  -- What a run gives.
  abbrev pub Ends : Kept → Option (Result W) → Type 0
  Ends before result =
      (e : Option ℕ) × (w' : W) × (sent : List Bytes) × (result ≡ some (e, w', sent))
      × Ending before (sends_all env gs []) e (view w') sent
