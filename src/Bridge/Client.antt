-- ===== src/Bridge/Client.antt =====
-- The bridge as a client of the MQTT library: its connection, and what the library calls back.
use linux_system_monitoring.Base.{
  ℕ, Bool, true, Option, none, some, if◌then◌else◌, ◌>>=◌, Bytes, codes,
}
use linux_system_monitoring.Bridge.Forwarding.{Thread, running, exited}

-- A pointer that is handed to the library as a context: NULL, a handle of a client, or the address of
-- a variable that holds a handle.
pub data Pointer : Type 0 where
  null : Pointer
  handle : ℕ → Pointer
  variable_of : ℕ → Pointer

-- The library, over the state of the machine: `create` gives the handle, the others whether they
-- return MQTTASYNC_SUCCESS.
pub record Library (W : Type 0) : Type 0 where
  pub create : Bytes → Bytes → W → Option ℕ × W
  pub set_callbacks : ℕ → Pointer → W → Bool × W
  pub connect : ℕ → Pointer → W → Bool × W
  pub disconnect : ℕ → Pointer → W → Bool × W

-- `ADDRESS`
abbrev pub address : Bytes
address = codes "tcp://sep-cm0-server.ibr.cs.tu-bs.de:1883/"

-- `*client`, where the context is taken for the address of a handle.
unfoldable pub deref : Pointer → Option ℕ
deref (variable_of h) = some h
deref null = none
deref (handle h) = none

-- A context that is taken for a handle; the library looks into what the handle points to.
unfoldable pub as_handle : Pointer → Option ℕ
as_handle (handle h) = some h
as_handle null = none
as_handle (variable_of h) = none

-- The state of the process: `finished`, and the machine.
pub record Process (W : Type 0) : Type 0 where
  pub finished : Bool
  pub world : W

module _ {W : Type 0} (lib : Library W) where
  -- The process exits if a call does not succeed.
  unfoldable pub unless_failed : Process W → Bool × W → Thread × Process W
  unless_failed s (ok, w) = (if ok then running else exited, record s { world = w })

  unfoldable pub connlost : Pointer → Process W → Option (Thread × Process W)
  connlost null s = some (running, s)
  connlost (handle h) s = none
  connlost (variable_of h) s = some (unless_failed s (lib.connect h null s.world))

  unfoldable pub on_disconnect_failure : Process W → Process W
  on_disconnect_failure s = record s { finished = true }

  unfoldable pub on_send_failure : Pointer → Process W → Option (Thread × Process W)
  on_send_failure context s = do
    client ← as_handle context
    some (unless_failed s (lib.disconnect client (handle client) s.world))

  -- `onDisconnect`, `onSend` and `onConnect` only write to the terminal.
  unfoldable pub on_connect_failure : Process W → Thread × Process W
  on_connect_failure s = (exited, s)

  unfoldable pub message_arrived : Process W → ℕ × Process W
  message_arrived s = (1, s)

  -- The handle, none for an exit.
  unfoldable pub init_mqtt_client : Bytes → W → Option ℕ × W
  init_mqtt_client hostname w = lib.create address hostname w

  -- Whether the connection is started; the process exits if not.
  unfoldable pub connect_to_broker : ℕ → W → Bool × W
  connect_to_broker client w = lib.connect client (variable_of client) w

-- The context that `send_message_to_broker` gives for the callbacks of a message.
unfoldable pub send_context : ℕ → Pointer
send_context client = variable_of client
