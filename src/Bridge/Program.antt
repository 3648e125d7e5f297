-- ===== src/Bridge/Program.antt =====
-- The main program of the bridge.
pub mod Lost
use linux_system_monitoring.Base.{ℕ, Bool, true, false, Option, none, some, Bytes}
use linux_system_monitoring.Bridge.Client.{Library, Pointer, init_mqtt_client, connect_to_broker}
use linux_system_monitoring.Bridge.Watcher.{Epoll}

-- What the two threads are started with: the epoll instance and the client.
pub record Started : Type 0 where
  pub epid : ℕ
  pub client : ℕ

-- The next step, unless the process exits; none is an exit with EXIT_FAILURE.
unfoldable pub with_result : {W A B : Type 0} → Option A × W → (A → W → Option B × W) → Option B × W
with_result (none, w) next = (none, w)
with_result (some a, w) next = next a w

unfoldable pub with_success : {W B : Type 0} → Bool × W → (W → Option B × W) → Option B × W
with_success (false, w) next = (none, w)
with_success (true, w) next = next w

-- `hostname` is what gethostname gives, and `pthread_create` starts a thread.
module _ {W : Type 0} (lib : Library W) (ep : Epoll W) (pthread_create : W → Bool × W)
    (hostname : Bytes) where
  unfoldable pub init_epoll : W → Option ℕ × W
  init_epoll w = ep.epoll_create1 w

  -- The two threads; the main thread then sleeps for ever.
  unfoldable pub start_threads : ℕ → ℕ → W → Option Started × W
  start_threads epid client w = with_success (pthread_create w) (λ w1.
      with_success (pthread_create w1) (λ w2. (some (record { epid = epid; client = client }), w2)))

  unfoldable pub start_client : ℕ → ℕ → W → Option Started × W
  start_client epid client w =
      with_success (lib.set_callbacks client Pointer.null w)
        (λ w1. with_success (connect_to_broker lib client w1) (start_threads epid client))

  unfoldable pub main : W → Option Started × W
  main w =
      with_result (init_epoll w)
        (λ epid w1. with_result (init_mqtt_client lib hostname w1) (start_client epid))
