-- ===== src/Bridge/Program/Lost.antt =====
-- What the bridge does once its connection is lost.
use linux_system_monitoring.Base.{
  ℕ, ◌≡◌, refl, ◌∙◌, subst, Bool, true, false, Option, none, some, Bytes,
}
use linux_system_monitoring.Bridge.Forwarding.{running}
use linux_system_monitoring.Bridge.Client.{
  Library, Pointer, Process, connlost, connect_to_broker, init_mqtt_client,
}
use linux_system_monitoring.Bridge.Watcher.{Epoll}
use linux_system_monitoring.Bridge.Program.{
  Started, with_result, with_success, start_threads, start_client, init_epoll, main,
}

-- What is promised of the library: a context that is set is the one that callbacks get, and other
-- calls leave it as it is.
pub record IsLibrary {W : Type 0} (lib : Library W) (pthread_create : W → Bool × W)
    (context_of : W → ℕ → Pointer) : Type 0 where
  pub set_callbacks :
      (w w' : W) (h : ℕ) (p : Pointer) → lib.set_callbacks h p w ≡ (true, w') → context_of w' h ≡ p
  pub connect :
      (w : W) (h k : ℕ) (p : Pointer) → context_of (lib.connect h p w).1 k ≡ context_of w k
  pub threads : (w : W) (k : ℕ) → context_of (pthread_create w).1 k ≡ context_of w k

module _ {W : Type 0} (lib : Library W) (ep : Epoll W) (pthread_create : W → Bool × W)
    (hostname : Bytes) (context_of : W → ℕ → Pointer)
    (law : IsLibrary lib pthread_create context_of) where
  -- Whether the start succeeds, and then the context of the client.
  abbrev IsRegistered : Pointer → Option Started × W → Type 0
  IsRegistered p (none, w) = Unit
  IsRegistered p (some b, w) = context_of w b.client ≡ p

  start_threads_lem :
      (epid client : ℕ) (w : W) (p : Pointer)
      → context_of w client ≡ p
      → IsRegistered p (start_threads lib ep pthread_create hostname epid client w)
  unfolding start_threads
  start_threads_lem epid client w p e = first (pthread_create w) (law.threads w client ∙ e)
    where
      second :
          (r : Bool × W)
          → context_of r.1 client ≡ p
          → IsRegistered p
              (with_success r (λ w2. (some (record { epid = epid; client = client }), w2)))
      second (false, w2) e' = unfold with_success in tt
      second (true, w2) e' = unfold with_success in e'

      first :
          (r : Bool × W)
          → context_of r.1 client ≡ p
          → IsRegistered p (
              with_success r (λ w1.
                with_success
                  (pthread_create w1)
                  (λ w2. (some (record { epid = epid; client = client }), w2))))
      first (false, w1) e' = unfold with_success in tt
      first (true, w1) e' =
          unfold with_success in second (pthread_create w1) (law.threads w1 client ∙ e')

  start_client_lem :
      (epid client : ℕ) (w : W)
      → IsRegistered Pointer.null (start_client lib ep pthread_create hostname epid client w)
  unfolding start_client
  start_client_lem epid client w = called (lib.set_callbacks client Pointer.null w) refl
    where
      connected :
          (r : Bool × W)
          → context_of r.1 client ≡ Pointer.null
          → IsRegistered Pointer.null
              (with_success r (start_threads lib ep pthread_create hostname epid client))
      connected (false, w2) e = unfold with_success in tt
      connected (true, w2) e =
          unfold with_success in start_threads_lem epid client w2 Pointer.null e

      called :
          (r : Bool × W)
          → lib.set_callbacks client Pointer.null w ≡ r
          → IsRegistered Pointer.null (
              with_success r (λ w1.
                with_success
                  (connect_to_broker lib client w1)
                  (start_threads lib ep pthread_create hostname epid client)))
      called (false, w1) e = unfold with_success in tt
      called (true, w1) e =
          unfold with_success in
          connected (connect_to_broker lib client w1) (
            unfold connect_to_broker in
            (law.connect w1 client client (Pointer.variable_of client)
              ∙ law.set_callbacks w w1 client Pointer.null e))

  main_registers : (w : W) → IsRegistered Pointer.null (main lib ep pthread_create hostname w)
  unfolding main
  main_registers w = with_epoll (init_epoll lib ep pthread_create hostname w)
    where
      with_client :
          (epid : ℕ) (r : Option ℕ × W)
          → IsRegistered Pointer.null
              (with_result r (start_client lib ep pthread_create hostname epid))
      with_client epid (none, w2) = unfold with_result in tt
      with_client epid (some client, w2) = unfold with_result in start_client_lem epid client w2

      with_epoll :
          (r : Option ℕ × W)
          → IsRegistered Pointer.null (
              with_result r (λ epid w1.
                with_result
                  (init_mqtt_client lib hostname w1)
                  (start_client lib ep pthread_create hostname epid)))
      with_epoll (none, w1) = unfold with_result in tt
      with_epoll (some epid, w1) =
          unfold with_result in with_client epid (init_mqtt_client lib hostname w1)

  -- For a library that hands back the context that was set with the callbacks, once `main` of
  -- the bridge has started its threads, a lost connection makes `connlost` return without any
  -- call, so that no new connection is started.
  pub main-connlost :
      (w w' : W) (b : Started) (s : Process W)
      → main lib ep pthread_create hostname w ≡ (some b, w')
      → connlost lib (context_of w' b.client) s ≡ some (running, s)
  unfolding connlost
  main-connlost w w' b s e = rw (subst (IsRegistered Pointer.null) e (main_registers w))
