-- ===== src/Tests/Losing.antt =====
-- The main program of the bridge, and a lost connection.
use linux_system_monitoring.Base.{◌≡◌, refl, sym, ap, Bool, true, false, some, codes}
use linux_system_monitoring.Bridge.Forwarding.{running}
use linux_system_monitoring.Bridge.Client.{
  Library, Pointer, Process, connlost, connect_to_broker, init_mqtt_client,
}
use linux_system_monitoring.Bridge.Watcher.{Epoll}
use linux_system_monitoring.Bridge.Program.{
  Started, with_result, with_success, start_threads, start_client, init_epoll, main,
}
use linux_system_monitoring.Bridge.Program.Lost.{IsLibrary, main-connlost}

-- A library that keeps one context; the state is that context.
abbrev library : Library Pointer
library = record {
  create = λ a n p. (some 1, p);
  set_callbacks = λ h p old. (true, p);
  connect = λ h context p. (true, p);
  disconnect = λ h context p. (true, p);
}

abbrev epoll : Epoll Pointer
epoll = record { epoll_create1 = λ p. (some 4, p); epoll_add = λ epid d p. (true, p) }

abbrev create_thread : Pointer → Bool × Pointer
create_thread p = (true, p)

library-IsLibrary : IsLibrary library create_thread (λ p h. p)
library-IsLibrary = record {
  set_callbacks = λ w w' h p e. sym (ap (λ (r : Bool × Pointer). r.1) e);
  connect = λ w h k p. refl;
  threads = λ w k. refl;
}

abbrev started : Started
started = record { epid = 4; client = 1 }

abbrev process : Process Pointer
process = record { finished = false; world = Pointer.null }

starts :
    main library epoll create_thread (codes "pi0") (Pointer.handle 7) ≡ (some started, Pointer.null)
unfolding main init_epoll init_mqtt_client start_client connect_to_broker start_threads with_result
    with_success
starts = refl

main-connlost_example : connlost library Pointer.null process ≡ some (running, process)
main-connlost_example =
    main-connlost library epoll create_thread (codes "pi0") (λ p h. p) library-IsLibrary
      (Pointer.handle 7) Pointer.null started process starts
