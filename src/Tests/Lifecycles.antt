-- ===== src/Tests/Lifecycles.antt =====
-- Instances of the theorems on the life of a client, its listeners and its handshake.
use nymph_mqtt.Common.{
  ℕ, ◌+◌, ◌≡◌, ◌≢◌, ◌<◌, ◌⊎◌, refl, Bool, true, false, [], ◌∷◌, none, some, arith,
}
use nymph_mqtt.Common.Map.{find, erase, in_order, IsMap}
use nymph_mqtt.Server.{returned, null_pointer}
use nymph_mqtt.Client.{new_client}
use nymph_mqtt.Client.World.{
  Ended, Crash, Services, World, Attempt, Answer, opened, crashed, terminated, not_joinable,
  no_semaphore, timeout_while_connecting,
}
use nymph_mqtt.Client.Starting.{connect_host}
use nymph_mqtt.Client.Lifecycle.{connect, disconnect, shutdown}
use nymph_mqtt.Client.Lifecycle.Maps.{IsPaired}
use nymph_mqtt.Client.Lifecycle.Pairs.{here, connects, disconnect-run}
use nymph_mqtt.Client.Lifecycle.Calls.{listener_of, connection_of, connect_bytes_of}
use nymph_mqtt.Client.Lifecycle.Ends.{AllSent, IsFree, disconnect-connect}
use nymph_mqtt.Client.Lifecycle.Faults.{connect-connect, connect-other_client, connect-connect_late}
use nymph_mqtt.Client.Lifecycle.Shutdown.{shutdown-IsStopped}
use nymph_mqtt.Listener.{NymphSocket}
use nymph_mqtt.ListenerManager
use nymph_mqtt.ListenerManager.{
  ClientListener, NmqttClientListenerManager, remove_connection, stop_listener,
}
use nymph_mqtt.ListenerManager.Stopping.{IsStopped, stop_cases}
use nymph_mqtt.ListenerManager.Removal.{Removed, remove_connection-Removed}
use nymph_mqtt.Tests.Objects.{junk, x86}
use nymph_mqtt.Tests.Sessions.{Wire, send_all}

abbrev services : Services Wire
services = record {
  send_bytes = send_all;
  shut = λ socket wire. wire;
  close = λ socket wire. (socket, []) ∷ wire;
  set_semaphore = λ semaphore wire. (semaphore, []) ∷ wire;
  connack = λ handle session_present code wire. wire;
  pingresp = λ handle wire. wire;
  platform = x86;
  junk = junk;
}

all_sent : AllSent services
all_sent socket bytes wire = refl

abbrev fresh_world : World Wire
fresh_world = record {
  client = new_client;
  message_handler = none;
  connections = [];
  manager = record { listeners = []; objects = [] };
  net = [];
}

abbrev attempt : ℕ → Bool → Attempt
attempt socket ready = record {
  open_socket = λ keys. opened socket;
  semaphore = socket + 1;
  ready = ready;
  conn = 77;
  answered = true;
}

zero-IsFree : IsFree services 0 fresh_world
unfolding new_client find
zero-IsFree = (refl, refl, refl, refl)

one-IsFree : IsFree services 1 fresh_world
unfolding new_client find
one-IsFree = (refl, refl, refl, refl)

there_and_back :
    (r : Answer Wire) × (q : Answer Wire) × (connect services (attempt 4096 true) fresh_world
      ≡ Ended.returned r)
    × (r.value ≡ true)
    × (r.handle ≡ some 0)
    × (find 0 r.world.client.sockets ≡ some 4096)
    × (disconnect services true 0 r.world ≡ Ended.returned q)
    × (q.value ≡ true)
    × (q.world.client.sockets ≡ [])
    × (q.world.client.socket_semaphores ≡ [])
    × (q.world.client.last_handle ≡ 1)
    × (q.world.client.ping_thread ≡ none)
    × (q.world.client.locked ≡ 0)
    × (q.world.client.connect_locked ≡ 1)
    × (q.world.client.broker_conn ≡ some 77)
    × (q.world.manager.listeners ≡ [])
    × IsStopped q.world.manager.objects 0
    × (find 0 q.world.connections ≡ some (connection_of services fresh_world 4096 4097))
    × ((b : Bool) (j : ℕ) → disconnect services b j q.world ≡ crashed not_joinable)
unfolding new_client
there_and_back =
    disconnect-connect services (attempt 4096 true) fresh_world 4096 all_sent zero-IsFree refl refl
      refl refl

semaphore_there :
    IsPaired (there_and_back.0.world.client) × (there_and_back.1.report ≢ some no_semaphore)
semaphore_there =
    disconnect-run services fresh_world there_and_back.0.world true 0 there_and_back.1 refl
      (connects (attempt 4096 true) there_and_back.0 here there_and_back.2) there_and_back.6

two_connections :
    (r : Answer Wire) × (connect services (attempt 4096 true) fresh_world ≡ Ended.returned r)
    × (r.value ≡ true)
    × (connect services (attempt 8192 true) r.world ≡ crashed terminated)
unfolding new_client
two_connections =
    connect-connect services (attempt 4096 true) (attempt 8192 true) fresh_world 4096 8192 all_sent
      zero-IsFree one-IsFree refl refl refl refl refl refl refl

abbrev other : NymphSocket Wire
other = record {
  handler = none;
  connack_handler = none;
  pingresp_handler = none;
  handle = 0;
  socket = 1024;
  semaphore = 1025;
}

two_clients :
    (r : Answer Wire) × (connect services
        (record (attempt 4096 true) { answered = false })
        (record fresh_world { connections = (0, other) ∷ [] })
      ≡ Ended.returned r)
    × (r.value ≡ false)
    × (r.report ≡ some timeout_while_connecting)
    × (r.world.net ≡ (4096, connect_bytes_of services new_client) ∷ [])
    × (r.world.manager.objects ≡ record { handle = 0; socket = 1024; listen = true } ∷ [])
    × (r.world.connections ≡ (0, other) ∷ [])
    × (r.world.client.last_handle ≡ 1)
    × (find 0 r.world.client.sockets ≡ some 4096)
unfolding new_client find
two_clients =
    connect-other_client services (record (attempt 4096 true) { answered = false })
      (record fresh_world { connections = (0, other) ∷ [] }) 4096 other all_sent refl refl refl refl
      refl

late_then_next :
    let ns = connection_of services fresh_world 4096 4097 in
    (r : Answer Wire) × (q : Answer Wire) × (connect services (attempt 4096 false) fresh_world
      ≡ Ended.returned r)
    × (r.value ≡ false)
    × (r.world.client.locked ≡ 1)
    × (connect services (attempt 8192 true) r.world ≡ Ended.returned q)
    × (q.value ≡ true)
    × (q.handle ≡ some 0)
    × (find 0 q.world.client.sockets ≡ some 4096)
    × (q.world.client.locked ≡ 1)
    × (q.world.net ≡ (4096, connect_bytes_of services new_client) ∷ [])
    × (q.world.manager.objects ≡ listener_of ns ∷ listener_of ns ∷ [])
unfolding new_client
late_then_next =
    connect-connect_late services (attempt 4096 false) (attempt 8192 true) fresh_world 4096 8192
      all_sent zero-IsFree refl refl refl refl refl refl

abbrev one_listener : NmqttClientListenerManager
one_listener = record {
  listeners = (0, 0) ∷ [];
  objects = record { handle = 0; socket = 4096; listen = true } ∷ [];
}

abbrev served : World Wire
served = record fresh_world {
  client = record new_client { sockets = (0, 4096) ∷ [] };
  manager = one_listener;
}

one_listener-IsMap : IsMap one_listener.listeners
one_listener-IsMap k = ground arith

own_listener :
    (h o : ℕ)
    → find h one_listener.listeners ≡ some o
    → (s : ℕ) × (find h served.client.sockets ≡ some s)
unfolding find
own_listener h o e = (4096, ground arith)

shut_down :
    (r : Answer Wire) × (shutdown services served ≡ Ended.returned r)
    × (r.value ≡ true)
    × (r.world.client.sockets ≡ [])
    × (r.world.manager.listeners ≡ [])
    × ((h o : ℕ) → find h one_listener.listeners ≡ some o → IsStopped r.world.manager.objects o)
shut_down = shutdown-IsStopped services served one_listener-IsMap own_listener

first_listener_gone :
    ((remove_connection one_listener 0).0 ≡ true)
    × Removed 0 one_listener (remove_connection one_listener 0).1
first_listener_gone = remove_connection-Removed one_listener 0 one_listener-IsMap

all_or_null :
    ((t : NmqttClientListenerManager) × (ListenerManager.stop one_listener ≡ returned t)
      × (t.listeners ≡ one_listener.listeners)
      × ((j : ℕ)
          → j < 1
          → (o : ℕ) × (find j one_listener.listeners ≡ some o) × IsStopped t.objects o))
    ⊎ ((j : ℕ) × (j < 1)
        × (find j one_listener.listeners ≡ none)
        × (ListenerManager.stop one_listener ≡ null_pointer))
all_or_null = stop_cases one_listener

-- A listener whose handle is 1 alone: the loop uses the null pointer that it inserts for 0.
gap : ListenerManager.stop (record one_listener { listeners = (1, 0) ∷ [] }) ≡ null_pointer
unfolding ListenerManager.stop ListenerManager.stop_from find
gap = refl

-- Two clients, of which the one shuts down: the other's listener has handle 1.
other_client_left :
    shutdown services (record served {
      manager = record {
        listeners = (0, 0) ∷ (1, 1) ∷ [];
        objects =
            record { handle = 0; socket = 4096; listen = true }
            ∷ record { handle = 1; socket = 8192; listen = true }
            ∷ [];
      };
    })
    ≡ crashed Crash.null_pointer_used
unfolding shutdown in_order ListenerManager.stop ListenerManager.stop_from find remove_connection
    erase stop_listener
other_client_left = refl

-- A host without an address: the exception leaves `connect`.
no_such_host :
    connect_host services
      (λ (address : ℕ). attempt address true)
      (λ host port. none)
      []
      1883
      fresh_world
    ≡ none
unfolding connect_host
no_such_host = refl
