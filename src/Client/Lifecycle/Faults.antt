-- ===== src/Client/Lifecycle/Faults.antt =====
-- What a call of connect leaves for the next one, and for other clients.
use nymph_mqtt.Common.{
  ℕ, ◌+◌, ◌-◌, ◌≡◌, refl, ap, ◌∙◌, true, false, [], ◌∷◌, ◌++◌, none, some, arith,
}
use nymph_mqtt.Common.Map.{find, insert, find-insert, find-insert_ne, insert_there}
use nymph_mqtt.Client.{connect_message}
use nymph_mqtt.Listener.{NymphSocket, connections_add_socket}
use nymph_mqtt.ListenerManager.{add_connection}
use nymph_mqtt.Client.World.{
  Services, World, Attempt, Answer, returned, crashed, terminated, opened, tls, ◌>>=◌, ended,
  start_timer, timeout_while_connecting,
}
use nymph_mqtt.Client.Lifecycle.{after_wait, after_listener, register, use_socket, connect}
use nymph_mqtt.Client.Lifecycle.Calls.{
  listener_of, add_connection_late, connection_of, connect_bytes_of, waiting_world, connect_waits,
}
use nymph_mqtt.Client.Lifecycle.Ends.{AllSent, IsFree, connected, connect-connected}

module _ {N : Type 0} (services : Services N) where
  -- A client that has a connection, with its timer running, terminates the program when another `connect`
  -- comes to its end with success.
  connect_terminates :
      (a : Attempt) (w : World N) (socket used ping : ℕ) (ns : NymphSocket N)
      → AllSent services
      → a.open_socket (tls w.client) ≡ opened socket
      → a.ready ≡ true
      → a.answered ≡ true
      → w.client.ping_thread ≡ some ping
      → find w.client.last_handle (insert w.client.last_handle socket w.client.sockets) ≡ some used
      → find w.client.last_handle
          (insert w.client.last_handle (connection_of services w socket a.semaphore) w.connections)
        ≡ some ns
      → connect services a w ≡ crashed terminated
  connect_terminates a w socket used ping ns all made ready answered timer here there =
      let h : ℕ = w.client.last_handle in
      let u : World N = waiting_world services w socket used ns a in
      connect_waits services a w socket used ns made ready here there (all used)
      ∙ ap (λ b. after_wait services b h u) answered
      ∙ ap
          (λ o. start_timer o u.client h >>= λ c. returned (record {
            value = true;
            handle = some h;
            report = none;
            world = record u { client = c };
          }))
          timer

  -- One client with two connections: when the two next handles are free, and all goes well in two calls
  -- of `connect`, up to the answers of their brokers, the first one returns true and the second one ends in
  -- `std::terminate`, since the thread of the one timer is assigned while it runs.
  pub connect-connect :
      (a b : Attempt) (w : World N) (socket socket' : ℕ)
      → AllSent services
      → IsFree services w.client.last_handle w
      → IsFree services (w.client.last_handle + 1) w
      → a.open_socket (tls w.client) ≡ opened socket
      → b.open_socket (tls w.client) ≡ opened socket'
      → a.ready ≡ true
      → b.ready ≡ true
      → a.answered ≡ true
      → b.answered ≡ true
      → w.client.ping_thread ≡ none
      → (r : Answer N) × (connect services a w ≡ returned r)
        × (r.value ≡ true)
        × (connect services b r.world ≡ crashed terminated)
  connect-connect a b w socket socket' all (f, f1, f2, f3) (g, g1, g2, g3) made made' ready ready'
        answered answered' idle =
      let h : ℕ = w.client.last_handle in
      let ns : NymphSocket N = connection_of services w socket a.semaphore in
      let here : find h (insert h socket w.client.sockets) ≡ some socket =
        find-insert h socket w.client.sockets f in
      let there : find h (insert h ns w.connections) ≡ some ns =
        find-insert h ns w.connections f2 in
      let u : World N = connected services w socket socket ns a in
      (
        record { value = true; handle = some h; report = none; world = u },
        connect-connected services a w socket socket ns all made ready answered idle here there,
        refl,
        connect_terminates b u socket' socket' h (connection_of services u socket' b.semaphore) all
            made' ready' answered' refl
            (find-insert (h + 1) socket' u.client.sockets
              (find-insert_ne h (h + 1) socket w.client.sockets (λ e. omega arith) ∙ g))
            (find-insert (h + 1) (connection_of services u socket' b.semaphore) u.connections
              (find-insert_ne h (h + 1) ns w.connections (λ e. omega arith) ∙ g2)),
      )

  -- Two clients: when another client holds a connection under the next handle of this one (which is free in its own map), and nothing
  -- wakes the wait of this one in time, a `connect` of this client that makes its socket, has its listener ready in
  -- time and sends all bytes goes wrong like this: its CONNECT message goes out through the new socket, but the
  -- listener that it started reads the socket of the other client's connection, and `NmqttConnections` is
  -- as before, so that the handlers under the handle are those of the other client; `connect` then reports a
  -- timeout and returns false, with the handle used up and the new socket left under it.
  pub connect-other_client :
      (a : Attempt) (w : World N) (socket : ℕ) (other : NymphSocket N)
      → AllSent services
      → find w.client.last_handle w.client.sockets ≡ none
      → find w.client.last_handle w.connections ≡ some other
      → a.open_socket (tls w.client) ≡ opened socket
      → a.ready ≡ true
      → a.answered ≡ false
      → let h = w.client.last_handle in
        (r : Answer N) × (connect services a w ≡ returned r)
        × (r.value ≡ false)
        × (r.report ≡ some timeout_while_connecting)
        × (r.world.net ≡ (services.send_bytes socket (connect_bytes_of services w.client) w.net).1)
        × (r.world.manager.objects ≡ w.manager.objects ++ (listener_of other ∷ []))
        × (r.world.connections ≡ w.connections)
        × (r.world.client.last_handle ≡ h + 1)
        × (find h r.world.client.sockets ≡ some socket)
  connect-other_client a w socket other all free held made ready unanswered =
      let h : ℕ = w.client.last_handle in
      let ns : NymphSocket N = connection_of services w socket a.semaphore in
      let kept : insert h ns w.connections ≡ w.connections =
        insert_there h ns other w.connections held in
      let here : find h (insert h socket w.client.sockets) ≡ some socket =
        find-insert h socket w.client.sockets free in
      let u : World N = waiting_world services w socket socket other a in
      (
        record {
          value = false;
          handle = some h;
          report = some timeout_while_connecting;
          world = record u {
            client = record u.client {
              broker_conn = none;
              connect_locked = u.client.connect_locked - 1;
            };
          };
        },
        connect_waits services a w socket socket other made ready here (ap (find h) kept ∙ held)
              (all socket)
            ∙ ap (λ b. after_wait services b h u) unanswered,
        refl,
        refl,
        refl,
        refl,
        kept,
        refl,
        here,
      )

  -- `connect` when the listener is late.
  connect_late :
      (a : Attempt) (w : World N) (socket : ℕ) (ns : NymphSocket N)
      → a.open_socket (tls w.client) ≡ opened socket
      → a.ready ≡ false
      → find w.client.last_handle
          (insert w.client.last_handle (connection_of services w socket a.semaphore) w.connections)
        ≡ some ns
      → connect services a w
        ≡ returned (record {
          value = false;
          handle = none;
          report = none;
          world =
              let u : World N = register services w socket a.semaphore in
              record u {
                manager = record u.manager { objects = u.manager.objects ++ (listener_of ns ∷ []) };
              };
        })
  unfolding connect connections_add_socket
  connect_late a w socket ns made late there =
      let u : World N = register services w socket a.semaphore in
      ap (use_socket services a w) made
      ∙ ap
          (λ b.
            ended (add_connection u.connections b u.manager u.client.last_handle)
            >>= after_listener services a u)
          late
      ∙ ap (λ k. ended k >>= after_listener services a u)
          (add_connection_late u.connections u.manager u.client.last_handle ns there)

  -- When the listener of a new connection is late, `connect` returns false with `socketsMutex` still
  -- held and the socket left under its handle; the next `connect` of the same thread, for which all goes well,
  -- returns true with this handle, and has sent its CONNECT message through the old socket, which its
  -- listener reads as well, and none through its own.
  pub connect-connect_late :
      (a b : Attempt) (w : World N) (socket socket' : ℕ)
      → AllSent services
      → IsFree services w.client.last_handle w
      → a.open_socket (tls w.client) ≡ opened socket
      → a.ready ≡ false
      → b.open_socket (tls w.client) ≡ opened socket'
      → b.ready ≡ true
      → b.answered ≡ true
      → w.client.ping_thread ≡ none
      → let h = w.client.last_handle in
        let ns = connection_of services w socket a.semaphore in
        (r : Answer N) × (q : Answer N) × (connect services a w ≡ returned r)
        × (r.value ≡ false)
        × (r.world.client.locked ≡ w.client.locked + 1)
        × (connect services b r.world ≡ returned q)
        × (q.value ≡ true)
        × (q.handle ≡ some h)
        × (find h q.world.client.sockets ≡ some socket)
        × (q.world.client.locked ≡ w.client.locked + 1)
        × (q.world.net ≡ (services.send_bytes socket (connect_bytes_of services w.client) w.net).1)
        × (q.world.manager.objects
            ≡ (w.manager.objects ++ (listener_of ns ∷ [])) ++ (listener_of ns ∷ []))
  unfolding connections_add_socket connect_message
  connect-connect_late a b w socket socket' all (f, f1, f2, f3) made late made' ready answered
        idle =
      let h : ℕ = w.client.last_handle in
      let ns : NymphSocket N = connection_of services w socket a.semaphore in
      let here : find h (insert h socket w.client.sockets) ≡ some socket =
        find-insert h socket w.client.sockets f in
      let there : find h (insert h ns w.connections) ≡ some ns =
        find-insert h ns w.connections f2 in
      let v : World N = register services w socket a.semaphore in
      let u : World N = record v {
        manager = record v.manager { objects = v.manager.objects ++ (listener_of ns ∷ []) };
      } in
      let here' : find h (insert h socket' u.client.sockets) ≡ some socket =
        ap (find h) (insert_there h socket' socket u.client.sockets here) ∙ here in
      let ns' : NymphSocket N = connection_of services u socket' b.semaphore in
      (
        record { value = false; handle = none; report = none; world = u },
        record {
          value = true;
          handle = some h;
          report = none;
          world = connected services u socket' socket ns b;
        },
        connect_late a w socket ns made late there,
        refl,
        refl,
        connect-connected services b u socket' socket ns all made' ready answered idle here'
            (ap (find h) (insert_there h ns' ns u.connections there) ∙ there),
        refl,
        refl,
        here',
        omega arith,
        refl,
        refl,
      )
