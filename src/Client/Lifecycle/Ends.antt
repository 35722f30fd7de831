-- ===== src/Client/Lifecycle/Ends.antt =====
-- A connection from connect to disconnect, and what goes wrong between two calls or two clients.
use nymph_mqtt.Common.{
  ℕ, ◌+◌, ◌≡◌, refl, ap, ◌∙◌, sym, subst, Bool, true, List, [], ◌∷◌, ◌++◌, length, none, some,
  arith,
}
use nymph_mqtt.Common.Map.{find, insert, find-insert, erase-insert}
use nymph_mqtt.Message.{mqtt_disconnect, message_of_type}
use nymph_mqtt.Message.Serialize.{serialize}
use nymph_mqtt.Server.{sent}
use nymph_mqtt.Client.{NmqttClient, lock}
use nymph_mqtt.Listener.{NymphSocket}
use nymph_mqtt.ListenerManager.{
  NmqttClientListenerManager, remove_found, remove_connection, stop_listener,
}
use nymph_mqtt.ListenerManager.Stopping.{IsStopped, stop_listener-IsStopped}
use nymph_mqtt.Client.World.{
  Services, World, Attempt, Answer, returned, crashed, not_joinable, opened, tls, stop_timer, ◌>>=◌,
  start_timer,
}
use nymph_mqtt.Client.Lifecycle.{after_wait, close_found, leave, connect, disconnect}
use nymph_mqtt.Client.Lifecycle.Calls.{
  listener_of, with_listener, send_all_of, connection_of, waiting_client, waiting_world,
  connect_waits,
}

module _ {N : Type 0} (services : Services N) where
  -- All bytes that are sent through any socket arrive.
  abbrev pub AllSent : Type 0
  AllSent =
      (socket : ℕ) (bytes : List ℕ) (net : N)
      → (services.send_bytes socket bytes net).0 ≡ sent (length bytes)

  -- The handle is free in every map.
  abbrev pub IsFree : ℕ → World N → Type 0
  IsFree h w =
      (find h w.client.sockets ≡ none)
      × (find h w.client.socket_semaphores ≡ none)
      × (find h w.connections ≡ none)
      × (find h w.manager.listeners ≡ none)

  -- The world of a connection that was made.
  abbrev pub connected : World N → ℕ → ℕ → NymphSocket N → Attempt → World N
  connected w socket used ns a = record (waiting_world services w socket used ns a) {
    client = record (waiting_client services w.client socket a) {
      ping_thread = some w.client.last_handle;
    };
  }

  pub connect-connected :
      (a : Attempt) (w : World N) (socket used : ℕ) (ns : NymphSocket N)
      → AllSent
      → a.open_socket (tls w.client) ≡ opened socket
      → a.ready ≡ true
      → a.answered ≡ true
      → w.client.ping_thread ≡ none
      → find w.client.last_handle (insert w.client.last_handle socket w.client.sockets) ≡ some used
      → find w.client.last_handle
          (insert w.client.last_handle (connection_of services w socket a.semaphore) w.connections)
        ≡ some ns
      → connect services a w
        ≡ returned (record {
          value = true;
          handle = some w.client.last_handle;
          report = none;
          world = connected w socket used ns a;
        })
  connect-connected a w socket used ns all made ready answered idle here there =
      let h : ℕ = w.client.last_handle in
      let u : World N = waiting_world services w socket used ns a in
      connect_waits services a w socket used ns made ready here there (all used)
      ∙ ap (λ b. after_wait services b h u) answered
      ∙ ap
          (λ o. start_timer o u.client h >>= λ c. returned (record {
            value = true;
            handle = some h;
            report = none;
            world = record u { client = c };
          }))
          idle

  abbrev pub disconnect_bytes : List ℕ
  disconnect_bytes =
      (serialize services.platform
        (message_of_type services.platform.host services.junk mqtt_disconnect)).0

  -- `disconnect` of a handle that both maps have.
  pub disconnect_found :
      (w : World N) (handle socket sem ping : ℕ)
      → AllSent
      → w.client.ping_thread ≡ some ping
      → find handle w.client.sockets ≡ some socket
      → find handle w.client.socket_semaphores ≡ some sem
      → disconnect services true handle w
        ≡ returned (
            close_found services handle
              (record w {
                client =
                    lock (record w.client { ping_thread = none; restarts = w.client.restarts + 1 });
                net = (services.send_bytes socket disconnect_bytes w.net).1;
              })
              (some socket)
              (some sem))
  unfolding disconnect
  disconnect_found w handle socket sem ping all timer here there =
      let c : NmqttClient = record w.client { ping_thread = none } in
      ap (λ o. stop_timer true o w.client >>= λ d. returned (leave services handle w d)) timer
      ∙ ap
          (λ r. returned (
            close_found services handle (record w { client = lock r.client; net = r.net })
              (find handle r.client.sockets) (find handle r.client.socket_semaphores)))
          (send_all_of services c handle socket disconnect_bytes w.net here
            (all socket disconnect_bytes w.net))
      ∙ ap
          (λ o. returned (
            close_found services handle
              (record w {
                client = lock (record c { restarts = c.restarts + 1 });
                net = (services.send_bytes socket disconnect_bytes w.net).1;
              })
              o (find handle w.client.socket_semaphores)))
          here
      ∙ ap
          (λ o. returned (
            close_found services handle
              (record w {
                client = lock (record c { restarts = c.restarts + 1 });
                net = (services.send_bytes socket disconnect_bytes w.net).1;
              })
              (some socket) o))
          there

  remove_fresh :
      (m : NmqttClientListenerManager) (handle : ℕ) (ns : NymphSocket N)
      → find handle m.listeners ≡ none
      → (remove_connection (with_listener ns m handle) handle).1 ≡ record {
        listeners = m.listeners;
        objects = stop_listener (m.objects ++ (listener_of ns ∷ [])) (length m.objects);
      }
  unfolding remove_connection
  remove_fresh m handle ns e =
      let t : NmqttClientListenerManager = with_listener ns m handle in
      ap (λ o. remove_found o t handle) (find-insert handle (length m.objects) m.listeners e)
      ∙ ap (λ ls. record { listeners = ls; objects = stop_listener t.objects (length m.objects) })
          (erase-insert handle (length m.objects) m.listeners e)

  -- When the next handle is free, the timer is idle, the socket can be made, the listener is ready in time,
  -- the broker answers in time and all bytes are sent, `connect` returns true with that handle; a
  -- `disconnect` of it for which the thread of the timer ends (not if a restart of it is pending, or it has not
  -- yet reached its loop) then returns true, brings the maps of sockets, semaphores and listeners back to what they
  -- were, stops the listener and the timer and releases `socketsMutex`. What is left: `connectMtx` is
  -- still held, `brokerConn` points to the caller's object, `NmqttConnections` has the entry, and
  -- every further `disconnect` throws, since the timer has no thread to join.
  pub disconnect-connect :
      (a : Attempt) (w : World N) (socket : ℕ)
      → AllSent
      → IsFree w.client.last_handle w
      → a.open_socket (tls w.client) ≡ opened socket
      → a.ready ≡ true
      → a.answered ≡ true
      → w.client.ping_thread ≡ none
      → let h = w.client.last_handle in
        (r : Answer N) × (q : Answer N) × (connect services a w ≡ returned r)
        × (r.value ≡ true)
        × (r.handle ≡ some h)
        × (find h r.world.client.sockets ≡ some socket)
        × (disconnect services true h r.world ≡ returned q)
        × (q.value ≡ true)
        × (q.world.client.sockets ≡ w.client.sockets)
        × (q.world.client.socket_semaphores ≡ w.client.socket_semaphores)
        × (q.world.client.last_handle ≡ h + 1)
        × (q.world.client.ping_thread ≡ none)
        × (q.world.client.locked ≡ w.client.locked)
        × (q.world.client.connect_locked ≡ w.client.connect_locked + 1)
        × (q.world.client.broker_conn ≡ some a.conn)
        × (q.world.manager.listeners ≡ w.manager.listeners)
        × IsStopped q.world.manager.objects (length w.manager.objects)
        × (find h q.world.connections ≡ some (connection_of services w socket a.semaphore))
        × ((b : Bool) (j : ℕ) → disconnect services b j q.world ≡ crashed not_joinable)
  unfolding disconnect
  disconnect-connect a w socket all (free, free', free'', free''') made ready answered idle =
      let h : ℕ = w.client.last_handle in
      let ns : NymphSocket N = connection_of services w socket a.semaphore in
      let here : find h (insert h socket w.client.sockets) ≡ some socket =
        find-insert h socket w.client.sockets free in
      let there : find h (insert h ns w.connections) ≡ some ns =
        find-insert h ns w.connections free'' in
      let there' : find h (insert h a.semaphore w.client.socket_semaphores) ≡ some a.semaphore =
        find-insert h a.semaphore w.client.socket_semaphores free' in
      let u : World N = connected w socket socket ns a in
      let v : World N = record u {
        client = lock (record u.client { ping_thread = none; restarts = u.client.restarts + 1 });
        net = (services.send_bytes socket disconnect_bytes u.net).1;
      } in
      let removed : (remove_connection (with_listener ns w.manager h) h).1 ≡ record {
        listeners = w.manager.listeners;
        objects =
            stop_listener (w.manager.objects ++ (listener_of ns ∷ [])) (length w.manager.objects);
      } =
        remove_fresh w.manager h ns free''' in
      (
        record { value = true; handle = some h; report = none; world = u },
        close_found services h v (some socket) (some a.semaphore),
        connect-connected a w socket socket ns all made ready answered idle here there,
        refl,
        refl,
        here,
        disconnect_found u h socket a.semaphore h all refl here there',
        refl,
        erase-insert h socket w.client.sockets free,
        erase-insert h a.semaphore w.client.socket_semaphores free',
        refl,
        refl,
        omega arith,
        refl,
        refl,
        ap (λ m. m.listeners) removed,
        subst (λ m. IsStopped m.objects (length w.manager.objects)) (sym removed)
            (stop_listener-IsStopped (w.manager.objects ++ (listener_of ns ∷ []))
              (length w.manager.objects)),
        there,
        λ b j. refl,
      )
