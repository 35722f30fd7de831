-- ===== src/Client/Lifecycle/Calls.antt =====
-- What connect and disconnect come to, one after the other.
use nymph_mqtt.Common.{
  ℕ, ◌+◌, ◌-◌, ◌≡◌, ap, ◌∙◌, true, false, List, [], ◌∷◌, ◌++◌, length, none, some,
}
use nymph_mqtt.Common.Map.{find, insert}
use nymph_mqtt.Message.Serialize.{serialize}
use nymph_mqtt.Server.{sent, Call}
use nymph_mqtt.Client.{NmqttClient, lock, send_through, client_send_message, connect_message}
use nymph_mqtt.Client.Sending.{after_send_all}
use nymph_mqtt.Listener.{NymphSocket, connections_add_socket, connections_get_socket}
use nymph_mqtt.ListenerManager.{
  ClientListener, NmqttClientListenerManager, start_listener, new_listener, add_connection,
}
use nymph_mqtt.Client.World.{Services, World, Attempt, opened, tls, ◌>>=◌, ended}
use nymph_mqtt.Client.Lifecycle.{
  await, send_connect, after_wait, after_listener, take_handle, register, use_socket, connect,
}

-- The listener of a connection that is there.
abbrev pub listener_of : {N : Type 0} → NymphSocket N → ClientListener
listener_of ns = record { handle = ns.handle; socket = ns.socket; listen = true }

abbrev pub with_listener :
    {N : Type 0} → NymphSocket N → NmqttClientListenerManager → ℕ → NmqttClientListenerManager
with_listener ns m handle = record {
  listeners = insert handle (length m.objects) m.listeners;
  objects = m.objects ++ (listener_of ns ∷ []);
}

pub add_connection_ready :
    {N : Type 0} (sockets : List (ℕ × NymphSocket N)) (m : NmqttClientListenerManager) (handle : ℕ)
    (ns : NymphSocket N)
    → find handle sockets ≡ some ns
    → add_connection sockets true m handle ≡ Call.returned (true, with_listener ns m handle)
unfolding add_connection connections_get_socket
add_connection_ready sockets m handle ns e =
    ap (λ o. start_listener true m handle (new_listener o)) e

pub add_connection_late :
    {N : Type 0} (sockets : List (ℕ × NymphSocket N)) (m : NmqttClientListenerManager) (handle : ℕ)
    (ns : NymphSocket N)
    → find handle sockets ≡ some ns
    → add_connection sockets false m handle
      ≡ Call.returned (false, record m { objects = m.objects ++ (listener_of ns ∷ []) })
unfolding add_connection connections_get_socket
add_connection_late sockets m handle ns e =
    ap (λ o. start_listener false m handle (new_listener o)) e

module _ {N : Type 0} (services : Services N) where
  pub send_all_of :
      (c : NmqttClient) (handle socket : ℕ) (bytes : List ℕ) (net : N)
      → find handle c.sockets ≡ some socket
      → (services.send_bytes socket bytes net).0 ≡ sent (length bytes)
      → client_send_message services.send_bytes c handle bytes net ≡ record {
        value = true;
        client = record c { restarts = c.restarts + 1 };
        net = (services.send_bytes socket bytes net).1;
      }
  unfolding client_send_message
  send_all_of c handle socket bytes net e all =
      ap (λ o. send_through services.send_bytes o (lock c) bytes net) e
      ∙ after_send_all c bytes (services.send_bytes socket bytes net) all

  -- The bytes of the CONNECT message of a client.
  abbrev pub connect_bytes_of : NmqttClient → List ℕ
  connect_bytes_of c =
      (serialize services.platform (connect_message services.platform services.junk c)).0

  -- The connection that `connect` registers.
  abbrev pub connection_of : World N → ℕ → ℕ → NymphSocket N
  connection_of w socket semaphore = record {
    handler = w.message_handler;
    connack_handler = some services.connack;
    pingresp_handler = some services.pingresp;
    handle = w.client.last_handle;
    socket = socket;
    semaphore = semaphore;
  }

  -- The client behind the CONNECT message, with `connectMtx` taken.
  abbrev pub waiting_client : NmqttClient → ℕ → Attempt → NmqttClient
  waiting_client c socket a = record c {
    sockets = insert c.last_handle socket c.sockets;
    socket_semaphores = insert c.last_handle a.semaphore c.socket_semaphores;
    last_handle = c.last_handle + 1;
    locked = c.locked + 1 - 1;
    connect_locked = c.connect_locked + 1;
    broker_conn = some a.conn;
    restarts = c.restarts + 1;
  }

  -- The world there; `ns` is the connection that is found, and `used` the socket that is.
  abbrev pub waiting_world : World N → ℕ → ℕ → NymphSocket N → Attempt → World N
  waiting_world w socket used ns a = record w {
    client = waiting_client w.client socket a;
    connections = insert w.client.last_handle (connection_of w socket a.semaphore) w.connections;
    manager = with_listener ns w.manager w.client.last_handle;
    net = (services.send_bytes used (connect_bytes_of w.client) w.net).1;
  }

  send_connect_all :
      (a : Attempt) (handle used : ℕ) (w : World N)
      → find handle w.client.sockets ≡ some used
      → ((bytes : List ℕ) (net : N) → (services.send_bytes used bytes net).0 ≡ sent (length bytes))
      → send_connect services a handle w
        ≡ after_wait services a.answered handle (record w {
          client = record w.client {
            restarts = w.client.restarts + 1;
            connect_locked = w.client.connect_locked + 1;
            broker_conn = some a.conn;
          };
          net = (services.send_bytes used (connect_bytes_of w.client) w.net).1;
        })
  unfolding connect_message
  send_connect_all a handle used w e all =
      let c : NmqttClient = record w.client { broker_conn = none } in
      ap (λ r. await services r.value a handle (record w { client = r.client; net = r.net }))
        (send_all_of c handle used (connect_bytes_of c) w.net e (all (connect_bytes_of c) w.net))

  -- `connect` up to the end of the wait, when the socket is made, the listener is ready in time, and all bytes
  -- are sent.
  pub connect_waits :
      (a : Attempt) (w : World N) (socket used : ℕ) (ns : NymphSocket N)
      → a.open_socket (tls w.client) ≡ opened socket
      → a.ready ≡ true
      → find w.client.last_handle (insert w.client.last_handle socket w.client.sockets) ≡ some used
      → find w.client.last_handle
          (insert w.client.last_handle (connection_of w socket a.semaphore) w.connections)
        ≡ some ns
      → ((bytes : List ℕ) (net : N) → (services.send_bytes used bytes net).0 ≡ sent (length bytes))
      → connect services a w
        ≡ after_wait services a.answered w.client.last_handle (waiting_world w socket used ns a)
  unfolding connect connections_add_socket connect_message
  connect_waits a w socket used ns made ready here there all =
      let u : World N = register services w socket a.semaphore in
      ap (use_socket services a w) made
      ∙ ap
          (λ b.
            ended (add_connection u.connections b u.manager u.client.last_handle)
            >>= after_listener services a u)
          ready
      ∙ ap (λ k. ended k >>= after_listener services a u)
          (add_connection_ready u.connections u.manager u.client.last_handle ns there)
      ∙ send_connect_all a u.client.last_handle used
          (take_handle services
            (record u { manager = with_listener ns u.manager u.client.last_handle }))
          here all
