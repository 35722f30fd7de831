-- ===== src/Client/Lifecycle.antt =====
-- src/cpp/client.cpp: connect, disconnect and shutdown, with the listener manager, the connections and the
-- timer that they use.
pub mod Maps
pub mod Pairs
pub mod Calls
pub mod Ends
pub mod Faults
pub mod Shutdown
pub mod Timer
pub mod Memory
pub mod Dangling
pub mod CleanUp
pub mod Leak
use nymph_mqtt.Common.{
  ℕ, ◌+◌, ◌-◌, Bool, true, false, List, [], ◌∷◌, Option, none, some, if◌then◌else◌, ◌==◌,
}
use nymph_mqtt.Common.Map.{find, insert, erase, in_order}
use nymph_mqtt.Message.{NmqttMessage, mqtt_disconnect, message_of_type}
use nymph_mqtt.Message.Exec.{Platform}
use nymph_mqtt.Message.Serialize.{serialize}
use nymph_mqtt.Server.{Sent, Call}
use nymph_mqtt.Client.{NmqttClient, Result, lock, unlock, connect_message, client_send_message}
use nymph_mqtt.Listener.{NymphSocket, connections_add_socket}
use nymph_mqtt.ListenerManager.{NmqttClientListenerManager, add_connection, remove_connection, stop}
use nymph_mqtt.Client.World.{
  Answer, Attempt, Crash, Ended, Opened, Report, Services, World, connection_refused, crashed,
  empty_function_called, ended, handle_not_found, invalid_argument, invalid_socket,
  invalid_socket_exception, net_exception, no_semaphore, not_joinable, null_pointer_used, opened,
  returned, set_message_handler, start_timer, stop_timer, terminated, timeout_while_connecting, tls,
  unable_to_connect, ◌>>=◌,
}

module _ {N : Type 0} (services : Services N) where
  -- The socket, the semaphore and the connection under the next handle, with the lock taken.
  abbrev pub register : World N → ℕ → ℕ → World N
  register w socket semaphore =
      let c = lock w.client in
      record w {
        client = record c {
          sockets = insert c.last_handle socket c.sockets;
          socket_semaphores = insert c.last_handle semaphore c.socket_semaphores;
        };
        connections = connections_add_socket w.connections (record {
          handler = w.message_handler;
          connack_handler = some services.connack;
          pingresp_handler = some services.pingresp;
          handle = c.last_handle;
          socket = socket;
          semaphore = semaphore;
        });
      }

  -- `handle = lastHandle++` and the release of the lock.
  abbrev pub take_handle : World N → World N
  take_handle w = record w {
    client = unlock (record w.client { last_handle = w.client.last_handle + 1 });
  }

  -- Behind the wait for the answer, with `connectMtx` taken: the start of the timer, or a failure.
  abbrev pub after_wait : Bool → ℕ → World N → Ended (Answer N)
  after_wait true handle w = start_timer w.client.ping_thread w.client handle >>= λ c.
      returned (record {
        value = true;
        handle = some handle;
        report = none;
        world = record w { client = c };
      })
  after_wait false handle w = returned (record {
    value = false;
    handle = some handle;
    report = some timeout_while_connecting;
    world = record w {
      client = record w.client { broker_conn = none; connect_locked = w.client.connect_locked - 1 };
    };
  })

  -- Behind `sendMessage`.
  abbrev pub await : Bool → Attempt → ℕ → World N → Ended (Answer N)
  await true a handle w = after_wait a.answered handle (record w {
    client = record w.client {
      connect_locked = w.client.connect_locked + 1;
      broker_conn = some a.conn;
    };
  })
  await false a handle w =
      returned (record { value = false; handle = some handle; report = none; world = w })

  abbrev pub send_connect : Attempt → ℕ → World N → Ended (Answer N)
  send_connect a handle w =
      let c : NmqttClient = record w.client { broker_conn = none } in
      let r : Result N =
        client_send_message services.send_bytes c handle
          (serialize services.platform (connect_message services.platform services.junk c)).0
          w.net in
      await r.value a handle (record w { client = r.client; net = r.net })

  abbrev pub after_listener :
      Attempt → World N → Bool × NmqttClientListenerManager → Ended (Answer N)
  after_listener a w (true, m) =
      send_connect a w.client.last_handle (take_handle (record w { manager = m }))
  after_listener a w (false, m) =
      returned
        (record { value = false; handle = none; report = none; world = record w { manager = m } })

  abbrev pub listen_to : Attempt → World N → Ended (Answer N)
  listen_to a w =
      ended (add_connection w.connections a.ready w.manager w.client.last_handle)
      >>= after_listener a w

  abbrev pub use_socket : Attempt → World N → Opened → Ended (Answer N)
  use_socket a w (opened socket) = listen_to a (register w socket a.semaphore)
  use_socket a w (connection_refused text) =
      returned
        (record { value = false; handle = none; report = some (unable_to_connect text); world = w })
  use_socket a w (Opened.invalid_argument text) = returned (record {
    value = false;
    handle = none;
    report = some (Report.invalid_argument text);
    world = w;
  })
  use_socket a w (invalid_socket text) = returned (record {
    value = false;
    handle = none;
    report = some (invalid_socket_exception text);
    world = w;
  })
  use_socket a w (Opened.net_exception text) = returned (record {
    value = false;
    handle = none;
    report = some (Report.net_exception text);
    world = w;
  })

  unfoldable pub connect : Attempt → World N → Ended (Answer N)
  connect a w = use_socket a w (a.open_socket (tls w.client))

  -- Under the lock: what `find` says about the handle in both maps.
  abbrev pub close_found : ℕ → World N → Option ℕ → Option ℕ → Answer N
  close_found handle w none sem = record {
    value = false;
    handle = none;
    report = some (handle_not_found handle);
    world = record w { client = unlock w.client };
  }
  close_found handle w (some socket) none = record {
    value = false;
    handle = none;
    report = some no_semaphore;
    world = record w { client = unlock w.client };
  }
  close_found handle w (some socket) (some sem) =
      let net = services.close socket (services.shut socket w.net) in
      record {
        value = true;
        handle = none;
        report = none;
        world = record w {
          net = if sem == 0 then net else services.set_semaphore sem net;
          manager = (remove_connection w.manager handle).1;
          client = unlock (record w.client {
            sockets = erase handle w.client.sockets;
            socket_semaphores = erase handle w.client.socket_semaphores;
          });
        };
      }

  -- Behind the timer: the DISCONNECT message, whatever `sendMessage` returns, and the maps.
  abbrev pub leave : ℕ → World N → NmqttClient → Answer N
  leave handle w c =
      let r =
        client_send_message services.send_bytes c handle
          (serialize services.platform
            (message_of_type services.platform.host services.junk mqtt_disconnect)).0
          w.net in
      close_found handle (record w { client = lock r.client; net = r.net })
        (find handle r.client.sockets) (find handle r.client.socket_semaphores)

  -- By whether the thread of the timer ever ends, once it is told to stop.
  unfoldable pub disconnect : Bool → ℕ → World N → Ended (Answer N)
  disconnect thread_ends handle w =
      stop_timer thread_ends w.client.ping_thread w.client >>= λ c. returned (leave handle w c)

  -- The loop of `shutdown` over the sockets, in the order of their handles.
  abbrev pub shut_all :
      List (ℕ × ℕ) → NmqttClientListenerManager → N → NmqttClientListenerManager × N
  shut_all [] m net = (m, net)
  shut_all ((handle, socket) ∷ more) m net =
      shut_all more (remove_connection m handle).1 (services.shut socket net)

  unfoldable pub shutdown : World N → Ended (Answer N)
  shutdown w =
      let (m, net) = shut_all (in_order w.client.sockets) w.manager w.net in
      ended (stop m) >>= λ t. returned (record {
        value = true;
        handle = none;
        report = none;
        world = record w { client = record w.client { sockets = [] }; manager = t; net = net };
      })

-- `address_of` is the address of a socket, as text.
unfoldable pub get_local_address : (ℕ → List ℕ) → NmqttClient → ℕ → List ℕ
get_local_address address_of c handle = elim (find handle c.sockets) [
  | none ↦ []
  | some socket ↦ address_of socket
]
