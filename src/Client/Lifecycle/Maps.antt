-- ===== src/Client/Lifecycle/Maps.antt =====
-- What the calls of a client do to its maps of sockets and semaphores.
use nymph_mqtt.Common.{
  ℕ, ◌+◌, ◌-◌, ◌==◌, ◌≡◌, ◌≢◌, refl, ap, ◌∙◌, sym, subst, Bool, true, false, Bool-cases, ==→eq,
  ==→ne, inl, inr, List, length, Option, none, some,
}
use nymph_mqtt.Common.Map.{
  find, insert, erase, IsMap, insert-IsMap, erase-IsMap, find-insert, find-insert_ne, insert_there,
  find-erase, find-erase_ne, Option-cases,
}
use nymph_mqtt.Message.{mqtt_disconnect, message_of_type}
use nymph_mqtt.Message.Serialize.{serialize}
use nymph_mqtt.Server.{Sent, sent, thrown, Call}
use nymph_mqtt.Client.{
  NmqttClient, Result, lock, unlock, after_send, send_through, client_send_message, connect_message,
}
use nymph_mqtt.Client.World.{
  Services, World, Attempt, Answer, Ended, returned, crashed, Opened, opened, connection_refused,
  invalid_socket, no_semaphore, ◌>>=◌, start_timer, ended, stop_timer, blocked,
}
use nymph_mqtt.Client.Lifecycle.{
  take_handle, after_wait, await, send_connect, after_listener, use_socket, register, close_found,
  leave,
}
use nymph_mqtt.ListenerManager.{NmqttClientListenerManager, add_connection}

pub record IsPaired (c : NmqttClient) : Type 0 where
  pub once : IsMap c.sockets
  pub paired :
      (h s : ℕ) → find h c.sockets ≡ some s → (x : ℕ) × (find h c.socket_semaphores ≡ some x)

-- A change of a client that leaves both maps alone.
abbrev pub SameMaps : NmqttClient → NmqttClient → Type 0
SameMaps c d = (d.sockets ≡ c.sockets) × (d.socket_semaphores ≡ c.socket_semaphores)

pub SameMaps-IsPaired : (c d : NmqttClient) → SameMaps c d → IsPaired c → IsPaired d
SameMaps-IsPaired c d (e, f) is = record {
  once = subst (λ m. IsMap m) (sym e) is.once;
  paired = λ h s there.
      let (x, found) = is.paired h s (ap (λ m. find h m) (sym e) ∙ there) in
      (x, ap (λ m. find h m) f ∙ found);
}

insert_there_is : (k v : ℕ) (m : List (ℕ × ℕ)) → (x : ℕ) × (find k (insert k v m) ≡ some x)
insert_there_is k v m = elim (Option-cases (find k m)) [
  | inl e ↦ (v, find-insert k v m e)
  | inr (w, e) ↦ (w, ap (find k) (insert_there k v w m e) ∙ e)
]

insert-IsPaired :
    (c : NmqttClient) (handle socket semaphore n : ℕ)
    → IsPaired c
    → IsPaired (record c {
      sockets = insert handle socket c.sockets;
      socket_semaphores = insert handle semaphore c.socket_semaphores;
      locked = n;
    })
insert-IsPaired c handle socket semaphore n is = record {
  once = insert-IsMap handle socket c.sockets is.once;
  paired = λ h s there. elim (Bool-cases (handle == h)) [
    | inl e ↦
        subst (λ j. (x : ℕ) × (find j (insert handle semaphore c.socket_semaphores) ≡ some x))
          (==→eq handle h e) (insert_there_is handle semaphore c.socket_semaphores)
    | inr d ↦
        let ne : handle ≢ h = ==→ne handle h d in
        let (x, found) =
          is.paired h s (sym (find-insert_ne handle h socket c.sockets ne) ∙ there) in
        (x, find-insert_ne handle h semaphore c.socket_semaphores ne ∙ found)
  ];
}

erase-IsPaired :
    (c : NmqttClient) (handle n : ℕ)
    → IsPaired c
    → IsPaired (record c {
      sockets = erase handle c.sockets;
      socket_semaphores = erase handle c.socket_semaphores;
      locked = n;
    })
erase-IsPaired c handle n is = record {
  once = erase-IsMap handle c.sockets is.once;
  paired = λ h s there. elim (Bool-cases (handle == h)) [
    | inl e ↦
        let gone : find h (erase handle c.sockets) ≡ none =
          subst (λ j. find j (erase handle c.sockets) ≡ none) (==→eq handle h e)
            (find-erase handle c.sockets is.once) in
        cc
    | inr d ↦
        let ne : handle ≢ h = ==→ne handle h d in
        let (x, found) = is.paired h s (sym (find-erase_ne handle h c.sockets ne) ∙ there) in
        (x, find-erase_ne handle h c.socket_semaphores ne ∙ found)
  ];
}

after_send_maps :
    {N : Type 0} (c : NmqttClient) (bytes : List ℕ) (r : Sent × N)
    → SameMaps c (after_send c bytes r).client
after_send_maps c bytes (sent k, net) = elim (Bool-cases (k == length bytes)) [
  | inl e ↦ rw e (refl, refl)
  | inr e ↦ rw e (refl, refl)
]
after_send_maps c bytes (thrown, net) = (refl, refl)

-- What a call that returns leaves.
abbrev pub Leaves : {N : Type 0} → Ended (Answer N) → Type 0
Leaves (returned r) = IsPaired r.world.client
Leaves (crashed k) = Unit
Leaves blocked = Unit

module _ {N : Type 0} (services : Services N) where
  send_through_maps :
      (o : Option ℕ) (c : NmqttClient) (bytes : List ℕ) (net : N)
      → SameMaps c (send_through services.send_bytes o c bytes net).client
  send_through_maps none c bytes net = (refl, refl)
  send_through_maps (some socket) c bytes net =
      after_send_maps c bytes (services.send_bytes socket bytes net)

  send_maps :
      (c : NmqttClient) (handle : ℕ) (bytes : List ℕ) (net : N)
      → SameMaps c (client_send_message services.send_bytes c handle bytes net).client
  unfolding client_send_message
  send_maps c handle bytes net = send_through_maps (find handle c.sockets) (lock c) bytes net

  start_timer-Leaves :
      (o : Option ℕ) (handle : ℕ) (w : World N)
      → IsPaired w.client
      → Leaves (
          start_timer o w.client handle >>= λ c. returned (record {
            value = true;
            handle = some handle;
            report = none;
            world = record w { client = c };
          }))
  start_timer-Leaves none handle w is =
      SameMaps-IsPaired w.client (record w.client { ping_thread = some handle }) (refl, refl) is
  start_timer-Leaves (some h) handle w is = tt

  after_wait-Leaves :
      (b : Bool) (handle : ℕ) (w : World N)
      → IsPaired w.client
      → Leaves (after_wait services b handle w)
  after_wait-Leaves true handle w is = start_timer-Leaves w.client.ping_thread handle w is
  after_wait-Leaves false handle w is =
      SameMaps-IsPaired w.client
        (record w.client { broker_conn = none; connect_locked = w.client.connect_locked - 1 })
        (refl, refl) is

  await-Leaves :
      (b : Bool) (a : Attempt) (handle : ℕ) (w : World N)
      → IsPaired w.client
      → Leaves (await services b a handle w)
  await-Leaves true a handle w is =
      let c : NmqttClient = record w.client {
        connect_locked = w.client.connect_locked + 1;
        broker_conn = some a.conn;
      } in
      after_wait-Leaves a.answered handle (record w { client = c })
        (SameMaps-IsPaired w.client c (refl, refl) is)
  await-Leaves false a handle w is = is

  send_connect-Leaves :
      (a : Attempt) (handle : ℕ) (w : World N)
      → IsPaired w.client
      → Leaves (send_connect services a handle w)
  send_connect-Leaves a handle w is =
      let c : NmqttClient = record w.client { broker_conn = none } in
      let r : Result N =
        client_send_message services.send_bytes c handle
          (serialize services.platform (connect_message services.platform services.junk c)).0
          w.net in
      await-Leaves r.value a handle (record w { client = r.client; net = r.net })
        (SameMaps-IsPaired c r.client
          (send_maps c handle
            (serialize services.platform (connect_message services.platform services.junk c)).0
            w.net)
          (SameMaps-IsPaired w.client c (refl, refl) is))

  after_listener-Leaves :
      (a : Attempt) (w : World N) (r : Bool × NmqttClientListenerManager)
      → IsPaired w.client
      → Leaves (after_listener services a w r)
  after_listener-Leaves a w (true, m) is =
      send_connect-Leaves a w.client.last_handle (take_handle services (record w { manager = m })) (
        SameMaps-IsPaired w.client (take_handle services (record w { manager = m })).client
          (refl, refl) is)
  after_listener-Leaves a w (false, m) is = is

  listen_to-Leaves :
      (a : Attempt) (w : World N) (k : Call (Bool × NmqttClientListenerManager))
      → IsPaired w.client
      → Leaves (ended k >>= after_listener services a w)
  listen_to-Leaves a w (Call.returned r) is = after_listener-Leaves a w r is
  listen_to-Leaves a w Call.null_pointer is = tt
  listen_to-Leaves a w Call.bad_function_call is = tt

  pub use_socket-Leaves :
      (a : Attempt) (w : World N) (o : Opened)
      → IsPaired w.client
      → Leaves (use_socket services a w o)
  use_socket-Leaves a w (opened socket) is =
      let u : World N = register services w socket a.semaphore in
      listen_to-Leaves a u (add_connection u.connections a.ready u.manager u.client.last_handle)
        (insert-IsPaired w.client w.client.last_handle socket a.semaphore (w.client.locked + 1) is)
  use_socket-Leaves a w (connection_refused text) is = is
  use_socket-Leaves a w (Opened.invalid_argument text) is = is
  use_socket-Leaves a w (invalid_socket text) is = is
  use_socket-Leaves a w (Opened.net_exception text) is = is

  close_found-Leaves :
      (handle : ℕ) (w : World N) (o q : Option ℕ)
      → IsPaired w.client
      → IsPaired (close_found services handle w o q).world.client
  close_found-Leaves handle w none q is =
      SameMaps-IsPaired w.client (unlock w.client) (refl, refl) is
  close_found-Leaves handle w (some socket) none is =
      SameMaps-IsPaired w.client (unlock w.client) (refl, refl) is
  close_found-Leaves handle w (some socket) (some sem) is =
      erase-IsPaired w.client handle (w.client.locked - 1) is

  -- Under the lock the maps agree, so a socket that is found has a semaphore.
  close_found_report :
      (handle : ℕ) (w : World N) (o q : Option ℕ)
      → ((s : ℕ) → o ≡ some s → (x : ℕ) × (q ≡ some x))
      → (close_found services handle w o q).report ≢ some no_semaphore
  close_found_report handle w none q agree e = cc
  close_found_report handle w (some socket) none agree e = let (x, f) = agree socket refl in cc
  close_found_report handle w (some socket) (some sem) agree e = cc

  pub leave-Leaves :
      (handle : ℕ) (w : World N) (c : NmqttClient)
      → IsPaired c
      → IsPaired (leave services handle w c).world.client
        × ((leave services handle w c).report ≢ some no_semaphore)
  leave-Leaves handle w c is =
      let bytes : List ℕ =
        (serialize services.platform
          (message_of_type services.platform.host services.junk mqtt_disconnect)).0 in
      let r : Result N = client_send_message services.send_bytes c handle bytes w.net in
      let u : World N = record w { client = lock r.client; net = r.net } in
      let still : IsPaired r.client =
        SameMaps-IsPaired c r.client (send_maps c handle bytes w.net) is in
      (
        close_found-Leaves handle u (find handle r.client.sockets)
            (find handle r.client.socket_semaphores)
            (SameMaps-IsPaired r.client (lock r.client) (refl, refl) still),
        close_found_report handle u (find handle r.client.sockets)
            (find handle r.client.socket_semaphores) (still.paired handle),
      )

  pub stop_timer-Leaves :
      (b : Bool) (o : Option ℕ) (handle : ℕ) (w : World N)
      → IsPaired w.client
      → Leaves (stop_timer b o w.client >>= λ c. returned (leave services handle w c))
  stop_timer-Leaves b none handle w is = tt
  stop_timer-Leaves false (some h) handle w is = tt
  stop_timer-Leaves true (some h) handle w is =
      let c : NmqttClient = record w.client { ping_thread = none } in
      (leave-Leaves handle w c (SameMaps-IsPaired w.client c (refl, refl) is)).0
