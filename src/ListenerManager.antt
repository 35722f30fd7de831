-- ===== src/ListenerManager.antt =====
-- src/cpp/client_listener_manager.cpp, client_listener_manager.h, and the constructor and `stop` of
-- src/cpp/client_listener.cpp: the listening threads of the clients.
pub mod Stopping
pub mod Removal
use nymph_mqtt.Common.{
  ℕ, zero, suc, Bool, true, false, List, [], ◌∷◌, ◌++◌, length, Option, none, some, get_elem?,
  set_elem,
}
use nymph_mqtt.Common.Map.{find, insert, erase}
use nymph_mqtt.Server.{Call, returned, null_pointer, bad_function_call}
use nymph_mqtt.Listener.{NymphSocket, connections_get_socket}

-- The members that the constructor and `stop` set: the handle of the connection that the listener serves,
-- the socket that it reads, and whether it goes on listening.
pub record ClientListener : Type 0 where
  pub handle : ℕ
  pub socket : ℕ
  pub listen : Bool

-- The static map from handles to listeners, and the objects that its pointers point to, in the order in
-- which they were made.
pub record NmqttClientListenerManager : Type 0 where
  pub listeners : List (ℕ × ℕ)
  pub objects : List ClientListener

-- The constructor uses what `NmqttConnections::getSocket` returns.
abbrev pub new_listener : {N : Type 0} → Option (NymphSocket N) → Call ClientListener
new_listener none = null_pointer
new_listener (some ns) = returned (record { handle = ns.handle; socket = ns.socket; listen = true })

-- Behind the start of the thread: `ready` is whether the wait for its signal succeeded.
abbrev pub after_start :
    Bool → NmqttClientListenerManager → ℕ → ClientListener → Bool × NmqttClientListenerManager
after_start false m handle listener = (false, record m { objects = m.objects ++ (listener ∷ []) })
after_start true m handle listener = (
  true,
  record {
    listeners = insert handle (length m.objects) m.listeners;
    objects = m.objects ++ (listener ∷ []);
  },
)

abbrev pub start_listener :
    Bool
    → NmqttClientListenerManager
    → ℕ
    → Call ClientListener
    → Call (Bool × NmqttClientListenerManager)
start_listener ready m handle (returned listener) = returned (after_start ready m handle listener)
start_listener ready m handle null_pointer = null_pointer
start_listener ready m handle bad_function_call = bad_function_call

unfoldable pub add_connection :
    {N : Type 0}
    → List (ℕ × NymphSocket N)
    → Bool
    → NmqttClientListenerManager
    → ℕ
    → Call (Bool × NmqttClientListenerManager)
add_connection sockets ready m handle =
    start_listener ready m handle (new_listener (connections_get_socket sockets handle))

-- `NmqttClientListener::stop` of the object behind a pointer.
abbrev pub stop_at : Option ClientListener → List ClientListener → ℕ → List ClientListener
stop_at none objects i = objects
stop_at (some listener) objects i = set_elem objects i (record listener { listen = false })

unfoldable pub stop_listener : List ClientListener → ℕ → List ClientListener
stop_listener objects i = stop_at (get_elem? objects i) objects i

abbrev pub remove_found : Option ℕ → NmqttClientListenerManager → ℕ → NmqttClientListenerManager
remove_found none m handle = m
remove_found (some i) m handle = record {
  listeners = erase handle m.listeners;
  objects = stop_listener m.objects i;
}

-- `removeConnection` returns true in any case.
unfoldable pub remove_connection :
    NmqttClientListenerManager → ℕ → Bool × NmqttClientListenerManager
remove_connection m handle = (true, remove_found (find handle m.listeners) m handle)

-- `stop`: `listeners[i]` for each i below the size. A key that is missing is inserted with a null pointer,
-- whose `stop` is called at once, so the size is the same in every round.
unfoldable pub stop_from : ℕ → ℕ → NmqttClientListenerManager → Call NmqttClientListenerManager
stop_from zero i m = returned m
stop_from (suc left) i m = elim (find i m.listeners) [
  | none ↦ null_pointer
  | some o ↦ stop_from left (suc i) (record m { objects = stop_listener m.objects o })
]

unfoldable pub stop : NmqttClientListenerManager → Call NmqttClientListenerManager
stop m = stop_from (length m.listeners) 0 m
