-- ===== src/Client/World.antt =====
-- src/cpp/client.cpp: what connect, disconnect and shutdown act on, and how they can end.
use nymph_mqtt.Common.{ℕ, Bool, true, false, List, Option, none, some, if◌then◌else◌}
use nymph_mqtt.Message.{NmqttMessage}
use nymph_mqtt.Message.Exec.{Platform}
use nymph_mqtt.Server.{Sent, Call}
use nymph_mqtt.Client.{NmqttClient}
use nymph_mqtt.Listener.{NymphSocket}
use nymph_mqtt.ListenerManager.{NmqttClientListenerManager}

-- How a call can end otherwise than by a return: a null pointer is used, an empty `std::function` is called,
-- `join` throws since there is no thread to join, or the program is terminated since a thread
-- is assigned to one that was not joined; or the call waits for ever in `join`.
pub data Crash : Type 0 where
  null_pointer_used empty_function_called not_joinable terminated : Crash

pub data Ended {ℓ} (A : Type ℓ) : Type ℓ where
  returned : A → Ended A
  crashed : Crash → Ended A
  blocked : Ended A

infixl 5 ◌>>=◌
abbrev pub ◌>>=◌ {ℓ κ} : {A : Type ℓ} {B : Type κ} → Ended A → (A → Ended B) → Ended B
returned a >>= f = f a
crashed k >>= f = crashed k
blocked >>= f = blocked

abbrev pub ended {ℓ} : {A : Type ℓ} → Call A → Ended A
ended (Call.returned a) = returned a
ended Call.null_pointer = crashed null_pointer_used
ended Call.bad_function_call = crashed empty_function_called

-- The client, its `messageHandler`, the static members of `NmqttConnections` and of the listener manager,
-- and all else that the handlers and the sockets act on.
pub record World (N : Type 0) : Type 0 where
  pub client : NmqttClient
  pub message_handler : Option (ℕ → List ℕ → List ℕ → N → N)
  pub connections : List (ℕ × NymphSocket N)
  pub manager : NmqttClientListenerManager
  pub net : N

unfoldable pub set_message_handler :
    {N : Type 0} → World N → Option (ℕ → List ℕ → List ℕ → N → N) → World N
set_message_handler w handler = record w { message_handler = handler }

-- What making the socket comes to: its address, or one of the exceptions that are caught, with its text.
pub data Opened : Type 0 where
  opened : ℕ → Opened
  connection_refused invalid_argument invalid_socket net_exception : List ℕ → Opened

-- What is written to `result`, by the words in front.
pub data Report : Type 0 where
  unable_to_connect invalid_argument invalid_socket_exception net_exception : List ℕ → Report
  timeout_while_connecting : Report
  handle_not_found : ℕ → Report
  no_semaphore : Report

-- What is returned, the handle and the text that are written to the arguments, if any, and the world behind.
pub record Answer (N : Type 0) : Type 0 where
  pub value : Bool
  pub handle : Option ℕ
  pub report : Option Report
  pub world : World N

-- The arguments and the surroundings of one call of `connect`: the socket that is made with the keys or
-- without, the address of the new semaphore, whether the listener gives its signal in time, the address
-- of `conn`, and whether the broker's answer wakes the thread in time.
pub record Attempt : Type 0 where
  pub open_socket : Option (List ℕ × List ℕ × List ℕ) → Opened
  pub semaphore : ℕ
  pub ready : Bool
  pub conn : ℕ
  pub answered : Bool

-- `pingTimer`: `start` assigns a new thread, `stop` joins the thread that there is, by whether that thread
-- ever ends (it does not if the stop is lost on it).
abbrev pub start_timer : Option ℕ → NmqttClient → ℕ → Ended NmqttClient
start_timer none c handle = returned (record c { ping_thread = some handle })
start_timer (some h) c handle = crashed terminated

abbrev pub stop_timer : Bool → Option ℕ → NmqttClient → Ended NmqttClient
stop_timer thread_ends none c = crashed not_joinable
stop_timer true (some h) c = returned (record c { ping_thread = none })
stop_timer false (some h) c = blocked

abbrev pub tls : NmqttClient → Option (List ℕ × List ℕ × List ℕ)
tls c = if c.secure_connection then some (c.key, c.cert, c.ca) else none

-- What a client uses: the methods of sockets and semaphores, by their addresses; `connackHandler` and
-- `pingrespHandler`, bound to this client; the platform, and the memory of a new message.
pub record Services (N : Type 0) : Type 1 where
  pub send_bytes : ℕ → List ℕ → N → Sent × N
  pub shut : ℕ → N → N
  pub close : ℕ → N → N
  pub set_semaphore : ℕ → N → N
  pub connack : ℕ → Bool → ℕ → N → N
  pub pingresp : ℕ → N → N
  pub platform : Platform
  pub junk : NmqttMessage
