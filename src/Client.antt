-- ===== src/Client.antt =====
-- src/cpp/client.cpp and client.h: what a client sends, and its lock.
pub mod Sending
pub mod World
pub mod Lifecycle
pub mod Handshake
pub mod Pinging
pub mod Starting
use nymph_mqtt.Common.{
  ℕ, ◌+◌, ◌-◌, ◌%◌, ◌^◌, Bool, true, false, List, [], ◌∷◌, length, Option, none, some,
  if◌then◌else◌, ◌==◌,
}
use nymph_mqtt.Common.Map.{find}
use nymph_mqtt.Message.{
  NmqttMessage, MqttQos, mqtt_connect, mqtt_pingreq, mqtt_publish, mqtt_subscribe, mqtt_unsubscribe,
  message_of_type, set_will, set_credentials, set_client_id, set_qos, set_retain, set_topic,
  set_payload,
}
use nymph_mqtt.Message.Exec.{Platform}
use nymph_mqtt.Message.Serialize.{serialize}
use nymph_mqtt.Server.{Sent, sent, thrown}

-- The members, less `messageHandler`, `timeout` and those that nothing reads; sockets, semaphores and
-- the object behind `brokerConn` are addresses. `socketsMutex` and `connectMtx` are recursive: `locked` and
-- `connect_locked` are how often the thread holds them. Of the timer there are the handle that its thread
-- pings, as long as this can be joined, and the number of calls of `restart`.
pub record NmqttClient : Type 0 where
  pub sockets : List (ℕ × ℕ)
  pub socket_semaphores : List (ℕ × ℕ)
  pub last_handle : ℕ
  pub locked : ℕ
  pub connect_locked : ℕ
  pub broker_conn : Option ℕ
  pub ping_thread : Option ℕ
  pub restarts : ℕ
  pub secure_connection : Bool
  pub ca : List ℕ
  pub cert : List ℕ
  pub key : List ℕ
  pub will_flag : Bool
  pub will_retain_flag : Bool
  pub username_flag : Bool
  pub password_flag : Bool
  pub will_qos : ℕ
  pub will : List ℕ
  pub will_topic : List ℕ
  pub client_id : List ℕ
  pub username : List ℕ
  pub password : List ℕ

-- The methods of the same names; `willFlag` and the others go into the next CONNECT message.
unfoldable pub client_set_credentials : NmqttClient → List ℕ → List ℕ → NmqttClient
client_set_credentials c user pass = record c {
  username_flag = true;
  password_flag = true;
  username = user;
  password = pass;
}

unfoldable pub client_set_will : NmqttClient → List ℕ → List ℕ → ℕ → Bool → NmqttClient
client_set_will c topic will qos retain = record c {
  will_flag = true;
  will_retain_flag = retain;
  will_qos = qos;
  will = will;
  will_topic = topic;
}

unfoldable pub set_tls : NmqttClient → List ℕ → List ℕ → List ℕ → NmqttClient
set_tls c ca cert key = record c { ca = ca; cert = cert; key = key; secure_connection = true }

-- A member with the name of the setter of the message.
unfoldable pub client_set_client_id : NmqttClient → List ℕ → NmqttClient
client_set_client_id c id = record c { client_id = id }

-- The object that the constructor makes.
unfoldable pub new_client : NmqttClient
new_client = record {
  sockets = [];
  socket_semaphores = [];
  last_handle = 0;
  locked = 0;
  connect_locked = 0;
  broker_conn = none;
  ping_thread = none;
  restarts = 0;
  secure_connection = false;
  ca = [];
  cert = [];
  key = [];
  will_flag = false;
  will_retain_flag = false;
  username_flag = false;
  password_flag = false;
  will_qos = 0;
  will = [];
  will_topic = [];
  client_id =
      b'N' ∷ b'y' ∷ b'm' ∷ b'p' ∷ b'h' ∷ b'M' ∷ b'Q' ∷ b'T' ∷ b'T' ∷ b'-' ∷ b'c' ∷ b'l' ∷ b'i'
      ∷ b'e' ∷ b'n' ∷ b't' ∷ [];
  username = [];
  password = [];
}

-- The message that `connect` sends.
unfoldable pub connect_message : Platform → NmqttMessage → NmqttClient → NmqttMessage
connect_message p junk c =
    let m = message_of_type p.host junk mqtt_connect in
    let m' =
      if c.will_flag then set_will m c.will_topic c.will c.will_qos c.will_retain_flag else m in
    let m'' = if c.username_flag then set_credentials m' c.username c.password else m' in
    set_client_id m'' c.client_id

-- The messages of `publish`, `subscribe` and `unsubscribe`.
unfoldable pub publish_message :
    Platform → NmqttMessage → List ℕ → List ℕ → MqttQos → Bool → NmqttMessage
publish_message p junk topic payload qos retain =
    set_payload
      (set_topic (set_retain (set_qos (message_of_type p.host junk mqtt_publish) qos) retain) topic)
      payload

unfoldable pub subscribe_message : Platform → NmqttMessage → List ℕ → NmqttMessage
subscribe_message p junk topic = set_topic (message_of_type p.host junk mqtt_subscribe) topic

unfoldable pub unsubscribe_message : Platform → NmqttMessage → List ℕ → NmqttMessage
unsubscribe_message p junk topic = set_topic (message_of_type p.host junk mqtt_unsubscribe) topic

-- What is returned, and the client and the network behind it.
pub record Result (N : Type 0) : Type 0 where
  pub value : Bool
  pub client : NmqttClient
  pub net : N

-- `socketsMutex`, by how many times it is held.
abbrev pub lock : NmqttClient → NmqttClient
lock c = record c { locked = c.locked + 1 }

abbrev pub unlock : NmqttClient → NmqttClient
unlock c = record c { locked = c.locked - 1 }

-- `pingTimer.restart()`, counted.
abbrev pub restart_timer : NmqttClient → NmqttClient
restart_timer c = record c { restarts = c.restarts + 1 }

-- Behind `sendBytes`, with the lock held: the returns for too few bytes and for an exception, and the
-- way through, which gives the lock back and restarts the timer.
abbrev pub after_send : {N : Type 0} → NmqttClient → List ℕ → Sent × N → Result N
after_send c bin_msg (sent ret, net) =
    if ret == length bin_msg
    then record { value = true; client = restart_timer (unlock c); net = net }
    else record { value = false; client = c; net = net }
after_send c bin_msg (thrown, net) = record { value = false; client = c; net = net }

module _ {N : Type 0} (send_bytes : ℕ → List ℕ → N → Sent × N) where
  abbrev pub send_through : Option ℕ → NmqttClient → List ℕ → N → Result N
  send_through none c bin_msg net = record { value = false; client = unlock c; net = net }
  send_through (some socket) c bin_msg net = after_send c bin_msg (send_bytes socket bin_msg net)

  unfoldable pub client_send_message : NmqttClient → ℕ → List ℕ → N → Result N
  client_send_message c handle bin_msg net =
      let held : NmqttClient = lock c in send_through (find handle held.sockets) held bin_msg net

  unfoldable pub publish :
      Platform → NmqttMessage → NmqttClient → ℕ → List ℕ → List ℕ → MqttQos → Bool → N → Result N
  publish p junk c handle topic payload qos retain net =
      client_send_message c handle (serialize p (publish_message p junk topic payload qos retain)).0
        net

  unfoldable pub subscribe : Platform → NmqttMessage → NmqttClient → ℕ → List ℕ → N → Result N
  subscribe p junk c handle topic net =
      client_send_message c handle (serialize p (subscribe_message p junk topic)).0 net

  unfoldable pub unsubscribe : Platform → NmqttMessage → NmqttClient → ℕ → List ℕ → N → Result N
  unsubscribe p junk c handle topic net =
      client_send_message c handle (serialize p (unsubscribe_message p junk topic)).0 net

  -- `pingreqHandler`, the callback of the timer.
  unfoldable pub client_pingreq_handler : Platform → NmqttMessage → NmqttClient → ℕ → N → Result N
  client_pingreq_handler p junk c t net =
      client_send_message c t (serialize p (message_of_type p.host junk mqtt_pingreq)).0 net
