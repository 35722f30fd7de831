-- ===== src/Message/Parse.antt =====
-- `parseMessage` of src/cpp/message.cpp.
pub mod Reads
pub mod Length
pub mod Publish
pub mod Connect
pub mod Malformed
pub mod Yields
pub mod Marks
use nymph_mqtt.Common.{
  ℕ, ◌+◌, ◌*◌, ◌/◌, ◌%◌, ◌^◌, Bool, true, false, ◌&&◌, ◌||◌, not, ltb, ◌==◌, List, [], ◌∷◌, length,
  get_or, bit_and, if◌then◌else◌,
}
use nymph_mqtt.ByteBauble.{bit, read_packed_int}
use nymph_mqtt.ByteBauble.Endian.{bb_be, to_host}
use nymph_mqtt.Message.{
  NmqttMessage, MqttPacketType, MqttProtocolVersion, MqttQos, mqtt_protocol_version_4,
  mqtt_protocol_version_5, mqtt_qos_at_most_once, mqtt_qos_at_least_once, mqtt_qos_exactly_once,
  mqtt_none, mqtt_connect, mqtt_connack, mqtt_publish, mqtt_puback, mqtt_pubrec, mqtt_pubrel,
  mqtt_pubcomp, mqtt_subscribe, mqtt_suback, mqtt_unsubscribe, mqtt_unsuback, mqtt_pingreq,
  mqtt_pingresp, mqtt_disconnect, mqtt_auth, new_message,
}
use nymph_mqtt.Message.Exec.{
  Platform, Exec, ok, failed, out_of_range, undefined, ◌>>=◌, ◌>>◌, require, char_at, substr,
  substr_from, widen, read16,
}

abbrev pub high_nibble : ℕ → ℕ → Bool
high_nibble byte0 value = bit_and byte0 0xF0 == value

-- `(MqttPacketType) (byte0 & 0xF0)`.
unfoldable pub packet_type_of : ℕ → MqttPacketType
packet_type_of byte0 =
    let is = high_nibble byte0 in
    if is 0x10
    then mqtt_connect
    else if is 0x20
    then mqtt_connack
    else if is 0x30
    then mqtt_publish
    else if is 0x40
    then mqtt_puback
    else if is 0x50
    then mqtt_pubrec
    else if is 0x60
    then mqtt_pubrel
    else if is 0x70
    then mqtt_pubcomp
    else if is 0x80
    then mqtt_subscribe
    else if is 0x90
    then mqtt_suback
    else if is 0xA0
    then mqtt_unsubscribe
    else if is 0xB0
    then mqtt_unsuback
    else if is 0xC0
    then mqtt_pingreq
    else if is 0xD0
    then mqtt_pingresp
    else if is 0xE0
    then mqtt_disconnect
    else if is 0xF0
    then mqtt_auth
    else mqtt_none

-- `QoS` after the two tests of the flags, from what it was.
unfoldable pub qos_of : ℕ → MqttQos → MqttQos
qos_of byte0 old =
    if bit byte0 2
    then if bit byte0 1 then mqtt_qos_at_most_once else mqtt_qos_at_least_once
    else if bit byte0 1
    then mqtt_qos_exactly_once
    else old

unfoldable pub qos_cnt : ℕ → ℕ
qos_cnt byte0 = (if bit byte0 2 then 1 else 0) + (if bit byte0 1 then 1 else 0)

unfoldable pub read_flags : NmqttMessage → ℕ → NmqttMessage
read_flags m byte0 = record m {
  command = packet_type_of byte0;
  duplicate_message = bit byte0 3;
  qos = qos_of byte0 m.qos;
  retain_message = bit byte0 0;
}

unfoldable pub same_bytes : List ℕ → List ℕ → Bool
same_bytes [] [] = true
same_bytes [] (b ∷ bs) = false
same_bytes (a ∷ xs) [] = false
same_bytes (a ∷ xs) (b ∷ bs) = a == b && same_bytes xs bs

-- `{ 0x00, 0x04, 'M', 'Q', 'T', 'T' }`.
abbrev pub prot_match : List ℕ
prot_match = 0x00 ∷ 0x04 ∷ b'M' ∷ b'Q' ∷ b'T' ∷ b'T' ∷ []

-- The flags of a CONNECT message. In the line for `willQoS` the sum binds before the `&`.
unfoldable pub read_connect_flags : NmqttMessage → ℕ → NmqttMessage
read_connect_flags m connflags = record m {
  clean_session_flag = bit connflags 1;
  will_flag = bit connflags 2;
  will_retain_flag = bit connflags 5;
  username_flag = bit connflags 7;
  password_flag = bit connflags 6;
  will_qos = (connflags / 2 ^ 4 % 2 * 2 + connflags / 2 ^ 3) % 2;
}

-- Only the level 4 is stored: for 5 the source compares where it means to assign.
unfoldable pub set_level : NmqttMessage → ℕ → NmqttMessage
set_level m protver =
    if protver == 4 then record m { mqtt_version = mqtt_protocol_version_4 } else m

-- `len = (uint16_t) msg[idx]; idx += 2; s = msg.substr(idx, len); idx += len;`
unfoldable pub read_string : Platform → List ℕ → ℕ → Exec (List ℕ × ℕ)
read_string p msg idx = do
  c ← char_at msg idx
  let len = widen p 16 c
  s ← substr msg (idx + 2) len
  ok (s, idx + 2 + len)

unfoldable pub read_will : Platform → NmqttMessage → List ℕ → ℕ → Exec (NmqttMessage × ℕ)
read_will p m msg idx = do
  (topic, idx) ← read_string p msg idx
  (will, idx) ← read_string p msg idx
  ok (record m { will = will; will_topic = topic }, idx)

unfoldable pub read_username : Platform → NmqttMessage → List ℕ → ℕ → Exec (NmqttMessage × ℕ)
read_username p m msg idx = do
  (name, idx) ← read_string p msg idx
  ok (record m { username = name }, idx)

unfoldable pub read_password : Platform → NmqttMessage → List ℕ → ℕ → Exec (NmqttMessage × ℕ)
read_password p m msg idx = do
  (word, idx) ← read_string p msg idx
  ok (record m { password = word }, idx)

-- From the keep alive value on.
unfoldable pub parse_connect_fields : Platform → NmqttMessage → List ℕ → ℕ → Exec NmqttMessage
parse_connect_fields p m msg idx = do
  c ← char_at msg idx
  let m = record m { keep_alive = widen p 16 c }
  (id, idx) ← read_string p msg (idx + 2)
  let m = record m { client_id = id }
  (m, idx) ← if m.will_flag then read_will p m msg idx else ok (m, idx)
  (m, idx) ← if m.username_flag then read_username p m msg idx else ok (m, idx)
  (m, idx) ← if m.password_flag then read_password p m msg idx else ok (m, idx)
  ok m

unfoldable pub parse_connect : Platform → NmqttMessage → List ℕ → ℕ → Exec NmqttMessage
parse_connect p m msg idx = do
  prot_name ← substr msg idx 6
  require (same_bytes prot_name prot_match) m
  protver ← char_at msg (idx + 6)
  require (protver == 4 || protver == 5) m
  connflags ← char_at msg (idx + 7)
  let m = read_connect_flags (set_level m protver) connflags
  require (not (bit connflags 0)) m
  parse_connect_fields p m msg (idx + 8)

unfoldable pub parse_connack : Platform → NmqttMessage → List ℕ → ℕ → Exec NmqttMessage
parse_connack p m msg idx = do
  present ← char_at msg idx
  code ← char_at msg (idx + 1)
  ok (record m { session_present = not (present == 0); reason_code = widen p 32 code })

unfoldable pub read_packet_id : Platform → NmqttMessage → List ℕ → ℕ → Exec (NmqttMessage × ℕ)
read_packet_id p m msg idx = do
  id_be ← read16 p msg idx
  ok (record m { packet_id = to_host m.bytebauble 2 id_be bb_be }, idx + 2)

unfoldable pub skip_properties : MqttProtocolVersion → List ℕ → ℕ → Exec ℕ
skip_properties mqtt_protocol_version_4 msg idx = ok idx
skip_properties mqtt_protocol_version_5 msg idx = do properties ← char_at msg idx; ok (idx + 1)

unfoldable pub read_payload : NmqttMessage → List ℕ → ℕ → Exec NmqttMessage
read_payload m msg idx = do rest ← substr_from msg idx; ok (record m { payload = rest })

-- What follows the topic.
unfoldable pub parse_publish_tail : Platform → NmqttMessage → List ℕ → ℕ → ℕ → Exec NmqttMessage
parse_publish_tail p m msg idx qos_cnt = do
  (m, idx) ← if ltb 0 qos_cnt then read_packet_id p m msg idx else ok (m, idx)
  idx ← skip_properties m.mqtt_version msg idx
  if idx + 1 == length msg then ok m else read_payload m msg idx

unfoldable pub parse_publish : Platform → NmqttMessage → List ℕ → ℕ → ℕ → Exec NmqttMessage
parse_publish p m msg idx qos_cnt = do
  len_be ← read16 p msg idx
  let strlen = to_host m.bytebauble 2 len_be bb_be
  topic ← substr msg (idx + 2) strlen
  parse_publish_tail p (record m { topic = topic }) msg (idx + 2 + strlen) qos_cnt

-- The `switch`. The other types have no variable header that is read.
unfoldable pub parse_body :
    MqttPacketType → Platform → NmqttMessage → List ℕ → ℕ → ℕ → Exec NmqttMessage
parse_body mqtt_connect p m msg idx qos_cnt = parse_connect p m msg idx
parse_body mqtt_connack p m msg idx qos_cnt = parse_connack p m msg idx
parse_body mqtt_publish p m msg idx qos_cnt = parse_publish p m msg idx qos_cnt
parse_body type p m msg idx qos_cnt = ok m

-- From the second byte on. `pblen + 1 + messageLength` is a sum of 32 bits.
unfoldable pub parse_rest : Platform → NmqttMessage → List ℕ → ℕ → ℕ → Exec NmqttMessage
parse_rest p m msg byte0 byte1 =
    let (pblen, message_length) = read_packed_int (widen p 32 byte1) in
    let m = record m { message_length = message_length } in
    do
      require ((pblen + 1 + message_length) % 2 ^ 32 == length msg) m
      m ← parse_body m.command p m msg (1 + pblen) (qos_cnt byte0)
      ok (record m { parse_good = true })

unfoldable pub parse_message : Platform → NmqttMessage → List ℕ → Exec NmqttMessage
parse_message p m msg =
    let m = record m { parse_good = false } in
    if ltb (length msg) 2
    then failed m
    else parse_rest p (read_flags m (get_or msg 0 0)) msg (get_or msg 0 0) (get_or msg 1 0)

-- `NmqttMessage(std::string msg)`: the object, whatever `parseMessage` returns.
abbrev pub object_of : Exec NmqttMessage → Exec NmqttMessage
object_of (ok m) = ok m
object_of (failed m) = ok m
object_of out_of_range = out_of_range
object_of undefined = undefined

unfoldable pub message_of_string : Platform → NmqttMessage → List ℕ → Exec NmqttMessage
message_of_string p junk msg = object_of (parse_message p (new_message p.host junk) msg)
