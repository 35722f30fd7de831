-- ===== src/Message/Serialize.antt =====
-- `serialize` of src/cpp/message.cpp.
pub mod Fields
pub mod Publish
pub mod Connect
pub mod Short
use nymph_mqtt.Common.{ℕ, ◌+◌, ◌%◌, ◌^◌, Bool, List, [], ◌∷◌, ◌++◌, length, take, if◌then◌else◌}
use nymph_mqtt.ByteBauble.{write_packed_int}
use nymph_mqtt.ByteBauble.Endian.{bb_be, store, to_global, set_global_endianness}
use nymph_mqtt.Message.{
  NmqttMessage, MqttPacketType, MqttProtocolVersion, MqttQos, mqtt_protocol_version_4,
  mqtt_protocol_version_5, mqtt_qos_at_most_once, mqtt_qos_at_least_once, mqtt_qos_exactly_once,
  mqtt_connect, mqtt_connack, mqtt_publish, mqtt_subscribe, mqtt_unsubscribe, packet_type_value,
}
use nymph_mqtt.Message.Exec.{Platform}

-- `uint16_t x = bytebauble.toGlobal(v, bytebauble.getHostEndian()); s.append((char*) &x, 2);` for a
-- `v` of type uint16_t.
unfoldable pub u16_field : Platform → NmqttMessage → ℕ → List ℕ
u16_field p m v = store p.host 2 (to_global m.bytebauble 2 (v % 2 ^ 16) m.bytebauble.host_endian)

-- The same for a `v` of type size_t: it is converted at its 8 bytes, and then cut to two.
unfoldable pub size_t_field : Platform → NmqttMessage → ℕ → List ℕ
size_t_field p m v = store p.host 2 (to_global m.bytebauble 8 v m.bytebauble.host_endian % 2 ^ 16)

-- What the cases of the `switch` leave: the first byte, the variable header, and the payload.
pub record Parts : Type 0 where
  pub b0 : ℕ
  pub var_header : List ℕ
  pub payload : List ℕ

unfoldable pub level_of : MqttProtocolVersion → ℕ
level_of mqtt_protocol_version_5 = 5
level_of mqtt_protocol_version_4 = 4

pub data MqttConnectFlags : Type 0 where
  mqtt_connect_clean_start mqtt_connect_will mqtt_connect_will_qos_l1 : MqttConnectFlags
  mqtt_connect_will_qos_l2 mqtt_connect_will_retain : MqttConnectFlags
  mqtt_connect_password mqtt_connect_username : MqttConnectFlags

abbrev pub connect_flags_value : MqttConnectFlags → ℕ
connect_flags_value mqtt_connect_clean_start = 0x02
connect_flags_value mqtt_connect_will = 0x04
connect_flags_value mqtt_connect_will_qos_l1 = 0x08
connect_flags_value mqtt_connect_will_qos_l2 = 0x10
connect_flags_value mqtt_connect_will_retain = 0x20
connect_flags_value mqtt_connect_password = 0x40
connect_flags_value mqtt_connect_username = 0x80

-- `connectFlags += flag;` under an `if`, on a uint8_t.
abbrev pub add_flag : Bool → ℕ → ℕ → ℕ
add_flag test flag flags = if test then (flags + flag) % 256 else flags

unfoldable pub connect_flags_of : NmqttMessage → ℕ
connect_flags_of m =
    let f0 = add_flag m.clean_session_flag (connect_flags_value mqtt_connect_clean_start) 0 in
    let f1 = add_flag m.will_flag (connect_flags_value mqtt_connect_will) f0 in
    let f2 = add_flag m.will_qos1 (connect_flags_value mqtt_connect_will_qos_l1) f1 in
    let f3 = add_flag m.will_qos2 (connect_flags_value mqtt_connect_will_qos_l2) f2 in
    let f4 = add_flag m.will_retain_flag (connect_flags_value mqtt_connect_will_retain) f3 in
    let f5 = add_flag m.password_flag (connect_flags_value mqtt_connect_password) f4 in
    add_flag m.username_flag (connect_flags_value mqtt_connect_username) f5

unfoldable pub connect_properties : Platform → MqttProtocolVersion → List ℕ
connect_properties p mqtt_protocol_version_4 = []
connect_properties p mqtt_protocol_version_5 = 0x05 ∷ 0x11 ∷ store p.host 4 0x0A

unfoldable pub connect_header : Platform → NmqttMessage → List ℕ
unfolding connect_properties
connect_header p m =
    u16_field p m 0x0004
    ++ (b'M' ∷ b'Q' ∷ b'T' ∷ b'T' ∷ level_of m.mqtt_version ∷ connect_flags_of m ∷ []
        ++ (u16_field p m 60 ++ connect_properties p m.mqtt_version))

unfoldable pub will_part : Platform → NmqttMessage → List ℕ
will_part p m =
    size_t_field p m (length m.will_topic)
    ++ (m.will_topic ++ (size_t_field p m (length m.will) ++ m.will))

-- The user name goes out under the length of the will topic.
unfoldable pub connect_payload : Platform → NmqttMessage → List ℕ
connect_payload p m =
    m.payload
    ++ (u16_field p m (length m.client_id)
        ++ (m.client_id
            ++ ((if m.will_flag then will_part p m else [])
                ++ ((if m.username_flag
                      then size_t_field p m (length m.will_topic) ++ m.username
                      else [])
                    ++ (if m.password_flag
                        then size_t_field p m (length m.password) ++ m.password
                        else [])))))

unfoldable pub qos_flag : MqttQos → ℕ
qos_flag mqtt_qos_at_most_once = 0
qos_flag mqtt_qos_at_least_once = 2
qos_flag mqtt_qos_exactly_once = 4

unfoldable pub publish_b0 : NmqttMessage → ℕ
unfolding qos_flag
publish_b0 m =
    (0x30
      + (if m.duplicate_message then 8 else 0)
      + qos_flag m.qos
      + (if m.retain_message then 1 else 0))
    % 256

unfoldable pub publish_id : Platform → NmqttMessage → MqttQos → List ℕ
publish_id p m mqtt_qos_at_most_once = []
publish_id p m mqtt_qos_at_least_once = u16_field p m m.packet_id
publish_id p m mqtt_qos_exactly_once = u16_field p m m.packet_id

unfoldable pub zero_property : MqttProtocolVersion → List ℕ
zero_property mqtt_protocol_version_4 = []
zero_property mqtt_protocol_version_5 = 0x00 ∷ []

unfoldable pub publish_header : Platform → NmqttMessage → List ℕ
publish_header p m =
    u16_field p m (length m.topic)
    ++ (m.topic ++ (publish_id p m m.qos ++ zero_property m.mqtt_version))

unfoldable pub subscribe_parts : Platform → NmqttMessage → Parts
subscribe_parts p m = record {
  b0 = 0x82;
  var_header = u16_field p m 10 ++ zero_property m.mqtt_version;
  payload = m.payload ++ (u16_field p m (length m.topic) ++ (m.topic ++ 0 ∷ []));
}

unfoldable pub unsubscribe_parts : Platform → NmqttMessage → Parts
unsubscribe_parts p m = record {
  b0 = 0xA2;
  var_header = u16_field p m 10 ++ u16_field p m m.packet_id;
  payload = m.payload ++ (size_t_field p m (length m.topic) ++ m.topic);
}

-- The `switch`. The other types have no variable header that is written, and keep the payload.
unfoldable pub serialize_body : MqttPacketType → Platform → NmqttMessage → Parts
unfolding packet_type_value
serialize_body mqtt_connect p m = record {
  b0 = 0x10;
  var_header = connect_header p m;
  payload = connect_payload p m;
}
serialize_body mqtt_connack p m = record {
  b0 = 0x20;
  var_header = 0x00 ∷ 0x00 ∷ [];
  payload = m.payload;
}
serialize_body mqtt_publish p m = record {
  b0 = publish_b0 m;
  var_header = publish_header p m;
  payload = m.payload;
}
serialize_body mqtt_subscribe p m = subscribe_parts p m
serialize_body mqtt_unsubscribe p m = unsubscribe_parts p m
serialize_body type p m = record {
  b0 = packet_type_value type;
  var_header = [];
  payload = m.payload;
}

-- The first byte, the length as a packed integer, and the rest. `msgLenPacked` is not set before
-- `writePackedInt`; none of its bytes is used where that leaves it so.
unfoldable pub output_of : Platform → Parts → List ℕ
output_of p parts =
    let msg_len = (length parts.var_header + length parts.payload) % 2 ^ 32 in
    let (len_bytes, packed) = write_packed_int msg_len 0 in
    parts.b0 ∷ (take len_bytes (store p.host 4 packed) ++ (parts.var_header ++ parts.payload))

-- The object after `bytebauble.setGlobalEndianness(BB_BE)`.
abbrev pub prepared : NmqttMessage → NmqttMessage
prepared m = record m { bytebauble = set_global_endianness m.bytebauble bb_be }

-- The binary message, and the object afterwards: the payload that was built stays in it.
unfoldable pub serialize : Platform → NmqttMessage → List ℕ × NmqttMessage
serialize p m =
    let parts = serialize_body m.command p (prepared m) in
    (output_of p parts, record (prepared m) { payload = parts.payload })
