-- ===== src/Message/RoundTrip/Bare.antt =====
-- The messages without fields, from `serialize` to `parseMessage`.
use nymph_mqtt.Common.{◌≡◌, ap, ◌∙◌, true, false, [], ◌∷◌, arith}
use nymph_mqtt.Message.{
  NmqttMessage, MqttPacketType, mqtt_connect, mqtt_connack, mqtt_publish, mqtt_subscribe,
  mqtt_unsubscribe, packet_type_value,
}
use nymph_mqtt.Message.Exec.{Platform, ok}
use nymph_mqtt.Message.Parse.{packet_type_of, qos_of, read_flags, parse_body, parse_message}
use nymph_mqtt.Message.Parse.Length.{parse_message_short}
use nymph_mqtt.Message.Serialize.{serialize}
use nymph_mqtt.Message.Serialize.Short.{IsBare, serialize_bare}

-- The object after such a message: all but the flags, the type and the marks is as before.
abbrev pub received_bare : NmqttMessage → MqttPacketType → NmqttMessage
received_bare m type = record m {
  command = type;
  duplicate_message = false;
  retain_message = false;
  message_length = 0;
  parse_good = true;
}

pub read_bare :
    (type : MqttPacketType) (p : Platform) (m : NmqttMessage)
    → IsBare type
    → parse_message p m (packet_type_value type ∷ 0 ∷ []) ≡ ok (received_bare m type)
unfolding read_flags packet_type_of packet_type_value qos_of parse_body
read_bare mqtt_connect p m h = elim h [ ]
read_bare mqtt_connack p m h = elim h [ ]
read_bare mqtt_publish p m h = elim h [ ]
read_bare mqtt_subscribe p m h = elim h [ ]
read_bare mqtt_unsubscribe p m h = elim h [ ]
read_bare _ p m h = parse_message_short p m _ [] (omega arith)

-- A message that has no fields, such as PINGREQ, PINGRESP and DISCONNECT, is read back on every
-- platform, whatever the host that wrote it.
pub parse_message-serialize_bare :
    (p q : Platform) (m sent : NmqttMessage) (type : MqttPacketType)
    → sent.command ≡ type
    → IsBare type
    → sent.payload ≡ []
    → parse_message q m (serialize p sent).0 ≡ ok (received_bare m type)
parse_message-serialize_bare p q m sent type e bare none =
    ap (parse_message q m) (serialize_bare p sent type e bare none) ∙ read_bare type q m bare
