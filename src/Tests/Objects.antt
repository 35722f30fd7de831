-- ===== src/Tests/Objects.antt =====
-- Concrete platforms and messages.
use nymph_mqtt.Common.{true, false, [], ◌∷◌}
use nymph_mqtt.ByteBauble.Endian.{bb_le, bb_be}
use nymph_mqtt.Message.{
  NmqttMessage, mqtt_connect, mqtt_connack, mqtt_publish, mqtt_pingreq, mqtt_qos_at_most_once,
  mqtt_qos_at_least_once, mqtt_protocol_version_4, new_message, message_of_type, set_topic,
  set_payload, set_client_id, set_credentials, set_will, set_qos,
}
use nymph_mqtt.Message.Exec.{Platform}

-- What the memory held before an object was made in it.
abbrev pub junk : NmqttMessage
junk = record {
  mqtt_version = mqtt_protocol_version_4;
  command = mqtt_connect;
  duplicate_message = false;
  qos = mqtt_qos_at_most_once;
  retain_message = false;
  packet_id = 7;
  message_length = 0;
  topic = [];
  session_present = false;
  reason_code = 0;
  connect_flags = 0;
  clean_session_flag = false;
  will_flag = false;
  will_retain_flag = false;
  username_flag = false;
  password_flag = false;
  will_qos = 0;
  will_qos1 = false;
  will_qos2 = false;
  will = [];
  will_topic = [];
  client_id = [];
  username = [];
  password = [];
  keep_alive = 0;
  empty = true;
  parse_good = false;
  payload = 9 ∷ [];
  bytebauble = record { global_endian = bb_le; host_endian = bb_le };
}

abbrev pub x86 : Platform
x86 = record { host = bb_le; char_signed = true }

abbrev pub sparc : Platform
sparc = record { host = bb_be; char_signed = true }

-- An object that receives.
abbrev pub receiver : NmqttMessage
receiver = new_message bb_le junk

abbrev pub publisher : NmqttMessage
publisher =
    set_payload (set_topic (message_of_type bb_le junk mqtt_publish) (b'a' ∷ [])) (b'h' ∷ b'i' ∷ [])

abbrev pub acknowledged : NmqttMessage
acknowledged = set_qos publisher mqtt_qos_at_least_once

abbrev pub joining : NmqttMessage
joining = set_client_id (message_of_type bb_le junk mqtt_connect) (b'm' ∷ b'e' ∷ [])

abbrev pub joining_with_will : NmqttMessage
joining_with_will =
    set_credentials (set_will joining (b't' ∷ []) (b'w' ∷ []) 1 true) (b'u' ∷ []) (b'p' ∷ [])

abbrev pub ping : NmqttMessage
ping = message_of_type bb_le junk mqtt_pingreq

abbrev pub accepting : NmqttMessage
accepting = message_of_type bb_le junk mqtt_connack
