-- ===== src/Message/RoundTrip/Flags.antt =====
-- The first byte of a PUBLISH packet, as `parseMessage` reads it.
use nymph_mqtt.Common.{ℕ, ◌≡◌, refl, Bool, true, false, arith}
use nymph_mqtt.Message.{
  NmqttMessage, MqttQos, mqtt_publish, mqtt_qos_at_most_once, mqtt_qos_at_least_once,
  mqtt_qos_exactly_once,
}
use nymph_mqtt.Message.Packet.{publish_byte}
use nymph_mqtt.Message.Parse.{packet_type_of, qos_of, qos_cnt, read_flags}

-- The level that is read: 1 and 2 change places, and at 0 the object keeps the level that it had.
abbrev pub received_qos : MqttQos → MqttQos → MqttQos
received_qos old mqtt_qos_at_most_once = old
received_qos old mqtt_qos_at_least_once = mqtt_qos_exactly_once
received_qos old mqtt_qos_exactly_once = mqtt_qos_at_least_once

abbrev pub id_count : MqttQos → ℕ
id_count mqtt_qos_at_most_once = 0
id_count mqtt_qos_at_least_once = 1
id_count mqtt_qos_exactly_once = 1

pub qos_cnt_publish :
    (dup : Bool) (qos : MqttQos) (retain : Bool)
    → qos_cnt (publish_byte dup qos retain) ≡ id_count qos
unfolding qos_cnt
qos_cnt_publish dup mqtt_qos_at_most_once retain = ground arith
qos_cnt_publish dup mqtt_qos_at_least_once retain = ground arith
qos_cnt_publish dup mqtt_qos_exactly_once retain = ground arith

pub read_flags_publish :
    (m : NmqttMessage) (dup : Bool) (qos : MqttQos) (retain : Bool)
    → read_flags m (publish_byte dup qos retain) ≡ record m {
      command = mqtt_publish;
      duplicate_message = dup;
      qos = received_qos m.qos qos;
      retain_message = retain;
    }
unfolding read_flags packet_type_of qos_of
read_flags_publish m true mqtt_qos_at_most_once true = refl
read_flags_publish m true mqtt_qos_at_most_once false = refl
read_flags_publish m false mqtt_qos_at_most_once true = refl
read_flags_publish m false mqtt_qos_at_most_once false = refl
read_flags_publish m true mqtt_qos_at_least_once true = refl
read_flags_publish m true mqtt_qos_at_least_once false = refl
read_flags_publish m false mqtt_qos_at_least_once true = refl
read_flags_publish m false mqtt_qos_at_least_once false = refl
read_flags_publish m true mqtt_qos_exactly_once true = refl
read_flags_publish m true mqtt_qos_exactly_once false = refl
read_flags_publish m false mqtt_qos_exactly_once true = refl
read_flags_publish m false mqtt_qos_exactly_once false = refl
