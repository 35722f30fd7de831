-- ===== src/Message/Serialize/Publish.antt =====
-- What `serialize` makes of a PUBLISH message.
use nymph_mqtt.Common.{◌^◌, ◌<◌, ◌≡◌, refl, ◌∙◌, ◌++◌, append_assoc, length, arith}
use nymph_mqtt.ByteBauble.Endian.{bb_le}
use nymph_mqtt.ByteBauble.Write.{IsEncodable}
use nymph_mqtt.Message.{
  NmqttMessage, MqttProtocolVersion, MqttQos, mqtt_publish, mqtt_protocol_version_4,
  mqtt_protocol_version_5, mqtt_qos_at_most_once, mqtt_qos_at_least_once, mqtt_qos_exactly_once,
}
use nymph_mqtt.Message.Exec.{Platform}
use nymph_mqtt.Message.Packet.{packet, publish_byte, publish_body, packet_identifier, no_properties}
use nymph_mqtt.Message.Serialize.{
  publish_b0, publish_id, zero_property, publish_header, serialize_body, prepared, serialize,
}
use nymph_mqtt.Message.Serialize.Fields.{IsReady, u16_field-big16, output_of-packet, serialize_as}

-- A PUBLISH message that fits its fields, on its host.
pub record IsPublish (p : Platform) (m : NmqttMessage) : Type 0 where
  pub command : m.command ≡ mqtt_publish
  pub host : m.bytebauble.host_endian ≡ p.host
  pub topic_fits : length m.topic < 2 ^ 16
  pub id_fits : m.packet_id < 2 ^ 16

first_byte :
    (m : NmqttMessage) → publish_b0 m ≡ publish_byte m.duplicate_message m.qos m.retain_message
unfolding publish_b0
first_byte m = ground arith

id_part :
    (p : Platform) (m : NmqttMessage) (q : MqttQos)
    → IsReady p m
    → m.packet_id < 2 ^ 16
    → publish_id p m q ≡ packet_identifier q m.packet_id
unfolding publish_id
id_part p m mqtt_qos_at_most_once ready h = refl
id_part p m mqtt_qos_at_least_once ready h = u16_field-big16 p m m.packet_id ready h
id_part p m mqtt_qos_exactly_once ready h = u16_field-big16 p m m.packet_id ready h

property_part : (v : MqttProtocolVersion) → zero_property v ≡ no_properties v
unfolding zero_property
property_part mqtt_protocol_version_4 = refl
property_part mqtt_protocol_version_5 = refl

header_part :
    (p : Platform) (m : NmqttMessage)
    → IsReady p m
    → length m.topic < 2 ^ 16
    → m.packet_id < 2 ^ 16
    → publish_header p m ++ m.payload
      ≡ publish_body m.mqtt_version m.qos m.topic m.packet_id m.payload
unfolding publish_header
header_part p m ready t i =
    rw
      (
        u16_field-big16 p m (length m.topic) ready t,
        id_part p m m.qos ready i,
        property_part m.mqtt_version,
      )
      (simp append_assoc)

-- On a little-endian host a PUBLISH message becomes the packet of the standard, with the packet
-- identifier at levels 1 and 2, if its length is one that `writePackedInt` encodes.
pub serialize-publish :
    (p : Platform) (m : NmqttMessage)
    → p.host ≡ bb_le
    → IsPublish p m
    → IsEncodable (length (publish_body m.mqtt_version m.qos m.topic m.packet_id m.payload))
    → (serialize p m).0
      ≡ packet
          (publish_byte m.duplicate_message m.qos m.retain_message)
          (publish_body m.mqtt_version m.qos m.topic m.packet_id m.payload)
unfolding serialize_body
serialize-publish p m le is fits =
    let ready : IsReady p (prepared m) = record { global = refl; host = is.host } in
    let body = header_part p (prepared m) ready is.topic_fits is.id_fits in
    serialize_as p m mqtt_publish is.command
    ∙ output_of-packet p (serialize_body mqtt_publish p (prepared m)) le (rw body fits)
    ∙ rw (body, first_byte (prepared m))
