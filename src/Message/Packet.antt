-- ===== src/Message/Packet.antt =====
-- MQTT packets as the standard describes them, apart from the code.
use nymph_mqtt.Common.{ℕ, ◌+◌, ◌*◌, ◌/◌, ◌%◌, Bool, List, [], ◌∷◌, ◌++◌, length, if◌then◌else◌}
use nymph_mqtt.ByteBauble.Write.{encode_length}
use nymph_mqtt.Message.{
  MqttProtocolVersion, mqtt_protocol_version_4, mqtt_protocol_version_5, MqttQos,
  mqtt_qos_at_most_once, mqtt_qos_at_least_once, mqtt_qos_exactly_once,
}

-- A number of 16 bits, the high byte first.
abbrev pub big16 : ℕ → List ℕ
big16 v = (v / 256) ∷ (v % 256) ∷ []

-- A string behind its length.
abbrev pub utf8_string : List ℕ → List ℕ
utf8_string s = big16 (length s) ++ s

-- The fixed header and what it counts.
abbrev pub packet : ℕ → List ℕ → List ℕ
packet b0 body = b0 ∷ (encode_length 3 (length body) ++ body)

abbrev pub level : MqttQos → ℕ
level mqtt_qos_at_most_once = 0
level mqtt_qos_at_least_once = 1
level mqtt_qos_exactly_once = 2

abbrev pub flag : Bool → ℕ
flag b = if b then 1 else 0

abbrev pub publish_byte : Bool → MqttQos → Bool → ℕ
publish_byte dup qos retain = 0x30 + 8 * flag dup + 2 * level qos + flag retain

-- The packet identifier stands in a PUBLISH packet of level 1 or 2 only.
abbrev pub packet_identifier : MqttQos → ℕ → List ℕ
packet_identifier mqtt_qos_at_most_once id = []
packet_identifier mqtt_qos_at_least_once id = big16 id
packet_identifier mqtt_qos_exactly_once id = big16 id

-- From version 5 on, the length of the properties: none are sent.
abbrev pub no_properties : MqttProtocolVersion → List ℕ
no_properties mqtt_protocol_version_4 = []
no_properties mqtt_protocol_version_5 = 0 ∷ []

abbrev pub publish_body : MqttProtocolVersion → MqttQos → List ℕ → ℕ → List ℕ → List ℕ
publish_body version qos topic id payload =
    utf8_string topic ++ (packet_identifier qos id ++ (no_properties version ++ payload))
