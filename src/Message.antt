-- ===== src/Message.antt =====
-- src/cpp/message.h and the small methods of src/cpp/message.cpp: the message object.
pub mod Exec
pub mod Packet
pub mod Parse
pub mod Header
pub mod Serialize
pub mod RoundTrip
use nymph_mqtt.Common.{ℕ, Bool, true, false, ◌&&◌, ◌==◌, List, [], if◌then◌else◌}
use nymph_mqtt.ByteBauble.Endian.{BbEndianness, ByteBauble, byte_bauble}

pub data MqttProtocolVersion : Type 0 where
  mqtt_protocol_version_4 mqtt_protocol_version_5 : MqttProtocolVersion

-- `mqtt_none` is the value 0, which is no enumerator and which a cast from a byte can give.
pub data MqttPacketType : Type 0 where
  mqtt_none mqtt_connect mqtt_connack mqtt_publish mqtt_puback mqtt_pubrec mqtt_pubrel :
      MqttPacketType
  mqtt_pubcomp mqtt_subscribe mqtt_suback mqtt_unsubscribe mqtt_unsuback : MqttPacketType
  mqtt_pingreq mqtt_pingresp mqtt_disconnect mqtt_auth : MqttPacketType

unfoldable pub packet_type_value : MqttPacketType → ℕ
packet_type_value mqtt_none = 0x00
packet_type_value mqtt_connect = 0x10
packet_type_value mqtt_connack = 0x20
packet_type_value mqtt_publish = 0x30
packet_type_value mqtt_puback = 0x40
packet_type_value mqtt_pubrec = 0x50
packet_type_value mqtt_pubrel = 0x60
packet_type_value mqtt_pubcomp = 0x70
packet_type_value mqtt_subscribe = 0x80
packet_type_value mqtt_suback = 0x90
packet_type_value mqtt_unsubscribe = 0xA0
packet_type_value mqtt_unsuback = 0xB0
packet_type_value mqtt_pingreq = 0xC0
packet_type_value mqtt_pingresp = 0xD0
packet_type_value mqtt_disconnect = 0xE0
packet_type_value mqtt_auth = 0xF0

pub data MqttQos : Type 0 where
  mqtt_qos_at_most_once mqtt_qos_at_least_once mqtt_qos_exactly_once : MqttQos

-- The members of the class, less the name for its log entries. Strings are lists of bytes;
-- `reason_code` is the number behind the enumeration.
pub record NmqttMessage : Type 0 where
  pub mqtt_version : MqttProtocolVersion
  pub command : MqttPacketType
  pub duplicate_message : Bool
  pub qos : MqttQos
  pub retain_message : Bool
  pub packet_id : ℕ
  pub message_length : ℕ
  pub topic : List ℕ
  pub session_present : Bool
  pub reason_code : ℕ
  pub connect_flags : ℕ
  pub clean_session_flag : Bool
  pub will_flag : Bool
  pub will_retain_flag : Bool
  pub username_flag : Bool
  pub password_flag : Bool
  pub will_qos : ℕ
  pub will_qos1 : Bool
  pub will_qos2 : Bool
  pub will : List ℕ
  pub will_topic : List ℕ
  pub client_id : List ℕ
  pub username : List ℕ
  pub password : List ℕ
  pub keep_alive : ℕ
  pub empty : Bool
  pub parse_good : Bool
  pub payload : List ℕ
  pub bytebauble : ByteBauble

-- `NmqttMessage()`: the members that the class gives no value keep what the memory held, `junk`.
unfoldable pub new_message : BbEndianness → NmqttMessage → NmqttMessage
new_message host junk = record junk {
  mqtt_version = mqtt_protocol_version_4;
  duplicate_message = false;
  qos = mqtt_qos_at_most_once;
  retain_message = false;
  topic = [];
  will = [];
  will_topic = [];
  client_id = [];
  username = [];
  password = [];
  empty = true;
  parse_good = false;
  payload = [];
  bytebauble = byte_bauble host;
}

connect_defaults : NmqttMessage → NmqttMessage
connect_defaults m = record m {
  clean_session_flag = true;
  will_flag = false;
  will_retain_flag = false;
  username_flag = false;
  password_flag = false;
  will_qos1 = false;
  will_qos2 = false;
}

unfoldable pub same_type : MqttPacketType → MqttPacketType → Bool
unfolding packet_type_value
same_type s t = packet_type_value s == packet_type_value t

is_version_4 : MqttProtocolVersion → Bool
is_version_4 mqtt_protocol_version_4 = true
is_version_4 mqtt_protocol_version_5 = false

-- The object afterwards, and what is returned.
unfoldable pub create_message : NmqttMessage → MqttPacketType → NmqttMessage × Bool
unfolding same_type is_version_4 connect_defaults
create_message m type =
    let m' = if same_type type mqtt_connect then connect_defaults m else m in
    if same_type type mqtt_auth && is_version_4 m.mqtt_version
    then (m, false)
    else (record m' { command = type }, true)

-- `NmqttMessage(MqttPacketType type)`.
unfoldable pub message_of_type : BbEndianness → NmqttMessage → MqttPacketType → NmqttMessage
unfolding new_message create_message
message_of_type host junk type =
    let (m, created) = create_message (new_message host junk) type in
    if created then m else record m { parse_good = false }

unfoldable pub set_credentials : NmqttMessage → List ℕ → List ℕ → NmqttMessage
set_credentials m user pass = record m {
  username_flag = true;
  password_flag = true;
  username = user;
  password = pass;
}

unfoldable pub set_will : NmqttMessage → List ℕ → List ℕ → ℕ → Bool → NmqttMessage
set_will m topic will qos retain =
    let m' = record m {
      will_flag = true;
      will_retain_flag = retain;
      will_qos = qos;
      will = will;
      will_topic = topic;
    } in
    if qos == 1
    then record m' { will_qos1 = true }
    else if qos == 2
    then record m' { will_qos2 = true }
    else m'

abbrev pub set_client_id : NmqttMessage → List ℕ → NmqttMessage
set_client_id m id = record m { client_id = id }

abbrev pub set_qos : NmqttMessage → MqttQos → NmqttMessage
set_qos m q = record m { qos = q }

abbrev pub set_retain : NmqttMessage → Bool → NmqttMessage
set_retain m retain = record m { retain_message = retain }

abbrev pub set_topic : NmqttMessage → List ℕ → NmqttMessage
set_topic m topic = record m { topic = topic }

abbrev pub set_payload : NmqttMessage → List ℕ → NmqttMessage
set_payload m payload = record m { payload = payload }

abbrev pub set_protocol_version : NmqttMessage → MqttProtocolVersion → NmqttMessage
set_protocol_version m version = record m { mqtt_version = version }

abbrev pub set_duplicate_message : NmqttMessage → Bool → NmqttMessage
set_duplicate_message m dup = record m { duplicate_message = dup }

unfoldable pub valid : NmqttMessage → Bool
valid m = m.parse_good
