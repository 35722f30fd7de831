-- ===== src/Message/RoundTrip/Publish.antt =====
-- A PUBLISH message from `serialize` to `parseMessage`.
use nymph_mqtt.Common.{
  ℕ, ◌^◌, ◌<◌, ◌≡◌, ap, ◌∙◌, sym, true, false, List, [], ◌∷◌, ◌++◌, length, arith,
}
use nymph_mqtt.ByteBauble.Endian.{bb_le}
use nymph_mqtt.ByteBauble.Write.{IsEncodable}
use nymph_mqtt.Message.{
  NmqttMessage, MqttProtocolVersion, MqttQos, mqtt_publish, mqtt_qos_at_most_once,
  mqtt_qos_at_least_once, mqtt_qos_exactly_once,
}
use nymph_mqtt.Message.Exec.{Platform, ok}
use nymph_mqtt.Message.Packet.{packet, publish_byte, publish_body, utf8_string}
use nymph_mqtt.Message.Parse.{parse_publish, parse_body, parse_message}
use nymph_mqtt.Message.Parse.Length.{finished, parse_message_short, short_packet}
use nymph_mqtt.Message.Parse.Publish.{
  payload_after, parse_publish_topic, parse_publish_tail_plain, parse_publish_tail_id,
}
use nymph_mqtt.Message.Serialize.{serialize}
use nymph_mqtt.Message.Serialize.Publish.{IsPublish, serialize-publish}
use nymph_mqtt.Message.RoundTrip.Flags.{received_qos, id_count, qos_cnt_publish, read_flags_publish}

-- The identifier is read at the levels that send it.
abbrev pub received_id : ℕ → MqttQos → ℕ → ℕ
received_id old mqtt_qos_at_most_once id = old
received_id old mqtt_qos_at_least_once id = id
received_id old mqtt_qos_exactly_once id = id

-- What the object `m` becomes when it reads the message of the object `sent`.
abbrev pub received : NmqttMessage → NmqttMessage → NmqttMessage
received m sent = record m {
  command = mqtt_publish;
  duplicate_message = sent.duplicate_message;
  qos = received_qos m.qos sent.qos;
  retain_message = sent.retain_message;
  packet_id = received_id m.packet_id sent.qos sent.packet_id;
  message_length =
      length (publish_body sent.mqtt_version sent.qos sent.topic sent.packet_id sent.payload);
  topic = sent.topic;
  parse_good = true;
  payload = payload_after m.payload sent.payload;
}

body_read :
    (p : Platform) (m : NmqttMessage) (pre topic payload : List ℕ) (id : ℕ) (q : MqttQos)
    → m.bytebauble.host_endian ≡ p.host
    → length topic < 2 ^ 16
    → id < 2 ^ 16
    → parse_publish p m
        (pre ++ publish_body m.mqtt_version q topic id payload)
        (length pre)
        (id_count q)
      ≡ ok (record m {
        packet_id = received_id m.packet_id q id;
        topic = topic;
        payload = payload_after m.payload payload;
      })
body_read p m pre topic payload id mqtt_qos_at_most_once host t i =
    parse_publish_topic p m pre topic _ 0 host t
    ∙ parse_publish_tail_plain p (record m { topic = topic }) (pre ++ utf8_string topic) payload
body_read p m pre topic payload id mqtt_qos_at_least_once host t i =
    parse_publish_topic p m pre topic _ 1 host t
    ∙ parse_publish_tail_id p (record m { topic = topic }) (pre ++ utf8_string topic) payload id 1
        host i (omega arith)
body_read p m pre topic payload id mqtt_qos_exactly_once host t i =
    parse_publish_topic p m pre topic _ 1 host t
    ∙ parse_publish_tail_id p (record m { topic = topic }) (pre ++ utf8_string topic) payload id 1
        host i (omega arith)

body_read_version :
    (p : Platform) (m : NmqttMessage) (pre topic payload : List ℕ) (id : ℕ) (q : MqttQos)
    (version : MqttProtocolVersion)
    → m.mqtt_version ≡ version
    → m.bytebauble.host_endian ≡ p.host
    → length topic < 2 ^ 16
    → id < 2 ^ 16
    → parse_publish p m (pre ++ publish_body version q topic id payload) (length pre) (id_count q)
      ≡ ok (record m {
        packet_id = received_id m.packet_id q id;
        topic = topic;
        payload = payload_after m.payload payload;
      })
body_read_version p m pre topic payload id q version e host t i =
    ap (λ v. parse_publish p m (pre ++ publish_body v q topic id payload) (length pre) (id_count q))
      (sym e)
    ∙ body_read p m pre topic payload id q host t i

-- A PUBLISH message of less than 128 bytes behind the fixed header, serialized on a little-endian host
-- and parsed by an object of the same protocol version, is parsed well: the topic, the flags, the
-- identifier of a message of level 1 or 2 and every payload but one of a single byte arrive as they
-- were sent. The levels 1 and 2 change places, at level 0 the object keeps the level that it had, and
-- in place of a payload of one byte it keeps the payload that it had.
pub parse_message-serialize_publish :
    (p : Platform) (m sent : NmqttMessage)
    → p.host ≡ bb_le
    → IsPublish p sent
    → m.bytebauble.host_endian ≡ p.host
    → m.mqtt_version ≡ sent.mqtt_version
    → length (publish_body sent.mqtt_version sent.qos sent.topic sent.packet_id sent.payload) < 128
    → parse_message p m (serialize p sent).0 ≡ ok (received m sent)
unfolding parse_body
parse_message-serialize_publish p m sent le is host version short =
    let body : List ℕ =
      publish_body sent.mqtt_version sent.qos sent.topic sent.packet_id sent.payload in
    let n : ℕ = length body in
    let b0 : ℕ = publish_byte sent.duplicate_message sent.qos sent.retain_message in
    let fits : IsEncodable n = record {
      fits = omega arith;
      not_1 = λ e. omega arith;
      not_2 = λ e. omega arith;
      not_3 = λ e. omega arith;
    } in
    let flags =
      read_flags_publish (record m { parse_good = false }) sent.duplicate_message sent.qos
        sent.retain_message in
    let m' : NmqttMessage = record m {
      command = mqtt_publish;
      duplicate_message = sent.duplicate_message;
      qos = received_qos m.qos sent.qos;
      retain_message = sent.retain_message;
      message_length = n;
      parse_good = false;
    } in
    ap (parse_message p m) (serialize-publish p sent le is fits ∙ short_packet b0 body short)
    ∙ parse_message_short p m b0 body short
    ∙ rw (flags, qos_cnt_publish sent.duplicate_message sent.qos sent.retain_message)
        (ap finished (
          body_read_version p m' (b0 ∷ n ∷ []) sent.topic sent.payload sent.packet_id sent.qos
            sent.mqtt_version version host is.topic_fits is.id_fits))

-- The bytes of such a message of another little-endian host, and what becomes of them.
pub serialize_then_parse :
    (p q : Platform) (m sent : NmqttMessage)
    → p.host ≡ bb_le
    → q.host ≡ bb_le
    → IsPublish q sent
    → m.bytebauble.host_endian ≡ p.host
    → m.mqtt_version ≡ sent.mqtt_version
    → length (publish_body sent.mqtt_version sent.qos sent.topic sent.packet_id sent.payload) < 128
    → let bytes =
        packet
          (publish_byte sent.duplicate_message sent.qos sent.retain_message)
          (publish_body sent.mqtt_version sent.qos sent.topic sent.packet_id sent.payload) in
      ((serialize q sent).0 ≡ bytes) × (parse_message p m bytes ≡ ok (received m sent))
serialize_then_parse p q m sent le le' is host version short =
    let fits : IsEncodable
        (length (publish_body sent.mqtt_version sent.qos sent.topic sent.packet_id sent.payload)) =
      record {
        fits = omega arith;
        not_1 = λ e. omega arith;
        not_2 = λ e. omega arith;
        not_3 = λ e. omega arith;
      } in
    let is' : IsPublish p sent = record {
      command = is.command;
      host = is.host ∙ le' ∙ sym le;
      topic_fits = is.topic_fits;
      id_fits = is.id_fits;
    } in
    (
      serialize-publish q sent le' is fits,
      ap (parse_message p m) (sym (serialize-publish p sent le is' fits))
          ∙ parse_message-serialize_publish p m sent le is' host version short,
    )
