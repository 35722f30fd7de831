-- ===== src/Message/Parse/Publish.antt =====
-- How `parseMessage` reads a PUBLISH packet.
use nymph_mqtt.Common.{
  ℕ, ◌+◌, ◌*◌, ◌/◌, ◌%◌, ◌^◌, ◌<◌, ◌≡◌, ap, List, [], ◌∷◌, ◌++◌, append_assoc, length,
  length-append, arith, if◌then◌else◌, ◌==◌, Bool-cases, inl, inr, lt→ltb, eq→==, ne→==,
}
use nymph_mqtt.Message.{
  NmqttMessage, MqttProtocolVersion, mqtt_protocol_version_4, mqtt_protocol_version_5,
}
use nymph_mqtt.Message.Exec.{Platform, ok}
use nymph_mqtt.Message.Packet.{big16, utf8_string, no_properties}
use nymph_mqtt.Message.Parse.{
  read_packet_id, skip_properties, read_payload, parse_publish_tail, parse_publish,
}
use nymph_mqtt.Message.Parse.Reads.{
  field_value, read16_front, substr_second, substr_from_front, char_at_front,
}

-- A payload of one byte is taken for none.
abbrev pub payload_after : List ℕ → List ℕ → List ℕ
payload_after old payload = if length payload == 1 then old else payload

skip_none :
    (version : MqttProtocolVersion) (pre s : List ℕ)
    → skip_properties version (pre ++ (no_properties version ++ s)) (length pre)
      ≡ ok (length (pre ++ no_properties version))
unfolding skip_properties
skip_none mqtt_protocol_version_4 pre s = ap ok (omega (arith, length-append pre []))
skip_none mqtt_protocol_version_5 pre s =
    rw (char_at_front pre s 0) (ap ok (omega (arith, length-append pre (0 ∷ []))))

payload_read :
    (m : NmqttMessage) (pre payload : List ℕ)
    → (if length pre + 1 == length (pre ++ payload)
        then ok m
        else read_payload m (pre ++ payload) (length pre))
      ≡ ok (record m { payload = payload_after m.payload payload })
unfolding read_payload
payload_read m pre payload =
    rw (substr_from_front pre payload, length-append pre payload)
      (elim (Bool-cases (length payload == 1)) [
        | inl e ↦ rw (e, eq→== (length pre + 1) (length pre + length payload) (ground arith))
        | inr e ↦ rw (e, ne→== (length pre + 1) (length pre + length payload) (ground arith))
      ])

-- Without a packet identifier.
pub parse_publish_tail_plain :
    (p : Platform) (m : NmqttMessage) (pre payload : List ℕ)
    → parse_publish_tail p m (pre ++ (no_properties m.mqtt_version ++ payload)) (length pre) 0
      ≡ ok (record m { payload = payload_after m.payload payload })
unfolding parse_publish_tail
parse_publish_tail_plain p m pre payload =
    rw
      (
        skip_none m.mqtt_version pre payload,
        ← append_assoc pre (no_properties m.mqtt_version) payload,
      )
      (payload_read m (pre ++ no_properties m.mqtt_version) payload)

-- With one.
pub parse_publish_tail_id :
    (p : Platform) (m : NmqttMessage) (pre payload : List ℕ) (id cnt : ℕ)
    → m.bytebauble.host_endian ≡ p.host
    → id < 2 ^ 16
    → 0 < cnt
    → parse_publish_tail p m
        (pre ++ (big16 id ++ (no_properties m.mqtt_version ++ payload)))
        (length pre)
        cnt
      ≡ ok (record m { packet_id = id; payload = payload_after m.payload payload })
unfolding parse_publish_tail read_packet_id
parse_publish_tail_id p m pre payload id cnt host fits pos =
    let rest : List ℕ = no_properties m.mqtt_version ++ payload in
    let m' : NmqttMessage = record m { packet_id = id } in
    let value : 256 * (id / 256) + id % 256 ≡ id = omega arith in
    let past : length pre + 2 ≡ length (pre ++ big16 id) =
      omega (arith, length-append pre (big16 id)) in
    rw
      (
        lt→ltb 0 cnt pos,
        read16_front p pre rest (id / 256) (id % 256),
        field_value p m.bytebauble (id / 256) (id % 256) host (omega arith) (omega arith),
        value,
        past,
        ← append_assoc pre (big16 id) rest,
      )
      (parse_publish_tail_plain p m' (pre ++ big16 id) payload)

pub parse_publish_topic :
    (p : Platform) (m : NmqttMessage) (pre topic s : List ℕ) (cnt : ℕ)
    → m.bytebauble.host_endian ≡ p.host
    → length topic < 2 ^ 16
    → parse_publish p m (pre ++ (utf8_string topic ++ s)) (length pre) cnt
      ≡ parse_publish_tail p
          (record m { topic = topic })
          ((pre ++ utf8_string topic) ++ s)
          (length (pre ++ utf8_string topic))
          cnt
unfolding parse_publish
parse_publish_topic p m pre topic s cnt host fits =
    let n : ℕ = length topic in
    let value : 256 * (n / 256) + n % 256 ≡ n = omega arith in
    let past : length pre + 2 + n ≡ length (pre ++ utf8_string topic) =
      omega (arith, length-append pre (utf8_string topic)) in
    rw (
      read16_front p pre (topic ++ s) (n / 256) (n % 256),
      field_value p m.bytebauble (n / 256) (n % 256) host (omega arith) (omega arith),
      value,
      substr_second pre topic s (n / 256) (n % 256),
      past,
      append_assoc pre (utf8_string topic) s,
    )
