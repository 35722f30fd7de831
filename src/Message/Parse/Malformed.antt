-- ===== src/Message/Parse/Malformed.antt =====
-- Packets whose fields reach behind their end, and CONNACK.
use nymph_mqtt.Common.{
  ℕ, ◌+◌, ◌*◌, ◌/◌, ◌%◌, ◌^◌, ◌<◌, ◌≡◌, refl, ap, ◌∙◌, false, not, List, [], ◌∷◌, ◌++◌, length,
  arith, ◌==◌, le→leb, ne→==,
}
use nymph_mqtt.Message.{NmqttMessage, mqtt_connack, mqtt_protocol_version_4}
use nymph_mqtt.Message.Exec.{
  Platform, Exec, ok, out_of_range, undefined, char_at, substr, substr_from, widen,
}
use nymph_mqtt.Message.Packet.{big16, packet}
use nymph_mqtt.Message.Parse.{
  packet_type_of, qos_of, qos_cnt, read_flags, skip_properties, read_payload, parse_publish_tail,
  parse_publish, parse_connack, parse_body, parse_message,
}
use nymph_mqtt.Message.Parse.Length.{opened, finished, parse_message_short, short_packet}
use nymph_mqtt.Message.Parse.Reads.{read16_front, field_value}

overrun :
    (p : Platform) (m : NmqttMessage) (b0 n len : ℕ) (rest : List ℕ)
    → m.mqtt_version ≡ mqtt_protocol_version_4
    → m.bytebauble.host_endian ≡ p.host
    → len < 2 ^ 16
    → length rest < len
    → parse_publish p m (b0 ∷ n ∷ (big16 len ++ rest)) 2 0 ≡ out_of_range
unfolding parse_publish parse_publish_tail skip_properties read_payload substr substr_from
overrun p m b0 n len rest version host fits short =
    let msg : List ℕ = b0 ∷ n ∷ (big16 len ++ rest) in
    let value : 256 * (len / 256) + len % 256 ≡ len = omega arith in
    rw
      (
        read16_front p (b0 ∷ n ∷ []) rest (len / 256) (len % 256),
        field_value p m.bytebauble (len / 256) (len % 256) host (omega arith) (omega arith),
        value,
        le→leb 4 (length msg) (omega arith),
        version,
        ne→== (4 + len + 1) (length msg) (λ e. omega arith),
      )
      (ground arith)

-- A PUBLISH packet of level 0 whose topic is announced longer than what follows makes `parseMessage`,
-- in an object of version 4 on its host, throw the exception of `substr`.
pub parse_message-publish_overrun :
    (p : Platform) (m : NmqttMessage) (len : ℕ) (rest : List ℕ)
    → m.mqtt_version ≡ mqtt_protocol_version_4
    → m.bytebauble.host_endian ≡ p.host
    → len < 2 ^ 16
    → length rest < len
    → length rest < 126
    → parse_message p m (packet 0x30 (big16 len ++ rest)) ≡ out_of_range
unfolding parse_body read_flags packet_type_of qos_of qos_cnt
parse_message-publish_overrun p m len rest version host fits short few =
    let body : List ℕ = big16 len ++ rest in
    ap (parse_message p m) (short_packet 0x30 body (omega arith))
    ∙ parse_message_short p m 0x30 body (omega arith)
    ∙ ap finished (
        overrun p (opened m 0x30 (length body)) 0x30 (length body) len rest version host fits short)

-- The acknowledgement that is read, where the packet has both bytes, one, or none.
abbrev pub connack_result : Platform → NmqttMessage → List ℕ → Exec NmqttMessage
connack_result p m [] = undefined
connack_result p m (flags ∷ []) =
    ok (record m { session_present = not (flags == 0); reason_code = 0 })
connack_result p m (flags ∷ code ∷ rest) =
    ok (record m { session_present = not (flags == 0); reason_code = widen p 32 code })

connack_reads :
    (p : Platform) (m : NmqttMessage) (b0 n : ℕ) (body : List ℕ)
    → parse_connack p m (b0 ∷ n ∷ body) 2 ≡ connack_result p m body
unfolding parse_connack char_at
connack_reads p m b0 n [] = refl
connack_reads p m b0 n (f ∷ []) = unfold widen in ground arith
connack_reads p m b0 n (f ∷ c ∷ rest) = ground arith

-- `parseMessage` reads the flags and the code of a CONNACK packet of less than 128 bytes; the zero that
-- ends the string stands for a missing code, and of an empty packet it reads behind the string.
pub parse_message-connack :
    (p : Platform) (m : NmqttMessage) (body : List ℕ)
    → length body < 128
    → parse_message p m (packet 0x20 body)
      ≡ finished (
          connack_result p
            (record m {
              command = mqtt_connack;
              duplicate_message = false;
              retain_message = false;
              message_length = length body;
              parse_good = false;
            })
            body)
unfolding parse_body read_flags packet_type_of qos_of
parse_message-connack p m body short =
    ap (parse_message p m) (short_packet 0x20 body short)
    ∙ parse_message_short p m 0x20 body short
    ∙ ap finished (connack_reads p (opened m 0x20 (length body)) 0x20 (length body) body)
