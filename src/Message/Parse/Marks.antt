-- ===== src/Message/Parse/Marks.antt =====
-- What `valid` says after `parseMessage`.
use nymph_mqtt.Common.{
  ℕ, ◌+◌, ◌%◌, ◌^◌, ◌≡◌, refl, true, false, List, length, ltb, ◌==◌, Bool-cases, inl, inr, get_or,
  not, ◌||◌,
}
use nymph_mqtt.ByteBauble.{bit, read_packed_int}
use nymph_mqtt.ByteBauble.Endian.{bb_be, to_host}
use nymph_mqtt.Message.{
  NmqttMessage, MqttPacketType, MqttProtocolVersion, mqtt_protocol_version_4,
  mqtt_protocol_version_5, mqtt_none, mqtt_connect, mqtt_connack, mqtt_publish, mqtt_puback,
  mqtt_pubrec, mqtt_pubrel, mqtt_pubcomp, mqtt_subscribe, mqtt_suback, mqtt_unsubscribe,
  mqtt_unsuback, mqtt_pingreq, mqtt_pingresp, mqtt_disconnect, mqtt_auth, valid,
}
use nymph_mqtt.Message.Exec.{Platform, Exec, ok, failed, out_of_range, undefined, widen}
use nymph_mqtt.Message.Parse.{
  same_bytes, prot_match, qos_cnt, read_flags, read_connect_flags, set_level, read_string,
  read_will, read_username, read_password, parse_connect_fields, parse_connect, parse_connack,
  read_packet_id, skip_properties, read_payload, parse_publish_tail, parse_publish, parse_body,
  parse_rest, parse_message,
}
use nymph_mqtt.Message.Parse.Yields.{
  Yields, Yields-bind, Any, Clean, CleanFirst, require-Yields, char_at-Yields, substr-Yields,
  substr_from-Yields, read16-Yields, if-Yields,
}

read_string-Yields :
    (p : Platform) (msg : List ℕ) (idx : ℕ) → Yields (λ u. Any u) (read_string p msg idx)
unfolding read_string
read_string-Yields p msg idx =
    Yields-bind (λ u. Any u) (λ u. Any u) _ _ (char_at-Yields msg idx)
      λ c _.
        Yields-bind (λ u. Any u) (λ u. Any u) _ _ (substr-Yields msg (idx + 2) (widen p 16 c))
          λ s _. tt

read_will-Yields :
    (p : Platform) (m : NmqttMessage) (msg : List ℕ) (idx : ℕ)
    → Clean m
    → Yields (λ r. CleanFirst r) (read_will p m msg idx)
unfolding read_will
read_will-Yields p m msg idx c =
    Yields-bind (λ u. Any u) (λ r. CleanFirst r) _ _ (read_string-Yields p msg idx)
      λ (topic, idx') _.
        Yields-bind (λ u. Any u) (λ r. CleanFirst r) _ _ (read_string-Yields p msg idx')
          λ (w, idx'') _. c

read_username-Yields :
    (p : Platform) (m : NmqttMessage) (msg : List ℕ) (idx : ℕ)
    → Clean m
    → Yields (λ r. CleanFirst r) (read_username p m msg idx)
unfolding read_username
read_username-Yields p m msg idx c =
    Yields-bind (λ u. Any u) (λ r. CleanFirst r) _ _ (read_string-Yields p msg idx)
      λ (name, idx') _. c

read_password-Yields :
    (p : Platform) (m : NmqttMessage) (msg : List ℕ) (idx : ℕ)
    → Clean m
    → Yields (λ r. CleanFirst r) (read_password p m msg idx)
unfolding read_password
read_password-Yields p m msg idx c =
    Yields-bind (λ u. Any u) (λ r. CleanFirst r) _ _ (read_string-Yields p msg idx)
      λ (word, idx') _. c

parse_connect_fields-Yields :
    (p : Platform) (m : NmqttMessage) (msg : List ℕ) (idx : ℕ)
    → Clean m
    → Yields (λ r. Clean r) (parse_connect_fields p m msg idx)
unfolding parse_connect_fields
parse_connect_fields-Yields p m msg idx c =
    Yields-bind (λ u. Any u) (λ r. Clean r) _ _ (char_at-Yields msg idx)
      λ k _.
        Yields-bind (λ u. Any u) (λ r. Clean r) _ _ (read_string-Yields p msg (idx + 2))
          λ (id, idx1) _.
            let m1 : NmqttMessage = record m { keep_alive = widen p 16 k; client_id = id } in
            Yields-bind (λ r. CleanFirst r) (λ r. Clean r) _ _
              (if-Yields (λ r. CleanFirst r) m1.will_flag (read_will p m1 msg idx1) (ok (m1, idx1))
                (read_will-Yields p m1 msg idx1 c) c)
              λ (m2, idx2) c2.
                Yields-bind (λ r. CleanFirst r) (λ r. Clean r) _ _
                  (if-Yields (λ r. CleanFirst r) m2.username_flag (read_username p m2 msg idx2)
                    (ok (m2, idx2)) (read_username-Yields p m2 msg idx2 c2) c2)
                  λ (m3, idx3) c3.
                    Yields-bind (λ r. CleanFirst r) (λ r. Clean r) _ _
                      (if-Yields (λ r. CleanFirst r) m3.password_flag (read_password p m3 msg idx3)
                        (ok (m3, idx3)) (read_password-Yields p m3 msg idx3 c3) c3)
                      λ (m4, idx4) c4. c4

set_level-Clean : (m : NmqttMessage) (v : ℕ) → Clean m → Clean (set_level m v)
unfolding set_level
set_level-Clean m v c = elim (Bool-cases (v == 4)) [ inl e ↦ rw e c | inr e ↦ rw e c ]

parse_connect-Yields :
    (p : Platform) (m : NmqttMessage) (msg : List ℕ) (idx : ℕ)
    → Clean m
    → Yields (λ r. Clean r) (parse_connect p m msg idx)
unfolding parse_connect read_connect_flags
parse_connect-Yields p m msg idx c =
    Yields-bind (λ u. Any u) (λ r. Clean r) _ _ (substr-Yields msg idx 6)
      λ name _.
        Yields-bind (λ u. Any u) (λ r. Clean r) _ _
          (require-Yields (same_bytes name prot_match) m c)
          λ _ _.
            Yields-bind (λ u. Any u) (λ r. Clean r) _ _ (char_at-Yields msg (idx + 6))
              λ v _.
                Yields-bind (λ u. Any u) (λ r. Clean r) _ _ (require-Yields (v == 4 || v == 5) m c)
                  λ _ _.
                    Yields-bind (λ u. Any u) (λ r. Clean r) _ _ (char_at-Yields msg (idx + 7))
                      λ flags _.
                        let m' : NmqttMessage = read_connect_flags (set_level m v) flags in
                        let c' : Clean m' = set_level-Clean m v c in
                        Yields-bind (λ u. Any u) (λ r. Clean r) _ _
                          (require-Yields (not (bit flags 0)) m' c')
                          λ _ _. parse_connect_fields-Yields p m' msg (idx + 8) c'

parse_connack-Yields :
    (p : Platform) (m : NmqttMessage) (msg : List ℕ) (idx : ℕ)
    → Clean m
    → Yields (λ r. Clean r) (parse_connack p m msg idx)
unfolding parse_connack
parse_connack-Yields p m msg idx c =
    Yields-bind (λ u. Any u) (λ r. Clean r) _ _ (char_at-Yields msg idx)
      λ present _.
        Yields-bind (λ u. Any u) (λ r. Clean r) _ _ (char_at-Yields msg (idx + 1)) λ code _. c

read_packet_id-Yields :
    (p : Platform) (m : NmqttMessage) (msg : List ℕ) (idx : ℕ)
    → Clean m
    → Yields (λ r. CleanFirst r) (read_packet_id p m msg idx)
unfolding read_packet_id
read_packet_id-Yields p m msg idx c =
    Yields-bind (λ u. Any u) (λ r. CleanFirst r) _ _ (read16-Yields p msg idx) λ id _. c

skip_properties-Yields :
    (v : MqttProtocolVersion) (msg : List ℕ) (idx : ℕ)
    → Yields (λ u. Any u) (skip_properties v msg idx)
unfolding skip_properties
skip_properties-Yields mqtt_protocol_version_4 msg idx = tt
skip_properties-Yields mqtt_protocol_version_5 msg idx =
    Yields-bind (λ u. Any u) (λ u. Any u) _ _ (char_at-Yields msg idx) λ k _. tt

read_payload-Yields :
    (m : NmqttMessage) (msg : List ℕ) (idx : ℕ)
    → Clean m
    → Yields (λ r. Clean r) (read_payload m msg idx)
unfolding read_payload
read_payload-Yields m msg idx c =
    Yields-bind (λ u. Any u) (λ r. Clean r) _ _ (substr_from-Yields msg idx) λ rest _. c

parse_publish_tail-Yields :
    (p : Platform) (m : NmqttMessage) (msg : List ℕ) (idx q : ℕ)
    → Clean m
    → Yields (λ r. Clean r) (parse_publish_tail p m msg idx q)
unfolding parse_publish_tail
parse_publish_tail-Yields p m msg idx q c =
    Yields-bind (λ r. CleanFirst r) (λ r. Clean r) _ _
      (if-Yields (λ r. CleanFirst r) (ltb 0 q) (read_packet_id p m msg idx) (ok (m, idx))
        (read_packet_id-Yields p m msg idx c) c)
      λ (m1, idx1) c1.
        Yields-bind (λ u. Any u) (λ r. Clean r) _ _
          (skip_properties-Yields m1.mqtt_version msg idx1)
          λ idx2 _.
            if-Yields (λ r. Clean r) (idx2 + 1 == length msg) (ok m1) (read_payload m1 msg idx2) c1
              (read_payload-Yields m1 msg idx2 c1)

parse_publish-Yields :
    (p : Platform) (m : NmqttMessage) (msg : List ℕ) (idx q : ℕ)
    → Clean m
    → Yields (λ r. Clean r) (parse_publish p m msg idx q)
unfolding parse_publish
parse_publish-Yields p m msg idx q c =
    Yields-bind (λ u. Any u) (λ r. Clean r) _ _ (read16-Yields p msg idx)
      λ n _.
        let len : ℕ = to_host m.bytebauble 2 n bb_be in
        Yields-bind (λ u. Any u) (λ r. Clean r) _ _ (substr-Yields msg (idx + 2) len)
          λ topic _.
            parse_publish_tail-Yields p (record m { topic = topic }) msg (idx + 2 + len) q c

parse_body-Yields :
    (type : MqttPacketType) (p : Platform) (m : NmqttMessage) (msg : List ℕ) (idx q : ℕ)
    → Clean m
    → Yields (λ r. Clean r) (parse_body type p m msg idx q)
unfolding parse_body
parse_body-Yields mqtt_connect p m msg idx q c = parse_connect-Yields p m msg idx c
parse_body-Yields mqtt_connack p m msg idx q c = parse_connack-Yields p m msg idx c
parse_body-Yields mqtt_publish p m msg idx q c = parse_publish-Yields p m msg idx q c
parse_body-Yields mqtt_none p m msg idx q c = c
parse_body-Yields mqtt_puback p m msg idx q c = c
parse_body-Yields mqtt_pubrec p m msg idx q c = c
parse_body-Yields mqtt_pubrel p m msg idx q c = c
parse_body-Yields mqtt_pubcomp p m msg idx q c = c
parse_body-Yields mqtt_subscribe p m msg idx q c = c
parse_body-Yields mqtt_suback p m msg idx q c = c
parse_body-Yields mqtt_unsubscribe p m msg idx q c = c
parse_body-Yields mqtt_unsuback p m msg idx q c = c
parse_body-Yields mqtt_pingreq p m msg idx q c = c
parse_body-Yields mqtt_pingresp p m msg idx q c = c
parse_body-Yields mqtt_disconnect p m msg idx q c = c
parse_body-Yields mqtt_auth p m msg idx q c = c

abbrev Good : NmqttMessage → Type 0
Good m = valid m ≡ true

parse_rest-Yields :
    (p : Platform) (m : NmqttMessage) (msg : List ℕ) (b0 b1 : ℕ)
    → Clean m
    → Yields (λ r. Good r) (parse_rest p m msg b0 b1)
unfolding parse_rest valid
parse_rest-Yields p m msg b0 b1 c =
    let (pblen, n) = read_packed_int (widen p 32 b1) in
    let m' : NmqttMessage = record m { message_length = n } in
    Yields-bind (λ u. Any u) (λ r. Good r) _ _
      (require-Yields ((pblen + 1 + n) % 2 ^ 32 == length msg) m' c)
      λ _ _.
        Yields-bind (λ r. Clean r) (λ r. Good r) _ _
          (parse_body-Yields m'.command p m' msg (1 + pblen) (qos_cnt b0) c) λ m'' _. refl

-- How `parseMessage` can end.
abbrev pub Marked : Exec NmqttMessage → Type 0
Marked (ok m) = valid m ≡ true
Marked (failed m) = valid m ≡ false
Marked out_of_range = Unit
Marked undefined = Unit

marked : (r : Exec NmqttMessage) → Yields (λ m. Good m) r → Marked r
unfolding valid
marked (ok m) h = h
marked (failed m) h = h
marked out_of_range h = tt
marked undefined h = tt

-- For every string of bytes, every platform and whatever the object held before: when `parseMessage` returns
-- success, `valid` says true of the object, and when it returns -1, `valid` says false, so no return
-- leaves an old mark. Nothing is said of a run that ends in an exception or reads behind the end of a string.
pub parse_message-Marked :
    (p : Platform) (m : NmqttMessage) (msg : List ℕ) → Marked (parse_message p m msg)
unfolding parse_message read_flags
parse_message-Marked p m msg =
    let m' : NmqttMessage = record m { parse_good = false } in
    marked _ (
      if-Yields (λ r. Good r) (ltb (length msg) 2) (failed m')
        (parse_rest p (read_flags m' (get_or msg 0 0)) msg (get_or msg 0 0) (get_or msg 1 0)) refl
        (parse_rest-Yields p (read_flags m' (get_or msg 0 0)) msg (get_or msg 0 0) (get_or msg 1 0)
          refl))
