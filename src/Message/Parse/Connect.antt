-- ===== src/Message/Parse/Connect.antt =====
-- How `parseMessage` reads a CONNECT packet.
use nymph_mqtt.Common.{
  ℕ, ◌<◌, ◌≡◌, ◌≢◌, refl, true, false, not, ◌||◌, List, [], ◌∷◌, length, arith, ◌==◌, ◌⊎◌,
  Bool-cases, inl, inr, lt→ltb, le→leb,
}
use nymph_mqtt.ByteBauble.{bit}
use nymph_mqtt.Message.{NmqttMessage}
use nymph_mqtt.Message.Exec.{Platform, ok, ◌>>◌, require, char_at, substr, widen}
use nymph_mqtt.Message.Packet.{packet}
use nymph_mqtt.Message.Parse.{
  packet_type_of, read_flags, same_bytes, prot_match, read_connect_flags, set_level, read_string,
  parse_connect_fields, parse_connect, parse_body, parse_message,
}
use nymph_mqtt.Message.Parse.Length.{Refused, opened, finished, parse_message_short, short_packet}

same_bytes→eq : (xs ys : List ℕ) → same_bytes xs ys ≡ true → xs ≡ ys
unfolding same_bytes
same_bytes→eq [] [] h = refl
same_bytes→eq [] (y ∷ ys) h = cc
same_bytes→eq (x ∷ xs) [] h = cc
same_bytes→eq (x ∷ xs) (y ∷ ys) h = ground (arith, same_bytes→eq xs ys)

-- The protocol name, the level, the flags, and what follows.
abbrev pub connect_bytes : ℕ → ℕ → ℕ → ℕ → ℕ → ℕ → ℕ → ℕ → List ℕ → List ℕ
connect_bytes a0 a1 a2 a3 a4 a5 level flags rest =
    a0 ∷ a1 ∷ a2 ∷ a3 ∷ a4 ∷ a5 ∷ level ∷ flags ∷ rest

module _ (p : Platform) (m : NmqttMessage) (b0 n a0 a1 a2 a3 a4 a5 level flags : ℕ)
    (rest : List ℕ) where
  abbrev msg : List ℕ
  msg = b0 ∷ n ∷ connect_bytes a0 a1 a2 a3 a4 a5 level flags rest

  abbrev name : List ℕ
  name = a0 ∷ a1 ∷ a2 ∷ a3 ∷ a4 ∷ a5 ∷ []

  -- The tests in their order.
  pub connect_tests : parse_connect p m msg 2 ≡ (do
    require (same_bytes name prot_match) m
    require (level == 4 || level == 5) m
    require (not (bit flags 0)) (read_connect_flags (set_level m level) flags)
    parse_connect_fields p (read_connect_flags (set_level m level) flags) msg 10)
  unfolding parse_connect substr char_at
  connect_tests = rw (
    le→leb 2 (length msg) (omega arith),
    lt→ltb 8 (length msg) (omega arith),
    lt→ltb 9 (length msg) (omega arith),
  )

  -- A refusal at one of the tests leaves the marks of the object alone.
  refused :
      m.parse_good ≡ false
      → (name ≢ prot_match) ⊎ ((level ≢ 4) × (level ≢ 5)) ⊎ (bit flags 0 ≡ true)
      → Refused (finished (parse_connect p m msg 2))
  unfolding read_connect_flags set_level
  refused good why = rw connect_tests (elim (Bool-cases (same_bytes name prot_match)) [
    | inr e ↦ (m, rw e, good)
    | inl e ↦ elim (Bool-cases (level == 4 || level == 5)) [
      | inr l ↦ (m, rw (e, l), good)
      | inl l ↦ elim (Bool-cases (bit flags 0)) [
        | inl r ↦ (read_connect_flags (set_level m level) flags, rw (e, l, r), keeps)
        | inr r ↦ absurd (contradiction e l r why)
      ]
    ]
  ])
    where
      keeps : (read_connect_flags (set_level m level) flags).parse_good ≡ false
      keeps = ground arith

      contradiction :
          same_bytes name prot_match ≡ true
          → (level == 4 || level == 5) ≡ true
          → bit flags 0 ≡ false
          → (name ≢ prot_match) ⊎ ((level ≢ 4) × (level ≢ 5)) ⊎ (bit flags 0 ≡ true)
          → ⊥
      contradiction e l r (inl ne) = ne (same_bytes→eq name prot_match e)
      contradiction e l r (inr (inl (n4, n5))) = ground arith
      contradiction e l r (inr (inr one)) = cc

-- `parseMessage` refuses a CONNECT packet (of less than 128 bytes behind the fixed header) whose
-- protocol name is not `MQTT` with its length, whose level is neither 4 nor 5, or whose reserved flag
-- is set; the object is not marked as parsed.
pub parse_message-connect-Refused :
    (p : Platform) (m : NmqttMessage) (a0 a1 a2 a3 a4 a5 level flags : ℕ) (rest : List ℕ)
    → length rest < 120
    → (a0 ∷ a1 ∷ a2 ∷ a3 ∷ a4 ∷ a5 ∷ [] ≢ prot_match)
      ⊎ ((level ≢ 4) × (level ≢ 5))
      ⊎ (bit flags 0 ≡ true)
    → Refused (parse_message p m (packet 0x10 (connect_bytes a0 a1 a2 a3 a4 a5 level flags rest)))
unfolding parse_body read_flags packet_type_of
parse_message-connect-Refused p m a0 a1 a2 a3 a4 a5 level flags rest short why =
    let body : List ℕ = connect_bytes a0 a1 a2 a3 a4 a5 level flags rest in
    rw (short_packet 0x10 body (omega arith), parse_message_short p m 0x10 body (omega arith))
      (refused p (opened m 0x10 (length body)) 0x10 (length body) a0 a1 a2 a3 a4 a5 level flags rest
        refl why)

-- The fields behind the flags, where no optional one is announced and the client identifier is shorter
-- than 256 bytes: only the high byte of its length is read.
pub connect_fields_plain :
    (p : Platform) (m : NmqttMessage) (b0 n a0 a1 a2 a3 a4 a5 level flags k1 k2 lo : ℕ)
    (rest : List ℕ)
    → m.will_flag ≡ false
    → m.username_flag ≡ false
    → m.password_flag ≡ false
    → parse_connect_fields p m
        (b0 ∷ n ∷ connect_bytes a0 a1 a2 a3 a4 a5 level flags (k1 ∷ k2 ∷ 0 ∷ lo ∷ rest))
        10
      ≡ ok (record m { keep_alive = widen p 16 k1; client_id = [] })
unfolding parse_connect_fields read_string char_at substr
connect_fields_plain p m b0 n a0 a1 a2 a3 a4 a5 level flags k1 k2 lo rest w u s =
    let msg : List ℕ =
      b0 ∷ n ∷ connect_bytes a0 a1 a2 a3 a4 a5 level flags (k1 ∷ k2 ∷ 0 ∷ lo ∷ rest) in
    let zero_length : widen p 16 0 ≡ 0 = unfold widen in ground arith in
    rw (
      lt→ltb 10 (length msg) (omega arith),
      lt→ltb 12 (length msg) (omega arith),
      zero_length,
      le→leb 14 (length msg) (omega arith),
      w,
      u,
      s,
    )
