-- ===== src/Framing.antt =====
-- How src/cpp/session.cpp and src/cpp/client_listener.cpp, in the same words, read one message from a
-- socket.
pub mod Stream
pub mod Whole
use nymph_mqtt.Common.{
  ℕ, zero, suc, ◌+◌, ◌-◌, Bool, List, [], ◌∷◌, ◌++◌, length, take, drop, if◌then◌else◌, ◌==◌, ltb,
  ◌≡◌, ◌≤◌, ◌<◌, Option, none, some,
}
use nymph_mqtt.ByteBauble.Endian.{BbEndianness}
use nymph_mqtt.Message.Header.{HeaderCode, corrupted, more_needed, parsed, Header, parse_header}

-- A socket: `receiveBytes` with the size of the buffer, after `poll` has said that it does not wait.
-- The laws are what TCP and Poco promise: `stream` is what the peer still sends before it closes, and
-- is received in its order, in pieces that are empty only at its end.
pub record Source (S : Type 0) : Type 0 where
  pub receive : S → ℕ → List ℕ × S
  pub stream : S → List ℕ
  pub in_order : (s : S) (n : ℕ) → stream s ≡ (receive s n).0 ++ stream (receive s n).1
  pub fits : (s : S) (n : ℕ) → length (receive s n).0 ≤ n
  pub empty_at_end : (s : S) (n : ℕ) → 0 < n → (receive s n).0 ≡ [] → stream s ≡ []

-- What a round of the outer loop comes to before the message is parsed: the peer has closed, a single
-- byte was received and is passed over, a loop that does not end (`parseHeader` is called for ever, or
-- the loop for the missing bytes runs out of fuel), or the bytes of a message.
pub data Round (S : Type 0) : Type 0 where
  closed : S → Round S
  passed_over : S → Round S
  endless : Round S
  whole : List ℕ → S → Round S

-- `receiveBytes` into the front of a buffer.
abbrev pub overwrite : List ℕ → List ℕ → List ℕ
overwrite got buff = got ++ drop (length got) buff

module _ {S : Type 0} (src : Source S) where
  -- A piece, and what comes behind it, if the loop ends.
  abbrev pub with_piece : List ℕ → Option (List ℕ × S) → Option (List ℕ × S)
  with_piece buff none = none
  with_piece buff (some (rest, s)) = some (buff ++ rest, s)

  -- The loop for the bytes that are missing, on fuel: none if the fuel runs out before the loop ends.
  unfoldable pub read_rest : ℕ → ℕ → S → Option (List ℕ × S)
  read_rest zero unread s = none
  read_rest (suc fuel) unread s =
      let (buff, s') = src.receive s unread in
      let rest = read_rest fuel (unread - length buff) s' in
      if length buff == 0
      then some ([], s')
      else if length buff == unread
      then some (buff, s')
      else with_piece buff rest

  abbrev pub whole_if_read : List ℕ → Option (List ℕ × S) → Round S
  whole_if_read header none = endless
  whole_if_read header (some (body, s)) = whole (header ++ body) s

  unfoldable pub read_body : List ℕ → ℕ → S → Round S
  read_body header msglen s =
      let (buff, s') = src.receive s msglen in
      let rest = read_rest msglen (msglen - length buff) s' in
      if length buff == msglen
      then whole (header ++ buff) s'
      else whole_if_read header (with_piece buff rest)

  unfoldable pub read_with : Header → List ℕ → S → Round S
  read_with header header_buff s = elim header.code [
    | more_needed ↦ endless
    | _ ↦
        if ltb 0 header.msglen
        then read_body (take header.idx header_buff) header.msglen s
        else whole (take header.idx header_buff) s
  ]

  -- The two bytes that are received go to the front of `headerBuff`, of five bytes, which keeps what
  -- it had behind them; `parseHeader` is told that all five are there.
  unfoldable pub receive_message : BbEndianness → List ℕ → S → Round S
  receive_message host header_buff s =
      let (got, s') = src.receive s 2 in
      let buff = overwrite got header_buff in
      if length got == 0
      then closed s'
      else if ltb (length got) 2
      then passed_over s'
      else read_with (parse_header host buff 5 0 0) buff s'
