-- ===== src/Framing/Whole.antt =====
-- One round of the outer loop reads one message.
use nymph_mqtt.Common.{
  sym, ◌++◌, take-append, drop-append, ℕ, zero, suc, ◌<◌, ◌≡◌, refl, ap, ◌∙◌, List, [], ◌∷◌, length,
  take, drop, lt→ltb, arith,
}
use nymph_mqtt.ByteBauble.Endian.{BbEndianness, bb_le}
use nymph_mqtt.Message.Packet.{packet}
use nymph_mqtt.Message.Parse.Length.{short_packet}
use nymph_mqtt.ByteBauble.Read.{IsByte}
use nymph_mqtt.Message.Header.{parsed, parse_header}
use nymph_mqtt.Message.Header.Result.{parse_header-header_of}
use nymph_mqtt.Framing.{Source, whole, read_with, receive_message}
use nymph_mqtt.Framing.Stream.{Reads-receive, read_body_lem}

-- The bytes of `headerBuff` behind the two that are received do not matter to a length below 128.
short_header :
    (b0 b1 x2 x3 x4 : ℕ)
    → b1 < 128
    → IsByte x2
    → IsByte x3
    → IsByte x4
    → parse_header bb_le (b0 ∷ b1 ∷ x2 ∷ x3 ∷ x4 ∷ []) 5 0 0
      ≡ record { code = parsed; msglen = b1; idx = 2 }
short_header b0 b1 x2 x3 x4 h h2 h3 h4 =
    parse_header-header_of b0 b1 x2 x3 x4 5 0 0 (omega arith) h2 h3 h4 ∙ rw (lt→ltb b1 128 h)

module _ {S : Type 0} (src : Source S) where
  body_or_none :
      (b0 b1 : ℕ) (buff : List ℕ) (s : S)
      → (s' : S) × (read_with src
            (record { code = parsed; msglen = b1; idx = 2 })
            (b0 ∷ b1 ∷ buff)
            s
          ≡ whole (b0 ∷ b1 ∷ take b1 (src.stream s)) s')
        × (src.stream s' ≡ drop b1 (src.stream s))
  unfolding read_with
  body_or_none b0 zero buff s = (s, refl, refl)
  body_or_none b0 (suc n) buff s =
      let (s', e, t) = read_body_lem src (b0 ∷ suc n ∷ []) (suc n) s (omega arith) in
      (s', rw (lt→ltb 0 (suc n) (omega arith)) e, t)

  -- On a little-endian host a round whose first two bytes come together, the second below 128, reads
  -- exactly that fixed header and as many bytes as it announces (or what comes before the peer closes),
  -- in whatever pieces they arrive and whatever `headerBuff` had in it, and leaves the rest of the
  -- stream to the next round.
  pub receive_message_lem :
      (b0 b1 x0 x1 x2 x3 x4 : ℕ) (rest : List ℕ) (s : S)
      → src.stream s ≡ b0 ∷ b1 ∷ rest
      → length (src.receive s 2).0 ≡ 2
      → b1 < 128
      → IsByte x2
      → IsByte x3
      → IsByte x4
      → (s' : S) × (receive_message src bb_le (x0 ∷ x1 ∷ x2 ∷ x3 ∷ x4 ∷ []) s
          ≡ whole (b0 ∷ b1 ∷ take b1 rest) s')
        × (src.stream s' ≡ drop b1 rest)
  unfolding receive_message
  receive_message_lem b0 b1 x0 x1 x2 x3 x4 rest s e two h h2 h3 h4 =
      let (first, behind) = Reads-receive src 2 s two in
      let got : (src.receive s 2).0 ≡ b0 ∷ b1 ∷ [] = first ∙ ap (take 2) e in
      let left : src.stream (src.receive s 2).1 ≡ rest = behind ∙ ap (drop 2) e in
      let (s', done, t) = body_or_none b0 b1 (x2 ∷ x3 ∷ x4 ∷ []) (src.receive s 2).1 in
      (
        s',
        rw (got, short_header b0 b1 x2 x3 x4 h h2 h3 h4)
            (done ∙ ap (λ xs. whole (b0 ∷ b1 ∷ take b1 xs) s') left),
        t ∙ ap (drop b1) left,
      )

  -- The same for a packet of less than 128 bytes behind its fixed header.
  pub receive_message-packet :
      (host : BbEndianness) (b0 x0 x1 x2 x3 x4 : ℕ) (body rest buff : List ℕ) (s : S)
      → host ≡ bb_le
      → src.stream s ≡ packet b0 body ++ rest
      → length (src.receive s 2).0 ≡ 2
      → length body < 128
      → buff ≡ x0 ∷ x1 ∷ x2 ∷ x3 ∷ x4 ∷ []
      → IsByte x2
      → IsByte x3
      → IsByte x4
      → (s' : S) × (receive_message src host buff s ≡ whole (packet b0 body) s')
        × (src.stream s' ≡ rest)
  receive_message-packet host b0 x0 x1 x2 x3 x4 body rest buff s le sent two short same h2 h3 h4 =
      let n : ℕ = length body in
      let front : src.stream s ≡ b0 ∷ n ∷ (body ++ rest) =
        sent ∙ ap (λ xs. xs ++ rest) (short_packet b0 body short) in
      let (s', read, behind) =
        receive_message_lem b0 n x0 x1 x2 x3 x4 (body ++ rest) s front two short h2 h3 h4 in
      (
        s',
        ap (λ h. receive_message src h buff s) le
            ∙ ap (λ b. receive_message src bb_le b s) same
            ∙ read
            ∙ ap (λ xs. whole (b0 ∷ n ∷ xs) s') (take-append body rest)
            ∙ ap (λ xs. whole xs s') (sym (short_packet b0 body short)),
        behind ∙ drop-append body rest,
      )
