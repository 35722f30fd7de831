-- ===== src/Framing/Stream.antt =====
-- What the loops receive, however the stream is cut into pieces.
use nymph_mqtt.Common.{
  ℕ, zero, suc, ◌+◌, ◌-◌, ◌≤◌, ◌<◌, ◌≡◌, refl, ap, ◌∙◌, sym, List, [], ◌∷◌, ◌++◌, length, take,
  drop, arith, ◌==◌, Bool-cases, inl, inr, append-nil, ==→eq, some,
}
use nymph_mqtt.Framing.{Source, whole, whole_if_read, with_piece, read_rest, read_body}

length_zero : (xs : List ℕ) → length xs ≡ 0 → xs ≡ []
length_zero [] h = refl
length_zero (x ∷ xs) h = absurd (omega arith)

take_more : (n d : ℕ) (xs ys : List ℕ) → n ≡ length xs + d → take n (xs ++ ys) ≡ xs ++ take d ys
take_more n d [] ys e = ap (λ k. take k ys) (omega arith)
take_more zero d (x ∷ xs) ys e = absurd (omega arith)
take_more (suc n) d (x ∷ xs) ys e = ap (◌∷◌ x) (take_more n d xs ys (omega arith))

drop_more : (n d : ℕ) (xs ys : List ℕ) → n ≡ length xs + d → drop n (xs ++ ys) ≡ drop d ys
drop_more n d [] ys e = ap (λ k. drop k ys) (omega arith)
drop_more zero d (x ∷ xs) ys e = absurd (omega arith)
drop_more (suc n) d (x ∷ xs) ys e = drop_more n d xs ys (omega arith)

take_none : (n : ℕ) (xs : List ℕ) → xs ≡ [] → take n xs ≡ []
take_none zero xs e = refl
take_none (suc n) xs e = ap (take (suc n)) e

drop_none : (n : ℕ) (xs : List ℕ) → xs ≡ [] → drop n xs ≡ []
drop_none zero xs e = e
drop_none (suc n) xs e = ap (drop (suc n)) e

module _ {S : Type 0} (src : Source S) where
  -- What a reader has got of a stream from which it wants `n` bytes.
  abbrev pub Reads : ℕ → S → List ℕ × S → Type 0
  Reads n s (got, s') = (got ≡ take n (src.stream s)) × (src.stream s' ≡ drop n (src.stream s))

  -- A piece and what is read behind it.
  Reads-append :
      (n d : ℕ) (s : S) (rest : List ℕ) (s'' : S)
      → n ≡ length (src.receive s n).0 + d
      → Reads d (src.receive s n).1 (rest, s'')
      → Reads n s ((src.receive s n).0 ++ rest, s'')
  Reads-append n d s rest s'' e (r, t) =
      let (buff, s') = src.receive s n in
      (
        ap (λ ys. buff ++ ys) r
            ∙ sym (take_more n d buff (src.stream s') e)
            ∙ ap (take n) (sym (src.in_order s n)),
        t ∙ sym (drop_more n d buff (src.stream s') e) ∙ ap (drop n) (sym (src.in_order s n)),
      )

  pub Reads-receive : (n : ℕ) (s : S) → length (src.receive s n).0 ≡ n → Reads n s (src.receive s n)
  Reads-receive n s e =
      let (buff, s') = src.receive s n in
      let (r, t) = Reads-append n 0 s [] s' (omega arith) (refl, refl) in
      (sym (append-nil buff) ∙ r, t)

  Reads-end :
      (n : ℕ) (s : S) → 0 < n → length (src.receive s n).0 ≡ 0 → Reads n s ([], (src.receive s n).1)
  Reads-end n s pos e =
      let (buff, s') = src.receive s n in
      let none = length_zero buff e in
      let over = src.empty_at_end s n pos none in
      (
        sym (take_none n (src.stream s) over),
        ap (λ xs. xs ++ src.stream s') (sym none)
            ∙ sym (src.in_order s n)
            ∙ over
            ∙ sym (drop_none n (src.stream s) over),
      )

  -- When every poll of the socket ends with something to read, or with the end of the stream, the loop for
  -- the missing bytes, one or more, ends within `unread` rounds, with those bytes, or with all that the peer
  -- sent before it closed, in whatever pieces they come.
  pub read_rest_lem :
      (fuel unread : ℕ) (s : S)
      → 0 < unread
      → unread ≤ fuel
      → (r : List ℕ × S) × (read_rest src fuel unread s ≡ some r) × Reads unread s r
  unfolding read_rest
  read_rest_lem zero unread s pos enough = absurd (omega arith)
  read_rest_lem (suc fuel) unread s pos enough =
      let (buff, s') = src.receive s unread in
      elim (Bool-cases (length buff == 0)) [
        | inl e ↦ (([], s'), rw e refl, Reads-end unread s pos (==→eq _ _ e))
        | inr ne ↦ elim (Bool-cases (length buff == unread)) [
          | inl e ↦ ((buff, s'), rw (ne, e) refl, Reads-receive unread s (==→eq _ _ e))
          | inr more ↦
              let ((rest, s''), done, reads) =
                read_rest_lem fuel (unread - length buff) s' (ground (arith, src.fits s unread))
                  (ground (arith, src.fits s unread)) in
              (
                (buff ++ rest, s''),
                rw (ne, more) (ap (with_piece src buff) done),
                Reads-append unread (unread - length buff) s rest s''
                    (omega (arith, src.fits s unread)) reads,
              )
        ]
      ]

  -- The bytes behind the fixed header.
  pub read_body_lem :
      (header : List ℕ) (n : ℕ) (s : S)
      → 0 < n
      → (s' : S) × (read_body src header n s ≡ whole (header ++ take n (src.stream s)) s')
        × (src.stream s' ≡ drop n (src.stream s))
  unfolding read_body
  read_body_lem header n s pos =
      let (buff, s') = src.receive s n in
      elim (Bool-cases (length buff == n)) [
        | inl e ↦
            let (r, t) = Reads-receive n s (==→eq _ _ e) in
            (s', rw e (ap (λ xs. whole (header ++ xs) s') r), t)
        | inr more ↦
            let d : ℕ = n - length buff in
            let ((rest, s''), done, reads) =
              read_rest_lem n d s' (ground (arith, src.fits s n)) (omega arith) in
            let parts = Reads-append n d s rest s'' (omega (arith, src.fits s n)) reads in
            (
              s'',
              rw more (
                  ap (λ o. whole_if_read src header (with_piece src buff o)) done
                  ∙ ap (λ xs. whole (header ++ xs) s'') parts.0),
              parts.1,
            )
      ]
