-- ===== src/Paging/Accepted.antt =====
-- DecodeToken of internal/core/domain/paginator.go: what it accepts.
use go_rest_api_service_temp.Base.{
  ◌≡◌, refl, sym, ap, ◌∙◌, String, true, some, List, [], ◌∷◌, split, arith, Option-cases, inl, inr,
}
use go_rest_api_service_temp.Base.Int.{ℤ, pos, negsuc}
use go_rest_api_service_temp.Paging.{
  Codec, TokenDirection, is_valid, ok, decode_direction, decode_parts, three_parts, decode_token,
}

module _ {Uuid : Type 0} (codec : Codec Uuid) where
  module _ (id : Uuid) (serial : ℤ) (dir expected : TokenDirection) where
    direction_sound :
        (id' : Uuid) (serial' : ℤ) (text : String)
        → decode_direction codec id' serial' text expected ≡ ok (id, serial, dir)
        → (id' ≡ id)
          × (serial' ≡ serial)
          × (dir ≡ expected)
          × (is_valid dir ≡ true)
          × (codec.parse_int text ≡ some (pos dir))
    unfolding decode_direction is_valid
    direction_sound id' serial' text h = elim (Option-cases (codec.parse_int text)) [
      | inl missing ↦ absurd (ground arith)
      | inr (pos n, found) ↦ (ground arith, ground arith, ground arith, ground arith, ground arith)
      | inr (negsuc n, found) ↦ absurd (ground arith)
    ]

    parts_sound :
        (parts : List String)
        → three_parts codec parts expected ≡ ok (id, serial, dir)
        → (first second third : String) × (parts ≡ first ∷ second ∷ third ∷ [])
          × (codec.parse_id first ≡ some id)
          × (codec.parse_int second ≡ some serial)
          × (dir ≡ expected)
          × (is_valid dir ≡ true)
          × (codec.parse_int third ≡ some (pos dir))
    unfolding three_parts decode_parts
    parts_sound [] h = cc
    parts_sound (a ∷ []) h = cc
    parts_sound (a ∷ b ∷ []) h = cc
    parts_sound (a ∷ b ∷ c ∷ d ∷ l) h = cc
    parts_sound (a ∷ b ∷ c ∷ []) h = elim (Option-cases (codec.parse_id a)) [
      | inl missing ↦ absurd (ground arith)
      | inr (id', found) ↦ elim (Option-cases (codec.parse_int b)) [
        | inl missing ↦ absurd (ground arith)
        | inr (serial', read) ↦
            let (p, q, same, valid, third) = direction_sound id' serial' c (ground arith) in
            (a, b, c, refl, found ∙ ap some p, read ∙ ap some q, same, valid, third)
      ]
    ]

  -- What is accepted as a token: a base64 text of three parts that are read as an id, a serial
  -- number and the direction that was expected, which is one of the two usable ones.
  pub decode_sound :
      (s : String) (expected dir : TokenDirection) (id : Uuid) (serial : ℤ)
      → decode_token codec s expected ≡ ok (id, serial, dir)
      → (dir ≡ expected)
        × (is_valid dir ≡ true)
        × ((text first second third : String) × (codec.decode s ≡ some text)
            × (split b';' text ≡ first ∷ second ∷ third ∷ [])
            × (codec.parse_id first ≡ some id)
            × (codec.parse_int second ≡ some serial)
            × (codec.parse_int third ≡ some (pos dir)))
  unfolding decode_token
  decode_sound s expected dir id serial h = elim (Option-cases (codec.decode s)) [
    | inl missing ↦ absurd (ground (arith, ap (λ o. o) h))
    | inr (text, found) ↦
        let (first, second, third, cut, a, b, c, d, e) =
          parts_sound id serial dir expected (split b';' text)
            (sym (rw (decode_token, found) refl) ∙ h) in
        (c, d, (text, first, second, third, found, cut, a, b, e))
  ]
