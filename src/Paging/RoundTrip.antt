-- ===== src/Paging/RoundTrip.antt =====
-- The tokens of internal/core/domain/paginator.go: what is read back from those that a page hands out.
use Prim.Native.Char.{char}
use go_rest_api_service_temp.Base.{
  ℕ, ◌<◌, ◌≡◌, refl, sym, ap, ap₂, ◌∙◌, String, Bool, true, false, ◌&&◌, ◌||◌, some, [], ◌∷◌,
  if◌then◌else◌, ◌==◌, leb, ◌=ₛ◌, ◌+ₛ◌, eq_iff, split, split-free, split-joined, free_of, arith,
  Bool-cases, inl, inr,
}
use go_rest_api_service_temp.Base.Int.{ℤ, pos, negsuc}
use go_rest_api_service_temp.Paging.{
  Codec, TokenDirection, token_direction_prev, token_direction_next, token_direction_invalid,
  is_valid, unknown_direction, inherently_invalid, direction_mismatch, Result, ok, error, payload,
  encode_token, decode_direction, decode_parts, three_parts, decode_token, get_tokens,
  get_paginator_direction,
}

-- The numbers of an int64: from -(2 ^ 63) to 2 ^ 63 - 1.
abbrev pub IsInt64 : ℤ → Type 0
IsInt64 (pos n) = n < 9223372036854775808
IsInt64 (negsuc n) = n < 9223372036854775808

-- What the packages promise: what is printed is read back, what is printed holds no semicolon, and
-- base64 is read back, the empty text from the empty text.
pub record IsCodec {Uuid : Type 0} (codec : Codec Uuid) : Type 0 where
  pub parse_print_id : (id : Uuid) → codec.parse_id (codec.print_id id) ≡ some id
  pub parse_print_int : (n : ℤ) → IsInt64 n → codec.parse_int (codec.print_int n) ≡ some n
  pub id_free : (id : Uuid) → free_of b';' (codec.print_id id) ≡ true
  pub int_free : (n : ℤ) → free_of b';' (codec.print_int n) ≡ true
  pub decode_encode : (s : String) → codec.decode (codec.encode s) ≡ some s
  pub decode_empty : codec.decode "" ≡ some ""

module _ {Uuid : Type 0} (codec : Codec Uuid) (laws : IsCodec codec) where
  split-payload :
      (id : Uuid) (serial : ℤ) (dir : TokenDirection)
      → split b';' (payload codec id serial dir)
        ≡ codec.print_id id ∷ codec.print_int serial ∷ codec.print_int (pos dir) ∷ []
  unfolding payload
  split-payload id serial dir =
      split-joined (char 59 tt) (codec.print_id id)
        (codec.print_int serial +ₛ ";" +ₛ codec.print_int (pos dir)) (laws.id_free id)
      ∙ ap (λ l. codec.print_id id ∷ l)
          (split-joined (char 59 tt) (codec.print_int serial) (codec.print_int (pos dir))
              (laws.int_free serial)
            ∙ ap (λ l. codec.print_int serial ∷ l)
                (split-free b';' (codec.print_int (pos dir)) (laws.int_free (pos dir))))

  direction-read :
      (id : Uuid) (serial : ℤ) (dir expected : TokenDirection)
      → dir < 256
      → decode_direction codec id serial (codec.print_int (pos dir)) expected ≡ (
          if leb 1 dir && leb dir 2
          then if dir == expected then ok (id, serial, dir) else error direction_mismatch
          else if dir == 3
          then error inherently_invalid
          else error unknown_direction)
  unfolding decode_direction is_valid
  direction-read id serial dir expected k =
      rw (decode_direction, laws.parse_print_int (pos dir) (omega (arith, k))) (ground arith)

  -- A token, of a serial number in the range of int64 and a direction that is a byte, is read back
  -- as what it was made of if its direction is the expected one of the two usable ones, and is
  -- refused otherwise, with the reason.
  pub decode-encode :
      (id : Uuid) (serial : ℤ) (dir expected : TokenDirection)
      → IsInt64 serial
      → dir < 256
      → decode_token codec (encode_token codec id serial dir) expected ≡ (
          if leb 1 dir && leb dir 2
          then if dir == expected then ok (id, serial, dir) else error direction_mismatch
          else if dir == 3
          then error inherently_invalid
          else error unknown_direction)
  unfolding decode_token encode_token three_parts decode_parts
  decode-encode id serial dir expected h k =
      rw
        (
          decode_token,
          encode_token,
          laws.decode_encode (payload codec id serial dir),
          split-payload id serial dir,
          three_parts,
          decode_parts,
          laws.parse_print_id id,
          laws.parse_print_int serial h,
        )
        (direction-read id serial dir expected k)

  token-filled :
      (id : Uuid) (serial : ℤ) (dir : TokenDirection)
      → (encode_token codec id serial dir =ₛ "") ≡ false
  unfolding encode_token free_of
  token-filled id serial dir = elim (Bool-cases (encode_token codec id serial dir =ₛ "")) [
    | inr filled ↦ filled
    | inl same ↦
        let bare : some (payload codec id serial dir) ≡ some "" =
          sym (laws.decode_encode (payload codec id serial dir))
          ∙ ap codec.decode ((eq_iff _ "").0 same)
          ∙ laws.decode_empty in
        let empty : payload codec id serial dir ≡ "" = cc in
        let parts : (codec.print_id id ∷ codec.print_int serial ∷ codec.print_int (pos dir) ∷ [])
            ≡ ("" ∷ []) =
          sym (split-payload id serial dir)
          ∙ ap (λ s. split b';' s) empty
          ∙ split-free b';' "" refl in
        absurd (ground (arith, parts))
  ]

  next-read :
      (id : Uuid) (serial : ℤ)
      → IsInt64 serial
      → get_paginator_direction codec (encode_token codec id serial token_direction_next) ""
        ≡ ok (token_direction_next, id, serial)
  unfolding get_paginator_direction
  next-read id serial h =
      rw
        (
          get_paginator_direction,
          token-filled id serial token_direction_next,
          decode-encode id serial token_direction_next token_direction_next h (omega arith),
        )
        refl

  prev-read :
      (id : Uuid) (serial : ℤ)
      → IsInt64 serial
      → get_paginator_direction codec "" (encode_token codec id serial token_direction_prev)
        ≡ ok (token_direction_prev, id, serial)
  unfolding get_paginator_direction
  prev-read id serial h =
      rw
        (
          get_paginator_direction,
          token-filled id serial token_direction_prev,
          decode-encode id serial token_direction_prev token_direction_prev h (omega arith),
        )
        refl

  module _ (size : ℕ) (first_id : Uuid) (first_serial : ℤ) (last_id : Uuid) (last_serial : ℤ)
      (dir : TokenDirection) (more_next more_prev : Bool) where
    -- The cursors that a client gets from the two tokens of a page: of the next one alone, and of
    -- the previous one alone.
    abbrev pub followed : Result (TokenDirection × Uuid × ℤ) × Result (TokenDirection × Uuid × ℤ)
    followed =
        let tokens =
          get_tokens codec size first_id first_serial last_id last_serial dir more_next more_prev in
        (get_paginator_direction codec tokens.0 "", get_paginator_direction codec "" tokens.1)

    abbrev pub stay : Result (TokenDirection × Uuid × ℤ)
    stay = ok (token_direction_invalid, codec.nil_id, pos 0)

    none-read : get_paginator_direction codec "" "" ≡ stay
    unfolding get_paginator_direction
    none-read = refl

    given :
        0 < size
        → get_tokens codec size first_id first_serial last_id last_serial dir more_next more_prev
          ≡ (
            (if dir == 1 || more_next then encode_token codec last_id last_serial 2 else ""),
            (if dir == 2 || more_prev then encode_token codec first_id first_serial 1 else ""),
          )
    unfolding get_tokens
    given filled = ground arith

    -- From a page with elements, the next token leads on from its last element if the page was
    -- reached backwards or there is more after it, the previous token leads back from its first
    -- element if the page was reached forwards or there is more before it, and a token that is not
    -- given asks for no cursor. Both hold of serial numbers in the range of int64.
    pub followed_lem :
        0 < size
        → IsInt64 first_serial
        → IsInt64 last_serial
        → followed ≡ (
          (if dir == 1 || more_next then ok (token_direction_next, last_id, last_serial) else stay),
          (if dir == 2 || more_prev
              then ok (token_direction_prev, first_id, first_serial)
              else stay),
        )
    followed_lem filled h k = rw (given filled) (ap₂ (λ x y. (x, y)) next_side prev_side)
      where
        next_side :
            get_paginator_direction codec
              (if dir == 1 || more_next then encode_token codec last_id last_serial 2 else "")
              ""
            ≡ (if dir == 1 || more_next
                then ok (token_direction_next, last_id, last_serial)
                else stay)
        next_side = elim (Bool-cases (dir == 1 || more_next)) [
          | inl on ↦ rw on (next-read last_id last_serial k)
          | inr off ↦ rw off none-read
        ]

        prev_side :
            get_paginator_direction codec ""
              (if dir == 2 || more_prev then encode_token codec first_id first_serial 1 else "")
            ≡ (if dir == 2 || more_prev
                then ok (token_direction_prev, first_id, first_serial)
                else stay)
        prev_side = elim (Bool-cases (dir == 2 || more_prev)) [
          | inl on ↦ rw on (prev-read first_id first_serial h)
          | inr off ↦ rw off none-read
        ]
