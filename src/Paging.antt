-- ===== src/Paging.antt =====
-- The cursors of internal/core/domain/paginator.go: the tokens that a page hands out, and what is
-- read back from them. UUIDs, the base64 encoding and the printing and reading of numbers are
-- arguments. A direction is a byte, as in the source; a serial number is an int64.
pub mod RoundTrip
pub mod Accepted
use go_rest_api_service_temp.Base.{
  ℕ, ◌+◌, String, Bool, true, false, not, ◌&&◌, ◌||◌, Option, none, some, List, [], ◌∷◌,
  if◌then◌else◌, ◌==◌, ◌=ₛ◌, ◌+ₛ◌, split,
}
use go_rest_api_service_temp.Base.Int.{ℤ, pos, pos_part, ltb_ℤ}

-- UUID.String and uuid.Parse, fmt's %d and strconv.ParseInt or Atoi, base64.StdEncoding.
pub record Codec (Uuid : Type 0) : Type 0 where
  pub nil_id : Uuid
  pub print_id : Uuid → String
  pub parse_id : String → Option Uuid
  pub print_int : ℤ → String
  pub parse_int : String → Option ℤ
  pub encode : String → String
  pub decode : String → Option String

-- TokenDirection and its constants
abbrev pub TokenDirection : Type 0
TokenDirection = ℕ

abbrev pub token_direction_prev : TokenDirection
token_direction_prev = 1

abbrev pub token_direction_next : TokenDirection
token_direction_next = 2

abbrev pub token_direction_invalid : TokenDirection
token_direction_invalid = 3

-- TokenDirection.IsValid
unfoldable pub is_valid : TokenDirection → Bool
is_valid d = d == token_direction_prev || d == token_direction_next

-- InvalidCursorError, by its message
pub data InvalidCursor : Type 0 where
  not_base64 incorrect_format invalid_uuid invalid_serial non_integer_direction : InvalidCursor
  unknown_direction inherently_invalid direction_mismatch both_tokens : InvalidCursor

pub data Result (A : Type 0) : Type 0 where
  ok : A → Result A
  error : InvalidCursor → Result A

module _ {Uuid : Type 0} (codec : Codec Uuid) where
  -- EncodeToken; DataSeparator is ";".
  unfoldable pub payload : Uuid → ℤ → TokenDirection → String
  payload id serial dir =
      codec.print_id id +ₛ ";" +ₛ codec.print_int serial +ₛ ";" +ₛ codec.print_int (pos dir)

  unfoldable pub encode_token : Uuid → ℤ → TokenDirection → String
  encode_token id serial dir = codec.encode (payload id serial dir)

  -- DecodeToken, from the direction's text on
  unfoldable pub decode_direction :
      Uuid → ℤ → String → (expected : TokenDirection) → Result (Uuid × ℤ × TokenDirection)
  decode_direction id serial text expected = elim (codec.parse_int text) [
    | none ↦ error non_integer_direction
    | some value ↦
        if ltb_ℤ value (pos token_direction_prev) || ltb_ℤ (pos token_direction_invalid) value
        then error unknown_direction
        else let parsed = pos_part value in
          if not (is_valid parsed)
          then error inherently_invalid
          else if not (parsed == expected)
          then error direction_mismatch
          else ok (id, serial, parsed)
  ]

  -- DecodeToken, from the three parts on
  unfoldable pub decode_parts :
      String → String → String → (expected : TokenDirection) → Result (Uuid × ℤ × TokenDirection)
  decode_parts first second third expected = elim (codec.parse_id first) [
    | none ↦ error invalid_uuid
    | some id ↦ elim (codec.parse_int second) [
      | none ↦ error invalid_serial
      | some serial ↦ decode_direction id serial third expected
    ]
  ]

  -- The test for three parts
  unfoldable pub three_parts :
      List String → (expected : TokenDirection) → Result (Uuid × ℤ × TokenDirection)
  three_parts (first ∷ second ∷ third ∷ []) expected = decode_parts first second third expected
  three_parts _ expected = error incorrect_format

  unfoldable pub decode_token :
      String → (expected : TokenDirection) → Result (Uuid × ℤ × TokenDirection)
  decode_token s expected = elim (codec.decode s) [
    | none ↦ error not_base64
    | some data_text ↦ three_parts (split b';' data_text) expected
  ]

  -- GetTokens: the next token and the previous one.
  unfoldable pub get_tokens :
      (size : ℕ) (first_id : Uuid) (first_serial : ℤ) (last_id : Uuid) (last_serial : ℤ)
      → (dir : TokenDirection) (more_next more_prev : Bool) → String × String
  get_tokens size first_id first_serial last_id last_serial dir more_next more_prev =
      if size == 0
      then ("", "")
      else let next =
          if dir == token_direction_prev
          then encode_token last_id last_serial token_direction_next
          else if more_next
          then encode_token last_id last_serial token_direction_next
          else "" in
        let prev =
          if dir == token_direction_next
          then encode_token first_id first_serial token_direction_prev
          else if more_prev
          then encode_token first_id first_serial token_direction_prev
          else "" in
        (next, prev)

  -- GetPaginatorDirection: the direction, the id and the serial number.
  unfoldable pub get_paginator_direction :
      (next_token prev_token : String) → Result (TokenDirection × Uuid × ℤ)
  get_paginator_direction next_token prev_token =
      if not (next_token =ₛ "") && not (prev_token =ₛ "")
      then error both_tokens
      else if not (next_token =ₛ "")
      then elim (decode_token next_token token_direction_next) [
        | error e ↦ error e
        | ok (id, serial, direction) ↦ ok (direction, id, serial)
      ]
      else if not (prev_token =ₛ "")
      then elim (decode_token prev_token token_direction_prev) [
        | error e ↦ error e
        | ok (id, serial, direction) ↦ ok (direction, id, serial)
      ]
      else ok (token_direction_invalid, codec.nil_id, pos 0)
