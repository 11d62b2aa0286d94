-- ===== src/Tests/Cursors.antt =====
-- Cursors over numbers printed as strokes, with texts encoded as themselves.
use go_rest_api_service_temp.Base.{◌≡◌, refl, true, false, some, arith, split}
use go_rest_api_service_temp.Base.Int.{ℤ, pos, negsuc}
use go_rest_api_service_temp.Paging.{
  Codec, ok, error, direction_mismatch, encode_token, decode_token, is_valid, token_direction_next,
  payload, three_parts, decode_parts, decode_direction,
}
use go_rest_api_service_temp.Paging.RoundTrip.{IsCodec, followed, decode-encode, followed_lem}
use go_rest_api_service_temp.Tests.Strokes.{
  stroke_int, stroke_int_free, read_strokes, read-stroke_int,
}

abbrev codec : Codec ℤ
codec = record {
  nil_id = pos 0;
  print_id = stroke_int;
  parse_id = read_strokes;
  print_int = stroke_int;
  parse_int = read_strokes;
  encode = λ s. s;
  decode = some;
}

codec-IsCodec : IsCodec codec
codec-IsCodec = record {
  parse_print_id = read-stroke_int;
  parse_print_int = λ n h. read-stroke_int n;
  id_free = stroke_int_free 59 refl;
  int_free = stroke_int_free 59 refl;
  decode_encode = λ s. refl;
  decode_empty = refl;
}

decode-encode_example :
    decode_token codec (encode_token codec (pos 4) (negsuc 2) 1) 2 ≡ error direction_mismatch
decode-encode_example =
    decode-encode codec codec-IsCodec (pos 4) (negsuc 2) 1 2 (omega arith) (omega arith)

followed_lem_example :
    followed codec codec-IsCodec 2 (pos 4) (pos 1) (pos 5) (pos 2) 3 true false
    ≡ (ok (token_direction_next, pos 5, pos 2), ok (3, pos 0, pos 0))
followed_lem_example =
    followed_lem codec codec-IsCodec 2 (pos 4) (pos 1) (pos 5) (pos 2) 3 true false (omega arith)
      (omega arith) (omega arith)

program : Unit {0}
unfolding encode_token decode_token payload three_parts decode_parts decode_direction split is_valid
program = tt
