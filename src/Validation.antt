-- ===== src/Validation.antt =====
-- The checks of internal/core/domain/validation.go on texts and on pages. What the packages strings,
-- utf8 and regexp do is an argument. A refusal carries its code and not its wording; the lengths are
-- the bounds that callers write down, none of which is negative.
pub mod Again
pub mod Email
pub mod Passwords
use go_rest_api_service_temp.Base.{
  ℕ, String, Bool, true, not, ◌&&◌, ◌||◌, Option, none, some, ltb, if◌then◌else◌, ◌=ₛ◌, ◌+ₛ◌,
}
use go_rest_api_service_temp.Base.Int.{ℤ, pos, ltb_ℤ}

-- The length in bytes, strings.TrimSpace, the null byte, the patterns of the control characters, the
-- HTML tags and the script tags, utf8.ValidString, and strings.ToValidUTF8 with "".
pub record Texts : Type 0 where
  pub length : String → ℕ
  pub trim_space : String → String
  pub has_null : String → Bool
  pub has_control : String → Bool
  pub has_html_tag : String → Bool
  pub has_script_tag : String → Bool
  pub valid_string : String → Bool
  pub to_valid_utf8 : String → String

pub record StringValidationOptions : Type 0 where
  pub field_name : String
  pub min_length : ℕ
  pub max_length : ℕ
  pub trim_whitespace : Bool
  pub allow_empty : Bool
  pub no_control_chars : Bool
  pub no_html_tags : Bool
  pub no_script_tags : Bool
  pub no_null_bytes : Bool
  pub normalize_unicode : Bool

-- The codes of a ValidationError
pub data Code : Type 0 where
  required too_long invalid_length too_short invalid_characters invalid_content : Code
  invalid_encoding invalid_value too_large invalid_format weak_password : Code

pub data Checked (A : Type 0) : Type 0 where
  passed : A → Checked A
  refused : (field : String) → Code → Checked A

abbrev pub max_string_length : ℕ
max_string_length = 10000

abbrev pub max_pagination_limit : ℤ
max_pagination_limit = pos 1000

module _ (texts : Texts) (opts : StringValidationOptions) where
  -- The checks of the length, in the order of the source
  unfoldable pub length_code : String → Option Code
  length_code value =
      let size = texts.length value in
      if ltb max_string_length size
      then some too_long
      else if ltb 0 opts.min_length && ltb 0 opts.max_length
      then if ltb size opts.min_length || ltb opts.max_length size
        then some invalid_length
        else none
      else if ltb size opts.min_length
      then some too_short
      else if ltb 0 opts.max_length && ltb opts.max_length size
      then some too_long
      else none

  -- The checks of the characters
  unfoldable pub content_code : String → Option Code
  content_code value =
      if opts.no_null_bytes && texts.has_null value
      then some invalid_characters
      else if opts.no_control_chars && texts.has_control value
      then some invalid_characters
      else if opts.no_html_tags && texts.has_html_tag value
      then some invalid_content
      else if opts.no_script_tags && texts.has_script_tag value
      then some invalid_content
      else if not (texts.valid_string value)
      then some invalid_encoding
      else none

  -- The last step, on the text that passed
  unfoldable pub normalized : String → String
  normalized value =
      let valid = texts.to_valid_utf8 value in
      if opts.normalize_unicode && not (valid =ₛ value) then valid else value

  -- ValidateString, from the test for an empty text on
  unfoldable pub validate_trimmed : String → Checked String
  validate_trimmed value =
      if value =ₛ "" && not opts.allow_empty
      then refused opts.field_name required
      else elim (length_code value) [
        | some code ↦ refused opts.field_name code
        | none ↦ elim (content_code value) [
          | some code ↦ refused opts.field_name code
          | none ↦ passed (normalized value)
        ]
      ]

  unfoldable pub text_of : String → String
  text_of value = if opts.trim_whitespace then texts.trim_space value else value

  unfoldable pub validate_string : String → Checked String
  validate_string value =
      if value =ₛ "" && opts.allow_empty then passed "" else validate_trimmed (text_of value)

-- ValidatePagination
unfoldable pub validate_pagination : (limit offset : ℤ) (field_prefix : String) → Checked Unit
validate_pagination limit offset field_prefix =
    if ltb_ℤ limit (pos 0)
    then refused (field_prefix +ₛ "limit") invalid_value
    else if ltb_ℤ max_pagination_limit limit
    then refused (field_prefix +ₛ "limit") too_large
    else if ltb_ℤ offset (pos 0)
    then refused (field_prefix +ₛ "offset") invalid_value
    else passed tt
