-- ===== src/Tests/Fields.antt =====
-- Texts and addresses of a few letters, checked twice.
use go_rest_api_service_temp.Base.{
  ℕ, suc, ◌≤◌, ◌≡◌, refl, sym, ap, subst, ◌∙◌, ◌⊎◌, String, true, false, not, some, split, free_of,
  if◌then◌else◌, ◌=ₛ◌, eq_iff, arith, Bool-cases, inl, inr,
}
use go_rest_api_service_temp.Validation.{
  Texts, StringValidationOptions, length_code, content_code, normalized, validate_trimmed, text_of,
  validate_string,
}
use go_rest_api_service_temp.Validation.Again.{IsTexts}
use go_rest_api_service_temp.Validation.Email.{
  AddressParser, IsAddressParser, is_spelled, parts_fit, address_code, validate_spelling,
  validate_email,
}

abbrev byte_count : String → ℕ
byte_count String.[] = 0
byte_count (String.◌∷◌ c s) = suc (byte_count s)

abbrev texts : Texts
texts = record {
  length = byte_count;
  trim_space = λ s. if s =ₛ " go " then "go" else s;
  has_null = λ s. not (free_of 0 s);
  has_control = λ s. not (free_of 10 s);
  has_html_tag = λ s. not (free_of b'<' s);
  has_script_tag = λ s. s =ₛ "<script></script>";
  valid_string = λ s. true;
  to_valid_utf8 = λ s. s;
}

texts-IsTexts : IsTexts texts
texts-IsTexts = record { trim_again = λ s. ground arith; valid_kept = λ s h. refl }

abbrev name_options : StringValidationOptions
name_options = record {
  field_name = "name";
  min_length = 2;
  max_length = 5;
  trim_whitespace = true;
  allow_empty = false;
  no_control_chars = true;
  no_html_tags = true;
  no_script_tags = true;
  no_null_bytes = true;
  normalize_unicode = true;
}

string_program : Unit {0}
unfolding validate_string validate_trimmed text_of length_code content_code normalized free_of
string_program = tt

abbrev mail : AddressParser
mail = record {
  length = byte_count;
  to_lower = λ s. if s =ₛ " <Ada@go.dev>" then " <ada@go.dev>" else s;
  trim_space = λ s. if s =ₛ " <ada@go.dev>" then "<ada@go.dev>" else s;
  parse_address = λ s. if s =ₛ "<ada@go.dev>" then some "ada@go.dev" else some s;
  has_space = λ s. not (free_of 32 s);
  has_dots = λ s. false;
}

email_program : Unit {0}
unfolding validate_email validate_spelling address_code is_spelled parts_fit split free_of
email_program = tt

-- The address read is one of two.
address_of :
    (s a : String)
    → mail.parse_address s ≡ some a
    → ((s ≡ "<ada@go.dev>") × (a ≡ "ada@go.dev")) ⊎ (a ≡ s)
address_of s a h = elim (Bool-cases (s =ₛ "<ada@go.dev>")) [
  | inl on ↦ inl ((eq_iff s "<ada@go.dev>").0 on, ground (arith, h, on))
  | inr off ↦ inr (ground (arith, h, off))
]

shorter : (s a : String) → mail.parse_address s ≡ some a → byte_count a ≤ byte_count s
shorter s a h = elim (address_of s a h) [
  | inl (from, to) ↦ rw (from, to) (omega arith)
  | inr same ↦ rw same (omega arith)
]

stays_lower :
    (s a : String) → mail.parse_address s ≡ some a → mail.to_lower s ≡ s → mail.to_lower a ≡ a
stays_lower s a h k = elim (address_of s a h) [
  | inl (from, to) ↦ rw to refl
  | inr same ↦ subst (λ x. mail.to_lower x ≡ x) (sym same) k
]

spaceless : (s : String) → mail.has_space s ≡ false → mail.trim_space s ≡ s
unfolding free_of
spaceless s h = elim (Bool-cases (s =ₛ " <ada@go.dev>")) [
  | inr off ↦ rw off refl
  | inl on ↦
      let same = (eq_iff s " <ada@go.dev>").0 on in
      let clash : true ≡ false = sym (ap mail.has_space same) ∙ h in absurd (ground (arith, clash))
]

lower_twice :
    (s : String)
    → mail.to_lower (mail.trim_space (mail.to_lower s)) ≡ mail.trim_space (mail.to_lower s)
lower_twice s = elim (Bool-cases (s =ₛ " <Ada@go.dev>")) [
  | inl on ↦ rw on refl
  | inr off ↦ elim (Bool-cases (s =ₛ " <ada@go.dev>")) [
    | inl on' ↦ rw (off, on') refl
    | inr off' ↦ rw (off, off', off) refl
  ]
]

mail-IsAddressParser : IsAddressParser mail
mail-IsAddressParser = record {
  length_empty = refl;
  trim_spaceless = spaceless;
  lower_again = lower_twice;
  address_lower = stays_lower;
  address_shorter = shorter;
}
