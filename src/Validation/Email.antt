-- ===== src/Validation/Email.antt =====
-- ValidateEmail of internal/core/domain/validation.go: the form of an address that is stored, and
-- what a second check of the same rule says of it. mail.ParseAddress and the packages strings and
-- unicode are arguments.
use go_rest_api_service_temp.Base.{
  ℕ, ◌≤◌, ◌≡◌, sym, ap, ◌∙◌, String, Bool, true, false, not, ◌&&◌, ◌||◌, Option, none, some, List,
  [], ◌∷◌, if◌then◌else◌, ltb, ◌==◌, ◌=ₛ◌, eq_iff, split, arith, Option-cases, Bool-cases, inl, inr,
}
use go_rest_api_service_temp.Validation.{
  Checked, passed, refused, Code, required, too_long, too_short, invalid_format,
}

-- len, strings.ToLower, strings.TrimSpace, the address that mail.ParseAddress reads (the field
-- Address), strings.ContainsFunc with unicode.IsSpace, and strings.Contains with "..".
pub record AddressParser : Type 0 where
  pub length : String → ℕ
  pub to_lower : String → String
  pub trim_space : String → String
  pub parse_address : String → Option String
  pub has_space : String → Bool
  pub has_dots : String → Bool

abbrev pub max_email_length : ℕ
max_email_length = 254

abbrev pub valid_user_email_min_length : ℕ
valid_user_email_min_length = 6

module _ (mail : AddressParser) where
  -- Whether the address is spelled as it is read again, with no white space
  unfoldable pub is_spelled : String → Bool
  is_spelled address = elim (mail.parse_address address) [
    | none ↦ false
    | some reparsed ↦ reparsed =ₛ address && not (mail.has_space address)
  ]

  -- The checks of the two parts
  unfoldable pub parts_fit : List String → Bool
  parts_fit (local_part ∷ domain ∷ []) =
      not (mail.length local_part == 0 || ltb 64 (mail.length local_part))
      && not (mail.length domain == 0 || ltb 253 (mail.length domain))
  parts_fit _ = false

  -- The checks of the address that was read
  unfoldable pub address_code : String → Option Code
  address_code address =
      if not (is_spelled address)
      then some invalid_format
      else if ltb (mail.length address) valid_user_email_min_length
      then some too_short
      else if not (parts_fit (split b'@' address))
      then some invalid_format
      else if mail.has_dots address
      then some invalid_format
      else none

  -- ValidateEmail, from the lengths on
  unfoldable pub validate_spelling : (field_name email : String) → Checked String
  validate_spelling field_name email =
      if ltb max_email_length (mail.length email)
      then refused field_name too_long
      else if ltb (mail.length email) valid_user_email_min_length
      then refused field_name too_short
      else elim (mail.parse_address email) [
        | none ↦ refused field_name invalid_format
        | some address ↦ elim (address_code address) [
          | some code ↦ refused field_name code
          | none ↦ passed address
        ]
      ]

  unfoldable pub validate_email : (email field_name : String) → Checked String
  validate_email email field_name =
      if email =ₛ ""
      then refused field_name required
      else validate_spelling field_name (mail.trim_space (mail.to_lower email))

-- What the packages promise: a text without white space has nothing to trim, a text in lower case
-- stays so when it is trimmed and when an address is read from it, and the address that is read is
-- not longer than the text.
pub record IsAddressParser (mail : AddressParser) : Type 0 where
  pub length_empty : mail.length "" ≡ 0
  pub trim_spaceless : (s : String) → mail.has_space s ≡ false → mail.trim_space s ≡ s
  pub lower_again :
      (s : String)
      → mail.to_lower (mail.trim_space (mail.to_lower s)) ≡ mail.trim_space (mail.to_lower s)
  pub address_lower :
      (s a : String) → mail.parse_address s ≡ some a → mail.to_lower s ≡ s → mail.to_lower a ≡ a
  pub address_shorter :
      (s a : String) → mail.parse_address s ≡ some a → mail.length a ≤ mail.length s

module _ (mail : AddressParser) (laws : IsAddressParser mail) (field_name : String) where
  is_spelled-read :
      (w : String)
      → is_spelled mail w ≡ true
      → (mail.parse_address w ≡ some w) × (mail.has_space w ≡ false)
  unfolding is_spelled
  is_spelled-read w h = elim (Option-cases (mail.parse_address w)) [
    | inl missing ↦ absurd (ground (arith, h, missing))
    | inr (a, found) ↦
        let same : a ≡ w = (eq_iff a w).0 (ground (arith, h, found)) in
        (found ∙ ap some same, ground (arith, h, found))
  ]

  address_code-fit :
      (w : String)
      → address_code mail w ≡ none
      → (is_spelled mail w ≡ true) × (valid_user_email_min_length ≤ mail.length w)
  unfolding address_code
  address_code-fit w h = (ground (arith, h), ground (arith, h))

  -- What was passed was read from the text, which fits, and has no fault of its own.
  spelling_read :
      (email w : String)
      → validate_spelling mail field_name email ≡ passed w
      → (mail.parse_address email ≡ some w)
        × (address_code mail w ≡ none)
        × (mail.length email ≤ max_email_length)
  unfolding validate_spelling
  spelling_read email w h = elim (Option-cases (mail.parse_address email)) [
    | inl missing ↦ absurd (ground (arith, h, missing))
    | inr (a, found) ↦ elim (Option-cases (address_code mail a)) [
      | inr (code, bad) ↦ absurd (ground (arith, h, found, bad))
      | inl fine ↦
          let same : a ≡ w = ground (arith, h, found, fine) in
          (found ∙ ap some same, sym (ap (λ x. address_code mail x) same) ∙ fine, ground (arith, h))
    ]
  ]

  spelling_passes :
      (w : String)
      → mail.parse_address w ≡ some w
      → address_code mail w ≡ none
      → valid_user_email_min_length ≤ mail.length w
      → mail.length w ≤ max_email_length
      → validate_spelling mail field_name w ≡ passed w
  unfolding validate_spelling
  spelling_passes w found fine long short = ground (arith, found, fine, long, short)

  filled : (w : String) → valid_user_email_min_length ≤ mail.length w → (w =ₛ "") ≡ false
  filled w long = elim (Bool-cases (w =ₛ "")) [
    | inr off ↦ off
    | inl on ↦
        let none_left : mail.length w ≡ 0 =
          ap mail.length ((eq_iff w "").0 on) ∙ laws.length_empty in
        absurd (omega (arith, long, none_left))
  ]

  -- The address that the check passes is passed again, unchanged, by the same check: what the
  -- handler has validated and normalised, the use case does not refuse or change.
  pub validate_email-again :
      (email w : String)
      → validate_email mail email field_name ≡ passed w
      → validate_email mail w field_name ≡ passed w
  unfolding validate_email
  validate_email-again email w h =
      let text = mail.trim_space (mail.to_lower email) in
      let checked : validate_spelling mail field_name text ≡ passed w = ground (arith, h) in
      let (found, fine, short) = spelling_read text w checked in
      let (spelled, long) = address_code-fit w fine in
      let (reread, spaceless) = is_spelled-read w spelled in
      let lower : mail.to_lower w ≡ w = laws.address_lower text w found (laws.lower_again email) in
      let stays : mail.trim_space (mail.to_lower w) ≡ w =
        ap mail.trim_space lower ∙ laws.trim_spaceless w spaceless in
      let fits : mail.length w ≤ max_email_length =
        omega (arith, laws.address_shorter text w found, short) in
      rw (filled w long, stays) (spelling_passes w reread fine long fits)
