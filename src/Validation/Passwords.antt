-- ===== src/Validation/Passwords.antt =====
-- ValidatePassword, the rule for choosing a password, and ValidateLoginPassword, the rule for one that
-- is checked, of internal/core/domain/validation.go. The classes of package unicode are arguments.
use go_rest_api_service_temp.Base.{
  ℕ, ◌+◌, ◌≤◌, ◌≡◌, ◌⊎◌, String, Bool, true, false, List, [], ◌∷◌, if◌then◌else◌, ltb, leb, one_if,
  ◌=ₛ◌, contains, arith, Bool-cases, inl, inr,
}
use go_rest_api_service_temp.Validation.{
  Checked, passed, refused, required, too_long, too_short, weak_password,
}

-- len, strings.ToLower, the runes that range goes through, and the classes of unicode; is_special is
-- IsPunct or IsSymbol.
pub record Runes : Type 0 where
  pub length : String → ℕ
  pub to_lower : String → String
  pub runes : String → List ℕ
  pub is_lower : ℕ → Bool
  pub is_upper : ℕ → Bool
  pub is_digit : ℕ → Bool
  pub is_special : ℕ → Bool

abbrev pub common_passwords : List String
common_passwords =
    "password" ∷ "passw0rd" ∷ "password1" ∷ "password12" ∷ "password123" ∷ "password1234"
    ∷ "p@ssw0rd" ∷ "p@ssword" ∷ "123456" ∷ "1234567" ∷ "12345678" ∷ "123456789" ∷ "1234567890"
    ∷ "12345678910" ∷ "987654321" ∷ "1q2w3e4r" ∷ "1qaz2wsx" ∷ "qwerty" ∷ "qwerty123" ∷ "qwertyuiop"
    ∷ "qwerty1234" ∷ "asdfgh" ∷ "asdfghjkl" ∷ "zxcvbnm" ∷ "abc123" ∷ "abcd1234" ∷ "abcdefgh"
    ∷ "a1b2c3d4" ∷ "letmein" ∷ "welcome" ∷ "welcome1" ∷ "welcome123" ∷ "admin" ∷ "admin123"
    ∷ "administrator" ∷ "root" ∷ "toor" ∷ "user" ∷ "guest" ∷ "test" ∷ "test123" ∷ "testtest"
    ∷ "changeme" ∷ "default" ∷ "secret" ∷ "iloveyou" ∷ "monkey" ∷ "dragon" ∷ "sunshine" ∷ "princess"
    ∷ "football" ∷ "baseball" ∷ "master" ∷ "superman" ∷ "batman" ∷ "trustno1" ∷ "whatever"
    ∷ "111111" ∷ "11111111" ∷ "000000" ∷ "00000000" ∷ "121212" ∷ "123123" ∷ "123321" ∷ "654321"
    ∷ "666666" ∷ "888888" ∷ "aaaaaa" ∷ "aaaaaaaa" ∷ "zaq12wsx" ∷ "michael" ∷ "jennifer" ∷ "computer"
    ∷ "internet" ∷ "login" ∷ "starwars" ∷ "hello123" ∷ []

abbrev pub valid_user_password_min_length : ℕ
valid_user_password_min_length = 8

abbrev pub valid_user_password_max_length : ℕ
valid_user_password_max_length = 72

abbrev pub min_password_complexity_score : ℕ
min_password_complexity_score = 3

-- The four flags of calculatePasswordComplexity
pub record Flags : Type 0 where
  pub has_lower : Bool
  pub has_upper : Bool
  pub has_digit : Bool
  pub has_special : Bool

module _ (unicode : Runes) where
  -- The switch on one rune
  unfoldable pub look : Flags → ℕ → Flags
  look flags rune =
      if unicode.is_lower rune
      then record flags { has_lower = true }
      else if unicode.is_upper rune
      then record flags { has_upper = true }
      else if unicode.is_digit rune
      then record flags { has_digit = true }
      else if unicode.is_special rune
      then record flags { has_special = true }
      else flags

  unfoldable pub look_through : Flags → List ℕ → Flags
  look_through flags [] = flags
  look_through flags (rune ∷ rest) = look_through (look flags rune) rest

  unfoldable pub classes : String → ℕ
  classes password =
      let flags =
        look_through
          (record { has_lower = false; has_upper = false; has_digit = false; has_special = false })
          (unicode.runes password) in
      one_if flags.has_lower
      + one_if flags.has_upper
      + one_if flags.has_digit
      + one_if flags.has_special

  unfoldable pub calculate_password_complexity : String → ℕ
  calculate_password_complexity password =
      classes password + one_if (leb 12 (unicode.length password))

  unfoldable pub validate_password : (password field_name : String) → Checked Unit
  validate_password password field_name =
      if password =ₛ ""
      then refused field_name required
      else if ltb (unicode.length password) valid_user_password_min_length
      then refused field_name too_short
      else if ltb valid_user_password_max_length (unicode.length password)
      then refused field_name too_long
      else if contains common_passwords (unicode.to_lower password)
      then refused field_name weak_password
      else if ltb (calculate_password_complexity password) min_password_complexity_score
      then refused field_name weak_password
      else passed tt

  unfoldable pub validate_login_password : (password field_name : String) → Checked Unit
  validate_login_password password field_name =
      if password =ₛ ""
      then refused field_name required
      else if ltb valid_user_password_max_length (unicode.length password)
      then refused field_name too_long
      else passed tt

  -- A password that may be chosen has three of the four classes of characters, or two and twelve
  -- bytes, is not a common one, and may be used to sign in.
  validate_password-validate_login_password :
      (password field_name : String)
      → validate_password password field_name ≡ passed tt
      → (validate_login_password password field_name ≡ passed tt)
        × (contains common_passwords (unicode.to_lower password) ≡ false)
        × ((3 ≤ classes password) ⊎ ((2 ≤ classes password) × (12 ≤ unicode.length password)))
  unfolding validate_password validate_login_password calculate_password_complexity
  validate_password-validate_login_password password field_name h =
      elim (Bool-cases (leb 12 (unicode.length password))) [
        | inl on ↦
            (ground (arith, h), ground (arith, h), inr (ground (arith, h, on), ground (arith, on)))
        | inr off ↦ (ground (arith, h), ground (arith, h), inl (ground (arith, h, off)))
      ]
