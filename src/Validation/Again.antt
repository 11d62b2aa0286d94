-- ===== src/Validation/Again.antt =====
-- ValidateString of internal/core/domain/validation.go, on a text that it has passed.
use go_rest_api_service_temp.Base.{
  ◌≡◌, refl, sym, ap, ◌∙◌, String, true, ◌&&◌, none, ◌=ₛ◌, eq_iff, eq_refl, arith, Option-cases,
  Bool-cases, inl, inr,
}
use go_rest_api_service_temp.Validation.{
  Texts, StringValidationOptions, passed, content_code, normalized, validate_trimmed, text_of,
  validate_string,
}

-- What strings promises: a trimmed text has nothing left to trim, and a text that is valid UTF-8 has
-- nothing to replace.
pub record IsTexts (texts : Texts) : Type 0 where
  pub trim_again : (s : String) → texts.trim_space (texts.trim_space s) ≡ texts.trim_space s
  pub valid_kept : (s : String) → texts.valid_string s ≡ true → texts.to_valid_utf8 s ≡ s

module _ (texts : Texts) (laws : IsTexts texts) (opts : StringValidationOptions) where
  content-valid_string :
      (v : String) → content_code texts opts v ≡ none → texts.valid_string v ≡ true
  unfolding content_code
  content-valid_string v h = ground (arith, h)

  normalized-kept : (v : String) → texts.valid_string v ≡ true → normalized texts opts v ≡ v
  unfolding normalized
  normalized-kept v h = ground (arith, laws.valid_kept v h, eq_iff (texts.to_valid_utf8 v) v)

  trimmed-kept : (v w : String) → validate_trimmed texts opts v ≡ passed w → w ≡ v
  unfolding validate_trimmed
  trimmed-kept v w h = elim (Option-cases (content_code texts opts v)) [
    | inl clean ↦ ground (arith, h, clean, normalized-kept v (content-valid_string v clean))
    | inr (code, bad) ↦ absurd (ground (arith, h, bad))
  ]

  text_of-again : (v : String) → text_of texts opts (text_of texts opts v) ≡ text_of texts opts v
  unfolding text_of
  text_of-again v = ground (arith, laws.trim_again v)

  -- The text that the check passes is passed again, unchanged, by the same check.
  pub validate_string-again :
      (value w : String)
      → validate_string texts opts value ≡ passed w
      → validate_string texts opts w ≡ passed w
  unfolding validate_string
  validate_string-again value w h = elim (Bool-cases (value =ₛ "" && opts.allow_empty)) [
    | inl empty ↦ ground (arith, h, empty, eq_refl "", eq_iff value "")
    | inr filled ↦
        let checked : validate_trimmed texts opts (text_of texts opts value) ≡ passed w =
          sym (rw filled refl) ∙ h in
        let same : w ≡ text_of texts opts value = trimmed-kept _ w checked in
        let stays : text_of texts opts w ≡ w =
          ap (λ s. text_of texts opts s) same ∙ text_of-again value ∙ sym same in
        let passes : validate_trimmed texts opts (text_of texts opts w) ≡ passed w =
          ap (λ s. validate_trimmed texts opts s) (stays ∙ same) ∙ checked in
        ground (arith, passes, eq_iff w "")
  ]
