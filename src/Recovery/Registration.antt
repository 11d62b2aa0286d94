-- ===== src/Recovery/Registration.antt =====
-- RegisterUser of internal/core/usecase/authn.go: that the answer to the registration form does not
-- tell whether an address is taken.
use go_rest_api_service_temp.Base.{◌≡◌, sym, ◌∙◌, String, true, false, ◌∷◌, ◌=ₛ◌, arith}
use go_rest_api_service_temp.Session.{AuthnError, user_already_exists, ok, error}
use go_rest_api_service_temp.Recovery.{
  account_verification, account_exists, Desk, MailService, RegisterUserInput, handed, mail_claims,
  created_as, recipient_of_input, registration_taken, registration_refused, registration_created,
  registered,
}
use go_rest_api_service_temp.Recovery.Silence.{IsWorking}

module _ {U T : Type 0} (ref : MailService U T) (works : IsWorking ref) (input : RegisterUserInput)
    (by_form : input.by_password ≡ true) where
  -- The create says that the address is taken, and no account has the id.
  abbrev pub IsTaken : Desk U T → Type 0
  IsTaken s =
      (id email : String) × ((ref.create s.users (created_as ref input)).0
        ≡ error (user_already_exists id email))
      × (email =ₛ "" ≡ false)
      × ((e : AuthnError) × (ref.stored_account (ref.create s.users (created_as ref input)).1
              input.id
            ≡ error e))

  -- A registration by the form of a new account and one of an address that is taken, under an id that
  -- is not, get the same answer: both are accepted. The new account is sent one mail, its
  -- verification with the token that was signed for its id and address; the address that is taken is
  -- sent one mail, the notice that an account exists, which has no token. The signer and the notifier
  -- work, and there is a notifier.
  pub registered-alike :
      (s s' : Desk U T)
      → ref.has_notifier ≡ true
      → (ref.create s.users (created_as ref input)).0 ≡ ok tt
      → IsTaken s'
      → ((registered ref input s).0 ≡ (registered ref input s').0)
        × ((registered ref input s).0 ≡ ok tt)
        × ((token : String) × (ref.sign (
                mail_claims ref input.id input.email "email_verification" ref.verification_duration)
              ≡ ok token)
            × ((registered ref input s).1.outbox
                ≡ account_verification (recipient_of_input ref input) token ∷ s.outbox))
        × ((registered ref input s').1.outbox
            ≡ account_exists (recipient_of_input ref input) ∷ s'.outbox)
  unfolding registered registration_created registration_refused registration_taken handed
  registered-alike s s' notifies created (id, email, refused, there, (e, free)) =
      let (token, signed) =
        works.signs
          (mail_claims ref input.id input.email "email_verification" ref.verification_duration) in
      let sent = works.delivers (account_verification (recipient_of_input ref input) token) in
      let told = works.delivers (account_exists (recipient_of_input ref input)) in
      let accepted : (registered ref input s).0 ≡ ok tt =
        ground (arith, created, by_form, signed, sent) in
      let unnoticed : (registered ref input s').0 ≡ ok tt =
        ground (arith, refused, by_form, there, free, notifies) in
      (
        accepted ∙ sym unnoticed,
        accepted,
        (token, signed, ground (arith, created, by_form, signed, sent)),
        ground (arith, refused, by_form, there, free, notifies, told),
      )
