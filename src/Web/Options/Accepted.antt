-- ===== src/Web/Options/Accepted.antt =====
-- Which options are accepted, and what they are converted to.
use secure_keyboard.Prelude.{◌≡◌, ◌∙◌, ◌↔◌, Option}
use secure_keyboard.Js.{Value, object, Fields, get}
use secure_keyboard.Contracts.Reports.{iff_trans}
use secure_keyboard.Web.Extensions.{copy_record}
use secure_keyboard.Web.Extensions.Complete.{IsExtensions, copy_record_iff}
use secure_keyboard.Web.Outcome.{Outcome, ok, ◌>>=◌, optional, >>=-ok}
use secure_keyboard.Web.Options.{
  requirement_words, extensions_of, RequestOptions, to_native_request_options,
}
use secure_keyboard.Web.Options.Parts.{
  Given, given_iff, ok_iff, bind_iff, from_option_iff, IsRequired, optional_string_iff, IsBinary,
  binary_option_iff,
}
use secure_keyboard.Web.Options.Lists.{
  IsTimeout, bounded_timeout_iff, IsDescriptors, to_native_credentials_iff, IsWord,
  optional-word_of_iff, IsHints, optional-hints_of_iff, requirements,
}

pub optional_extensions_iff :
    (v : Value) (o : Option Value) → (optional extensions_of v ≡ ok o) ↔ Given IsExtensions v o
optional_extensions_iff v o =
    given_iff extensions_of IsExtensions
      (λ v w. iff_trans (from_option_iff _ (copy_record v) w) (copy_record_iff v w)) v o

-- A first part that returns is followed by the rest.
pub bind_of_iff {ℓ κ} :
    {A : Type ℓ} {B : Type κ} (m : Outcome A) (f : A → Outcome B) (b : B) (P : A → Type 0)
    → ((a : A) → (m ≡ ok a) ↔ P a)
    → ((m >>= f) ≡ ok b) ↔ ((a : A) × P a × (f a ≡ ok b))
bind_of_iff m f b P e =
    iff_trans (bind_iff m f b) (λ (a, h, k). (a, (e a).0 h, k), λ (a, h, k). (a, (e a).1 h, k))

pub record IsRequestFields (fs : Fields) (o : RequestOptions) : Type 0 where
  pub challenge : IsBinary (get fs "challenge") o.challenge
  pub timeout : Given IsTimeout (get fs "timeout") o.timeout
  pub rp_id : Given (IsRequired 253) (get fs "rpId") o.rp_id
  pub allow_credentials : Given IsDescriptors (get fs "allowCredentials") o.allow_credentials
  pub user_verification :
      Given (IsWord requirements) (get fs "userVerification") o.user_verification
  pub hints : Given IsHints (get fs "hints") o.hints
  pub extensions : Given IsExtensions (get fs "extensions") o.extensions

abbrev pub IsRequest : Value → RequestOptions → Type 0
IsRequest (object fs) o = IsRequestFields fs o
IsRequest _ o = ⊥

request_sound :
    (fs : Fields) (o : RequestOptions)
    → to_native_request_options (object fs) ≡ ok o
    → IsRequestFields fs o
unfolding to_native_request_options
request_sound fs o h =
    let (challenge, h1, k1) = (bind_of_iff _ _ o _ (binary_option_iff (get fs "challenge"))).0 h in
    let (timeout, h2, k2) = (bind_of_iff _ _ o _ (bounded_timeout_iff (get fs "timeout"))).0 k1 in
    let (rp_id, h3, k3) = (bind_of_iff _ _ o _ (optional_string_iff 253 (get fs "rpId"))).0 k2 in
    let (allow, h4, k4) =
      (bind_of_iff _ _ o _ (to_native_credentials_iff (get fs "allowCredentials"))).0 k3 in
    let (verification, h5, k5) =
      (bind_of_iff _ _ o _ (optional-word_of_iff requirement_words (get fs "userVerification"))).0
        k4 in
    let (hints, h6, k6) = (bind_of_iff _ _ o _ (optional-hints_of_iff (get fs "hints"))).0 k5 in
    let (extensions, h7, k7) =
      (bind_of_iff _ _ o _ (optional_extensions_iff (get fs "extensions"))).0 k6 in
    rw (← (ok_iff _ o).0 k7) (record {
      challenge = h1;
      timeout = h2;
      rp_id = h3;
      allow_credentials = h4;
      user_verification = h5;
      hints = h6;
      extensions = h7;
    })

request_complete :
    (fs : Fields) (o : RequestOptions)
    → IsRequestFields fs o
    → to_native_request_options (object fs) ≡ ok o
unfolding to_native_request_options
request_complete fs o r =
    >>=-ok _ _ _ ((binary_option_iff _ _).1 r.challenge)
    ∙ >>=-ok _ _ _ ((bounded_timeout_iff _ _).1 r.timeout)
    ∙ >>=-ok _ _ _ ((optional_string_iff _ _ _).1 r.rp_id)
    ∙ >>=-ok _ _ _ ((to_native_credentials_iff _ _).1 r.allow_credentials)
    ∙ >>=-ok _ _ _ ((optional-word_of_iff _ _ _).1 r.user_verification)
    ∙ >>=-ok _ _ _ ((optional-hints_of_iff _ _).1 r.hints)
    ∙ >>=-ok _ _ _ ((optional_extensions_iff _ _).1 r.extensions)

-- Request options are accepted, with this result, exactly when they are an object whose challenge
-- is a base64url text that decodes to the result's challenge, and whose other fields are omitted, or
-- within their bounds and converted to the fields of the result.
pub to_native_request_options_iff :
    (v : Value) (o : RequestOptions) → (to_native_request_options v ≡ ok o) ↔ IsRequest v o
unfolding to_native_request_options
to_native_request_options_iff (object fs) o = (request_sound fs o, request_complete fs o)
to_native_request_options_iff _ o = (λ h. cc, λ h. elim h [ ])
