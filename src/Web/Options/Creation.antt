-- ===== src/Web/Options/Creation.antt =====
-- Which creation options are accepted, and what they are converted to.
use secure_keyboard.Prelude.{◌≤◌, ◌≡◌, ◌∙◌, ◌↔◌, true, List, [], ◌∷◌, arith, Option, length}
use secure_keyboard.Js.{
  JsString, js, Value, number, array, object, Fields, items, get, JsNumber, is_integer,
}
use secure_keyboard.Contracts.Reports.{iff_trans}
use secure_keyboard.Contracts.Layout.Shape.{IsText}
use secure_keyboard.Contracts.Layout.Parts.{is_text_iff}
use secure_keyboard.Web.Extensions.Complete.{IsExtensions}
use secure_keyboard.Web.Outcome.{ok, optional, >>=-ok}
use secure_keyboard.Web.Options.{
  to_native_authenticator_selection, Named, relying_party, User, user_of, algorithm_of,
  parameter_of, credential_parameters, attestation_words, CreationOptions,
  to_native_creation_options,
}
use secure_keyboard.Web.Options.Parts.{
  Given, given_iff, Pointwise, map_outcome_iff, unless_iff, ok_iff, checked_iff, IsRequired,
  required_string_iff, optional_string_iff, IsBinary, binary_option_iff,
}
use secure_keyboard.Web.Options.Lists.{
  IsTimeout, bounded_timeout_iff, IsSelection, to_native_authenticator_selection_iff, IsDescriptors,
  to_native_credentials_iff, IsWord, optional-word_of_iff, IsHints, optional-hints_of_iff,
}
use secure_keyboard.Web.Options.Accepted.{bind_of_iff, optional_extensions_iff}

pub record IsNamedFields (fs : Fields) (n : Named) : Type 0 where
  pub name : IsRequired 256 (get fs "name") n.name
  pub id : Given (IsRequired 253) (get fs "id") n.id
  pub icon : Given (IsRequired 2048) (get fs "icon") n.icon

abbrev pub IsNamed : Value → Named → Type 0
IsNamed (object fs) n = IsNamedFields fs n
IsNamed _ n = ⊥

named_sound : (fs : Fields) (n : Named) → relying_party (object fs) ≡ ok n → IsNamedFields fs n
unfolding relying_party
named_sound fs n h =
    let (name, h1, k1) = (bind_of_iff _ _ n _ (required_string_iff 256 (get fs "name"))).0 h in
    let (id, h2, k2) = (bind_of_iff _ _ n _ (optional_string_iff 253 (get fs "id"))).0 k1 in
    let (icon, h3, k3) = (bind_of_iff _ _ n _ (optional_string_iff 2048 (get fs "icon"))).0 k2 in
    rw (← (ok_iff _ n).0 k3) (record { name = h1; id = h2; icon = h3 })

pub relying_party_iff : (v : Value) (n : Named) → (relying_party v ≡ ok n) ↔ IsNamed v n
unfolding relying_party
relying_party_iff (object fs) n = (
  named_sound fs n,
  λ r.
      >>=-ok _ _ _ ((required_string_iff _ _ _).1 r.name)
      ∙ >>=-ok _ _ _ ((optional_string_iff _ _ _).1 r.id)
      ∙ >>=-ok _ _ _ ((optional_string_iff _ _ _).1 r.icon),
)
relying_party_iff _ n = (λ h. cc, λ h. elim h [ ])

pub record IsUserFields (fs : Fields) (u : User) : Type 0 where
  pub id : IsBinary (get fs "id") u.id
  pub name : IsRequired 320 (get fs "name") u.name
  pub display_name : IsRequired 256 (get fs "displayName") u.display_name
  pub icon : Given (IsRequired 2048) (get fs "icon") u.icon

abbrev pub IsUser : Value → User → Type 0
IsUser (object fs) u = IsUserFields fs u
IsUser _ u = ⊥

user_sound : (fs : Fields) (u : User) → user_of (object fs) ≡ ok u → IsUserFields fs u
unfolding user_of
user_sound fs u h =
    let (id, h1, k1) = (bind_of_iff _ _ u _ (binary_option_iff (get fs "id"))).0 h in
    let (name, h2, k2) = (bind_of_iff _ _ u _ (required_string_iff 320 (get fs "name"))).0 k1 in
    let (display, h3, k3) =
      (bind_of_iff _ _ u _ (required_string_iff 256 (get fs "displayName"))).0 k2 in
    let (icon, h4, k4) = (bind_of_iff _ _ u _ (optional_string_iff 2048 (get fs "icon"))).0 k3 in
    rw (← (ok_iff _ u).0 k4) (record { id = h1; name = h2; display_name = h3; icon = h4 })

pub user_of_iff : (v : Value) (u : User) → (user_of v ≡ ok u) ↔ IsUser v u
unfolding user_of
user_of_iff (object fs) u = (
  user_sound fs u,
  λ r.
      >>=-ok _ _ _ ((binary_option_iff _ _).1 r.id)
      ∙ >>=-ok _ _ _ ((required_string_iff _ _ _).1 r.name)
      ∙ >>=-ok _ _ _ ((required_string_iff _ _ _).1 r.display_name)
      ∙ >>=-ok _ _ _ ((optional_string_iff _ _ _).1 r.icon),
)
user_of_iff _ u = (λ h. cc, λ h. elim h [ ])

-- A whole number.
abbrev pub IsAlgorithm : Value → JsNumber → Type 0
IsAlgorithm (number x) y = (is_integer x ≡ true) × (x ≡ y)
IsAlgorithm _ y = ⊥

algorithm_of_iff : (v : Value) (y : JsNumber) → (algorithm_of v ≡ ok y) ↔ IsAlgorithm v y
algorithm_of_iff (number x) y = checked_iff _ (is_integer x) _ x y (λ h. h, λ h. h)
algorithm_of_iff _ y = (λ h. cc, λ h. elim h [ ])

abbrev pub IsParameter : Value → JsNumber → Type 0
IsParameter (object fs) y = IsText (js "public-key") (get fs "type") × IsAlgorithm (get fs "alg") y
IsParameter _ y = ⊥

parameter_of_iff : (v : Value) (y : JsNumber) → (parameter_of v ≡ ok y) ↔ IsParameter v y
parameter_of_iff (object fs) y =
    let type_iff = is_text_iff (get fs "type") (js "public-key") in
    let alg_iff = algorithm_of_iff (get fs "alg") y in
    iff_trans (unless_iff _ _ _ y) (
      λ p. (type_iff.0 (ground (arith, p.0)), alg_iff.0 p.1),
      λ p. (ground (arith, type_iff.1 p.0), alg_iff.1 p.1),
    )
parameter_of_iff _ y = (λ h. cc, λ h. elim h [ ])

-- 1 to 32 parameters.
abbrev pub AreParameters : Value → List JsNumber → Type 0
AreParameters (array vs) ys =
    (1 ≤ length (items vs)) × (length (items vs) ≤ 32) × Pointwise IsParameter (items vs) ys
AreParameters _ ys = ⊥

credential_parameters_iff :
    (v : Value) (ys : List JsNumber) → (credential_parameters v ≡ ok ys) ↔ AreParameters v ys
unfolding credential_parameters
credential_parameters_iff (array vs) ys =
    let each = map_outcome_iff parameter_of IsParameter parameter_of_iff (items vs) ys in
    iff_trans (unless_iff _ _ _ ys) (
      λ p. (ground (arith, p.0), ground (arith, p.0), each.0 p.1),
      λ p. (ground (arith, p.0, p.1), each.1 p.2),
    )
credential_parameters_iff _ ys = (λ h. cc, λ h. elim h [ ])

abbrev conveyances : List JsString
conveyances = js "none" ∷ js "indirect" ∷ js "direct" ∷ js "enterprise" ∷ []

pub record IsCreationFields (fs : Fields) (o : CreationOptions) : Type 0 where
  pub challenge : IsBinary (get fs "challenge") o.challenge
  pub rp : IsNamed (get fs "rp") o.rp
  pub user : IsUser (get fs "user") o.user
  pub algorithms : AreParameters (get fs "pubKeyCredParams") o.algorithms
  pub timeout : Given IsTimeout (get fs "timeout") o.timeout
  pub exclude_credentials : Given IsDescriptors (get fs "excludeCredentials") o.exclude_credentials
  pub authenticator_selection :
      Given IsSelection (get fs "authenticatorSelection") o.authenticator_selection
  pub attestation : Given (IsWord conveyances) (get fs "attestation") o.attestation
  pub hints : Given IsHints (get fs "hints") o.hints
  pub extensions : Given IsExtensions (get fs "extensions") o.extensions

abbrev pub IsCreation : Value → CreationOptions → Type 0
IsCreation (object fs) o = IsCreationFields fs o
IsCreation _ o = ⊥

given-to_native_authenticator_selection_iff :
    (v : Value) (o : Option Fields)
    → (optional to_native_authenticator_selection v ≡ ok o) ↔ Given IsSelection v o
given-to_native_authenticator_selection_iff v o =
    given_iff to_native_authenticator_selection IsSelection to_native_authenticator_selection_iff v
      o

creation_sound :
    (fs : Fields) (o : CreationOptions)
    → to_native_creation_options (object fs) ≡ ok o
    → IsCreationFields fs o
unfolding to_native_creation_options
creation_sound fs o h =
    let (challenge, h1, k1) = (bind_of_iff _ _ o _ (binary_option_iff (get fs "challenge"))).0 h in
    let (rp, h2, k2) = (bind_of_iff _ _ o _ (relying_party_iff (get fs "rp"))).0 k1 in
    let (user, h3, k3) = (bind_of_iff _ _ o _ (user_of_iff (get fs "user"))).0 k2 in
    let (algorithms, h4, k4) =
      (bind_of_iff _ _ o _ (credential_parameters_iff (get fs "pubKeyCredParams"))).0 k3 in
    let (timeout, h5, k5) = (bind_of_iff _ _ o _ (bounded_timeout_iff (get fs "timeout"))).0 k4 in
    let (exclude, h6, k6) =
      (bind_of_iff _ _ o _ (to_native_credentials_iff (get fs "excludeCredentials"))).0 k5 in
    let (selection, h7, k7) =
      (bind_of_iff _ _ o _
          (given-to_native_authenticator_selection_iff (get fs "authenticatorSelection"))).0
        k6 in
    let (attestation, h8, k8) =
      (bind_of_iff _ _ o _ (optional-word_of_iff attestation_words (get fs "attestation"))).0 k7 in
    let (hints, h9, k9) = (bind_of_iff _ _ o _ (optional-hints_of_iff (get fs "hints"))).0 k8 in
    let (extensions, h10, k10) =
      (bind_of_iff _ _ o _ (optional_extensions_iff (get fs "extensions"))).0 k9 in
    rw (← (ok_iff _ o).0 k10) (record {
      challenge = h1;
      rp = h2;
      user = h3;
      algorithms = h4;
      timeout = h5;
      exclude_credentials = h6;
      authenticator_selection = h7;
      attestation = h8;
      hints = h9;
      extensions = h10;
    })

creation_complete :
    (fs : Fields) (o : CreationOptions)
    → IsCreationFields fs o
    → to_native_creation_options (object fs) ≡ ok o
unfolding to_native_creation_options
creation_complete fs o r =
    >>=-ok _ _ _ ((binary_option_iff _ _).1 r.challenge)
    ∙ >>=-ok _ _ _ ((relying_party_iff _ _).1 r.rp)
    ∙ >>=-ok _ _ _ ((user_of_iff _ _).1 r.user)
    ∙ >>=-ok _ _ _ ((credential_parameters_iff _ _).1 r.algorithms)
    ∙ >>=-ok _ _ _ ((bounded_timeout_iff _ _).1 r.timeout)
    ∙ >>=-ok _ _ _ ((to_native_credentials_iff _ _).1 r.exclude_credentials)
    ∙ >>=-ok _ _ _ ((given-to_native_authenticator_selection_iff _ _).1 r.authenticator_selection)
    ∙ >>=-ok _ _ _ ((optional-word_of_iff _ _ _).1 r.attestation)
    ∙ >>=-ok _ _ _ ((optional-hints_of_iff _ _).1 r.hints)
    ∙ >>=-ok _ _ _ ((optional_extensions_iff _ _).1 r.extensions)

-- Creation options are accepted, with this result, exactly when they are an object with a challenge
-- and a user ID that decode, a relying party, a user and 1 to 32 algorithms within their bounds, and
-- other fields that are omitted or within their bounds, and the result has each of them converted.
pub to_native_creation_options_iff :
    (v : Value) (o : CreationOptions) → (to_native_creation_options v ≡ ok o) ↔ IsCreation v o
unfolding to_native_creation_options
to_native_creation_options_iff (object fs) o = (creation_sound fs o, creation_complete fs o)
to_native_creation_options_iff _ o = (λ h. cc, λ h. elim h [ ])
