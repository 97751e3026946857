-- ===== src/Web/Options/Rejected.antt =====
-- With which error options are rejected.
use secure_keyboard.Prelude.{ℕ, ◌≡◌, refl, Bool, true, false, List, [], ◌∷◌, Option, none, some}
use secure_keyboard.Js.{JsString, Value, array, object, number, string, undefined, items, get}
use secure_keyboard.Web.Mode.{invalid_options}
use secure_keyboard.Web.Outcome.{
  client_error, Outcome, ok, throws, ◌>>=◌, unless, from_option, optional, map_outcome,
}
use secure_keyboard.Web.Options.{
  required_string, optional_string, binary_option, timeout_of, bounded_timeout,
  to_native_authenticator_selection, descriptor_transports, to_native_descriptor, descriptors_of,
  to_native_credentials, word_of, hints_of, extensions_of, to_native_request_options, relying_party,
  user_of, algorithm_of, parameter_of, credential_parameters, to_native_creation_options,
}

-- The outcome is a value, or the error with the code for invalid options.
abbrev pub IsTotal {ℓ} : {A : Type ℓ} → Outcome A → Type 0
IsTotal (ok a) = Unit
IsTotal (throws t) = t ≡ client_error invalid_options

bind-IsTotal {ℓ κ} :
    {A : Type ℓ} {B : Type κ} (m : Outcome A) (f : A → Outcome B)
    → IsTotal m
    → ((a : A) → IsTotal (f a))
    → IsTotal (m >>= f)
unfolding ◌>>=◌
bind-IsTotal (ok a) f h k = k a
bind-IsTotal (throws t) f h k = h

unless-IsTotal {ℓ} :
    {A : Type ℓ} (bad : Bool) (next : Outcome A)
    → IsTotal next
    → IsTotal (unless bad invalid_options next)
unless-IsTotal true next h = refl
unless-IsTotal false next h = h

from_option-IsTotal {ℓ} : {A : Type ℓ} (o : Option A) → IsTotal (from_option invalid_options o)
from_option-IsTotal none = refl
from_option-IsTotal (some a) = tt

optional-IsTotal {ℓ} :
    {A : Type ℓ} (convert : Value → Outcome A)
    → ((v : Value) → IsTotal (convert v))
    → (v : Value) → IsTotal (optional convert v)
optional-IsTotal convert h undefined = tt
optional-IsTotal convert h v = bind-IsTotal (convert v) _ (h v) (λ a. tt)

map_outcome-IsTotal {ℓ κ} :
    {A : Type ℓ} {B : Type κ} (convert : A → Outcome B)
    → ((x : A) → IsTotal (convert x))
    → (xs : List A) → IsTotal (map_outcome convert xs)
unfolding map_outcome
map_outcome-IsTotal convert h [] = tt
map_outcome-IsTotal convert h (x ∷ xs) =
    bind-IsTotal (convert x) _ (h x)
      (λ y. bind-IsTotal (map_outcome convert xs) _ (map_outcome-IsTotal convert h xs) (λ ys. tt))

required_string-IsTotal : (maximum : ℕ) (v : Value) → IsTotal (required_string maximum v)
unfolding required_string
required_string-IsTotal maximum (string t) = unless-IsTotal _ (ok t) tt
required_string-IsTotal maximum _ = refl

optional_string-IsTotal : (maximum : ℕ) (v : Value) → IsTotal (optional_string maximum v)
unfolding optional_string
optional_string-IsTotal maximum v =
    optional-IsTotal (required_string maximum) (required_string-IsTotal maximum) v

binary_option-IsTotal : (v : Value) → IsTotal (binary_option v)
unfolding binary_option
binary_option-IsTotal v =
    bind-IsTotal (required_string 16384 v) _ (required_string-IsTotal 16384 v)
      (λ encoded. from_option-IsTotal _)

bounded_timeout-IsTotal : (v : Value) → IsTotal (bounded_timeout v)
unfolding bounded_timeout
bounded_timeout-IsTotal v = optional-IsTotal timeout_of (λ w. unless-IsTotal _ (ok w) tt) v

selection-IsTotal : (v : Value) → IsTotal (to_native_authenticator_selection v)
unfolding to_native_authenticator_selection
selection-IsTotal (object fs) = unless-IsTotal _ (ok _) tt
selection-IsTotal _ = refl

transports-IsTotal : (v : Value) → IsTotal (descriptor_transports v)
unfolding descriptor_transports
transports-IsTotal (array vs) = unless-IsTotal _ (ok (items vs)) tt
transports-IsTotal _ = refl

descriptor-IsTotal : (v : Value) → IsTotal (to_native_descriptor v)
unfolding to_native_descriptor
descriptor-IsTotal (object fs) = unless-IsTotal _ _ (
    bind-IsTotal (binary_option (get fs "id")) _ (binary_option-IsTotal (get fs "id")) (λ id.
      bind-IsTotal (optional descriptor_transports (get fs "transports")) _
        (optional-IsTotal descriptor_transports transports-IsTotal (get fs "transports"))
        (λ transports. tt)))
descriptor-IsTotal _ = refl

descriptors-IsTotal : (v : Value) → IsTotal (descriptors_of v)
descriptors-IsTotal (array vs) =
    unless-IsTotal _ _ (map_outcome-IsTotal to_native_descriptor descriptor-IsTotal (items vs))
descriptors-IsTotal _ = refl

credentials-IsTotal : (v : Value) → IsTotal (to_native_credentials v)
unfolding to_native_credentials
credentials-IsTotal v = optional-IsTotal descriptors_of descriptors-IsTotal v

word-IsTotal : (words : List JsString) (v : Value) → IsTotal (word_of words v)
word-IsTotal words (string t) = unless-IsTotal _ (ok t) tt
word-IsTotal words _ = refl

optional-word-IsTotal : (words : List JsString) (v : Value) → IsTotal (optional (word_of words) v)
optional-word-IsTotal words v = optional-IsTotal (word_of words) (word-IsTotal words) v

hints-IsTotal : (v : Value) → IsTotal (hints_of v)
hints-IsTotal (array vs) = unless-IsTotal _ _ (map_outcome-IsTotal _ (word-IsTotal _) (items vs))
hints-IsTotal _ = refl

optional-extensions-IsTotal : (v : Value) → IsTotal (optional extensions_of v)
optional-extensions-IsTotal v = optional-IsTotal extensions_of (λ w. from_option-IsTotal _) v

-- Request options are converted, or rejected with the code for invalid options.
pub to_native_request_options-IsTotal : (v : Value) → IsTotal (to_native_request_options v)
unfolding to_native_request_options
to_native_request_options-IsTotal (object fs) =
    bind-IsTotal _ _ (binary_option-IsTotal (get fs "challenge")) (λ challenge.
      bind-IsTotal _ _ (bounded_timeout-IsTotal (get fs "timeout")) (λ timeout.
        bind-IsTotal _ _ (optional_string-IsTotal 253 (get fs "rpId")) (λ rp_id.
          bind-IsTotal _ _ (credentials-IsTotal (get fs "allowCredentials")) (λ allow.
            bind-IsTotal _ _ (optional-word-IsTotal _ (get fs "userVerification")) (λ verification.
              bind-IsTotal _ _ (optional-IsTotal hints_of hints-IsTotal (get fs "hints")) (λ hints.
                bind-IsTotal _ _ (optional-extensions-IsTotal (get fs "extensions"))
                  (λ extensions. tt)))))))
to_native_request_options-IsTotal _ = refl

relying_party-IsTotal : (v : Value) → IsTotal (relying_party v)
unfolding relying_party
relying_party-IsTotal (object rp) =
    bind-IsTotal _ _ (required_string-IsTotal 256 (get rp "name")) (λ name.
      bind-IsTotal _ _ (optional_string-IsTotal 253 (get rp "id"))
        (λ id. bind-IsTotal _ _ (optional_string-IsTotal 2048 (get rp "icon")) (λ icon. tt)))
relying_party-IsTotal _ = refl

user-IsTotal : (v : Value) → IsTotal (user_of v)
unfolding user_of
user-IsTotal (object user) = bind-IsTotal _ _ (binary_option-IsTotal (get user "id")) (λ id.
    bind-IsTotal _ _ (required_string-IsTotal 320 (get user "name")) (λ name.
      bind-IsTotal _ _ (required_string-IsTotal 256 (get user "displayName")) (λ display.
        bind-IsTotal _ _ (optional_string-IsTotal 2048 (get user "icon")) (λ icon. tt))))
user-IsTotal _ = refl

algorithm-IsTotal : (v : Value) → IsTotal (algorithm_of v)
algorithm-IsTotal (number x) = unless-IsTotal _ (ok x) tt
algorithm-IsTotal _ = refl

parameter-IsTotal : (v : Value) → IsTotal (parameter_of v)
parameter-IsTotal (object fs) = unless-IsTotal _ _ (algorithm-IsTotal (get fs "alg"))
parameter-IsTotal _ = refl

parameters-IsTotal : (v : Value) → IsTotal (credential_parameters v)
unfolding credential_parameters
parameters-IsTotal (array vs) =
    unless-IsTotal _ _ (map_outcome-IsTotal parameter_of parameter-IsTotal (items vs))
parameters-IsTotal _ = refl

-- Creation options are converted, or rejected with the code for invalid options.
pub to_native_creation_options-IsTotal : (v : Value) → IsTotal (to_native_creation_options v)
unfolding to_native_creation_options
to_native_creation_options-IsTotal (object fs) =
    bind-IsTotal _ _ (binary_option-IsTotal (get fs "challenge")) (λ challenge.
      bind-IsTotal _ _ (relying_party-IsTotal (get fs "rp")) (λ rp.
        bind-IsTotal _ _ (user-IsTotal (get fs "user")) (λ user.
          bind-IsTotal _ _ (parameters-IsTotal (get fs "pubKeyCredParams")) (λ algorithms.
            bind-IsTotal _ _ (bounded_timeout-IsTotal (get fs "timeout")) (λ timeout.
              bind-IsTotal _ _ (credentials-IsTotal (get fs "excludeCredentials")) (λ exclude.
                bind-IsTotal _ _
                  (optional-IsTotal to_native_authenticator_selection selection-IsTotal
                    (get fs "authenticatorSelection"))
                  (λ selection.
                    bind-IsTotal _ _ (optional-word-IsTotal _ (get fs "attestation"))
                      (λ attestation.
                        bind-IsTotal _ _ (optional-IsTotal hints_of hints-IsTotal (get fs "hints"))
                          (λ hints.
                            bind-IsTotal _ _ (optional-extensions-IsTotal (get fs "extensions"))
                              (λ extensions. tt))))))))))
to_native_creation_options-IsTotal _ = refl
