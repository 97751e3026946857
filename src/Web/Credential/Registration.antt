-- ===== src/Web/Credential/Registration.antt =====
-- Which registration credentials are serialized, and what the server reads in the result.
use secure_keyboard.Prelude.{
  ◌≤◌, ◌≡◌, refl, ◌∙◌, ◌↔◌, true, false, not, ◌&&◌, List, [], ◌∷◌, arith, Option, none, some,
  length, any, All,
}
use secure_keyboard.Js.{Value, string, array, items}
use secure_keyboard.Contracts.Reports.{OneOf, includes_iff, iff_trans}
use secure_keyboard.Web.Mode.{invalid_credential}
use secure_keyboard.Web.Options.{transport_words}
use secure_keyboard.Web.Options.Parts.{unless_iff, ok_iff, some_iff, none_iff}
use secure_keyboard.Web.Options.Accepted.{bind_of_iff}
use secure_keyboard.Web.Outcome.{Outcome, ok, throws, ◌>>=◌, >>=-ok}
use secure_keyboard.Web.Credential.{
  Response, Credential, is_array_buffer, is_transport, checked_transports, transports_of,
  SerializedRegistration, registration_response, serialize_registration_credential,
}
use secure_keyboard.Web.Credential.Decoded.{
  HasBytes, IsEncoded, encoded_credential_binary_iff, IsBase, base_credential_iff,
  is_array_buffer-IsEncoded, HasResponseBytes, HasCredentialBytes, normalized_iff,
}

abbrev pub IsTransport : Value → Type 0
IsTransport (string t) = OneOf transport_words t
IsTransport _ = ⊥

is_transport_iff : (v : Value) → (is_transport v ≡ true) ↔ IsTransport v
is_transport_iff (string t) = includes_iff transport_words t
is_transport_iff _ = (λ h. cc, λ h. elim h [ ])

known_iff : (vs : List Value) → (any (λ v. not (is_transport v)) vs ≡ false) ↔ All IsTransport vs
known_iff [] = (λ h. tt, λ h. refl)
known_iff (v ∷ vs) = ground (arith, is_transport_iff v, known_iff vs)

-- At most five transports, each a known word.
abbrev pub AreTransports : Value → List Value → Type 0
AreTransports (array vs) ts = (length (items vs) ≤ 5) × All IsTransport (items vs) × (items vs ≡ ts)
AreTransports _ ts = ⊥

checked_transports_iff :
    (v : Value) (ts : List Value) → (checked_transports v ≡ ok ts) ↔ AreTransports v ts
checked_transports_iff (array vs) ts = iff_trans (unless_iff _ _ (ok (items vs)) ts) (
  λ p. (
    ground (arith, p.0),
    (known_iff (items vs)).0 (ground (arith, p.0)),
    (ok_iff (items vs) ts).0 p.1,
  ),
  λ p. (ground (arith, p.0, (known_iff (items vs)).1 p.1), (ok_iff (items vs) ts).1 p.2),
)
checked_transports_iff _ ts = (λ h. cc, λ h. elim h [ ])

-- The response has no getTransports, or the call returns such transports.
abbrev pub TransportsRead : Option (Outcome Value) → Option (List Value) → Type 0
TransportsRead none none = Unit
TransportsRead none (some ts) = ⊥
TransportsRead (some call) none = ⊥
TransportsRead (some (ok v)) (some ts) = AreTransports v ts
TransportsRead (some (throws e)) (some ts) = ⊥

transports_of_iff :
    (o : Option (Outcome Value)) (ts : Option (List Value))
    → (transports_of o ≡ ok ts) ↔ TransportsRead o ts
unfolding ◌>>=◌
transports_of_iff none none = (λ h. tt, λ h. refl)
transports_of_iff none (some ts) = (λ h. cc, λ h. elim h [ ])
transports_of_iff (some (ok v)) none = none_iff (checked_transports v)
transports_of_iff (some (ok v)) (some ts) =
    iff_trans (some_iff (checked_transports v) ts) (checked_transports_iff v ts)
transports_of_iff (some (throws e)) none = (λ h. cc, λ h. elim h [ ])
transports_of_iff (some (throws e)) (some ts) = (λ h. cc, λ h. elim h [ ])

pub record IsRegistrationResponse (c : Credential) (r : Response) (s : SerializedRegistration)
    : Type 0 where
  pub base : IsBase c s.base
  pub client_data_json : IsEncoded r.client_data_json s.client_data_json
  pub attestation_object : IsEncoded r.attestation_object s.attestation_object
  pub transports : TransportsRead r.get_transports s.transports

registration_sound :
    (c : Credential) (r : Response) (s : SerializedRegistration)
    → HasBytes c.raw_id
    → HasResponseBytes r
    → registration_response c (some r) ≡ ok s
    → IsRegistrationResponse c r s
registration_sound c r s raw bytes h =
    let (_, k0) = (unless_iff _ _ _ s).0 h in
    let (base, h1, k1) = (bind_of_iff _ _ s _ (λ b. base_credential_iff c b raw)).0 k0 in
    let (client, h2, k2) =
      (bind_of_iff _ _ s _
          (λ t. encoded_credential_binary_iff r.client_data_json t bytes.client_data_json)).0
        k1 in
    let (attestation, h3, k3) =
      (bind_of_iff _ _ s _
          (λ t. encoded_credential_binary_iff r.attestation_object t bytes.attestation_object)).0
        k2 in
    let (transports, h4, k4) = (bind_of_iff _ _ s _ (transports_of_iff r.get_transports)).0 k3 in
    let e =
      (ok_iff
          (record {
            base = base;
            client_data_json = client;
            attestation_object = attestation;
            transports = transports;
          })
          s).0
        k4 in
    rw (← e) (record { base = h1; client_data_json = h2; attestation_object = h3; transports = h4 })

registration_complete :
    (c : Credential) (r : Response) (s : SerializedRegistration)
    → HasBytes c.raw_id
    → HasResponseBytes r
    → IsRegistrationResponse c r s
    → registration_response c (some r) ≡ ok s
registration_complete c r s raw bytes p =
    (unless_iff _ (not (is_array_buffer r.client_data_json && is_array_buffer r.attestation_object))
        _ s).1
      (
        ground (
          arith,
          is_array_buffer-IsEncoded r.client_data_json s.client_data_json p.client_data_json,
          is_array_buffer-IsEncoded r.attestation_object s.attestation_object p.attestation_object,
        ),
        >>=-ok _ _ _ ((base_credential_iff c s.base raw).1 p.base)
            ∙ >>=-ok _ _ _
                ((encoded_credential_binary_iff _ _ bytes.client_data_json).1 p.client_data_json)
            ∙ >>=-ok _ _ _ (
                (encoded_credential_binary_iff _ _ bytes.attestation_object).1 p.attestation_object)
            ∙ >>=-ok _ _ _ ((transports_of_iff _ _).1 p.transports),
      )

-- The response is an object whose fields are serialized one by one.
abbrev pub IsRegistration : Credential → Option Response → SerializedRegistration → Type 0
IsRegistration c none s = ⊥
IsRegistration c (some r) s = IsRegistrationResponse c r s

registration_response_iff :
    (c : Credential) (o : Option Response) (s : SerializedRegistration)
    → HasCredentialBytes c o
    → (registration_response c o ≡ ok s) ↔ IsRegistration c o s
registration_response_iff c none s h = (λ e. cc, λ e. elim e [ ])
registration_response_iff c (some r) s h =
    (registration_sound c r s h.0 h.1, registration_complete c r s h.0 h.1)

-- Where the buffers hold bytes, a registration credential is serialized, with this result, exactly
-- when its id is a text of 1 to 2048 characters that is the result's, its type is "public-key",
-- its attachment is absent, null or a known word, its extension results are an object within the
-- bounds, its transports are absent or at most five known words, and the texts of the result decode
-- to the buffers of the credential.
pub serialize_registration_credential_iff :
    (c : Credential) (s : SerializedRegistration)
    → HasCredentialBytes c c.response
    → (serialize_registration_credential c ≡ ok s) ↔ IsRegistration c c.response s
unfolding serialize_registration_credential
serialize_registration_credential_iff c s h =
    iff_trans (normalized_iff invalid_credential (registration_response c c.response) s)
      (registration_response_iff c c.response s h)
