-- ===== src/Web/Credential/Assertion.antt =====
-- Which assertion credentials are serialized, and what the server reads in the result.
use secure_keyboard.Prelude.{◌≡◌, refl, ◌∙◌, ◌↔◌, true, not, arith, Option, none, some}
use secure_keyboard.Js.{JsString, null}
use secure_keyboard.Contracts.Reports.{iff_trans}
use secure_keyboard.Web.Mode.{invalid_credential}
use secure_keyboard.Web.Options.Parts.{unless_iff, ok_iff, some_iff, none_iff}
use secure_keyboard.Web.Options.Accepted.{bind_of_iff}
use secure_keyboard.Web.Outcome.{ok, ◌>>=◌, >>=-ok}
use secure_keyboard.Web.Credential.{
  Binary, array_buffer, other, Response, Credential, encoded_credential_binary, user_handle_of,
  is_user_handle, SerializedAssertion, are_assertion_buffers, assertion_response,
  serialize_assertion_credential,
}
use secure_keyboard.Web.Credential.Decoded.{
  HasBytes, IsEncoded, encoded_credential_binary_iff, IsBase, base_credential_iff,
  is_array_buffer-IsEncoded, HasResponseBytes, HasCredentialBytes, normalized_iff,
}

-- null is kept, and a buffer is encoded.
abbrev pub IsHandle : Binary → Option JsString → Type 0
IsHandle (other null) none = Unit
IsHandle b none = ⊥
IsHandle b (some t) = IsEncoded b t

user_handle_of_iff :
    (b : Binary) (o : Option JsString) → HasBytes b → (user_handle_of b ≡ ok o) ↔ IsHandle b o
unfolding ◌>>=◌ encoded_credential_binary
user_handle_of_iff (array_buffer bs) none h = none_iff (encoded_credential_binary (array_buffer bs))
user_handle_of_iff (array_buffer bs) (some t) h =
    iff_trans (some_iff (encoded_credential_binary (array_buffer bs)) t)
      (encoded_credential_binary_iff (array_buffer bs) t h)
user_handle_of_iff (other null) none h = (λ e. tt, λ e. refl)
user_handle_of_iff (other null) (some t) h = (λ e. cc, λ e. elim e [ ])
user_handle_of_iff (other v) none h = (λ e. cc, λ e. elim e [ ])
user_handle_of_iff (other v) (some t) h = (λ e. cc, λ e. elim e [ ])

is_user_handle-IsHandle :
    (b : Binary) (o : Option JsString) → IsHandle b o → is_user_handle b ≡ true
is_user_handle-IsHandle (array_buffer bs) o h = refl
is_user_handle-IsHandle (other null) o h = refl
is_user_handle-IsHandle (other v) none h = elim h [ ]
is_user_handle-IsHandle (other v) (some t) h = elim h [ ]

pub record IsAssertionResponse (c : Credential) (r : Response) (s : SerializedAssertion)
    : Type 0 where
  pub base : IsBase c s.base
  pub client_data_json : IsEncoded r.client_data_json s.client_data_json
  pub authenticator_data : IsEncoded r.authenticator_data s.authenticator_data
  pub signature : IsEncoded r.signature s.signature
  pub user_handle : IsHandle r.user_handle s.user_handle

assertion_sound :
    (c : Credential) (r : Response) (s : SerializedAssertion)
    → HasBytes c.raw_id
    → HasResponseBytes r
    → assertion_response c (some r) ≡ ok s
    → IsAssertionResponse c r s
assertion_sound c r s raw bytes h =
    let (_, k0) = (unless_iff _ _ _ s).0 h in
    let (base, h1, k1) = (bind_of_iff _ _ s _ (λ b. base_credential_iff c b raw)).0 k0 in
    let (client, h2, k2) =
      (bind_of_iff _ _ s _
          (λ t. encoded_credential_binary_iff r.client_data_json t bytes.client_data_json)).0
        k1 in
    let (authenticator, h3, k3) =
      (bind_of_iff _ _ s _
          (λ t. encoded_credential_binary_iff r.authenticator_data t bytes.authenticator_data)).0
        k2 in
    let (signature, h4, k4) =
      (bind_of_iff _ _ s _ (λ t. encoded_credential_binary_iff r.signature t bytes.signature)).0
        k3 in
    let (handle, h5, k5) =
      (bind_of_iff _ _ s _ (λ o. user_handle_of_iff r.user_handle o bytes.user_handle)).0 k4 in
    let e =
      (ok_iff
          (record {
            base = base;
            client_data_json = client;
            authenticator_data = authenticator;
            signature = signature;
            user_handle = handle;
          })
          s).0
        k5 in
    rw (← e) (record {
      base = h1;
      client_data_json = h2;
      authenticator_data = h3;
      signature = h4;
      user_handle = h5;
    })

assertion_complete :
    (c : Credential) (r : Response) (s : SerializedAssertion)
    → HasBytes c.raw_id
    → HasResponseBytes r
    → IsAssertionResponse c r s
    → assertion_response c (some r) ≡ ok s
assertion_complete c r s raw bytes p = (unless_iff _ (not (are_assertion_buffers r)) _ s).1 (
  ground (
    arith,
    is_array_buffer-IsEncoded r.client_data_json s.client_data_json p.client_data_json,
    is_array_buffer-IsEncoded r.authenticator_data s.authenticator_data p.authenticator_data,
    is_array_buffer-IsEncoded r.signature s.signature p.signature,
    is_user_handle-IsHandle r.user_handle s.user_handle p.user_handle,
  ),
  >>=-ok _ _ _ ((base_credential_iff c s.base raw).1 p.base)
      ∙ >>=-ok _ _ _
          ((encoded_credential_binary_iff _ _ bytes.client_data_json).1 p.client_data_json)
      ∙ >>=-ok _ _ _
          ((encoded_credential_binary_iff _ _ bytes.authenticator_data).1 p.authenticator_data)
      ∙ >>=-ok _ _ _ ((encoded_credential_binary_iff _ _ bytes.signature).1 p.signature)
      ∙ >>=-ok _ _ _ ((user_handle_of_iff _ _ bytes.user_handle).1 p.user_handle),
)

abbrev pub IsAssertion : Credential → Option Response → SerializedAssertion → Type 0
IsAssertion c none s = ⊥
IsAssertion c (some r) s = IsAssertionResponse c r s

assertion_response_iff :
    (c : Credential) (o : Option Response) (s : SerializedAssertion)
    → HasCredentialBytes c o
    → (assertion_response c o ≡ ok s) ↔ IsAssertion c o s
assertion_response_iff c none s h = (λ e. cc, λ e. elim e [ ])
assertion_response_iff c (some r) s h =
    (assertion_sound c r s h.0 h.1, assertion_complete c r s h.0 h.1)

-- Where the buffers hold bytes, an assertion credential is serialized, with this result, exactly
-- when its id is a text of 1 to 2048 characters that is the result's, its type is "public-key",
-- its attachment is absent, null or a known word, its extension results are an object within the
-- bounds, its user handle is null in both or a buffer, and the texts of the result decode to the
-- buffers of the credential.
pub serialize_assertion_credential_iff :
    (c : Credential) (s : SerializedAssertion)
    → HasCredentialBytes c c.response
    → (serialize_assertion_credential c ≡ ok s) ↔ IsAssertion c c.response s
unfolding serialize_assertion_credential
serialize_assertion_credential_iff c s h =
    iff_trans (normalized_iff invalid_credential (assertion_response c c.response) s)
      (assertion_response_iff c c.response s h)
