-- ===== src/Web/Credential/Decoded.antt =====
-- What a serialized credential says of the browser's credential.
use secure_keyboard.Prelude.{
  ◌≤◌, ◌≡◌, refl, ◌∙◌, sym, ◌↔◌, ◌⊎◌, true, not, ◌&&◌, [], ◌∷◌, arith, Option, none, some, length,
}
use secure_keyboard.Js.{JsString, js, Value, undefined, null, string, is_text}
use secure_keyboard.Contracts.Reports.{iff_trans}
use secure_keyboard.Contracts.Layout.Shape.{IsText}
use secure_keyboard.Contracts.Layout.Parts.{is_text_iff}
use secure_keyboard.Web.Mode.{ClientErrorCode, invalid_credential}
use secure_keyboard.Web.Base64.{
  Bytes, max_webauthn_binary_bytes, encode_base64_url, decode_base64_url,
}
use secure_keyboard.Web.Base64.Digits.{IsBytes}
use secure_keyboard.Web.Base64.RoundTrip.{decode-encode_base64_url}
use secure_keyboard.Web.Base64.Canonical.{encode-decode_base64_url}
use secure_keyboard.Web.Extensions.Complete.{IsExtensions, copy_record_iff}
use secure_keyboard.Web.Options.Parts.{unless_iff, ok_iff, from_option_iff, IsRequired}
use secure_keyboard.Web.Options.Accepted.{bind_of_iff}
use secure_keyboard.Web.Outcome.{Outcome, ok, throws, normalized, >>=-ok}
use secure_keyboard.Web.Credential.{
  Binary, array_buffer, other, Response, Credential, encoded_credential_binary,
  max_credential_id_length, extension_results, credential_id, is_array_buffer, is_attachment, Base,
  base_credential,
}

-- An ArrayBuffer holds bytes.
abbrev pub HasBytes : Binary → Type 0
HasBytes (array_buffer bs) = IsBytes bs
HasBytes (other v) = Unit

-- The text decodes to what the buffer holds.
abbrev pub IsEncoded : Binary → JsString → Type 0
IsEncoded (array_buffer bs) t = decode_base64_url t max_webauthn_binary_bytes ≡ some bs
IsEncoded (other v) t = ⊥

some_text_iff : (a b : JsString) → (some a ≡ some b) ↔ (a ≡ b)
some_text_iff a b = (λ h. cc, λ h. cc)

encoded_decodes :
    (bs : Bytes) (t : JsString)
    → IsBytes bs
    → encode_base64_url bs ≡ some t
    → decode_base64_url t max_webauthn_binary_bytes ≡ some bs
unfolding encode_base64_url
encoded_decodes bs t h e =
    let fits : length bs ≤ max_webauthn_binary_bytes = ground (arith, e) in
    let (u, encoded, decoded) =
      decode-encode_base64_url bs max_webauthn_binary_bytes h fits (omega arith) in
    rw (← (some_text_iff u t).0 (sym encoded ∙ e)) decoded

pub encoded_credential_binary_iff :
    (b : Binary) (t : JsString) → HasBytes b → (encoded_credential_binary b ≡ ok t) ↔ IsEncoded b t
unfolding encoded_credential_binary
encoded_credential_binary_iff (array_buffer bs) t h =
    iff_trans (from_option_iff _ (encode_base64_url bs) t) (
      λ e. encoded_decodes bs t h e,
      λ e. (encode-decode_base64_url t max_webauthn_binary_bytes bs e).0,
    )
encoded_credential_binary_iff (other v) t h = (λ e. cc, λ e. elim e [ ])

-- The call returns, and its result is copied.
abbrev pub IsResults : Outcome Value → Value → Type 0
IsResults (ok v) w = IsExtensions v w
IsResults (throws e) w = ⊥

extension_results_iff :
    (call : Outcome Value) (w : Value) → (extension_results call ≡ ok w) ↔ IsResults call w
unfolding extension_results
extension_results_iff (ok v) w = iff_trans (from_option_iff _ _ w) (copy_record_iff v w)
extension_results_iff (throws e) w = (λ h. cc, λ h. elim h [ ])

credential_id_iff :
    (v : Value) (t : JsString) → (credential_id v ≡ ok t) ↔ IsRequired max_credential_id_length v t
credential_id_iff (string []) t = (λ h. cc, λ h. absurd (omega (arith, h.0)))
credential_id_iff (string (c ∷ cs)) t = iff_trans (unless_iff _ _ (ok (c ∷ cs)) t) (
  λ p. (omega arith, ground (arith, p.0), (ok_iff (c ∷ cs) t).0 p.1),
  λ p. (ground (arith, p.1), (ok_iff (c ∷ cs) t).1 p.2),
)
credential_id_iff _ t = (λ h. cc, λ h. elim h [ ])

-- Absent, null or one of the two words.
abbrev pub IsAttachment : Value → Type 0
IsAttachment v =
    (v ≡ undefined) ⊎ (v ≡ null) ⊎ IsText (js "platform") v ⊎ IsText (js "cross-platform") v

is_attachment_iff : (v : Value) → (is_attachment v ≡ true) ↔ IsAttachment v
is_attachment_iff v =
    ground (arith, v, is_text_iff v (js "platform"), is_text_iff v (js "cross-platform"))

pub record IsBase (c : Credential) (b : Base) : Type 0 where
  pub id : IsRequired max_credential_id_length c.id b.id
  pub type : IsText (js "public-key") c.type
  pub raw_id : IsEncoded c.raw_id b.raw_id
  pub results : IsResults c.client_extension_results b.client_extension_results
  pub attachment : IsAttachment c.authenticator_attachment
  pub same : c.authenticator_attachment ≡ b.authenticator_attachment

-- A buffer that is encoded is a buffer.
pub is_array_buffer-IsEncoded :
    (b : Binary) (t : JsString) → IsEncoded b t → is_array_buffer b ≡ true
is_array_buffer-IsEncoded (array_buffer bs) t h = refl
is_array_buffer-IsEncoded (other v) t h = elim h [ ]

base_sound : (c : Credential) (b : Base) → HasBytes c.raw_id → base_credential c ≡ ok b → IsBase c b
unfolding base_credential
base_sound c b bytes h =
    let (id, h1, k1) = (bind_of_iff _ _ b _ (credential_id_iff c.id)).0 h in
    let (kind, k2) =
      (unless_iff invalid_credential
          (not (is_text c.type (js "public-key") && is_array_buffer c.raw_id)) _ b).0
        k1 in
    let (raw, h3, k3) =
      (bind_of_iff _ _ b _ (λ t. encoded_credential_binary_iff c.raw_id t bytes)).0 k2 in
    let (results, h4, k4) =
      (bind_of_iff _ _ b _ (extension_results_iff c.client_extension_results)).0 k3 in
    let (attached, k5) =
      (unless_iff invalid_credential (not (is_attachment c.authenticator_attachment)) _ b).0 k4 in
    let e =
      (ok_iff
          (record {
            id = id;
            raw_id = raw;
            client_extension_results = results;
            authenticator_attachment = c.authenticator_attachment;
          })
          b).0
        k5 in
    rw (← e) (record {
      id = h1;
      type = (is_text_iff c.type (js "public-key")).0 (ground (arith, kind));
      raw_id = h3;
      results = h4;
      attachment = (is_attachment_iff c.authenticator_attachment).0 (ground (arith, attached));
      same = refl;
    })

base_complete :
    (c : Credential) (b : Base) → HasBytes c.raw_id → IsBase c b → base_credential c ≡ ok b
unfolding base_credential
base_complete c b bytes r =
    let kind = (is_text_iff c.type (js "public-key")).1 r.type in
    let buffer = is_array_buffer-IsEncoded c.raw_id b.raw_id r.raw_id in
    let attached = (is_attachment_iff c.authenticator_attachment).1 r.attachment in
    >>=-ok _ _ _ ((credential_id_iff c.id b.id).1 r.id)
    ∙ (unless_iff _ (not (is_text c.type (js "public-key") && is_array_buffer c.raw_id)) _ b).1 (
      ground (arith, kind, buffer),
      >>=-ok _ _ _ ((encoded_credential_binary_iff c.raw_id b.raw_id bytes).1 r.raw_id)
          ∙ >>=-ok _ _ _ ((extension_results_iff _ _).1 r.results)
          ∙ (unless_iff _ (not (is_attachment c.authenticator_attachment)) _ b).1
              (ground (arith, attached), rw (← r.same) refl),
    )

pub base_credential_iff :
    (c : Credential) (b : Base) → HasBytes c.raw_id → (base_credential c ≡ ok b) ↔ IsBase c b
base_credential_iff c b bytes = (base_sound c b bytes, base_complete c b bytes)

-- Every buffer of a credential holds bytes.
pub record HasResponseBytes (r : Response) : Type 0 where
  pub client_data_json : HasBytes r.client_data_json
  pub attestation_object : HasBytes r.attestation_object
  pub authenticator_data : HasBytes r.authenticator_data
  pub signature : HasBytes r.signature
  pub user_handle : HasBytes r.user_handle

pub normalized_iff {ℓ} :
    {A : Type ℓ} (code : ClientErrorCode) (m : Outcome A) (a : A)
    → (normalized code m ≡ ok a) ↔ (m ≡ ok a)
normalized_iff code (ok x) a = (λ h. h, λ h. h)
normalized_iff code (throws e) a = (λ h. cc, λ h. cc)

-- The buffers of the credential and of its response hold bytes.
abbrev pub HasCredentialBytes : Credential → Option Response → Type 0
HasCredentialBytes c none = Unit
HasCredentialBytes c (some r) = HasBytes c.raw_id × HasResponseBytes r
