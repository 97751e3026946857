-- ===== src/Web/Options/Lists.antt =====
-- What the lists and the nested objects of the options are converted to.
use secure_keyboard.Prelude.{
  ◌≤◌, ◌≡◌, refl, sym, ◌↔◌, ◌⊎◌, true, false, not, List, [], ◌∷◌, arith, Option, length, any, All,
}
use secure_keyboard.Js.{
  JsString, js, includes, Value, undefined, string, array, object, Fields, end, field, copied,
  items, keys, get,
}
use secure_keyboard.Js.Coerce.{text_of}
use secure_keyboard.Contracts.Reports.{
  OneOf, Optional, includes_iff, has_only_keys_iff, optional_iff, iff_trans,
}
use secure_keyboard.Contracts.Events.Valid.{IsInteger, is_bounded_integer_iff}
use secure_keyboard.Contracts.Layout.Shape.{IsText, IsBoolean}
use secure_keyboard.Contracts.Layout.Parts.{is_text_iff, is_boolean_iff}
use secure_keyboard.Contracts.Theme.Shape.{ReadsAs}
use secure_keyboard.Web.Outcome.{ok, ◌>>=◌, optional}
use secure_keyboard.Web.Options.{
  timeout_of, bounded_timeout, selection_fields, requirement_words, is_attachment, is_selection,
  selection_of, to_native_authenticator_selection, Descriptor, transport_words,
  descriptor_transports, to_native_descriptor, descriptors_of, to_native_credentials, word_of,
  hint_words, hints_of, binary_option,
}
use secure_keyboard.Web.Options.Parts.{
  Given, given_iff, Pointwise, map_outcome_iff, unless_iff, ok_iff, bind_iff, checked_iff, IsBinary,
  binary_option_iff,
}

-- A whole number of milliseconds, at most two minutes.
abbrev pub IsTimeout : Value → Value → Type 0
IsTimeout v w = IsInteger 1 120_000 v × (v ≡ w)

pub bounded_timeout_iff :
    (v : Value) (o : Option Value) → (bounded_timeout v ≡ ok o) ↔ Given IsTimeout v o
unfolding bounded_timeout
bounded_timeout_iff v o =
    given_iff timeout_of IsTimeout
      (λ v w. checked_iff _ _ _ v w (is_bounded_integer_iff 1 120_000 v)) v o

-- The fields that a selection may have.
abbrev selection_names : List JsString
selection_names =
    js "authenticatorAttachment"
    ∷ js "residentKey"
    ∷ js "requireResidentKey"
    ∷ js "userVerification"
    ∷ []

abbrev pub requirements : List JsString
requirements = js "discouraged" ∷ js "preferred" ∷ js "required" ∷ []

abbrev transport_names : List JsString
transport_names = js "ble" ∷ js "hybrid" ∷ js "internal" ∷ js "nfc" ∷ js "usb" ∷ []

abbrev hint_names : List JsString
hint_names = js "client-device" ∷ js "hybrid" ∷ js "security-key" ∷ []

-- An object whose first field has this name and this value and whose rest has the property; for
-- undefined there is no such field.
abbrev IsField : JsString → Value → (Fields → Type 0) → Fields → Type 0
IsField name undefined P out = P out
IsField name v P end = ⊥
IsField name v P (field k w rest) = (k ≡ name) × (w ≡ v) × P rest

-- The given fields of a selection, with their values, and no other field.
abbrev pub HasSelection : Fields → Fields → Type 0
HasSelection fs out =
    IsField (js "authenticatorAttachment") (get fs "authenticatorAttachment")
      (IsField (js "residentKey") (get fs "residentKey") (
        IsField (js "requireResidentKey") (get fs "requireResidentKey")
          (IsField (js "userVerification") (get fs "userVerification") (λ rest. rest ≡ end))))
      out

copied_iff :
    (name : JsString) (v : Value) (r : Fields) (P : Fields → Type 0)
    → ((x : Fields) → (r ≡ x) ↔ P x)
    → (out : Fields) → (copied name v r ≡ out) ↔ IsField name v P out
copied_iff name undefined r P e out = e out
copied_iff name v r P e end = (λ h. cc, λ h. elim h [ ])
copied_iff name v r P e (field k w rest) =
    (λ h. (cc, cc, (e rest).0 (cc)), λ p. cc ((e rest).1 p.2))

selection_of_iff : (fs out : Fields) → (selection_of fs ≡ out) ↔ HasSelection fs out
selection_of_iff fs out =
    let verification = get fs "userVerification" in
    let key = get fs "requireResidentKey" in
    let resident = get fs "residentKey" in
    let attachment = get fs "authenticatorAttachment" in
    let r1 = copied (js "userVerification") verification end in
    let r2 = copied (js "requireResidentKey") key r1 in
    let r3 = copied (js "residentKey") resident r2 in
    copied_iff (js "authenticatorAttachment") attachment r3 _
      (copied_iff (js "residentKey") resident r2 _ (
        copied_iff (js "requireResidentKey") key r1 _ (
          copied_iff (js "userVerification") verification end (λ rest. rest ≡ end)
            (λ x. (λ (h : end ≡ x). sym h, λ (h : x ≡ end). sym h)))))
      out

-- Known fields only, each omitted or one of its values; two of them by their coerced text.
abbrev pub IsSelection : Value → Fields → Type 0
IsSelection (object fs) out =
    All (OneOf selection_names) (keys fs)
    × Optional (λ v. IsText (js "cross-platform") v ⊎ IsText (js "platform") v)
        (get fs "authenticatorAttachment")
    × Optional (ReadsAs requirements) (get fs "residentKey")
    × Optional IsBoolean (get fs "requireResidentKey")
    × Optional (ReadsAs requirements) (get fs "userVerification")
    × HasSelection fs out
IsSelection _ out = ⊥

is_attachment_iff :
    (v : Value)
    → (is_attachment v ≡ true) ↔ (IsText (js "cross-platform") v ⊎ IsText (js "platform") v)
is_attachment_iff v =
    ground (arith, is_text_iff v (js "cross-platform"), is_text_iff v (js "platform"))

is_selection_iff :
    (fs : Fields)
    → (is_selection fs ≡ true) ↔ (
        All (OneOf selection_fields) (keys fs)
        × Optional
            (λ v. IsText (js "cross-platform") v ⊎ IsText (js "platform") v)
            (get fs "authenticatorAttachment")
        × Optional (ReadsAs requirement_words) (get fs "residentKey")
        × Optional IsBoolean (get fs "requireResidentKey")
        × Optional (ReadsAs requirement_words) (get fs "userVerification"))
is_selection_iff fs = ground (
  arith,
  has_only_keys_iff fs selection_fields,
  optional_iff _ _ is_attachment_iff (get fs "authenticatorAttachment"),
  optional_iff _ _ (λ v. includes_iff requirement_words (text_of v)) (get fs "residentKey"),
  optional_iff _ _ is_boolean_iff (get fs "requireResidentKey"),
  optional_iff _ _ (λ v. includes_iff requirement_words (text_of v)) (get fs "userVerification"),
)

pub to_native_authenticator_selection_iff :
    (v : Value) (out : Fields) → (to_native_authenticator_selection v ≡ ok out) ↔ IsSelection v out
unfolding to_native_authenticator_selection
to_native_authenticator_selection_iff (object fs) out =
    iff_trans (checked_iff _ _ _ (selection_of fs) out (is_selection_iff fs)) (
      λ (p, e). (p.0, p.1, p.2, p.3, p.4, (selection_of_iff fs out).0 e),
      λ p. ((p.0, p.1, p.2, p.3, p.4), (selection_of_iff fs out).1 p.5),
    )
to_native_authenticator_selection_iff _ out = (λ h. cc, λ h. elim h [ ])

-- At most five transports, by their coerced texts.
abbrev pub IsTransports : Value → List Value → Type 0
IsTransports (array vs) out =
    (length (items vs) ≤ 5) × All (ReadsAs transport_names) (items vs) × (items vs ≡ out)
IsTransports _ out = ⊥

foreign_iff :
    (vs : List Value)
    → (any (λ v. not (includes transport_words (text_of v))) vs ≡ false)
      ↔ All (ReadsAs transport_words) vs
foreign_iff [] = (λ h. tt, λ h. refl)
foreign_iff (v ∷ vs) = ground (arith, includes_iff transport_words (text_of v), foreign_iff vs)

pub descriptor_transports_iff :
    (v : Value) (out : List Value) → (descriptor_transports v ≡ ok out) ↔ IsTransports v out
unfolding descriptor_transports
descriptor_transports_iff (array vs) out = iff_trans (unless_iff _ _ (ok (items vs)) out) (
  λ p. (
    ground (arith, p.0),
    (foreign_iff (items vs)).0 (ground (arith, p.0)),
    (ok_iff (items vs) out).0 p.1,
  ),
  λ p. (ground (arith, p.0, (foreign_iff (items vs)).1 p.1), (ok_iff (items vs) out).1 p.2),
)
descriptor_transports_iff _ out = (λ h. cc, λ h. elim h [ ])

abbrev pub IsDescriptor : Value → Descriptor → Type 0
IsDescriptor (object fs) d =
    IsText (js "public-key") (get fs "type")
    × IsBinary (get fs "id") d.id
    × Given IsTransports (get fs "transports") d.transports
IsDescriptor _ d = ⊥

descriptor_parts_iff :
    (fs : Fields) (d : Descriptor)
    → ((binary_option (get fs "id") >>= λ id.
          optional descriptor_transports (get fs "transports") >>= λ transports.
          ok (record { id = id; transports = transports }))
        ≡ ok d)
      ↔ (IsBinary (get fs "id") d.id × Given IsTransports (get fs "transports") d.transports)
descriptor_parts_iff fs d =
    let id_iff = binary_option_iff (get fs "id") in
    let transports_iff =
      given_iff descriptor_transports IsTransports descriptor_transports_iff
        (get fs "transports") in
    (
      λ h.
          let (id, h1, k1) = (bind_iff _ _ d).0 h in
          let (transports, h2, k2) = (bind_iff _ _ d).0 k1 in
          let e : record { id = id; transports = transports } ≡ d = (ok_iff _ d).0 k2 in
          rw (← e) ((id_iff id).0 h1, (transports_iff transports).0 h2),
      λ (p, q). (bind_iff _ _ d).1 (
        d.id,
        (id_iff d.id).1 p,
        (bind_iff _ _ d).1 (d.transports, (transports_iff d.transports).1 q, refl),
      ),
    )

pub to_native_descriptor_iff :
    (v : Value) (d : Descriptor) → (to_native_descriptor v ≡ ok d) ↔ IsDescriptor v d
unfolding to_native_descriptor
to_native_descriptor_iff (object fs) d = iff_trans (unless_iff _ _ _ d) (
  λ p.
      let q = (descriptor_parts_iff fs d).0 p.1 in
      ((is_text_iff (get fs "type") (js "public-key")).0 (ground (arith, p.0)), q.0, q.1),
  λ p. (
    ground (arith, (is_text_iff (get fs "type") (js "public-key")).1 p.0),
    (descriptor_parts_iff fs d).1 (p.1, p.2),
  ),
)
to_native_descriptor_iff _ d = (λ h. cc, λ h. elim h [ ])

-- At most 64 descriptors.
abbrev pub IsDescriptors : Value → List Descriptor → Type 0
IsDescriptors (array vs) ds = (length (items vs) ≤ 64) × Pointwise IsDescriptor (items vs) ds
IsDescriptors _ ds = ⊥

descriptors_of_iff :
    (v : Value) (ds : List Descriptor) → (descriptors_of v ≡ ok ds) ↔ IsDescriptors v ds
descriptors_of_iff (array vs) ds =
    let each =
      map_outcome_iff to_native_descriptor IsDescriptor to_native_descriptor_iff (items vs) ds in
    iff_trans (unless_iff _ _ _ ds)
      (λ p. (ground (arith, p.0), each.0 p.1), λ p. (ground (arith, p.0), each.1 p.1))
descriptors_of_iff _ ds = (λ h. cc, λ h. elim h [ ])

pub to_native_credentials_iff :
    (v : Value) (o : Option (List Descriptor))
    → (to_native_credentials v ≡ ok o) ↔ Given IsDescriptors v o
unfolding to_native_credentials
to_native_credentials_iff v o = given_iff descriptors_of IsDescriptors descriptors_of_iff v o

-- One of the words, as it is.
abbrev pub IsWord : List JsString → Value → JsString → Type 0
IsWord words (string s) t = OneOf words s × (s ≡ t)
IsWord words _ t = ⊥

word_of_iff :
    (words : List JsString) (v : Value) (t : JsString) → (word_of words v ≡ ok t) ↔ IsWord words v t
word_of_iff words (string s) t = checked_iff _ _ _ s t (includes_iff words s)
word_of_iff words _ t = (λ h. cc, λ h. elim h [ ])

pub optional-word_of_iff :
    (words : List JsString) (v : Value) (o : Option JsString)
    → (optional (word_of words) v ≡ ok o) ↔ Given (IsWord words) v o
optional-word_of_iff words v o = given_iff (word_of words) (IsWord words) (word_of_iff words) v o

abbrev pub IsHints : Value → List JsString → Type 0
IsHints (array vs) hs = (length (items vs) ≤ 3) × Pointwise (IsWord hint_names) (items vs) hs
IsHints _ hs = ⊥

hints_of_iff : (v : Value) (hs : List JsString) → (hints_of v ≡ ok hs) ↔ IsHints v hs
hints_of_iff (array vs) hs =
    let each =
      map_outcome_iff (word_of hint_words) (IsWord hint_words) (word_of_iff hint_words) (items vs)
        hs in
    iff_trans (unless_iff _ _ _ hs)
      (λ p. (ground (arith, p.0), each.0 p.1), λ p. (ground (arith, p.0), each.1 p.1))
hints_of_iff _ hs = (λ h. cc, λ h. elim h [ ])

pub optional-hints_of_iff :
    (v : Value) (o : Option (List JsString)) → (optional hints_of v ≡ ok o) ↔ Given IsHints v o
optional-hints_of_iff v o = given_iff hints_of IsHints hints_of_iff v o
