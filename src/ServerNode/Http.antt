-- ===== src/ServerNode/Http.antt =====
-- The deployment check and the request metadata that the handler reads before any host callback.
use secure_keyboard.Prelude.{
  ℕ, ◌+◌, ◌-◌, ◌*◌, Bool, false, not, ◌&&◌, ◌||◌, List, [], ◌∷◌, Option, none, some, leb, ltb, ◌==◌,
  if◌then◌else◌, all,
}
use secure_keyboard.Js.{
  truthy, Call, returns, throws, max_safe_integer, JsString, js, text_eq, includes, is_digit,
  is_upper, natural, Value, number, is_text,
}

abbrev pub max_http_body_bytes : ℕ
max_http_body_bytes = 128 * 1024

abbrev pub registration_start : JsString
registration_start = js "/v1/opaque/registration/start"

abbrev pub registration_finish : JsString
registration_finish = js "/v1/opaque/registration/finish"

abbrev pub login_start : JsString
login_start = js "/v1/opaque/login/start"

abbrev pub login_finish : JsString
login_finish = js "/v1/opaque/login/finish"

abbrev pub opaque_route_paths : List JsString
opaque_route_paths = registration_start ∷ registration_finish ∷ login_start ∷ login_finish ∷ []

-- What `new URL(request.url)` makes of the address.
pub record Url : Type 0 where
  pub pathname : JsString
  pub search : JsString
  pub hash : JsString

-- The deployment facts; each field is whatever the host put there.
pub record DeploymentContext : Type 0 where
  pub transport : Value
  pub upstream_body_limit_bytes : Value
  pub connection_limits_enforced : Value

-- The limit, where `Number.isSafeInteger(limit) && limit > 0 && limit <= MAX_HTTP_BODY_BYTES`.
abbrev pub body_limit : Value → Option ℕ
body_limit (number (natural n)) =
    if leb n max_safe_integer && ltb 0 n && leb n max_http_body_bytes then some n else none
body_limit _ = none

abbrev pub is_tls : Value → Bool
is_tls v = is_text v (js "direct-tls") || is_text v (js "trusted-proxy-tls")

-- `isReady`: none stands for undefined, also where an accessor throws.
unfoldable pub is_ready : Call DeploymentContext → Option ℕ
is_ready throws = none
is_ready (returns c) =
    if is_tls c.transport && truthy c.connection_limits_enforced
    then body_limit c.upstream_body_limit_bytes
    else none

-- `routePath`
unfoldable pub route_path : Call Url → Option JsString
route_path throws = none
route_path (returns u) =
    if not (text_eq u.search []) || not (text_eq u.hash [])
    then none
    else if includes opaque_route_paths u.pathname
    then some u.pathname
    else none

-- White space and line ends, which `trim` removes.
abbrev pub is_space : ℕ → Bool
is_space c =
    (leb 9 c && leb c 13)
    || c == 32
    || c == 0xa0
    || c == 0x1680
    || (leb 0x2000 c && leb c 0x200a)
    || c == 0x2028
    || c == 0x2029
    || c == 0x202f
    || c == 0x205f
    || c == 0x3000
    || c == 0xfeff

unfoldable pub trim_start : JsString → JsString
trim_start [] = []
trim_start (c ∷ cs) = if is_space c then trim_start cs else c ∷ cs

-- A trailing space is dropped where nothing but spaces follows it.
abbrev pub keep_unless_space : ℕ → JsString → JsString
keep_unless_space c [] = if is_space c then [] else c ∷ []
keep_unless_space c (d ∷ ds) = c ∷ d ∷ ds

unfoldable pub trim_end : JsString → JsString
trim_end [] = []
trim_end (c ∷ cs) = keep_unless_space c (trim_end cs)

unfoldable pub trim : JsString → JsString
unfolding trim_start trim_end
trim t = trim_end (trim_start t)

-- `value.split(";", 1)[0]`
unfoldable pub before_semicolon : JsString → JsString
before_semicolon [] = []
before_semicolon (c ∷ cs) = if c == b';' then [] else c ∷ before_semicolon cs

-- `toLowerCase` on ASCII; no other character's lower case is a letter of "application/json".
unfoldable pub lower_case : JsString → JsString
lower_case [] = []
lower_case (c ∷ cs) = (if is_upper c then c + 32 else c) ∷ lower_case cs

-- `isJsonContentType`
unfoldable pub is_json_content_type : Option JsString → Bool
is_json_content_type none = false
is_json_content_type (some value) =
    text_eq (lower_case (trim (before_semicolon value))) (js "application/json")

-- `Number(digits)`
unfoldable pub digits_value : ℕ → JsString → ℕ
digits_value acc [] = acc
digits_value acc (c ∷ cs) = digits_value (acc * 10 + (c - b'0')) cs

-- `/^\d+$/.test`
unfoldable pub is_digits : JsString → Bool
is_digits [] = false
is_digits (c ∷ cs) = is_digit c && all is_digit cs

pub data DeclaredLength : Type 0 where
  absent : DeclaredLength
  invalid : DeclaredLength
  declared : ℕ → DeclaredLength

-- `declaredBodyLength`
unfoldable pub declared_body_length : Option JsString → DeclaredLength
declared_body_length none = absent
declared_body_length (some value) =
    if is_digits (trim value)
    then (if leb (digits_value 0 (trim value)) max_safe_integer
        then declared (digits_value 0 (trim value))
        else invalid)
    else invalid
