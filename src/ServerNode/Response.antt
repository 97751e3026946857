-- ===== src/ServerNode/Response.antt =====
-- The generic responses and `responseFromDelegate`.
use secure_keyboard.Prelude.{
  ℕ, String, Bool, ◌||◌, List, [], ◌∷◌, ◌++◌, leb, ◌==◌, if◌then◌else◌, length,
}
use secure_keyboard.Js.{JsString, js, Value, number, natural}
use secure_keyboard.Js.{Call, returns, throws}
use secure_keyboard.ServerNode.Http.{max_http_body_bytes}
use secure_keyboard.ServerNode.Body.{Bytes, zeroed}

pub data ErrorCode : Type 0 where
  invalid_request rate_limited temporarily_unavailable : ErrorCode

abbrev pub code_text : ErrorCode → JsString
code_text invalid_request = js "invalid_request"
code_text rate_limited = js "rate_limited"
code_text temporarily_unavailable = js "temporarily_unavailable"

-- The bytes of `JSON.stringify({ error: code })`; the codes are ASCII and need no escape.
unfoldable pub error_body : ErrorCode → Bytes
error_body code = js "{\"error\":\"" ++ (code_text code ++ js "\"}")

pub record Header : Type 0 where
  pub name : JsString
  pub value : JsString

abbrev pub header : String → String → Header
header name value = record { name = js name; value = js value }

-- `responseHeaders`: the content type, and RESPONSE_SECURITY_HEADERS.
unfoldable pub response_headers : List Header
response_headers =
    header "content-type" "application/json; charset=utf-8"
    ∷ header "cache-control" "no-store"
    ∷ header "pragma" "no-cache"
    ∷ header "x-content-type-options" "nosniff"
    ∷ header "referrer-policy" "no-referrer"
    ∷ header "content-security-policy" "default-src 'none'; frame-ancestors 'none'; base-uri 'none'"
    ∷ []

pub record Response : Type 0 where
  pub status : ℕ
  pub body : Bytes
  pub headers : List Header

unfoldable pub generic_response : ℕ → ErrorCode → Response
generic_response status code = record {
  status = status;
  body = error_body code;
  headers = response_headers;
}

-- STATUS_CODES
abbrev pub is_status_code : ℕ → Bool
is_status_code s =
    s == 200
    || s == 400
    || s == 401
    || s == 403
    || s == 404
    || s == 405
    || s == 413
    || s == 415
    || s == 429
    || s == 503

-- What the delegate returned as `body`: a Uint8Array, another buffer, or neither.
pub data DelegateBody : Type 0 where
  uint8_array : Bytes → DelegateBody
  other_buffer : Bytes → DelegateBody
  no_buffer : DelegateBody

pub record DelegateResponse : Type 0 where
  pub status : Value
  pub body : DelegateBody

-- The response, and the buffer of the delegate as it is left.
pub record Answer : Type 0 where
  pub response : Response
  pub delegate_buffer : Bytes

abbrev pub left_buffer : DelegateBody → Bytes
left_buffer (uint8_array bs) = zeroed bs
left_buffer (other_buffer bs) = zeroed bs
left_buffer no_buffer = []

abbrev pub unavailable_response : Response
unavailable_response = generic_response 503 temporarily_unavailable

abbrev pub accepted_body : ℕ → DelegateBody → Response
accepted_body status (uint8_array bs) =
    if leb (length bs) max_http_body_bytes
    then record { status = status; body = bs; headers = response_headers }
    else unavailable_response
accepted_body status _ = unavailable_response

abbrev pub accepted_response : Value → DelegateBody → Response
accepted_response (number (natural status)) body =
    if is_status_code status then accepted_body status body else unavailable_response
accepted_response _ body = unavailable_response

-- `responseFromDelegate`, and 503 where the delegate throws.
unfoldable pub response_from_delegate : Call DelegateResponse → Answer
response_from_delegate throws = record { response = unavailable_response; delegate_buffer = [] }
response_from_delegate (returns r) = record {
  response = accepted_response r.status r.body;
  delegate_buffer = left_buffer r.body;
}
