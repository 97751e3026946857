-- ===== src/ServerNode/Tests.antt =====
-- Concrete requests, and the theorems on the handler at them.
use secure_keyboard.Prelude.{
  ℕ, ◌≡◌, ◌≤◌, refl, ◌⊎◌, Bool, true, List, [], ◌∷◌, ◌++◌, some, leb, All, arith, length,
}
use secure_keyboard.Js.{
  Call, returns, JsString, js, text_eq, includes, property, Value, boolean, number, natural, string,
  object, end, field,
}
use secure_keyboard.Contracts.Patterns.{code_points, utf8_byte_length}
use secure_keyboard.ServerNode.Http.{
  DeploymentContext, is_ready, route_path, trim_start, trim_end, trim, before_semicolon, lower_case,
  is_json_content_type, digits_value, is_digits, declared_body_length, login_finish,
}
use secure_keyboard.ServerNode.Evidence.{
  FinancialAuthContext, starts_with, contains_text, operation_of, bounded_binding,
  valid_financial_context, is_fresh_bound_evidence,
}
use secure_keyboard.ServerNode.Evidence.Binding.{
  IsBoundEvidence, is_fresh_bound_evidence-IsBoundEvidence, valid_financial_context-IsContext,
}
use secure_keyboard.ServerNode.Replay.{
  max_financial_replay_entries, consumed, purge, has_key, replay_key, consume,
  consume_financial_evidence,
}
use secure_keyboard.ServerNode.Replay.Refines.{IsOrdered, decide_all, attempt_all_refines}
use secure_keyboard.ServerNode.Replay.Safety.{
  Attempt, attempt_all, IsRefused, consumed_once, taken_again_when_expired,
}
use secure_keyboard.ServerNode.Replay.Keys.{replay_key_unique}
use secure_keyboard.ServerNode.Body.{
  Bytes, bytes, ended, failed, chunk, too_large, cleared, write, copy_chunks, read_loop,
  read_bounded_body,
}
use secure_keyboard.ServerNode.Body.Outcome.{HasRead, stream_of, read_body_iff}
use secure_keyboard.ServerNode.Body.Clearing.{
  IsCleared, read_bounded_body-IsCleared, oversized_chunk_kept,
}
use secure_keyboard.ServerNode.Response.{
  DelegateResponse, uint8_array, error_body, response_headers, generic_response,
  response_from_delegate,
}
use secure_keyboard.ServerNode.Stages.{
  Request, DelegateRequest, HandlerOptions, Server, ◌>>=◌, admit_request, admit_host,
}
use secure_keyboard.ServerNode.Handler.{Clock, admit_financial, admit, handle}
use secure_keyboard.ServerNode.Handler.Stage.{IsGeneric}
use secure_keyboard.ServerNode.Handler.Callbacks.{IsFinanciallyAdmitted}
use secure_keyboard.ServerNode.Handler.Outcome.{
  handle-IsGeneric, handle_bounded, IsUndelegated, IsDelegated, handle_outcome,
}
use secure_keyboard.ServerNode.Handler.Once.{Arrival, serve, Presents, evidence_used_once}

server_node : Unit {0}
unfolding js text_eq includes property code_points utf8_byte_length is_ready route_path trim_start
    trim_end trim before_semicolon lower_case is_json_content_type digits_value is_digits
    declared_body_length starts_with contains_text operation_of bounded_binding
    valid_financial_context is_fresh_bound_evidence purge has_key replay_key consume
    consume_financial_evidence cleared write copy_chunks read_loop read_bounded_body error_body
    response_headers generic_response response_from_delegate ◌>>=◌ admit_request admit_host
    admit_financial admit handle serve
server_node = tt

-- The ASCII part of the excluded characters.
abbrev excluded : ℕ → Bool
excluded c = leb c 32

abbrev context_value : Value
context_value = object (
    field (js "subject") (string (js "user-1")) (
      field (js "operation") (string (js "login")) (
        field (js "nonce") (string (js "nonce-0123456789"))
          (field (js "deploymentId") (string (js "eu-1")) end))))

abbrev context : FinancialAuthContext
context = record {
  subject = js "user-1";
  operation = js "login";
  nonce = js "nonce-0123456789";
  deployment_id = js "eu-1";
}

abbrev evidence : Value
evidence = object (
    field (js "provider") (string (js "custom")) (
      field (js "subject") (string (js "user-1")) (
        field (js "operation") (string (js "login")) (
          field (js "nonce") (string (js "nonce-0123456789")) (
            field (js "deploymentId") (string (js "eu-1")) (
              field (js "issuedAtMs") (number (natural 1000))
                (field (js "expiresAtMs") (number (natural 61_000)) end)))))))

abbrev deployment : DeploymentContext
deployment = record {
  transport = string (js "direct-tls");
  upstream_body_limit_bytes = number (natural 8);
  connection_limits_enforced = boolean true;
}

abbrev echo : DelegateRequest → Call DelegateResponse
echo d = returns (record { status = number (natural 200); body = uint8_array d.body })

abbrev financial_context : Request → JsString → Call Value
financial_context r path = returns context_value

abbrev verifier : Request → FinancialAuthContext → Call Value
verifier r c = returns evidence

abbrev admit_all : Request → Call Value
admit_all r = returns (string (js "allowed"))

abbrev options : HandlerOptions
options = record {
  deployment_context = returns deployment;
  security_profile = string (js "financial");
  financial_context = some financial_context;
  device_integrity_verifier = some verifier;
  csrf_validated = λ r. returns (boolean true);
  rate_limit_decision = some admit_all;
  delegate = echo;
}

abbrev clock : Clock
clock = record { at_check = 2000; at_consume = 2001 }

abbrev request : Request
request = record {
  url = returns (record { pathname = login_finish; search = []; hash = [] });
  method = returns (js "POST");
  content_type = returns (some (js " Application/JSON ; charset=utf-8"));
  content_length = returns (some (js "5"));
  body = some (stream_of ((1 ∷ 2 ∷ []) ∷ (3 ∷ 4 ∷ 5 ∷ []) ∷ []) ended);
}

abbrev server : Server
server = record { used = []; log = [] }

abbrev after_first : Server
after_first = (handle excluded (returns options) clock request server).server

-- The first request is delegated with its body; the second is refused.
first_and_second :
    ((handle excluded (returns options) clock request server).response.status ≡ 200)
    × ((handle excluded (returns options) clock request server).response.body
        ≡ 1 ∷ 2 ∷ 3 ∷ 4 ∷ 5 ∷ [])
    × ((handle excluded (returns options) clock request after_first).response.status ≡ 403)
unfolding server_node
first_and_second = (refl, refl, refl)

handle_outcome_example :
    IsUndelegated (handle excluded (returns options) clock request server) server
    ⊎ IsDelegated excluded options clock request server
        (handle excluded (returns options) clock request server)
handle_outcome_example = handle_outcome excluded options clock request server

handle-IsGeneric_example :
    IsGeneric (handle excluded (returns options) clock request after_first).response
handle-IsGeneric_example = handle-IsGeneric excluded (returns options) clock request after_first

handle_bounded_example : length after_first.used ≤ max_financial_replay_entries
unfolding server_node
handle_bounded_example =
    handle_bounded excluded (returns options) clock request server (omega arith)

is_fresh_bound_evidence-IsBoundEvidence_example : IsBoundEvidence evidence context 2000
unfolding server_node
is_fresh_bound_evidence-IsBoundEvidence_example =
    is_fresh_bound_evidence-IsBoundEvidence evidence context 2000 refl

abbrev first_admission :
    IsFinanciallyAdmitted excluded options clock request login_finish server.used after_first.used
unfolding server_node
first_admission = record {
  context = context;
  evidence = evidence;
  resolver = financial_context;
  resolver_given = refl;
  context_value = context_value;
  resolved = refl;
  context_valid = refl;
  context_checked =
      valid_financial_context-IsContext excluded context_value login_finish context refl;
  verifier = verifier;
  verifier_given = refl;
  verified = refl;
  evidence_bound = is_fresh_bound_evidence-IsBoundEvidence evidence context 2000 refl;
  taken = refl;
}

abbrev second_presents : Presents excluded options request (replay_key context)
unfolding server_node
second_presents = record {
  financial = refl;
  path = login_finish;
  route = refl;
  resolver = financial_context;
  resolver_given = refl;
  value = context_value;
  resolved = refl;
  context = context;
  valid = refl;
  same_key = refl;
}

abbrev rest_of_requests : List Arrival
rest_of_requests = record { options = returns options; clock = clock; request = request } ∷ []

abbrev later_server : Server
later_server = serve excluded rest_of_requests after_first

evidence_used_once_example :
    IsUndelegated (handle excluded (returns options) clock request later_server) later_server
unfolding server_node
evidence_used_once_example =
    evidence_used_once excluded options options clock clock request request login_finish server
      rest_of_requests first_admission (omega arith, tt) (omega arith) second_presents

abbrev key : JsString
key = js "user"

abbrev attempts : List Attempt
attempts =
    record { key = js "other"; expires = 90; now = 50 }
    ∷ record { key = key; expires = 200; now = 99 }
    ∷ []

consumed_once_example : All (IsRefused key) (attempt_all attempts (consume key 100 10 []).1)
unfolding server_node
consumed_once_example = consumed_once key 100 10 [] attempts refl (omega arith, (omega arith, tt))

attempts-IsOrdered : IsOrdered 0 attempts
attempts-IsOrdered = (omega arith, (omega arith, tt))

attempt_all_refines_example : attempt_all attempts [] ≡ decide_all attempts []
attempt_all_refines_example = attempt_all_refines 0 attempts attempts-IsOrdered

taken_again_when_expired_example :
    (consume key 100 100 (consume key 100 10 ((js "other", 50) ∷ [])).1).0 ≡ consumed
unfolding server_node
taken_again_when_expired_example =
    taken_again_when_expired key 100 10 100 ((js "other", 50) ∷ []) refl (omega arith)

replay_key_unique_example : context ≡ context
unfolding server_node
replay_key_unique_example =
    replay_key_unique excluded refl context_value context_value login_finish login_finish context
      context refl refl refl

abbrev two_chunks : List Bytes
two_chunks = (1 ∷ 2 ∷ []) ∷ (3 ∷ []) ∷ []

read_body_iff_example : HasRead 3 [] (stream_of two_chunks ended) (1 ∷ 2 ∷ 3 ∷ [])
unfolding server_node
read_body_iff_example = (read_body_iff (stream_of two_chunks ended) 3 (1 ∷ 2 ∷ 3 ∷ [])).0 refl

read_bounded_body-IsCleared_example :
    All IsCleared (read_bounded_body (some (stream_of two_chunks failed)) 3).memory
unfolding server_node
read_bounded_body-IsCleared_example =
    read_bounded_body-IsCleared (some (stream_of two_chunks failed)) 3 (λ e. cc)

oversized_chunk_kept_example :
    read_bounded_body (some (stream_of two_chunks (chunk (bytes (7 ∷ [])) ended))) 3
    ≡ record { outcome = too_large; memory = cleared two_chunks ++ (7 ∷ []) ∷ []; cancelled = true }
oversized_chunk_kept_example =
    oversized_chunk_kept two_chunks (7 ∷ []) ended 3 (omega arith) (omega arith)
