-- ===== src/Web/Controller.antt =====
-- `createPasskeyController`: the presentation state of passkey operations.
--
-- A step is one turn of the event loop that touches the controller: a call of one of its methods,
-- the settling of the active work, or the continuation of a settled operation, which runs in a later
-- turn. Continuations run in the order in which the operations settled.
pub mod Backed
pub mod Settles
use secure_keyboard.Prelude.{
  Bool, true, false, List, [], ◌∷◌, ◌++◌, Option, none, some, if◌then◌else◌,
}
use secure_keyboard.Web.Mode.{ClientErrorCode, aborted}

pub data Operation : Type 0 where
  registration authentication : Operation

pub data Phase : Type 0 where
  idle pending success error : Phase

-- `PasskeyPresentationState`
pub record Presentation : Type 0 where
  pub phase : Phase
  pub operation : Option Operation
  pub error_code : Option ClientErrorCode

-- `ActiveOperation`, without the promise and the abort controller behind it.
pub record ActiveOperation : Type 0 where
  pub operation : Operation
  pub cancelled : Bool

-- A settled operation whose continuation has not run; none stands for a success.
pub record Settled : Type 0 where
  pub active : ActiveOperation
  pub outcome : Option ClientErrorCode

-- The variables of the controller, the waiting continuations, and what the listeners were told.
pub record Controller : Type 0 where
  pub state : Presentation
  pub active_operation : Option ActiveOperation
  pub waiting : List Settled
  pub published : List Presentation

pub data Action : Type 0 where
  run : Operation → Action
  cancel : Action
  settle : Option ClientErrorCode → Action
  continue : Action

abbrev pub presentation : Phase → Option Operation → Option ClientErrorCode → Presentation
presentation phase operation error_code = record {
  phase = phase;
  operation = operation;
  error_code = error_code;
}

abbrev pub new_controller : Controller
new_controller = record {
  state = presentation idle none none;
  active_operation = none;
  waiting = [];
  published = [];
}

-- `publish`; a listener that throws changes nothing.
abbrev pub publish : Presentation → Controller → Controller
publish next c = record c { state = next; published = c.published ++ next ∷ [] }

-- The second of two calls at once is rejected and changes nothing.
abbrev pub run_operation : Operation → Option ActiveOperation → Controller → Controller
run_operation op (some active) c = c
run_operation op none c =
    publish (presentation pending (some op) none)
      (record c { active_operation = some (record { operation = op; cancelled = false }) })

abbrev pub cancel_operation : Phase → Option ActiveOperation → Controller → Controller
cancel_operation pending (some a) c =
    publish (presentation error (some a.operation) (some aborted))
      (record c { active_operation = some (record a { cancelled = true }) })
cancel_operation _ _ c = c

-- The work of the active operation settles, and the operation is active no more.
abbrev pub settle_operation :
    Option ClientErrorCode → Option ActiveOperation → Controller → Controller
settle_operation outcome none c = c
settle_operation outcome (some a) c = record c {
  active_operation = none;
  waiting = c.waiting ++ record { active = a; outcome = outcome } ∷ [];
}

abbrev pub outcome_state : Operation → Option ClientErrorCode → Presentation
outcome_state op none = presentation success (some op) none
outcome_state op (some code) = presentation error (some op) (some code)

-- The `then` and `catch` behind the race: a cancelled operation publishes nothing more.
abbrev pub continue_operation : List Settled → Controller → Controller
continue_operation [] c = c
continue_operation (s ∷ rest) c =
    if s.active.cancelled
    then record c { waiting = rest }
    else publish (outcome_state s.active.operation s.outcome) (record c { waiting = rest })

unfoldable pub step : Action → Controller → Controller
step (run op) c = run_operation op c.active_operation c
step cancel c = cancel_operation c.state.phase c.active_operation c
step (settle outcome) c = settle_operation outcome c.active_operation c
step continue c = continue_operation c.waiting c

unfoldable pub steps : List Action → Controller → Controller
unfolding step
steps [] c = c
steps (a ∷ rest) c = steps rest (step a c)
