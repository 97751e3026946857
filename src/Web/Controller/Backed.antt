-- ===== src/Web/Controller/Backed.antt =====
-- A pending presentation has an operation behind it; and the operation that it hides.
use secure_keyboard.Prelude.{
  ◌≡◌, ◌≢◌, refl, sym, subst, ◌⊎◌, inl, inr, Bool, true, false, List, [], ◌∷◌, ◌++◌, Option, none,
  some, if◌then◌else◌,
}
use secure_keyboard.Web.Mode.{ClientErrorCode, aborted}
use secure_keyboard.Web.Controller.{
  presentation, Operation, Phase, idle, pending, success, error, ActiveOperation, Settled,
  Controller, Action, run, cancel, settle, continue, new_controller, publish, run_operation,
  cancel_operation, settle_operation, outcome_state, continue_operation, step, steps,
}

abbrev pub IsRunning : Option ActiveOperation → Type 0
IsRunning none = ⊥
IsRunning (some a) = a.cancelled ≡ false

-- One of the waiting operations was not cancelled.
abbrev pub Waits : List Settled → Type 0
Waits [] = ⊥
Waits (s ∷ rest) = (s.active.cancelled ≡ false) ⊎ Waits rest

-- The presentation is not pending, or an operation that was not cancelled will replace it.
abbrev pub IsBacked : Controller → Type 0
IsBacked c = (c.state.phase ≢ pending) ⊎ IsRunning c.active_operation ⊎ Waits c.waiting

Waits-append : (xs : List Settled) (s : Settled) → Waits xs → Waits (xs ++ s ∷ [])
Waits-append [] s h = elim h [ ]
Waits-append (x ∷ xs) s (inl h) = inl h
Waits-append (x ∷ xs) s (inr h) = inr (Waits-append xs s h)

Waits-last : (xs : List Settled) (s : Settled) → s.active.cancelled ≡ false → Waits (xs ++ s ∷ [])
Waits-last [] s h = inl h
Waits-last (x ∷ xs) s h = inr (Waits-last xs s h)

error_differs : error ≢ pending
error_differs e = cc

success_differs : success ≢ pending
success_differs e = cc

outcome_differs :
    (op : Operation) (o : Option ClientErrorCode) → (outcome_state op o).phase ≢ pending
outcome_differs op none = success_differs
outcome_differs op (some code) = error_differs

run-IsBacked :
    (op : Operation) (a : Option ActiveOperation) (c : Controller)
    → c.active_operation ≡ a
    → IsBacked c
    → IsBacked (run_operation op a c)
run-IsBacked op (some a) c e h = h
run-IsBacked op none c e h = inr (inl refl)

cancel-IsBacked :
    (p : Phase) (a : Option ActiveOperation) (c : Controller)
    → IsBacked c
    → IsBacked (cancel_operation p a c)
cancel-IsBacked pending (some a) c h = inl error_differs
cancel-IsBacked pending none c h = h
cancel-IsBacked idle a c h = h
cancel-IsBacked success a c h = h
cancel-IsBacked error a c h = h

settle_running :
    (outcome : Option ClientErrorCode) (a : ActiveOperation) (o : Option ActiveOperation)
    (xs : List Settled)
    → o ≡ some a
    → IsRunning o
    → Waits (xs ++ record { active = a; outcome = outcome } ∷ [])
settle_running outcome a none xs e h = elim h [ ]
settle_running outcome a (some b) xs e h =
    Waits-last xs (record { active = a; outcome = outcome }) (cc)

settle-IsBacked :
    (outcome : Option ClientErrorCode) (a : Option ActiveOperation) (c : Controller)
    → c.active_operation ≡ a
    → IsBacked c
    → IsBacked (settle_operation outcome a c)
settle-IsBacked outcome none c e h = h
settle-IsBacked outcome (some a) c e (inl h) = inl h
settle-IsBacked outcome (some a) c e (inr (inl h)) =
    inr (inr (settle_running outcome a c.active_operation c.waiting e h))
settle-IsBacked outcome (some a) c e (inr (inr h)) = inr (inr (Waits-append c.waiting _ h))

drop_cancelled :
    (s : Settled) (rest : List Settled) → s.active.cancelled ≡ true → Waits (s ∷ rest) → Waits rest
drop_cancelled s rest e (inl h) = cc
drop_cancelled s rest e (inr h) = h

next-IsBacked :
    (cancelled : Bool) (s : Settled) (rest : List Settled) (c : Controller)
    → s.active.cancelled ≡ cancelled
    → (c.state.phase ≢ pending) ⊎ IsRunning c.active_operation ⊎ Waits (s ∷ rest)
    → IsBacked (
        if cancelled
        then record c { waiting = rest }
        else publish (outcome_state s.active.operation s.outcome) (record c { waiting = rest }))
next-IsBacked false s rest c e h = inl (outcome_differs s.active.operation s.outcome)
next-IsBacked true s rest c e (inl h) = inl h
next-IsBacked true s rest c e (inr (inl h)) = inr (inl h)
next-IsBacked true s rest c e (inr (inr h)) = inr (inr (drop_cancelled s rest e h))

IsBacked-waiting :
    (c : Controller) (xs : List Settled)
    → c.waiting ≡ xs
    → IsBacked c
    → (c.state.phase ≢ pending) ⊎ IsRunning c.active_operation ⊎ Waits xs
IsBacked-waiting c xs e h = rw (← e) h

continue-IsBacked :
    (xs : List Settled) (c : Controller)
    → c.waiting ≡ xs
    → IsBacked c
    → IsBacked (continue_operation xs c)
continue-IsBacked [] c e h = h
continue-IsBacked (s ∷ rest) c e h =
    next-IsBacked s.active.cancelled s rest c refl (IsBacked-waiting c (s ∷ rest) e h)

step-IsBacked : (a : Action) (c : Controller) → IsBacked c → IsBacked (step a c)
unfolding step
step-IsBacked (run op) c h = run-IsBacked op c.active_operation c refl h
step-IsBacked cancel c h = cancel-IsBacked c.state.phase c.active_operation c h
step-IsBacked (settle outcome) c h = settle-IsBacked outcome c.active_operation c refl h
step-IsBacked continue c h = continue-IsBacked c.waiting c refl h

pub steps-keep : (actions : List Action) (c : Controller) → IsBacked c → IsBacked (steps actions c)
unfolding steps
steps-keep [] c h = h
steps-keep (a ∷ rest) c h = steps-keep rest (step a c) (step-IsBacked a c h)

idle_differs : idle ≢ pending
idle_differs e = cc

-- Whatever calls, settlings and continuations a new controller sees, in any order, its presentation
-- is pending only while an operation that was not cancelled is active or about to publish its end.
pub steps-IsBacked : (actions : List Action) → IsBacked (steps actions new_controller)
steps-IsBacked actions = steps-keep actions new_controller (inl idle_differs)

-- The state after the active operation settled, the next one was started, and the continuation of
-- the first ran.
abbrev pub started_early : Operation → Option ClientErrorCode → Controller → Controller
started_early second outcome c = steps (settle outcome ∷ run second ∷ continue ∷ []) c

-- The second operation is active; what is shown, and what `cancel` does to it, goes by whether the
-- first was cancelled.
abbrev pub IsHidden : Operation → Option ClientErrorCode → ActiveOperation → Controller → Type 0
IsHidden second outcome first d =
    (d.active_operation ≡ some (record { operation = second; cancelled = false }))
    × (if first.cancelled
        then (d.state ≡ presentation pending (some second) none)
          × ((step cancel d).state ≡ presentation error (some second) (some aborted))
        else (d.state ≡ outcome_state first.operation outcome) × (step cancel d ≡ d))

raced_operations :
    (cancelled : Bool) (first second : Operation) (outcome : Option ClientErrorCode)
    (c : Controller)
    → (let a : ActiveOperation = record { operation = first; cancelled = cancelled } in
        IsHidden second outcome a
          (started_early second outcome (record c { active_operation = some a; waiting = [] })))
unfolding steps step
raced_operations true first second outcome c = (refl, (refl, refl))
raced_operations false first second none c = (refl, (refl, refl))
raced_operations false first second (some code) c = (refl, (refl, refl))

-- From any state with an active operation and no waiting continuation: when that operation settles,
-- and a second one is started before the continuation of the first runs, then the second is active
-- afterwards. Unless the first was cancelled, the end of the first is shown in place of the pending
-- second, and cancelling the second changes nothing. If the first was cancelled, the second is shown
-- as pending, and cancelling it is shown as an aborted end.
pub started_early-IsHidden :
    (c : Controller) (first : ActiveOperation) (second : Operation)
    (outcome : Option ClientErrorCode)
    → c.active_operation ≡ some first
    → c.waiting ≡ []
    → IsHidden second outcome first (started_early second outcome c)
started_early-IsHidden c first second outcome active none_waiting =
    let at : Option ActiveOperation → List Settled → Type 0 = λ o w.
      IsHidden second outcome first
        (started_early second outcome (record c { active_operation = o; waiting = w })) in
    subst (at c.active_operation) (sym none_waiting) (
      subst (λ (o : Option ActiveOperation). at o []) (sym active)
        (raced_operations first.cancelled first.operation second outcome c))
