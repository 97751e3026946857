-- ===== src/Web/Controller/Settles.antt =====
-- A pending presentation does not stay.
use secure_keyboard.Prelude.{
  ℕ, zero, suc, ◌≡◌, ◌≢◌, refl, ◌∙◌, inl, inr, Bool, true, false, List, [], ◌∷◌, Option, none, some,
  if◌then◌else◌, length, length-append, replicate, ◌≤◌, arith,
}
use secure_keyboard.Web.Mode.{ClientErrorCode}
use secure_keyboard.Web.Controller.{
  Operation, pending, ActiveOperation, Settled, Controller, Action, run, settle, continue,
  new_controller, publish, settle_operation, outcome_state, continue_operation, step, steps,
}
use secure_keyboard.Web.Controller.Backed.{IsBacked, steps-IsBacked, steps-keep}

-- The active work settles, and every waiting continuation runs.
abbrev pub finish : Option ClientErrorCode → ℕ → List Action
finish outcome n = settle outcome ∷ replicate n continue

abbrev remaining : List Settled → List Settled
remaining [] = []
remaining (s ∷ rest) = rest

continue_next :
    (cancelled : Bool) (s : Settled) (c : Controller) (rest : List Settled)
    → (let d : Controller =
          if cancelled
          then record c { waiting = rest }
          else publish (outcome_state s.active.operation s.outcome) (record c { waiting = rest }) in
        (d.waiting ≡ rest) × (d.active_operation ≡ c.active_operation))
continue_next true s c rest = (refl, refl)
continue_next false s c rest = (refl, refl)

continue-remaining :
    (xs : List Settled) (c : Controller)
    → c.waiting ≡ xs
    → (let d = continue_operation xs c in
        (d.waiting ≡ remaining xs) × (d.active_operation ≡ c.active_operation))
continue-remaining [] c e = (e, refl)
continue-remaining (s ∷ rest) c e = continue_next s.active.cancelled s c rest

step-remaining :
    (c : Controller)
    → ((step continue c).waiting ≡ remaining c.waiting)
      × ((step continue c).active_operation ≡ c.active_operation)
unfolding step
step-remaining c = continue-remaining c.waiting c refl

length-remaining : (n : ℕ) (xs : List Settled) → length xs ≤ suc n → length (remaining xs) ≤ n
length-remaining n [] h = omega arith
length-remaining n (x ∷ xs) h = omega (arith, h)

empty_list : (xs : List Settled) → length xs ≤ 0 → xs ≡ []
empty_list [] h = refl
empty_list (x ∷ xs) h = absurd (omega (arith, h))

-- Enough continuations leave nothing waiting.
steps-drain :
    (n : ℕ) (c : Controller)
    → length c.waiting ≤ n
    → (let d = steps (replicate n continue) c in
        (d.waiting ≡ []) × (d.active_operation ≡ c.active_operation))
unfolding steps
steps-drain zero c h = (empty_list c.waiting h, refl)
steps-drain (suc n) c h =
    let (rest, active) = step-remaining c in
    let (empty, kept) =
      steps-drain n (step continue c) (rw rest (length-remaining n c.waiting h)) in
    (empty, kept ∙ active)

settle-quiet :
    (outcome : Option ClientErrorCode) (a : Option ActiveOperation) (c : Controller)
    → c.active_operation ≡ a
    → (let d = settle_operation outcome a c in
        (d.active_operation ≡ none) × (length d.waiting ≤ suc (length c.waiting)))
settle-quiet outcome none c e = (e, omega arith)
settle-quiet outcome (some a) c e = (
  refl,
  omega (arith, length-append {0} c.waiting (record { active = a; outcome = outcome } ∷ [])),
)

-- With no operation active or waiting, the presentation is not pending.
settled_quiet :
    (c : Controller)
    → c.active_operation ≡ none
    → c.waiting ≡ []
    → IsBacked c
    → c.state.phase ≢ pending
settled_quiet c a w (inl h) = h
settled_quiet c a w (inr (inl h)) = elim (rw a at h) [ ]
settled_quiet c a w (inr (inr h)) = elim (rw w at h) [ ]

steps-finish :
    (outcome : Option ClientErrorCode) (c : Controller)
    → IsBacked c
    → (let d = steps (finish outcome (suc (length c.waiting))) c in
        (d.active_operation ≡ none) × (d.waiting ≡ []) × (d.state.phase ≢ pending))
unfolding steps step
steps-finish outcome c h =
    let (quiet, few) = settle-quiet outcome c.active_operation c refl in
    let next = step (settle outcome) c in
    let (empty, kept) = steps-drain (suc (length c.waiting)) next few in
    let backed = steps-keep (finish outcome (suc (length c.waiting))) c h in
    (
      kept ∙ quiet,
      empty,
      settled_quiet (steps (replicate (suc (length c.waiting)) continue) next) (kept ∙ quiet) empty
          backed,
    )

-- From whatever state a new controller reaches, once the active work settles and each waiting
-- continuation runs, no operation is active or waiting and the presentation is not pending, so that
-- a further operation is admitted and shown as pending.
pub steps_settle :
    (actions : List Action) (outcome : Option ClientErrorCode) (op : Operation)
    → (let c = steps actions new_controller in
        let d = steps (finish outcome (suc (length c.waiting))) c in
        (d.active_operation ≡ none)
        × (d.waiting ≡ [])
        × (d.state.phase ≢ pending)
        × ((step (run op) d).state.phase ≡ pending))
unfolding step
steps_settle actions outcome op =
    let (quiet, empty, shown) =
      steps-finish outcome (steps actions new_controller) (steps-IsBacked actions) in
    (quiet, empty, shown, rw quiet refl)
