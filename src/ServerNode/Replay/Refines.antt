-- ===== src/ServerNode/Replay/Refines.antt =====
-- The map that is purged against the whole history of used evidence.
use secure_keyboard.Prelude.{
  ℕ, ◌+◌, ◌≤◌, ◌≡◌, refl, ap, ◌∙◌, ◌||◌, List, [], ◌∷◌, ◌++◌, arith, leb, if◌then◌else◌,
}
use secure_keyboard.Js.{JsString}
use secure_keyboard.ServerNode.Replay.{
  Consumed, ReplayDecision, consumed, replayed, unavailable, max_financial_replay_entries, purge,
  consume,
}
use secure_keyboard.ServerNode.Replay.Live.{live, live_count, consume_decision}
use secure_keyboard.ServerNode.Replay.Safety.{Attempt, attempt_all}

-- The specification forgets nothing: evidence is taken when no earlier use of its key is still
-- valid, and fewer than 4096 uses are.
abbrev pub decide : JsString → ℕ → Consumed → ReplayDecision
decide key now history =
    if live now key history
    then replayed
    else if leb max_financial_replay_entries (live_count now history)
    then unavailable
    else consumed

abbrev pub record_use : ReplayDecision → JsString → ℕ → Consumed → Consumed
record_use consumed key expires history = history ++ (key, expires) ∷ []
record_use _ key expires history = history

unfoldable pub decide_all : List Attempt → Consumed → List (Attempt × ReplayDecision)
decide_all [] history = []
decide_all (a ∷ rest) history =
    let decision = decide a.key a.now history in
    (a, decision) ∷ decide_all rest (record_use decision a.key a.expires history)

-- The clock does not go back.
abbrev pub IsOrdered : ℕ → List Attempt → Type 0
IsOrdered now [] = Unit
IsOrdered now (a ∷ rest) = (now ≤ a.now) × IsOrdered a.now rest

-- The same uses are valid, now and later.
abbrev Agrees : ℕ → Consumed → Consumed → Type 0
Agrees now m history =
    (t : ℕ)
    → now ≤ t
    → ((key : JsString) → live t key m ≡ live t key history)
      × (live_count t m ≡ live_count t history)

live-purge :
    (now t : ℕ) (key : JsString) (m : Consumed) → now ≤ t → live t key (purge now m) ≡ live t key m
unfolding live purge
live-purge now t key [] h = refl
live-purge now t key ((k, e) ∷ m) h = ground (arith, live-purge now t key m h)

live_count-purge :
    (now t : ℕ) (m : Consumed) → now ≤ t → live_count t (purge now m) ≡ live_count t m
unfolding live_count purge
live_count-purge now t [] h = refl
live_count-purge now t ((k, e) ∷ m) h = ground (arith, live_count-purge now t m h)

live-append :
    (t : ℕ) (key : JsString) (m n : Consumed) → live t key (m ++ n) ≡ (live t key m || live t key n)
unfolding live
live-append t key [] n = refl
live-append t key ((k, e) ∷ m) n = ground (arith, live-append t key m n)

live_count-append :
    (t : ℕ) (m n : Consumed) → live_count t (m ++ n) ≡ live_count t m + live_count t n
unfolding live_count
live_count-append t [] n = omega arith
live_count-append t ((k, e) ∷ m) n = omega (arith, live_count-append t m n)

Agrees-purge :
    (now : ℕ) (m history : Consumed) → Agrees now m history → Agrees now (purge now m) history
Agrees-purge now m history h t later = (
  λ key. live-purge now t key m later ∙ (h t later).0 key,
  live_count-purge now t m later ∙ (h t later).1,
)

Agrees-append :
    (now : ℕ) (m history n : Consumed) → Agrees now m history → Agrees now (m ++ n) (history ++ n)
Agrees-append now m history n h t later = (
  λ key. rw (live-append t key m n, live-append t key history n, (h t later).0 key) refl,
  rw (live_count-append t m n, live_count-append t history n, (h t later).1) refl,
)

consume-record_use :
    (key : JsString) (expires now : ℕ) (m : Consumed)
    → (consume key expires now m).1
      ≡ record_use (consume key expires now m).0 key expires (purge now m)
unfolding consume
consume-record_use key expires now m = ground arith

Agrees-record_use :
    (now : ℕ) (d : ReplayDecision) (key : JsString) (expires : ℕ) (m history : Consumed)
    → Agrees now m history
    → Agrees now (record_use d key expires m) (record_use d key expires history)
Agrees-record_use now consumed key expires m history h =
    Agrees-append now m history ((key, expires) ∷ []) h
Agrees-record_use now replayed key expires m history h = h
Agrees-record_use now unavailable key expires m history h = h

consume-decide :
    (key : JsString) (expires now : ℕ) (m history : Consumed)
    → Agrees now m history
    → (consume key expires now m).0 ≡ decide key now history
consume-decide key expires now m history h =
    let (same, count) = h now (omega arith) in
    rw (consume_decision key expires now m, same key, count) refl

Agrees-consume :
    (key : JsString) (expires now : ℕ) (m history : Consumed)
    → Agrees now m history
    → Agrees now
        (consume key expires now m).1
        (record_use (decide key now history) key expires history)
Agrees-consume key expires now m history h =
    rw (consume-record_use key expires now m, consume-decide key expires now m history h)
      (Agrees-record_use now (decide key now history) key expires (purge now m) history
        (Agrees-purge now m history h))

Agrees-later :
    (now then_now : ℕ) (m history : Consumed)
    → now ≤ then_now
    → Agrees now m history
    → Agrees then_now m history
Agrees-later now then_now m history le h t later = h t (omega (arith, le, later))

attempt_all-decide_all :
    (now : ℕ) (attempts : List Attempt) (m history : Consumed)
    → IsOrdered now attempts
    → Agrees now m history
    → attempt_all attempts m ≡ decide_all attempts history
unfolding attempt_all decide_all
attempt_all-decide_all now [] m history order h = refl
attempt_all-decide_all now (a ∷ rest) m history (le, order) h =
    let h' = Agrees-later now a.now m history le h in
    let same = consume-decide a.key a.expires a.now m history h' in
    let next =
      attempt_all-decide_all a.now rest _ _ order
        (Agrees-consume a.key a.expires a.now m history h') in
    rw same
      (ap (λ (xs : List (Attempt × ReplayDecision)). (a, decide a.key a.now history) ∷ xs) next)

-- While the clock does not go back, the map that starts empty and is purged at each call decides
-- every sequence of attempts as the history that forgets nothing does: an attempt is replayed where
-- an earlier use of its key is still valid, unavailable where 4096 uses still are, and taken
-- otherwise.
pub attempt_all_refines :
    (now : ℕ) (attempts : List Attempt)
    → IsOrdered now attempts
    → attempt_all attempts [] ≡ decide_all attempts []
attempt_all_refines now attempts order =
    attempt_all-decide_all now attempts [] [] order (λ t later. (λ key. refl, refl))
