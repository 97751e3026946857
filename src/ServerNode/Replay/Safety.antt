-- ===== src/ServerNode/Replay/Safety.antt =====
-- Used evidence stays refused until it expires, whatever other evidence comes in between.
use secure_keyboard.Prelude.{
  ℕ, ◌+◌, ltb, length, sym, ◌∙◌, if◌then◌else◌, ◌≤◌, ◌<◌, ◌≡◌, ◌≢◌, refl, ap, Bool, Bool-cases, ◌⊎◌,
  inl, inr, true, false, ◌&&◌, ◌||◌, List, [], ◌∷◌, ◌++◌, arith, leb, All,
}
use secure_keyboard.Js.{JsString, text_eq, text_eq_iff, text_eq_refl}
use secure_keyboard.ServerNode.Replay.{
  Consumed, ReplayDecision, consumed, replayed, purge, has_key, consume,
}
use secure_keyboard.ServerNode.Replay.Live.{live, live_count, consume_decision, has_key-purge}

-- One use of evidence: its key, its expiry and the time of the call.
pub record Attempt : Type 0 where
  pub key : JsString
  pub expires : ℕ
  pub now : ℕ

-- The attempts of any requests, one after the other.
unfoldable pub attempt_all : List Attempt → Consumed → List (Attempt × ReplayDecision)
attempt_all [] m = []
attempt_all (a ∷ rest) m =
    let (decision, m') = consume a.key a.expires a.now m in (a, decision) ∷ attempt_all rest m'

-- An entry for the key that lasts at least until `e`.
abbrev pub holds : JsString → ℕ → Consumed → Bool
holds key e [] = false
holds key e ((k, e') ∷ m) = (text_eq k key && leb e e') || holds key e m

holds-purge :
    (key : JsString) (e now : ℕ) (m : Consumed)
    → now < e
    → holds key e m ≡ true
    → holds key e (purge now m) ≡ true
unfolding purge
holds-purge key e now [] lt h = cc
holds-purge key e now ((k, e') ∷ m) lt h = ground (arith, holds-purge key e now m)

holds-append :
    (key : JsString) (e : ℕ) (m n : Consumed) → holds key e m ≡ true → holds key e (m ++ n) ≡ true
holds-append key e [] n h = cc
holds-append key e ((k, e') ∷ m) n h = ground (arith, holds-append key e m n)

pub holds-live :
    (key : JsString) (e now : ℕ) (m : Consumed)
    → now < e
    → holds key e m ≡ true
    → live now key m ≡ true
unfolding live
holds-live key e now [] lt h = cc
holds-live key e now ((k, e') ∷ m) lt h = ground (arith, holds-live key e now m)

pub holds-consume :
    (key : JsString) (e : ℕ) (a : Attempt) (m : Consumed)
    → a.now < e
    → holds key e m ≡ true
    → holds key e (consume a.key a.expires a.now m).1 ≡ true
unfolding consume
holds-consume key e a m lt h =
    ground (
      arith,
      holds-purge key e a.now m,
      holds-append key e (purge a.now m) ((a.key, a.expires) ∷ []),
    )

holds_last : (key : JsString) (e : ℕ) (m : Consumed) → holds key e (m ++ (key, e) ∷ []) ≡ true
holds_last key e [] = ground (arith, text_eq_refl key)
holds_last key e ((k, e') ∷ m) = ground (arith, holds_last key e m)

pub consumed-holds :
    (key : JsString) (e now : ℕ) (m : Consumed)
    → (consume key e now m).0 ≡ consumed
    → holds key e (consume key e now m).1 ≡ true
unfolding consume
consumed-holds key e now m h = ground (arith, holds_last key e (purge now m))

-- An attempt with this key gets `replayed`; an attempt has another key otherwise.
abbrev pub IsRefused : JsString → Attempt × ReplayDecision → Type 0
IsRefused key r = (r.0.key ≢ key) ⊎ (r.1 ≡ replayed)

pub replayed_here :
    (key : JsString) (e : ℕ) (a : Attempt) (m : Consumed)
    → holds key e m ≡ true
    → a.now < e
    → a.key ≡ key
    → (consume a.key a.expires a.now m).0 ≡ replayed
replayed_here key e a m h lt same =
    rw (consume_decision a.key a.expires a.now m)
      (ground (arith, holds-live key e a.now m, ap (λ (k : JsString). live a.now k m) same))

attempt_all-IsRefused :
    (key : JsString) (e : ℕ) (rest : List Attempt) (m : Consumed)
    → holds key e m ≡ true
    → All (λ a. a.now < e) rest
    → All (IsRefused key) (attempt_all rest m)
unfolding attempt_all
attempt_all-IsRefused key e [] m h before = tt
attempt_all-IsRefused key e (a ∷ rest) m h (lt, before) = (
  elim (Bool-cases (text_eq a.key key)) [
    | inl same ↦ inr (replayed_here key e a m h lt ((text_eq_iff a.key key).0 same))
    | inr other ↦ inl (λ same. cc ((text_eq_iff a.key key).1 same))
  ],
  attempt_all-IsRefused key e rest (consume a.key a.expires a.now m).1
      (holds-consume key e a m lt h) before,
)

-- Once evidence is taken, no later attempt with its key is taken while its expiry lies ahead, in
-- any sequence of attempts with any keys, and at times in any order before that expiry.
pub consumed_once :
    (key : JsString) (expires now : ℕ) (m : Consumed) (later : List Attempt)
    → (consume key expires now m).0 ≡ consumed
    → All (λ a. a.now < expires) later
    → All (IsRefused key) (attempt_all later (consume key expires now m).1)
consumed_once key expires now m later taken before =
    attempt_all-IsRefused key expires later _ (consumed-holds key expires now m taken) before

live-append :
    (key : JsString) (e now : ℕ) (m : Consumed)
    → live now key (m ++ (key, e) ∷ []) ≡ (live now key m || ltb now e)
unfolding live
live-append key e now [] = ground (arith, text_eq_refl key)
live-append key e now ((k, e') ∷ m) = ground (arith, live-append key e now m)

live_count-append :
    (key : JsString) (e now : ℕ) (m : Consumed)
    → live_count now (m ++ (key, e) ∷ []) ≡ live_count now m + (if ltb now e then 1 else 0)
unfolding live_count
live_count-append key e now [] = omega arith
live_count-append key e now ((k, e') ∷ m) = ground (arith, live_count-append key e now m)

-- What a purge kept is not live later unless it was live before.
live-purge_later :
    (key : JsString) (first now : ℕ) (m : Consumed)
    → live first key m ≡ false
    → first ≤ now
    → live now key (purge first m) ≡ false
unfolding live purge
live-purge_later key first now [] h le = refl
live-purge_later key first now ((k, e) ∷ m) h le = ground (arith, live-purge_later key first now m)

live_count-le : (now : ℕ) (m : Consumed) → live_count now m ≤ length m
unfolding live_count
live_count-le now [] = omega arith
live_count-le now ((k, e) ∷ m) = ground (arith, live_count-le now m)

consumed-inv :
    (key : JsString) (expires first : ℕ) (m : Consumed)
    → (consume key expires first m).0 ≡ consumed
    → (has_key key (purge first m) ≡ false)
      × (length (purge first m) < 4096)
      × ((consume key expires first m).1 ≡ purge first m ++ (key, expires) ∷ [])
unfolding consume
consumed-inv key expires first m h = ground (arith, h)

-- Evidence that was taken is refused at every later time before its expiry, and from its expiry on
-- it is taken again, where nothing else was consumed in between.
pub taken_again_when_expired :
    (key : JsString) (expires first now : ℕ) (m : Consumed)
    → (consume key expires first m).0 ≡ consumed
    → first ≤ now
    → (consume key expires now (consume key expires first m).1).0
      ≡ (if ltb now expires then replayed else consumed)
taken_again_when_expired key expires first now m h le =
    let (fresh, room, after) = consumed-inv key expires first m h in
    rw after (
      consume_decision key expires now (purge first m ++ (key, expires) ∷ [])
      ∙ ground (
        arith,
        live-append key expires now (purge first m),
        live_count-append key expires now (purge first m),
        live-purge_later key first now m (sym (has_key-purge first key m) ∙ fresh) le,
        live_count-le now (purge first m),
      ))
