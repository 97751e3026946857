-- ===== src/ServerNode/Replay.antt =====
-- `consumeFinancialEvidence`: the map of used evidence, as a list of keys with their expiry times.
pub mod Live
pub mod Safety
pub mod Keys
pub mod Refines
use secure_keyboard.Prelude.{
  ℕ, zero, suc, String, Bool, true, false, List, [], ◌∷◌, ◌++◌, leb, ltb, if◌then◌else◌, length,
  ◌||◌,
}
use secure_keyboard.Js.{JsString, js, text_eq}
use secure_keyboard.ServerNode.Evidence.{FinancialAuthContext}

abbrev pub Consumed : Type 0
Consumed = List (JsString × ℕ)

abbrev pub max_financial_replay_entries : ℕ
max_financial_replay_entries = 4096

pub data ReplayDecision : Type 0 where
  consumed replayed unavailable : ReplayDecision

-- `for (const [key, expiresAt] of map) if (expiresAt <= nowMs) map.delete(key)`
unfoldable pub purge : ℕ → Consumed → Consumed
purge now [] = []
purge now ((k, e) ∷ m) = if leb e now then purge now m else (k, e) ∷ purge now m

-- `map.has(key)`
unfoldable pub has_key : JsString → Consumed → Bool
has_key key [] = false
has_key key ((k, e) ∷ m) = text_eq k key || has_key key m

abbrev pub separator : JsString
separator = 0 ∷ []

-- `${deploymentId}\u0000${subject}\u0000${operation}\u0000${nonce}`
unfoldable pub replay_key : FinancialAuthContext → JsString
replay_key c =
    c.deployment_id
    ++ (separator ++ (c.subject ++ (separator ++ (c.operation ++ (separator ++ c.nonce)))))

-- A `set` of a key that is not there appends it.
unfoldable pub consume : JsString → ℕ → ℕ → Consumed → ReplayDecision × Consumed
consume key expires now m =
    if has_key key (purge now m)
    then (replayed, purge now m)
    else if leb max_financial_replay_entries (length (purge now m))
    then (unavailable, purge now m)
    else (consumed, purge now m ++ (key, expires) ∷ [])

unfoldable pub consume_financial_evidence :
    FinancialAuthContext → ℕ → ℕ → Consumed → ReplayDecision × Consumed
unfolding consume replay_key
consume_financial_evidence context expires now m = consume (replay_key context) expires now m
