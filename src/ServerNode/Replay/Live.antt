-- ===== src/ServerNode/Replay/Live.antt =====
-- What the map of used evidence holds after a purge and after a consumption.
use secure_keyboard.Prelude.{
  ℕ, ◌+◌, ◌≤◌, ◌≡◌, refl, Bool, false, ◌&&◌, ◌||◌, [], ◌∷◌, arith, leb, ltb, length, length-append,
  if◌then◌else◌,
}
use secure_keyboard.Js.{JsString, text_eq}
use secure_keyboard.ServerNode.Replay.{
  Consumed, max_financial_replay_entries, consumed, replayed, unavailable, purge, has_key, consume,
}

-- An entry with this key that has not expired.
unfoldable pub live : ℕ → JsString → Consumed → Bool
live now key [] = false
live now key ((k, e) ∷ m) = (text_eq k key && ltb now e) || live now key m

unfoldable pub live_count : ℕ → Consumed → ℕ
live_count now [] = 0
live_count now ((k, e) ∷ m) = (if ltb now e then 1 else 0) + live_count now m

pub has_key-purge :
    (now : ℕ) (key : JsString) (m : Consumed) → has_key key (purge now m) ≡ live now key m
unfolding has_key purge live
has_key-purge now key [] = refl
has_key-purge now key ((k, e) ∷ m) = ground (arith, has_key-purge now key m)

pub length-purge : (now : ℕ) (m : Consumed) → length (purge now m) ≡ live_count now m
unfolding purge live_count
length-purge now [] = refl
length-purge now ((k, e) ∷ m) = ground (arith, length-purge now m)

pub length-purge-le : (now : ℕ) (m : Consumed) → length (purge now m) ≤ length m
unfolding purge
length-purge-le now [] = omega arith
length-purge-le now ((k, e) ∷ m) = ground (arith, length-purge-le now m)

-- What `consume` decides, on each of its branches: used evidence that has not expired is refused;
-- other evidence is taken exactly while fewer than 4096 entries have not expired.
pub consume_decision :
    (key : JsString) (expires now : ℕ) (m : Consumed)
    → (consume key expires now m).0 ≡ (
        if live now key m
        then replayed
        else if leb max_financial_replay_entries (live_count now m)
        then unavailable
        else consumed)
unfolding consume
consume_decision key expires now m = ground (arith, has_key-purge now key m, length-purge now m)

-- The map never grows past 4096 entries.
pub consume_bounded :
    (key : JsString) (expires now : ℕ) (m : Consumed)
    → length m ≤ max_financial_replay_entries
    → length (consume key expires now m).1 ≤ max_financial_replay_entries
unfolding consume
consume_bounded key expires now m h =
    ground (arith, length-purge-le now m, length-append {0} (purge now m) ((key, expires) ∷ []))
