-- ===== src/Authz/Replay.antt =====
-- src/authz/replay.ts, the in-process store: which nonces are consumed, by key.
pub mod Once
use Prim.Native.String
use cool_sdk.Prelude.{String, Option, none, some, List, [], ◌∷◌}
use cool_sdk.Prelude.Map
use cool_sdk.Prelude.Map.{Map}

pub data ConsumeResult : Type 0 where
  consumed replayed unavailable : ConsumeResult

-- One call of `consume`.
pub record Use : Type 0 where
  pub scope : String
  pub nonce : String
  pub request_id : String

-- `${scope}\0${nonce}`
abbrev pub nonce_key : String → String → String
nonce_key scope nonce = String.◌++◌ scope (String.◌++◌ "\0" nonce)

abbrev pub consume_at : Map String → String → String → Option String → Map String × ConsumeResult
consume_at used key request_id (some holder) = (used, replayed)
consume_at used key request_id none = (Map.set key request_id used, consumed)

-- MemoryNonceStore.consume on the field `#used`
unfoldable pub consume : Map String → Use → Map String × ConsumeResult
consume used u =
    let key = nonce_key u.scope u.nonce in consume_at used key u.request_id (Map.get key used)

-- The store after a sequence of calls; JavaScript runs each to its end.
unfoldable pub consume_all : Map String → List Use → Map String
consume_all used [] = used
consume_all used (u ∷ uses) = consume_all (consume used u).0 uses
