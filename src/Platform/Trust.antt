-- ===== src/Platform/Trust.antt =====
-- src/platform/trust.ts: which keys a verifier accepts, for what, and until when. An instant is a
-- number of milliseconds counted from the earliest date JavaScript represents, so that it is not
-- negative; only orders and differences of instants are used. `Date.parse` accepts texts that its
-- standard leaves to the engine, so it is a parameter; `none` is NaN, which no comparison accepts.
pub mod Dates
pub mod Laws
use cool_sdk.Prelude.{
  ℕ, ◌+◌, ◌-◌, String, Bool, true, false, not, ◌&&◌, Option, none, some, List, [], ◌∷◌, ltb, leb,
  ◌==◌, if◌then◌else◌, truthy,
}
use cool_sdk.Prelude.Map
use cool_sdk.Prelude.Map.{Map}
use cool_sdk.Platform.Status.{CheckStatus, Check, check}

pub data KeyPurpose : Type 0 where
  evidence log witness builder policy enforcement source identity_issuer evaluator : KeyPurpose

pub data KeyStatus : Type 0 where
  active rotated revoked compromised : KeyStatus

-- `entry` is generic: the trust decision does not look at the public keys.
pub record KeyRecord (Entry : Type 0) : Type 0 where
  pub key_id : String
  pub entry : Entry
  pub purposes : List KeyPurpose
  pub owner : String
  pub valid_from : String
  pub valid_until : Option String
  pub status : KeyStatus
  pub rotated_at : Option String
  pub revoked_at : Option String
  pub compromised_since : Option String

pub record TrustSnapshot (Entry : Type 0) : Type 0 where
  pub as_of : String
  pub max_age_ms : Option ℕ
  pub keys : List (KeyRecord Entry)

pub record TrustQuery : Type 0 where
  pub key_id : String
  pub purpose : KeyPurpose
  pub now : ℕ
  pub claimed_signed_at : Option ℕ
  pub proven_signed_before : Option ℕ

-- The fields `#keys` and `#snapshot`.
pub record TrustStore (Entry : Type 0) : Type 0 where
  pub keys : Map (KeyRecord Entry)
  pub as_of : String
  pub max_age_ms : Option ℕ

abbrev pub purpose_index : KeyPurpose → ℕ
purpose_index evidence = 0
purpose_index log = 1
purpose_index witness = 2
purpose_index builder = 3
purpose_index policy = 4
purpose_index enforcement = 5
purpose_index source = 6
purpose_index identity_issuer = 7
purpose_index evaluator = 8

-- k.purposes.includes(purpose)
unfoldable pub has_purpose : List KeyPurpose → KeyPurpose → Bool
has_purpose [] p = false
has_purpose (q ∷ purposes) p =
    if purpose_index q == purpose_index p then true else has_purpose purposes p

-- a ?? b
abbrev pub or_else {ℓ} : {A : Type ℓ} → Option A → A → A
or_else none b = b
or_else (some a) b = a

-- A zero bound is falsy, and is dropped as an absent one.
abbrev pub keep_age : Option ℕ → Option ℕ
keep_age none = none
keep_age (some n) = if n == 0 then none else some n

module _ {Entry : Type 0} where
  unfoldable pub set_keys : List (KeyRecord Entry) → Map (KeyRecord Entry) → Map (KeyRecord Entry)
  set_keys [] m = m
  set_keys (k ∷ keys) m = set_keys keys (Map.set k.key_id k m)

  -- `new TrustStore(snapshot)`, for a snapshot of the supported schema.
  unfoldable pub new_trust_store : TrustSnapshot Entry → TrustStore Entry
  unfolding set_keys
  new_trust_store s = record {
    keys = set_keys s.keys [];
    as_of = s.as_of;
    max_age_ms = keep_age s.max_age_ms;
  }

  unfoldable pub trust_get : TrustStore Entry → String → Option (KeyRecord Entry)
  trust_get store key_id = Map.get key_id store.keys

-- Comparisons of a number with the result of `Date.parse`: with NaN each is false.
abbrev pub before : ℕ → Option ℕ → Bool
before a none = false
before a (some b) = ltb a b

abbrev pub after : ℕ → Option ℕ → Bool
after a none = false
after a (some b) = ltb b a

abbrev pub at_or_after : ℕ → Option ℕ → Bool
at_or_after a none = false
at_or_after a (some b) = leb b a

-- `proven === undefined || proven >= since`
abbrev pub not_proven_before : Option ℕ → Option ℕ → Bool
not_proven_before none since = true
not_proven_before (some p) since = at_or_after p since

module _ (date_parse : String → Option ℕ) where
  -- `k.valid_until && at > Date.parse(k.valid_until)`
  abbrev pub past_optional : ℕ → Option String → Bool
  past_optional at none = false
  past_optional at (some date) = truthy date && after at (date_parse date)

  -- `now - Date.parse(as_of) > max_age_ms`
  abbrev pub is_older : ℕ → Option ℕ → Option ℕ → Bool
  is_older now as_of none = false
  is_older now none (some age) = false
  is_older now (some as_of) (some age) = ltb (as_of + age) now

  module _ {Entry : Type 0} where
    -- The three tests on the status of the key, in order; `none` goes on.
    unfoldable pub status_refusal : KeyRecord Entry → TrustQuery → Option String
    status_refusal k q = elim k.status [
      | active ↦ none
      | compromised ↦
          if not_proven_before q.proven_signed_before
            (date_parse (or_else k.compromised_since k.valid_from))
          then some "key_compromised"
          else none
      | revoked ↦
          if not_proven_before q.proven_signed_before
            (date_parse (or_else k.revoked_at k.valid_from))
          then some "key_revoked"
          else none
      | rotated ↦
          if past_optional (or_else q.proven_signed_before (or_else q.claimed_signed_at q.now))
            k.rotated_at
          then some "key_rotated"
          else none
    ]

    abbrev pub freshness : TrustStore Entry → TrustQuery → Option String → Check
    freshness store q (some reason) = check CheckStatus.fail reason
    freshness store q none =
        if is_older q.now (date_parse store.as_of) store.max_age_ms
        then check CheckStatus.unknown "trust_snapshot_stale"
        else check CheckStatus.pass "key_trusted"

    unfoldable pub evaluate_key : TrustStore Entry → TrustQuery → Option (KeyRecord Entry) → Check
    evaluate_key store q none = check CheckStatus.fail "untrusted_key"
    evaluate_key store q (some k) =
        let at = or_else q.proven_signed_before (or_else q.claimed_signed_at q.now) in
        if not (has_purpose k.purposes q.purpose)
        then check CheckStatus.fail "wrong_key_purpose"
        else if before at (date_parse k.valid_from)
        then check CheckStatus.fail "key_not_yet_valid"
        else if past_optional at k.valid_until
        then check CheckStatus.fail "key_expired"
        else freshness store q (status_refusal k q)

    -- TrustStore.evaluate
    unfoldable pub evaluate : TrustStore Entry → TrustQuery → Check
    evaluate store q = evaluate_key store q (trust_get store q.key_id)
