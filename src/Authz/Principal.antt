-- ===== src/Authz/Principal.antt =====
-- src/authz/principal.ts: the directory of principals that a verifier keeps, and a principal's
-- state at an instant. An instant is a number as in Platform/Trust, `none` where it is NaN.
-- `Date.parse` and the canonical encoders of the two bodies are parameters. A result `none` is a
-- throw: of `verifyIntegrity`, or of `toISOString` on NaN.
pub mod Order
pub mod Apply
pub mod Dates
pub mod Terminal
use cool_sdk.Prelude.{
  ℕ, String, Bool, true, false, not, ◌&&◌, ◌||◌, Option, none, some, List, [], ◌∷◌, ◌++◌,
  if◌then◌else◌, truthy, str_eq, ltb,
}
use cool_sdk.Prelude.Map
use cool_sdk.Prelude.Map.{Map}
use cool_sdk.Codec.{Bytes}
use cool_sdk.Platform.Status.{CheckStatus, not_checked, Check, check}
use cool_sdk.Platform.Trust.{KeyPurpose, TrustStore, trust_get}
use cool_sdk.Sign.{Crypto, DirectoryEntry, bind}
use cool_sdk.Sign.Object.{
  Signed, IntegrityReport, TrustReport, entry_of, verify_integrity, verify_trusted,
}

pub data PrincipalStatus : Type 0 where
  active suspended revoked decommissioned : PrincipalStatus

pub record PrincipalRecord : Type 0 where
  pub principal_id : String
  pub kind : String
  pub issuer : String
  pub owner : String
  pub tenant : Option String
  pub basis : String
  pub sponsor : Option String
  pub parent : Option String
  pub workload_id : Option String
  pub created_at : String
  pub expires_at : Option String
  pub keys : List (String × DirectoryEntry)

pub data PrincipalEventKind : Type 0 where
  key_bound key_retired suspended reinstated revoked decommissioned : PrincipalEventKind

pub record PrincipalEvent : Type 0 where
  pub event_id : String
  pub principal_id : String
  pub kind : PrincipalEventKind
  pub at : String
  pub key_id : Option String
  pub entry : Option DirectoryEntry
  pub reason : Option String

pub record Entry : Type 0 where
  pub record_of : PrincipalRecord
  pub events : List PrincipalEvent

-- `none` of `record_of`: the principal is not known, and its status is "unknown".
pub record Standing : Type 0 where
  pub status : PrincipalStatus
  pub keys : Map DirectoryEntry

pub record PrincipalState : Type 0 where
  pub record_of : PrincipalRecord
  pub standing : Standing

pub record PrincipalDirectory : Type 0 where
  pub trust : TrustStore DirectoryEntry
  pub entries : Map Entry

-- c.status === "pass"
abbrev pub is_pass : Check → Bool
is_pass c = elim c.status [ CheckStatus.pass ↦ true | _ ↦ false ]

-- `new Map(keys.map(…))`
unfoldable pub bound_keys : List (String × DirectoryEntry) → Map DirectoryEntry → Map DirectoryEntry
bound_keys [] m = m
bound_keys ((id, entry) ∷ keys) m = bound_keys keys (Map.set id entry m)

unfoldable pub suspended_from : PrincipalStatus → PrincipalStatus
suspended_from active = suspended
suspended_from s = s

unfoldable pub reinstated_from : PrincipalStatus → PrincipalStatus
reinstated_from suspended = active
reinstated_from s = s

-- `keys.set(key_id!, entry!)`; `apply` lets no event in that lacks one of them.
abbrev pub bind_key :
    Option String → Option DirectoryEntry → Map DirectoryEntry → Map DirectoryEntry
bind_key (some id) (some entry) keys = Map.set id entry keys
bind_key _ _ keys = keys

abbrev pub retire_key : Option String → Map DirectoryEntry → Map DirectoryEntry
retire_key (some id) keys = Map.delete id keys
retire_key none keys = keys

-- One round of the loop of `stateAt`, on the event's kind.
unfoldable pub apply_kind : PrincipalEventKind → PrincipalEvent → Standing → Standing
apply_kind key_bound ev s = record { status = s.status; keys = bind_key ev.key_id ev.entry s.keys }
apply_kind key_retired ev s = record { status = s.status; keys = retire_key ev.key_id s.keys }
apply_kind suspended ev s = record { status = suspended_from s.status; keys = s.keys }
apply_kind reinstated ev s = record { status = reinstated_from s.status; keys = s.keys }
apply_kind revoked ev s = record { status = PrincipalStatus.revoked; keys = s.keys }
apply_kind decommissioned ev s = record { status = PrincipalStatus.decommissioned; keys = s.keys }

-- Comparisons of two numbers that may be NaN.
abbrev pub later : Option ℕ → Option ℕ → Bool
later (some a) (some b) = ltb b a
later _ _ = false

-- `!keyId` for an optional string
abbrev pub is_given : Option String → Bool
is_given none = false
is_given (some s) = truthy s

module _ (date_parse : String → Option ℕ) where
  -- The loop of `stateAt`, which stops at the first event after the instant.
  unfoldable pub replay : Option ℕ → List PrincipalEvent → Standing → Standing
  replay at [] s = s
  replay at (ev ∷ events) s =
      let rest = replay at events (apply_kind ev.kind ev s) in
      if later (date_parse ev.at) at then s else rest

  unfoldable pub initial : PrincipalRecord → Standing
  initial r = record { status = active; keys = bound_keys r.keys [] }

  unfoldable pub state_of : Entry → Option ℕ → Option PrincipalState
  state_of e at =
      if later (date_parse e.record_of.created_at) at
      then none
      else some
          (record { record_of = e.record_of; standing = replay at e.events (initial e.record_of) })

  -- stateAt
  unfoldable pub state_at : PrincipalDirectory → String → Option ℕ → Option PrincipalState
  state_at dir principal_id at = bind (Map.get principal_id dir.entries) (λ e. state_of e at)

  -- keyAt
  unfoldable pub key_at : PrincipalDirectory → String → String → Option ℕ → Option DirectoryEntry
  key_at dir principal_id key_id at =
      bind (state_at dir principal_id at) (λ s. Map.get key_id s.standing.keys)

  abbrev pub is_expired : Option ℕ → Option String → Bool
  is_expired at none = false
  is_expired at (some date) = truthy date && later at (date_parse date)

  abbrev pub status_reason : PrincipalStatus → Option String
  status_reason active = none
  status_reason suspended = some "principal_suspended"
  status_reason revoked = some "principal_revoked"
  status_reason decommissioned = some "principal_decommissioned"

  abbrev pub lacks_key : Option String → Map DirectoryEntry → Bool
  lacks_key none keys = false
  lacks_key (some id) keys = truthy id && (elim (Map.get id keys) [ none ↦ true | some e ↦ false ])

  abbrev pub check_status : Option String → Bool → Check
  check_status (some reason) lacks = check CheckStatus.fail reason
  check_status none true = check CheckStatus.fail "key_not_bound"
  check_status none false = check CheckStatus.pass "principal_active"

  abbrev pub check_known : PrincipalState → Option ℕ → Option String → Check
  check_known s at key_id =
      if is_expired at s.record_of.expires_at
      then check CheckStatus.fail "principal_expired"
      else check_status (status_reason s.standing.status) (lacks_key key_id s.standing.keys)

  abbrev pub check_state : Option PrincipalState → ℕ → Option String → Check
  check_state none at key_id = check CheckStatus.fail "unknown_principal"
  check_state (some s) at key_id = check_known s (some at) key_id

  -- `check`; each branch but that of the expiry, which NaN never takes, formats the instant.
  unfoldable pub check_principal :
      PrincipalDirectory → String → Option ℕ → Option String → Option Check
  check_principal dir principal_id none key_id = none
  check_principal dir principal_id (some at) key_id =
      some (check_state (state_at dir principal_id (some at)) at key_id)

  -- `sort` by date, which is stable: an event goes behind those that are not later. Where a date
  -- cannot be read the comparison is NaN and JavaScript leaves the order to its engine; this is then
  -- one order of several.
  unfoldable pub insert_event : PrincipalEvent → List PrincipalEvent → List PrincipalEvent
  insert_event ev [] = ev ∷ []
  insert_event ev (e ∷ events) =
      let rest = insert_event ev events in
      if later (date_parse e.at) (date_parse ev.at) then ev ∷ e ∷ events else e ∷ rest

  unfoldable pub sort_events : List PrincipalEvent → List PrincipalEvent → List PrincipalEvent
  sort_events sorted [] = sorted
  sort_events sorted (ev ∷ events) = sort_events (insert_event ev sorted) events

  abbrev pub admit :
      PrincipalDirectory → Signed PrincipalRecord → TrustReport → PrincipalDirectory × Check
  admit dir s v =
      if not (is_pass v.integrity)
      then (dir, v.integrity)
      else if not (is_pass v.signature)
      then (dir, v.signature)
      else if not (is_pass v.trusted)
      then (dir, v.trusted)
      else if not (str_eq s.body.issuer s.signature.key_id)
      then (dir, check CheckStatus.fail "issuer_mismatch")
      else elim (Map.get s.body.principal_id dir.entries) [
        | some e ↦ (dir, check CheckStatus.fail "duplicate_principal")
        | none ↦ (
          record {
            trust = dir.trust;
            entries =
                Map.set s.body.principal_id (record { record_of = s.body; events = [] })
                  dir.entries;
          },
          check CheckStatus.pass "enrolled",
        )
      ]

  abbrev pub is_malformed : PrincipalEvent → Bool
  is_malformed ev = elim ev.kind [
    | key_bound ↦ not (is_given ev.key_id) || (elim ev.entry [ none ↦ true | some e ↦ false ])
    | _ ↦ false
  ]

  -- `e.events.push(s.body); e.events.sort(…)`
  unfoldable pub store_event : PrincipalDirectory → Entry → PrincipalEvent → PrincipalDirectory
  store_event dir e ev = record {
    trust = dir.trust;
    entries =
        Map.set ev.principal_id
          (record { record_of = e.record_of; events = sort_events [] (e.events ++ ev ∷ []) })
          dir.entries;
  }

  -- `apply` past the search of the entry.
  unfoldable pub apply_to :
      PrincipalDirectory
      → Entry
      → Signed PrincipalEvent
      → IntegrityReport
      → PrincipalDirectory × Check
  apply_to dir e s v =
      if not (is_pass v.integrity)
      then (dir, v.integrity)
      else if not (is_pass v.signature)
      then (dir, v.signature)
      else if not (str_eq s.signature.key_id e.record_of.issuer)
      then (dir, check CheckStatus.fail "issuer_mismatch")
      else if is_malformed s.body
      then (dir, check CheckStatus.fail "malformed")
      else (store_event dir e s.body, check CheckStatus.pass "applied")

  module _ (c : Crypto) (encode_record : PrincipalRecord → Option Bytes)
      (encode_event : PrincipalEvent → Option Bytes) where
    unfoldable pub enroll :
        PrincipalDirectory → Signed PrincipalRecord → ℕ → Option (PrincipalDirectory × Check)
    enroll dir s now =
        bind
          (verify_trusted c encode_record date_parse "cool.principal.v1" s dir.trust
            KeyPurpose.identity_issuer now)
          (λ v. some (admit dir s v))

    abbrev pub apply_found :
        PrincipalDirectory
        → Signed PrincipalEvent
        → Option Entry
        → Option (PrincipalDirectory × Check)
    apply_found dir s none = some (dir, check CheckStatus.fail "unknown_principal")
    apply_found dir s (some e) =
        bind
          (verify_integrity c encode_event "cool.principal-event.v1" s
            (entry_of c encode_event (trust_get dir.trust e.record_of.issuer)))
          (λ v. some (apply_to dir e s v))

    unfoldable pub apply :
        PrincipalDirectory → Signed PrincipalEvent → Option (PrincipalDirectory × Check)
    apply dir s = apply_found dir s (Map.get s.body.principal_id dir.entries)
