-- ===== src/Authz/Delegation.antt =====
-- src/authz/delegation.ts: chains of delegations. `Date.parse` and the canonical encoder of a
-- delegation are parameters. A `Verdict` is `none` where the code throws, `some none` where it goes
-- on, and `some (some c)` where it returns the failed check `c`.
pub mod Permits
use cool_sdk.Prelude.{
  ℕ, String, Bool, true, false, not, ◌&&◌, ◌||◌, Option, none, some, List, [], ◌∷◌, ltb, length,
  if◌then◌else◌, truthy, str_eq, includes,
}
use cool_sdk.Codec.{Bytes}
use cool_sdk.Platform.Status.{CheckStatus, Check, check}
use cool_sdk.Platform.Trust.{or_else}
use cool_sdk.Sign.{Crypto, DirectoryEntry, KeyPair, bind}
use cool_sdk.Sign.Object.{Signed, IntegrityReport, sign_object, verify_integrity}
use cool_sdk.Authz.Scope.{Scope, ChainRequest, scope_excess, scope_refusal, Excess}
use cool_sdk.Authz.Principal.{PrincipalDirectory, is_pass, is_given, later, key_at, check_principal}

pub record Delegation : Type 0 where
  pub delegation_id : String
  pub delegator : String
  pub delegate : String
  pub scope : Scope
  pub audience : String
  pub not_before : String
  pub expires_at : String
  pub nonce : String
  pub parent : Option String
  pub issued_at : String

pub record ChainOptions : Type 0 where
  pub directory : PrincipalDirectory
  pub roots : List String
  pub at : ℕ
  pub revoked : Option (List String)
  pub max_depth : Option ℕ

abbrev pub Verdict : Type 0
Verdict = Option (Option Check)

abbrev pub go_on : Verdict
go_on = some none

abbrev pub refuse : String → Verdict
refuse reason = some (some (check CheckStatus.fail reason))

-- One statement, then the next where it does not return.
infixl 3 ◌⨾◌
abbrev pub ◌⨾◌ : Verdict → Verdict → Verdict
none ⨾ next = none
some none ⨾ next = next
some (some c) ⨾ next = some (some c)

-- `o.revoked?.has(id)`
abbrev pub is_revoked : Option (List String) → String → Bool
is_revoked none id = false
is_revoked (some ids) id = includes ids id

-- d.parent === id
abbrev pub is_parent : Option String → String → Bool
is_parent none id = false
is_parent (some parent) id = str_eq parent id

abbrev pub report_verdict : IntegrityReport → Option Check
report_verdict v =
    if not (is_pass v.integrity)
    then some v.integrity
    else if not (is_pass v.signature)
    then some (check CheckStatus.fail v.signature.reason)
    else none

abbrev pub excess_verdict : Option Excess → Verdict
excess_verdict none = go_on
excess_verdict (some e) = refuse "privilege_amplification"

abbrev pub check_verdict : Check → Option Check
check_verdict c = if is_pass c then none else some (check CheckStatus.fail c.reason)

-- The last delegation of a chain that starts with `d`.
unfoldable pub leaf_of : Delegation → List (Signed Delegation) → Delegation
leaf_of d [] = d
leaf_of d (s ∷ chain) = leaf_of s.body chain

-- What the leaf must say of the request.
unfoldable pub leaf_refusal : Delegation → ChainRequest → Option String
leaf_refusal leaf r =
    if not (str_eq leaf.delegate r.requester)
    then some "wrong_delegate"
    else if not (str_eq leaf.audience "*") && not (str_eq leaf.audience r.audience)
    then some "wrong_audience"
    else scope_refusal leaf.scope r

module _ (date_parse : String → Option ℕ) (o : ChainOptions) where
  -- `o.directory.check(who, when)`
  unfoldable pub usable : String → Option ℕ → Verdict
  usable who when =
      bind (check_principal date_parse o.directory who when none) (λ c. some (check_verdict c))

  unfoldable pub in_window : Delegation → Verdict
  in_window d =
      if is_revoked o.revoked d.delegation_id
      then refuse "delegation_revoked"
      else if later (date_parse d.not_before) (some o.at)
      then refuse "delegation_not_yet_valid"
      else if later (some o.at) (date_parse d.expires_at)
      then refuse "delegation_expired"
      else go_on

  -- The root, or a link on from the delegation before it.
  unfoldable pub continues : Option Delegation → Delegation → Verdict
  continues none d =
      if is_given d.parent
      then refuse "broken_chain"
      else if not (includes o.roots d.delegator)
      then refuse "untrusted_root"
      else go_on
  continues (some p) d =
      (if not (is_parent d.parent p.delegation_id) || not (str_eq d.delegator p.delegate)
        then refuse "broken_chain"
        else go_on)
      ⨾ excess_verdict (scope_excess d.scope p.scope)
      ⨾ (if later (date_parse d.expires_at) (date_parse p.expires_at)
          then refuse "privilege_amplification"
          else go_on)

  module _ (c : Crypto) (encode : Delegation → Option Bytes) where
    unfoldable pub grant_delegation : Delegation → KeyPair → Option (Signed Delegation)
    grant_delegation d key = sign_object c encode "cool.delegation.v1" d key

    abbrev pub key_verdict : Signed Delegation → Option DirectoryEntry → Verdict
    key_verdict s none = refuse "key_not_bound"
    key_verdict s (some key) =
        bind (verify_integrity c encode "cool.delegation.v1" s (some key))
          (λ v. some (report_verdict v))

    unfoldable pub signed_at : Signed Delegation → Option ℕ → Verdict
    signed_at s issued_at =
        key_verdict s (key_at date_parse o.directory s.body.delegator s.signature.key_id issued_at)

    -- One round of the loop.
    unfoldable pub verify_link :
        Option Delegation → List String → List String → Signed Delegation → Verdict
    verify_link prev seen_ids seen_principals s =
        let d = s.body in
        let issued_at = date_parse d.issued_at in
        (if includes seen_ids d.delegation_id || includes seen_principals d.delegate
          then refuse "delegation_cycle"
          else go_on)
        ⨾ signed_at s issued_at
        ⨾ usable d.delegator issued_at
        ⨾ usable d.delegator (some o.at)
        ⨾ usable d.delegate (some o.at)
        ⨾ in_window d
        ⨾ continues prev d

    -- The loop, with its two sets and the delegation before.
    unfoldable pub verify_links :
        Option Delegation → List String → List String → List (Signed Delegation) → Verdict
    verify_links prev seen_ids seen_principals [] = go_on
    verify_links prev seen_ids seen_principals (s ∷ chain) =
        verify_link prev seen_ids seen_principals s
        ⨾ verify_links (some s.body) (s.body.delegation_id ∷ seen_ids)
            (s.body.delegate ∷ seen_principals) chain

    abbrev pub conclude : Option String → Check
    conclude (some reason) = check CheckStatus.fail reason
    conclude none = check CheckStatus.pass "chain_valid"

    abbrev pub after_links : Verdict → Option String → Option Check
    after_links none refusal = none
    after_links (some (some c)) refusal = some c
    after_links (some none) refusal = some (conclude refusal)

    unfoldable pub verify_delegation_chain : List (Signed Delegation) → ChainRequest → Option Check
    verify_delegation_chain [] request = some (check CheckStatus.fail "no_delegation")
    verify_delegation_chain (s ∷ chain) request =
        if ltb (or_else o.max_depth 4) (length (s ∷ chain))
        then some (check CheckStatus.fail "delegation_too_deep")
        else after_links (verify_links none [] (s.body.delegator ∷ []) (s ∷ chain))
            (leaf_refusal (leaf_of s.body chain) request)
