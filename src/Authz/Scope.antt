-- ===== src/Authz/Scope.antt =====
-- src/authz/delegation.ts, scopes: what a scope covers, and why a child's scope is not within its
-- parent's. Amounts are integers; a pattern and a resource are compared by their code points.
pub mod Within
pub mod Gap
use cool_sdk.Prelude.{
  ℕ, String, Bool, true, false, not, ◌&&◌, ◌||◌, Option, none, some, List, [], ◌∷◌, some_of, find,
  codes, str_eq, includes, starts_with, ends_star, drop_last, truthy, if◌then◌else◌,
}
use cool_sdk.Prelude.Int.{ℤ, ltb_ℤ}

pub record Scope : Type 0 where
  pub actions : List String
  pub resources : List String
  pub max_amount : Option ℤ

pub record ChainRequest : Type 0 where
  pub requester : String
  pub action : String
  pub resource : String
  pub audience : String
  pub amount : Option ℤ

unfoldable pub covers : String → String → Bool
covers pattern value =
    if ends_star (codes pattern)
    then starts_with (codes value) (drop_last (codes pattern))
    else str_eq pattern value

unfoldable pub within : String → String → Bool
within r p =
    if not (ends_star (codes p))
    then not (ends_star (codes r)) && str_eq r p
    else starts_with (if ends_star (codes r) then drop_last (codes r) else codes r)
        (drop_last (codes p))

pub data Excess : Type 0 where
  action resource : String → Excess
  amount : Excess

-- `if (extra) return …`: an empty string is falsy.
abbrev pub if_truthy : Option String → (String → Excess) → Option Excess → Option Excess
if_truthy none report rest = rest
if_truthy (some extra) report rest = if truthy extra then some (report extra) else rest

-- `parent !== undefined && (child === undefined || child > parent)`
unfoldable pub amount_excess : Option ℤ → Option ℤ → Bool
amount_excess child none = false
amount_excess none (some p) = true
amount_excess (some c) (some p) = ltb_ℤ p c

unfoldable pub is_covered : List String → String → Bool
is_covered patterns r = some_of (λ p. within r p) patterns

unfoldable pub scope_excess : Scope → Scope → Option Excess
scope_excess child parent =
    if_truthy (find (λ a. not (includes parent.actions a)) child.actions) action (
      if_truthy (find (λ r. not (is_covered parent.resources r)) child.resources) resource
        (if amount_excess child.max_amount parent.max_amount then some amount else none))

-- The last tests of `verifyDelegationChain` on the leaf's scope, in order: the reason to refuse.
unfoldable pub scope_refusal : Scope → ChainRequest → Option String
scope_refusal s r =
    if not (includes s.actions r.action)
    then some "scope_exceeded"
    else if not (some_of (λ p. covers p r.resource) s.resources)
    then some "scope_exceeded"
    else if amount_excess r.amount s.max_amount
    then some "scope_exceeded"
    else none
