-- ===== src/Authz/Gateway/Accepts.antt =====
-- What the tests of the gateway let through: checks, comparisons of workloads and nonces.
use cool_sdk.Prelude.{
  String, ◌≡◌, refl, ap, sym, ◌∙◌, subst, Bool, true, false, not, ◌||◌, Option, none, some, [], ◌∷◌,
  ◌⊎◌, inl, inr, All, Bool-cases, includes, arith, str_eq, eq_iff,
}
use cool_sdk.Prelude.Map
use cool_sdk.Prelude.Map.{Map, get-set}
use cool_sdk.Platform.Status.{CheckStatus, not_applicable, not_checked, Check}
use cool_sdk.Authz.Replay.{consumed, Use, nonce_key, consume_at, consume}
use cool_sdk.Authz.Decision.{AuthzDecisionValue, permit}
use cool_sdk.Authz.Gateway.{is_blocking, has_blocking, is_permit, refuses}

-- A check that lets a tool run: a pass, one that does not apply, or one of the two on the policy that
-- were not made.
abbrev pub IsAcceptable : String → Check → Type 0
IsAcceptable name c =
    (c.status ≡ CheckStatus.pass)
    ⊎ (c.status ≡ not_applicable)
    ⊎ ((c.status ≡ not_checked) × ((name ≡ "policy_binding") ⊎ (name ≡ "reproduced")))

is_blocking-IsAcceptable :
    (name : String) (c : Check) → is_blocking name c ≡ false → IsAcceptable name c
unfolding is_blocking includes
is_blocking-IsAcceptable name c h = of_status c.status refl
  where
    named :
        not (includes ("policy_binding" ∷ "reproduced" ∷ []) name) ≡ false
        → (name ≡ "policy_binding") ⊎ (name ≡ "reproduced")
    named k = elim (Bool-cases (str_eq "policy_binding" name)) [
      | inl first ↦ inl (sym ((eq_iff "policy_binding" name).0 first))
      | inr other ↦ elim (Bool-cases (str_eq "reproduced" name)) [
        | inl second ↦ inr (sym ((eq_iff "reproduced" name).0 second))
        | inr neither ↦ absurd (ground arith)
      ]
    ]

    of_status : (t : CheckStatus) → c.status ≡ t → IsAcceptable name c
    of_status CheckStatus.pass e = inl e
    of_status CheckStatus.fail e = cc (rw (e, is_blocking) at h)
    of_status not_applicable e = inr (inl e)
    of_status not_checked e = inr (inr (e, named (rw (e, is_blocking) at h)))
    of_status CheckStatus.unknown e = cc (rw (e, is_blocking) at h)

pub has_blocking-All :
    (checks : Map Check)
    → has_blocking checks ≡ false
    → All (λ entry. IsAcceptable entry.0 entry.1) checks
unfolding has_blocking
has_blocking-All [] h = tt
has_blocking-All ((name, c) ∷ checks) h = (
  is_blocking-IsAcceptable name c (neither (is_blocking name c) (has_blocking checks) h).0,
  has_blocking-All checks (neither (is_blocking name c) (has_blocking checks) h).1,
)
  where
    neither : (a b : Bool) → (a || b) ≡ false → (a ≡ false) × (b ≡ false)
    neither a b k = ground arith

-- The comparison of the workloads passed, or it was not made or does not apply.
abbrev pub IsNotRefused : Check → Type 0
IsNotRefused c =
    (c.status ≡ CheckStatus.pass) ⊎ (c.status ≡ not_applicable) ⊎ (c.status ≡ not_checked)

pub refuses-IsNotRefused : (c : Check) → refuses c ≡ false → IsNotRefused c
refuses-IsNotRefused c h = of_status c.status refl
  where
    of_status : (t : CheckStatus) → c.status ≡ t → IsNotRefused c
    of_status CheckStatus.pass e = inl e
    of_status CheckStatus.fail e = cc (rw e at h)
    of_status not_applicable e = inr (inl e)
    of_status not_checked e = inr (inr e)
    of_status CheckStatus.unknown e = cc (rw e at h)

pub permitted : (d : AuthzDecisionValue) → is_permit d ≡ true → d ≡ permit
permitted d h = ground arith

-- The nonce is not among those used, and after the call it is, and nothing else has changed.
abbrev pub IsTaken : Map String → Map String → String → String → Type 0
IsTaken used after key request_id =
    (Map.get key used ≡ none)
    × (Map.get key after ≡ some request_id)
    × ((other : String) → (str_eq key other ≡ true) ⊎ (Map.get other after ≡ Map.get other used))

pub consume-IsTaken :
    (used after : Map String) (u : Use)
    → consume used u ≡ (after, consumed)
    → IsTaken used after (nonce_key u.scope u.nonce) u.request_id
unfolding consume
consume-IsTaken used after u h = of_holder (Map.get key used) refl h
  where
    key : String
    key = nonce_key u.scope u.nonce

    stored :
        (other : String)
        → (str_eq key other ≡ true)
          ⊎ (Map.get other (Map.set key u.request_id used) ≡ Map.get other used)
    stored other = elim (Bool-cases (str_eq key other)) [
      | inl same ↦ inl same
      | inr differs ↦ inr (get-set key other u.request_id used ∙ rw differs refl)
    ]

    of_holder :
        (holder : Option String)
        → Map.get key used ≡ holder
        → consume_at used key u.request_id holder ≡ (after, consumed)
        → IsTaken used after key u.request_id
    of_holder (some other) e k = cc k
    of_holder none e k =
        subst (λ m. IsTaken used m key u.request_id) (ap (λ x. x.0) k)
          (e, get-set key key u.request_id used ∙ rw ((eq_iff key key).1 refl) refl, stored)
