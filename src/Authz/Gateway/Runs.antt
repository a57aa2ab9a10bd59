-- ===== src/Authz/Gateway/Runs.antt =====
-- When the gateway lets a tool run, and how often.
use cool_sdk.Prelude.{
  String, ◌≡◌, ◌≢◌, refl, ap, sym, ◌∙◌, subst, Bool, true, false, not, ◌&&◌, ◌||◌, Option, none,
  some, List, All, arith, str_eq, if◌then◌else◌, eq_iff,
}
use cool_sdk.Prelude.Map
use cool_sdk.Prelude.Map.{Map, get-set}
use cool_sdk.Authz.Scope.{covers}
use cool_sdk.Authz.Principal.{is_given}
use cool_sdk.Authz.Execution.{ExecutionContext, compare_execution}
use cool_sdk.Authz.Replay.{
  ConsumeResult, consumed, replayed, unavailable, Use, nonce_key, consume, consume_all,
}
use cool_sdk.Authz.Replay.Once.{consume-replayed}
use cool_sdk.Authz.Decision.{permit, AuthorizationRequest, DecisionReport}
use cool_sdk.Authz.Gateway.{
  ToolDefinition, Invoked, ran, has_blocking, is_permit, passes, refuses, early_rejection,
  report_rejection, after_consume, nonce_use, after_report, after_early, invoke,
}
use cool_sdk.Authz.Gateway.Accepts.{
  IsAcceptable, has_blocking-All, IsNotRefused, refuses-IsNotRefused, permitted, IsTaken,
  consume-IsTaken,
}

was_consumed :
    (p : Map String × ConsumeResult) (after : Map String)
    → after_consume p ≡ (after, ran)
    → p ≡ (after, consumed)
was_consumed (used, consumed) after h = ap (λ x. (x.0, consumed)) h
was_consumed (used, replayed) after h = cc h
was_consumed (used, unavailable) after h = cc h

pair_inj : {a b : Map String × Invoked} → some a ≡ some b → a ≡ b
pair_inj h = cc

ran_after_report :
    (used after : Map String) (r : AuthorizationRequest) (audience : String)
    (refusal : Option String)
    → after_report used r audience refusal ≡ (after, ran)
    → (refusal ≡ none) × (consume used (nonce_use r audience) ≡ (after, consumed))
ran_after_report used after r audience (some reason) h = cc h
ran_after_report used after r audience none h =
    (refl, was_consumed (consume used (nonce_use r audience)) after h)

ran_after_early :
    (used after : Map String) (r : AuthorizationRequest) (audience : String)
    (observed : Option ExecutionContext) (report : Option DecisionReport) (early : Option String)
    → after_early used r audience observed report early ≡ some (after, ran)
    → (early ≡ none)
      × ((rep : DecisionReport) × (report ≡ some rep)
          × (report_rejection r rep observed ≡ none)
          × (consume used (nonce_use r audience) ≡ (after, consumed)))
ran_after_early used after r audience observed report (some reason) h = cc h
ran_after_early used after r audience observed none none h = cc
ran_after_early used after r audience observed (some rep) none h =
    let (a, b) =
      ran_after_report used after r audience (report_rejection r rep observed) (pair_inj h) in
    (refl, (rep, refl, a, b))

-- A refusal that did not happen.
not_refused :
    (t : Bool) (reason : String) (rest : Option String)
    → (if t then some reason else rest) ≡ none
    → (t ≡ false) × (rest ≡ none)
not_refused true reason rest h = cc
not_refused false reason rest h = (refl, h)

report_accepted :
    (r : AuthorizationRequest) (rep : DecisionReport) (observed : Option ExecutionContext)
    → report_rejection r rep observed ≡ none
    → (has_blocking rep.checks ≡ false)
      × (is_permit rep.decision ≡ true)
      × (refuses (compare_execution r.execution observed) ≡ false)
unfolding report_rejection
report_accepted r rep observed h =
    let (a, h₁) = not_refused (has_blocking rep.checks) _ _ h in
    let (b, h₂) =
      not_refused (is_given r.delegation && not (passes (Map.get "delegation" rep.checks))) _ _
        h₁ in
    let (d, h₃) = not_refused (not (is_permit rep.decision)) _ _ h₂ in
    let (e, h₄) = not_refused (refuses (compare_execution r.execution observed)) _ _ h₃ in
    (a, positive (is_permit rep.decision) d, e)
  where
    positive : (t : Bool) → not t ≡ false → t ≡ true
    positive t k = ground arith

request_accepted :
    (tool : Option ToolDefinition) (r : AuthorizationRequest) (audience : String) (accepts : Bool)
    → early_rejection tool r audience accepts ≡ none
    → (accepts ≡ true) × (r.audience ≡ audience)
unfolding early_rejection
request_accepted none r audience accepts h = cc
request_accepted (some tool) r audience accepts h =
    let (a, h₁) =
      not_refused (not (str_eq tool.action r.action) || not (covers tool.resource r.resource)) _ _
        h in
    let (b, h₂) = not_refused (not (str_eq r.audience audience)) _ _ h₁ in
    let (d, h₃) = not_refused (not accepts) _ _ h₂ in
    (positive accepts d, (eq_iff r.audience audience).0 (positive (str_eq r.audience audience) b))
  where
    positive : (t : Bool) → not t ≡ false → t ≡ true
    positive t k = ground arith

-- If `invoke` runs the tool then the parameters match their commitment and the request is for this
-- audience; the decision was verified to a report that permits, in which each check is a pass, does
-- not apply, or is on the policy's binding or its replay and was not made; the comparison of the
-- workloads is no failure and not unknown; and the nonce was not used for the audience before, is
-- recorded by this call, and no other nonce is touched.
pub invoke-ran :
    (used after : Map String) (tool : Option ToolDefinition) (r : AuthorizationRequest)
    (audience : String) (accepts : Bool) (observed : Option ExecutionContext)
    (report : Option DecisionReport)
    → invoke used tool r audience accepts observed report ≡ some (after, ran)
    → (accepts ≡ true)
      × (r.audience ≡ audience)
      × IsTaken used after (nonce_key audience r.nonce) r.request_id
      × ((rep : DecisionReport) × (report ≡ some rep)
          × All (λ entry. IsAcceptable entry.0 entry.1) rep.checks
          × (rep.decision ≡ permit)
          × IsNotRefused (compare_execution r.execution observed))
unfolding invoke
invoke-ran used after tool r audience accepts observed report h =
    let (early, found) = ran_after_early used after r audience observed report _ h in
    let (rep, verified, accepted, taken) = found in
    let (a, b) = request_accepted tool r audience accepts early in
    let (d, e, f) = report_accepted r rep observed accepted in
    (
      a,
      b,
      consume-IsTaken used after (nonce_use r audience) taken,
      (
        rep,
        verified,
        has_blocking-All rep.checks d,
        permitted rep.decision e,
        refuses-IsNotRefused (compare_execution r.execution observed) f,
      ),
    )

-- Two requests for one audience with one nonce do not both run: after a run, and any further uses
-- of nonces, a second `invoke` does not run its tool, whatever its decision says.
pub invoke-ran_once :
    (used after : Map String) (tool tool' : Option ToolDefinition) (r r' : AuthorizationRequest)
    (audience : String) (accepts accepts' : Bool) (observed observed' : Option ExecutionContext)
    (report report' : Option DecisionReport) (between : List Use) (last : Map String)
    → r.nonce ≡ r'.nonce
    → invoke used tool r audience accepts observed report ≡ some (after, ran)
    → invoke (consume_all after between) tool' r' audience accepts' observed' report'
      ≢ some (last, ran)
unfolding invoke
invoke-ran_once used after tool tool' r r' audience accepts accepts' observed observed' report
      report' between last same first second =
    let (early, found) = ran_after_early used after r audience observed report _ first in
    let (rep, verified, accepted, taken) = found in
    let (early', found') =
      ran_after_early (consume_all after between) last r' audience observed' report' _ second in
    let (rep', verified', accepted', taken') = found' in
    let again =
      consume-replayed used (nonce_use r audience) (nonce_use r' audience) between
        (ap (λ n. nonce_key audience n) same) in
    clash (
      sym (
        subst (λ u. (consume (consume_all u between) (nonce_use r' audience)).1 ≡ replayed)
          (ap (λ x. x.0) taken) again)
      ∙ ap (λ x. x.1) taken')
  where
    clash : replayed ≡ consumed → ⊥
    clash k = cc k
