-- ===== src/Authz/Delegation/Permits.antt =====
-- What a chain that `verifyDelegationChain` passes grants.
use cool_sdk.Prelude.{
  ℕ, ◌≤◌, ◌⊎◌, String, ◌≡◌, refl, ap, subst, Bool, true, false, not, ◌||◌, ◌&&◌, Option, none, some,
  List, [], ◌∷◌, length, arith, if◌then◌else◌, Bool-cases, inl, inr, All, truthy, str_eq, eq_iff,
  includes, ltb,
}
use cool_sdk.Codec.{Bytes}
use cool_sdk.Platform.Status.{CheckStatus, Check}
use cool_sdk.Platform.Trust.{or_else}
use cool_sdk.Sign.{Crypto, DirectoryEntry, bind}
use cool_sdk.Sign.Object.{Signed, IntegrityReport, verify_integrity}
use cool_sdk.Authz.Scope.{Scope, ChainRequest, scope_excess, scope_refusal, Excess}
use cool_sdk.Authz.Scope.Within.{scope_excess-none}
use cool_sdk.Authz.Principal.{is_pass, is_given, later, key_at, check_principal}
use cool_sdk.Authz.Delegation.{
  Delegation, ChainOptions, Verdict, go_on, refuse, ◌⨾◌, is_revoked, is_parent, report_verdict,
  excess_verdict, check_verdict, leaf_of, leaf_refusal, usable, in_window, continues, key_verdict,
  signed_at, verify_link, verify_links, after_links, verify_delegation_chain,
}

-- A statement sequence goes on where both parts do.
both_go_on : (a b : Verdict) → (a ⨾ b) ≡ go_on → (a ≡ go_on) × (b ≡ go_on)
both_go_on none b h = cc
both_go_on (some none) b h = (refl, h)
both_go_on (some (some c)) b h = cc

-- A check that is returned early is not a pass.
NeverPasses : Verdict → Type 0
NeverPasses (some (some c)) = is_pass c ≡ false
NeverPasses _ = Unit

never_⨾ : (a b : Verdict) → NeverPasses a → NeverPasses b → NeverPasses (a ⨾ b)
unfolding NeverPasses
never_⨾ none b p q = tt
never_⨾ (some none) b p q = q
never_⨾ (some (some c)) b p q = p

never_go_on : NeverPasses go_on
unfolding NeverPasses
never_go_on = tt

never_if :
    (t : Bool) (reason : String) (v : Verdict)
    → NeverPasses v
    → NeverPasses (if t then refuse reason else v)
unfolding NeverPasses
never_if true reason v p = refl
never_if false reason v p = p

excess_never : (e : Option Excess) → NeverPasses (excess_verdict e)
unfolding NeverPasses
excess_never none = tt
excess_never (some e) = refl

module _ (date_parse : String → Option ℕ) (o : ChainOptions) where
  usable_never : (who : String) (when : Option ℕ) → NeverPasses (usable date_parse o who when)
  unfolding usable NeverPasses
  usable_never who when = of_check (check_principal date_parse o.directory who when none)
    where
      verdict : (c : Check) → NeverPasses (some (check_verdict c))
      verdict c = elim (Bool-cases (is_pass c)) [ inl p ↦ rw p tt | inr p ↦ rw p refl ]

      of_check : (m : Option Check) → NeverPasses (bind m (λ c. some (check_verdict c)))
      of_check none = tt
      of_check (some c) = verdict c

  in_window_never : (d : Delegation) → NeverPasses (in_window date_parse o d)
  unfolding in_window
  in_window_never d = never_if (is_revoked o.revoked d.delegation_id) "delegation_revoked" _ (
      never_if (later (date_parse d.not_before) (some o.at)) "delegation_not_yet_valid" _
        (never_if (later (some o.at) (date_parse d.expires_at)) "delegation_expired" _ never_go_on))

  continues_never :
      (prev : Option Delegation) (d : Delegation) → NeverPasses (continues date_parse o prev d)
  unfolding continues
  continues_never none d =
      never_if (is_given d.parent) "broken_chain" _
        (never_if (not (includes o.roots d.delegator)) "untrusted_root" _ never_go_on)
  continues_never (some p) d =
      never_⨾ _ _
        (never_⨾ _ _
          (never_if
            (not (is_parent d.parent p.delegation_id) || not (str_eq d.delegator p.delegate))
            "broken_chain" _ never_go_on)
          (excess_never (scope_excess d.scope p.scope)))
        (never_if (later (date_parse d.expires_at) (date_parse p.expires_at))
          "privilege_amplification" _ never_go_on)

  module _ (c : Crypto) (encode : Delegation → Option Bytes) where
    signed_at_never :
        (s : Signed Delegation) (when : Option ℕ)
        → NeverPasses (signed_at date_parse o c encode s when)
    unfolding signed_at NeverPasses
    signed_at_never s when =
        of_key (key_at date_parse o.directory s.body.delegator s.signature.key_id when)
      where
        report : (v : IntegrityReport) → NeverPasses (some (report_verdict v))
        report v = elim (Bool-cases (is_pass v.integrity)) [
          | inr p ↦ rw p p
          | inl p ↦ elim (Bool-cases (is_pass v.signature)) [
            | inl q ↦ rw (p, q) tt
            | inr q ↦ rw (p, q) refl
          ]
        ]

        of_report :
            (m : Option IntegrityReport) → NeverPasses (bind m (λ v. some (report_verdict v)))
        of_report none = tt
        of_report (some v) = report v

        of_key : (k : Option DirectoryEntry) → NeverPasses (key_verdict date_parse o c encode s k)
        of_key none = refl
        of_key (some k) = of_report (verify_integrity c encode "cool.delegation.v1" s (some k))

    verify_links_never :
        (prev : Option Delegation) (ids people : List String) (chain : List (Signed Delegation))
        → NeverPasses (verify_links date_parse o c encode prev ids people chain)
    unfolding verify_links verify_link
    verify_links_never prev ids people [] = never_go_on
    verify_links_never prev ids people (s ∷ chain) =
        never_⨾ _ _
          (never_⨾ _ _
            (never_⨾ _ _
              (never_⨾ _ _
                (never_⨾ _ _
                  (never_⨾ _ _
                    (never_⨾ _ _
                      (never_if
                        (includes ids s.body.delegation_id || includes people s.body.delegate)
                        "delegation_cycle" _ never_go_on)
                      (signed_at_never s _))
                    (usable_never _ _))
                  (usable_never _ _))
                (usable_never _ _))
              (in_window_never s.body))
            (continues_never prev s.body))
          (verify_links_never _ _ _ chain)

-- A scope whose actions and resources are nonempty strings.
abbrev pub IsNamed : Scope → Type 0
IsNamed s = All (λ a. truthy a ≡ true) s.actions × All (λ p. truthy p ≡ true) s.resources

-- The instants of a window, by its date of begin and its date of end. The comparisons of the source
-- are with NaN where a date cannot be read, and such a date bounds nothing.
abbrev pub HasBegun : Option ℕ → ℕ → Type 0
HasBegun begin at = (begin ≡ none) ⊎ ((t : ℕ) × (begin ≡ some t) × (t ≤ at))

abbrev pub HasNotEnded : Option ℕ → ℕ → Type 0
HasNotEnded end at = (end ≡ none) ⊎ ((t : ℕ) × (end ≡ some t) × (at ≤ t))

-- A delegation's scope permits the request, it is not listed as revoked, and each of its two dates
-- that can be read admits the event time.
abbrev pub Permits : (String → Option ℕ) → ChainOptions → ChainRequest → Delegation → Type 0
Permits date_parse o r d =
    (scope_refusal d.scope r ≡ none)
    × (is_revoked o.revoked d.delegation_id ≡ false)
    × HasBegun (date_parse d.not_before) o.at
    × HasNotEnded (date_parse d.expires_at) o.at

begun_by : (begin : Option ℕ) (at : ℕ) → later begin (some at) ≡ false → HasBegun begin at
begun_by none at h = inl refl
begun_by (some t) at h = inr (t, refl, ground arith)

not_ended_by : (end : Option ℕ) (at : ℕ) → later (some at) end ≡ false → HasNotEnded end at
not_ended_by none at h = inl refl
not_ended_by (some t) at h = inr (t, refl, ground arith)

not_refused :
    (t : Bool) (reason : String) (v : Verdict)
    → (if t then refuse reason else v) ≡ go_on
    → (t ≡ false) × (v ≡ go_on)
not_refused true reason v h = cc
not_refused false reason v h = (refl, h)

module _ (date_parse : String → Option ℕ) (o : ChainOptions) (r : ChainRequest) where
  in_force :
      (d : Delegation)
      → scope_refusal d.scope r ≡ none
      → in_window date_parse o d ≡ go_on
      → Permits date_parse o r d
  unfolding in_window
  in_force d permits h =
      let (a, h₁) = not_refused (is_revoked o.revoked d.delegation_id) _ _ h in
      let (b, h₂) = not_refused (later (date_parse d.not_before) (some o.at)) _ _ h₁ in
      let (e, h₃) = not_refused (later (some o.at) (date_parse d.expires_at)) _ _ h₂ in
      (
        permits,
        a,
        begun_by (date_parse d.not_before) o.at b,
        not_ended_by (date_parse d.expires_at) o.at e,
      )

  no_excess :
      (p d : Delegation)
      → continues date_parse o (some p) d ≡ go_on
      → scope_excess d.scope p.scope ≡ none
  unfolding continues
  no_excess p d h = of_excess (scope_excess d.scope p.scope) (both_go_on _ _ (both_go_on _ _ h).0).1
    where
      of_excess : (e : Option Excess) → excess_verdict e ≡ go_on → e ≡ none
      of_excess none k = refl
      of_excess (some e) k = cc

  root_allowed :
      (d : Delegation) → continues date_parse o none d ≡ go_on → includes o.roots d.delegator ≡ true
  unfolding continues
  root_allowed d h =
      positive
        (not_refused (not (includes o.roots d.delegator)) _ _
          (not_refused (is_given d.parent) _ _ h).1).0
    where
      positive : {b : Bool} → not b ≡ false → b ≡ true
      positive k = ground arith

  module _ (c : Crypto) (encode : Delegation → Option Bytes) where
    link_parts :
        (prev : Option Delegation) (ids people : List String) (s : Signed Delegation)
        → verify_link date_parse o c encode prev ids people s ≡ go_on
        → (in_window date_parse o s.body ≡ go_on) × (continues date_parse o prev s.body ≡ go_on)
    unfolding verify_link
    link_parts prev ids people s h =
        let (front, last) = both_go_on _ _ h in ((both_go_on _ _ front).1, last)

    -- From the leaf back: each link permits what the leaf permits, and so does the link before.
    links_permit :
        (p : Delegation) (ids people : List String) (chain : List (Signed Delegation))
        → All (λ s. IsNamed s.body.scope) chain
        → verify_links date_parse o c encode (some p) ids people chain ≡ go_on
        → scope_refusal (leaf_of p chain).scope r ≡ none
        → (scope_refusal p.scope r ≡ none) × All (λ s. Permits date_parse o r s.body) chain
    unfolding verify_links leaf_of
    links_permit p ids people [] named h leaf = (leaf, tt)
    links_permit p ids people (s ∷ chain) named h leaf =
        let (link, rest) = both_go_on _ _ h in
        let (window, on) = link_parts (some p) ids people s link in
        let (here, beyond) =
          links_permit s.body (s.body.delegation_id ∷ ids) (s.body.delegate ∷ people) chain named.1
            rest leaf in
        (
          scope_excess-none s.body.scope p.scope r named.0.0 named.0.1 (no_excess p s.body on) here,
          (in_force s.body here window, beyond),
        )

    leaf_permits :
        (leaf : Delegation)
        → leaf_refusal leaf r ≡ none
        → (leaf.delegate ≡ r.requester) × (scope_refusal leaf.scope r ≡ none)
    unfolding leaf_refusal
    leaf_permits leaf h =
        let (a, h₁) = tested (not (str_eq leaf.delegate r.requester)) _ _ h in
        let (b, h₂) =
          tested (not (str_eq leaf.audience "*") && not (str_eq leaf.audience r.audience)) _ _ h₁ in
        ((eq_iff leaf.delegate r.requester).0 (positive a), h₂)
      where
        positive : {b : Bool} → not b ≡ false → b ≡ true
        positive k = ground arith

        tested :
            (t : Bool) (reason : String) (v : Option String)
            → (if t then some reason else v) ≡ none
            → (t ≡ false) × (v ≡ none)
        tested true reason v k = cc
        tested false reason v k = (refl, k)

    passed :
        (v : Verdict) (refusal : Option String) (k : Check)
        → NeverPasses v
        → after_links date_parse o c encode v refusal ≡ some k
        → k.status ≡ CheckStatus.pass
        → (v ≡ go_on) × (refusal ≡ none)
    unfolding NeverPasses
    passed none refusal k never h p = cc
    passed (some (some e)) refusal k never h p =
        cc (subst (λ x. is_pass x ≡ false) (some_inj h) never, of_pass k p)
      where
        some_inj : {a b : Check} → some a ≡ some b → a ≡ b
        some_inj q = cc

        of_pass : (x : Check) → x.status ≡ CheckStatus.pass → is_pass x ≡ true
        of_pass x q = rw q refl
    passed (some none) none k never h p = (refl, refl)
    passed (some none) (some reason) k never h p = cc (ap (λ x. status_of x) h, p)
      where
        status_of : Option Check → CheckStatus
        status_of none = CheckStatus.fail
        status_of (some x) = x.status

    -- Let every scope of a chain have nonempty actions and resources, and let the check of the
    -- chain for a request be a pass. Then each delegation of the chain permits the request by its
    -- own scope, is not revoked, and begins no later and ends no earlier than the event time by
    -- those of its two dates that can be read; the first delegator is one of the roots, and the
    -- last delegate is the requester.
    pub verify_delegation_chain-pass :
        (s : Signed Delegation) (chain : List (Signed Delegation)) (k : Check)
        → All (λ x. IsNamed x.body.scope) (s ∷ chain)
        → verify_delegation_chain date_parse o c encode (s ∷ chain) r ≡ some k
        → k.status ≡ CheckStatus.pass
        → All (λ x. Permits date_parse o r x.body) (s ∷ chain)
          × (includes o.roots s.body.delegator ≡ true)
          × ((leaf_of s.body chain).delegate ≡ r.requester)
    unfolding verify_delegation_chain verify_links
    verify_delegation_chain-pass s chain k named h p =
        elim (Bool-cases (ltb (or_else o.max_depth 4) (length (s ∷ chain)))) [
          | inl deep ↦ cc (ap status_of (rw deep at h), p)
          | inr shallow ↦
              let (links, no_refusal) =
                passed _ _ k
                  (verify_links_never date_parse o c encode none [] (s.body.delegator ∷ [])
                    (s ∷ chain))
                  (rw shallow at h) p in
              let (link, rest) = both_go_on _ _ links in
              let (window, root) = link_parts none [] (s.body.delegator ∷ []) s link in
              let (requester, leaf) = leaf_permits (leaf_of s.body chain) no_refusal in
              let (here, beyond) = links_permit s.body _ _ chain named.1 rest leaf in
              ((in_force s.body here window, beyond), root_allowed s.body root, requester)
        ]
      where
        status_of : Option Check → CheckStatus
        status_of none = CheckStatus.fail
        status_of (some x) = x.status
