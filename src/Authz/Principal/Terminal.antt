-- ===== src/Authz/Principal/Terminal.antt =====
-- Revocation and decommissioning are final, and an event acts only from its own date on.
use cool_sdk.Prelude.{
  ℕ, ◌≤◌, String, ◌≡◌, ◌⊎◌, inl, inr, refl, ap, sym, ◌∙◌, subst, Bool, false, Option, none, some,
  List, [], ◌∷◌, arith, Bool-cases, Option-cases,
}
use cool_sdk.Prelude.Map
use cool_sdk.Platform.Status.{CheckStatus, Check}
use cool_sdk.Sign.{bind}
use cool_sdk.Authz.Principal.{
  PrincipalStatus, PrincipalEventKind, PrincipalEvent, Standing, PrincipalState, PrincipalDirectory,
  Entry, apply_kind, later, replay, state_of, state_at, check_principal, suspended_from,
  reinstated_from, initial, is_expired, check_known, check_state, check_status, status_reason,
  lacks_key,
}

-- Revoked or decommissioned.
abbrev pub IsFinal : PrincipalStatus → Type 0
IsFinal s = (s ≡ PrincipalStatus.revoked) ⊎ (s ≡ PrincipalStatus.decommissioned)

apply_kind-IsFinal :
    (kind : PrincipalEventKind) (ev : PrincipalEvent) (s : Standing)
    → IsFinal s.status
    → IsFinal (apply_kind kind ev s).status
unfolding apply_kind suspended_from reinstated_from
apply_kind-IsFinal PrincipalEventKind.key_bound ev s h = h
apply_kind-IsFinal PrincipalEventKind.key_retired ev s h = h
apply_kind-IsFinal PrincipalEventKind.suspended ev s (inl e) = inl (ap suspended_from e)
apply_kind-IsFinal PrincipalEventKind.suspended ev s (inr e) = inr (ap suspended_from e)
apply_kind-IsFinal PrincipalEventKind.reinstated ev s (inl e) = inl (ap reinstated_from e)
apply_kind-IsFinal PrincipalEventKind.reinstated ev s (inr e) = inr (ap reinstated_from e)
apply_kind-IsFinal PrincipalEventKind.revoked ev s h = inl refl
apply_kind-IsFinal PrincipalEventKind.decommissioned ev s h = inr refl

not_later : (d : Option ℕ) (a b : ℕ) → a ≤ b → later d (some a) ≡ false → later d (some b) ≡ false
not_later none a b h k = refl
not_later (some d) a b h k = ground arith

module _ (date_parse : String → Option ℕ) where
  replay-IsFinal :
      (at : Option ℕ) (events : List PrincipalEvent) (s : Standing)
      → IsFinal s.status
      → IsFinal (replay date_parse at events s).status
  unfolding replay
  replay-IsFinal at [] s h = h
  replay-IsFinal at (ev ∷ events) s h = elim (Bool-cases (later (date_parse ev.at) at)) [
    | inl stop ↦ rw stop h
    | inr more ↦
        rw more
          (replay-IsFinal at events (apply_kind ev.kind ev s) (apply_kind-IsFinal ev.kind ev s h))
  ]

  replay_later :
      (at then_at : ℕ) (events : List PrincipalEvent) (s : Standing)
      → at ≤ then_at
      → IsFinal (replay date_parse (some at) events s).status
      → IsFinal (replay date_parse (some then_at) events s).status
  unfolding replay
  replay_later at then_at [] s h k = k
  replay_later at then_at (ev ∷ events) s h k =
      elim (Bool-cases (later (date_parse ev.at) (some at))) [
        | inl stop ↦ replay-IsFinal (some then_at) (ev ∷ events) s (rw stop at k)
        | inr more ↦
            rw (not_later (date_parse ev.at) at then_at h more)
              (replay_later at then_at events (apply_kind ev.kind ev s) h (rw more at k))
      ]

  state_of-IsFinal :
      (e : Entry) (at then_at : ℕ) (s : PrincipalState)
      → state_of date_parse e (some at) ≡ some s
      → IsFinal s.standing.status
      → at ≤ then_at
      → (t : PrincipalState) × (state_of date_parse e (some then_at) ≡ some t)
        × IsFinal t.standing.status
  unfolding state_of
  state_of-IsFinal e at then_at s h k le =
      elim (Bool-cases (later (date_parse e.record_of.created_at) (some at))) [
        | inl unborn ↦ cc (rw unborn at h)
        | inr born ↦
            let same = some_inj (rw born at h) in
            (
              record {
                record_of = e.record_of;
                standing =
                    replay date_parse (some then_at) e.events (initial date_parse e.record_of);
              },
              rw (not_later (date_parse e.record_of.created_at) at then_at le born) refl,
              replay_later at then_at e.events (initial date_parse e.record_of) le
                  (subst (λ x. IsFinal x.standing.status) (sym same) k),
            )
      ]
    where
      some_inj : {a b : PrincipalState} → some a ≡ some b → a ≡ b
      some_inj e = cc

  check_known_final :
      (s : PrincipalState) (at : Option ℕ) (key_id : Option String)
      → IsFinal s.standing.status
      → (check_known date_parse s at key_id).status ≡ CheckStatus.fail
  check_known_final s at key_id h =
      elim (Bool-cases (is_expired date_parse at s.record_of.expires_at)) [
        | inl expired ↦ rw expired refl
        | inr valid ↦
            rw valid (by_status s.standing.status (lacks_key date_parse key_id s.standing.keys) h)
      ]
    where
      by_status :
          (p : PrincipalStatus) (lacks : Bool)
          → IsFinal p
          → (check_status date_parse (status_reason date_parse p) lacks).status ≡ CheckStatus.fail
      by_status p lacks (inl e) = rw e refl
      by_status p lacks (inr e) = rw e refl

  -- Let a principal be revoked or decommissioned at an instant. Then at that instant and at each
  -- later one its check is a failure, whatever key is asked for.
  pub check_principal_final :
      (dir : PrincipalDirectory) (id : String) (at then_at : ℕ) (key_id : Option String)
      (s : PrincipalState)
      → state_at date_parse dir id (some at) ≡ some s
      → IsFinal s.standing.status
      → at ≤ then_at
      → (c : Check) × (check_principal date_parse dir id (some then_at) key_id ≡ some c)
        × (c.status ≡ CheckStatus.fail)
  unfolding check_principal state_at
  check_principal_final dir id at then_at key_id s h k le =
      elim (Option-cases (Map.get id dir.entries)) [
        | inl absent ↦ cc (rw absent at h)
        | inr (e, present) ↦
            let (t, state, final) = state_of-IsFinal e at then_at s (rw present at h) k le in
            (
              check_known date_parse t (some then_at) key_id,
              ap (λ o. some (check_state date_parse o then_at key_id))
                  (ap (λ o. bind o (λ x. state_of date_parse x (some then_at))) present ∙ state),
              check_known_final t (some then_at) key_id final,
            )
      ]
