-- ===== src/Authz/Principal/Apply.antt =====
-- `PrincipalDirectory.apply`: what a lifecycle event changes, and what it leaves.
use cool_sdk.Prelude.{
  ℕ, String, ◌≡◌, ◌⊎◌, inl, inr, refl, ap, sym, ◌∙◌, subst, true, Option, none, some, [], ◌∷◌, ◌++◌,
  Bool-cases, Option-cases, str_eq, eq_iff,
}
use cool_sdk.Prelude.Map
use cool_sdk.Prelude.Map.{get-set}
use cool_sdk.Codec.{Bytes}
use cool_sdk.Platform.Status.{Check}
use cool_sdk.Sign.{Crypto, bind}
use cool_sdk.Sign.Object.{Signed, IntegrityReport}
use cool_sdk.Authz.Principal.{
  PrincipalRecord, PrincipalEvent, PrincipalDirectory, Entry, is_pass, is_malformed, later, initial,
  state_of, state_at, sort_events, store_event, apply_to, apply,
}
use cool_sdk.Authz.Principal.Order.{
  Ordered, sort_events-same, sort_events-last, replay-insert_event,
}

module _ (date_parse : String → Option ℕ) where
  -- Each principal's stored events are in the order of their dates.
  abbrev pub IsOrdered : PrincipalDirectory → Type 0
  IsOrdered dir =
      (id : String) (e : Entry) → Map.get id dir.entries ≡ some e → Ordered date_parse e.events

  -- An event is refused and nothing changes, or it is stored.
  apply_to_cases :
      (dir : PrincipalDirectory) (e : Entry) (s : Signed PrincipalEvent) (v : IntegrityReport)
      → ((apply_to date_parse dir e s v).0 ≡ dir)
        ⊎ ((apply_to date_parse dir e s v).0 ≡ store_event date_parse dir e s.body)
  unfolding apply_to
  apply_to_cases dir e s v = elim (Bool-cases (is_pass v.integrity)) [
    | inr a ↦ rw a (inl refl)
    | inl a ↦ elim (Bool-cases (is_pass v.signature)) [
      | inr b ↦ rw (a, b) (inl refl)
      | inl b ↦ elim (Bool-cases (str_eq s.signature.key_id e.record_of.issuer)) [
        | inr d ↦ rw (a, b, d) (inl refl)
        | inl d ↦ elim (Bool-cases (is_malformed date_parse s.body)) [
          | inl f ↦ rw (a, b, d, f) (inl refl)
          | inr f ↦ rw (a, b, d, f) (inr refl)
        ]
      ]
    ]
  ]

  after_report :
      (dir after : PrincipalDirectory) (e : Entry) (s : Signed PrincipalEvent) (k : Check)
      (report : Option IntegrityReport)
      → bind report (λ v. some (apply_to date_parse dir e s v)) ≡ some (after, k)
      → (after ≡ dir) ⊎ (after ≡ store_event date_parse dir e s.body)
  after_report dir after e s k none h = cc
  after_report dir after e s k (some v) h = elim (apply_to_cases dir e s v) [
    | inl same ↦ inl (sym first ∙ same)
    | inr stored ↦ inr (sym first ∙ stored)
  ]
    where
      some_inj : {a b : PrincipalDirectory × Check} → some a ≡ some b → a ≡ b
      some_inj q = cc

      first : (apply_to date_parse dir e s v).0 ≡ after
      first = ap (λ x. x.0) (some_inj h)

  state_of-store :
      (e : Entry) (ev : PrincipalEvent) (at : Option ℕ)
      → Ordered date_parse e.events
      → later (date_parse ev.at) at ≡ true
      → state_of date_parse
          (record {
            record_of = e.record_of;
            events = sort_events date_parse [] (e.events ++ ev ∷ []);
          })
          at
        ≡ state_of date_parse e at
  unfolding state_of
  state_of-store e ev at o h =
      rw
        (
          sort_events-last date_parse [] e.events ev,
          sort_events-same date_parse [] e.events o,
          replay-insert_event date_parse at ev e.events (initial date_parse e.record_of) h,
        )
        refl

  state_at-store_event :
      (dir : PrincipalDirectory) (e : Entry) (ev : PrincipalEvent) (id : String) (at : Option ℕ)
      → Map.get ev.principal_id dir.entries ≡ some e
      → Ordered date_parse e.events
      → later (date_parse ev.at) at ≡ true
      → state_at date_parse (store_event date_parse dir e ev) id at ≡ state_at date_parse dir id at
  unfolding state_at store_event
  state_at-store_event dir e ev id at found o h = elim (Bool-cases (str_eq ev.principal_id id)) [
    | inl same ↦
        let here : Map.get id dir.entries ≡ some e =
          subst (λ x. Map.get x dir.entries ≡ some e) ((eq_iff ev.principal_id id).0 same) found in
        rw (get-set ev.principal_id id _ dir.entries, same, here) (state_of-store e ev at o h)
    | inr other ↦ rw (get-set ev.principal_id id _ dir.entries, other) refl
  ]

  module _ (c : Crypto) (encode_record : PrincipalRecord → Option Bytes)
      (encode_event : PrincipalEvent → Option Bytes) where
    -- The whole operation, with the entry that it found.
    pub apply_cases :
        (dir after : PrincipalDirectory) (s : Signed PrincipalEvent) (k : Check)
        → apply date_parse c encode_record encode_event dir s ≡ some (after, k)
        → (after ≡ dir)
          ⊎ ((e : Entry) × (Map.get s.body.principal_id dir.entries ≡ some e)
              × (after ≡ store_event date_parse dir e s.body))
    unfolding apply
    apply_cases dir after s k h = elim (Option-cases (Map.get s.body.principal_id dir.entries)) [
      | inl absent ↦ inl (cc (rw absent at h))
      | inr (e, found) ↦ elim (after_report dir after e s k _ (rw found at h)) [
        | inl same ↦ inl same
        | inr stored ↦ inr (e, found, stored)
      ]
    ]

    -- In a directory whose events are ordered, let `apply` run on an event with a date after an
    -- instant. Then the state of each principal at that instant is the one before the run.
    pub state_at-apply :
        (dir after : PrincipalDirectory) (s : Signed PrincipalEvent) (k : Check) (id : String)
        (at : Option ℕ)
        → IsOrdered dir
        → apply date_parse c encode_record encode_event dir s ≡ some (after, k)
        → later (date_parse s.body.at) at ≡ true
        → state_at date_parse after id at ≡ state_at date_parse dir id at
    state_at-apply dir after s k id at o h future = elim (apply_cases dir after s k h) [
      | inl same ↦ ap (λ x. state_at date_parse x id at) same
      | inr (e, found, stored) ↦
          ap (λ x. state_at date_parse x id at) stored
          ∙ state_at-store_event dir e s.body id at found (o s.body.principal_id e found) future
    ]
