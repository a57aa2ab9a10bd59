-- ===== src/Platform/Trust/Laws.antt =====
-- What a trusted key has, and which record of a key a store keeps.
use cool_sdk.Prelude.{
  ℕ, ◌≤◌, ◌<◌, Bool, In, String, ◌≡◌, ◌⊎◌, ◌↔◌, inl, inr, refl, ◌∙◌, true, false, Option, none,
  some, List, [], ◌∷◌, arith, if◌then◌else◌, str_eq, Option-cases,
}
use cool_sdk.Prelude.Map
use cool_sdk.Prelude.Map.{Map, get-set}
use cool_sdk.Platform.Status.{CheckStatus}
use cool_sdk.Platform.Trust.{
  KeyStatus, active, rotated, KeyRecord, revoked, compromised, TrustSnapshot, TrustStore,
  TrustQuery, has_purpose, or_else, set_keys, new_trust_store, trust_get, status_refusal,
  evaluate_key, evaluate, before, is_older, past_optional,
}
use cool_sdk.Platform.Trust.Dates.{
  has_purpose_iff, begun_iff, IsFresh, IsNotAfter, IsProvenBefore, past_optional-IsNotAfter,
  proven_iff, is_older-IsFresh,
}

-- The time that validity is judged at: the proven one, else the claimed one, else now.
abbrev pub signing_time : TrustQuery → ℕ
signing_time q = or_else q.proven_signed_before (or_else q.claimed_signed_at q.now)

module _ (date_parse : String → Option ℕ) {Entry : Type 0} where
  -- The tests of `evaluate`, as they come.
  record PassesTests (store : TrustStore Entry) (q : TrustQuery) (key : KeyRecord Entry)
      : Type 0 where
    purpose : has_purpose key.purposes q.purpose ≡ true
    begun : before (signing_time q) (date_parse key.valid_from) ≡ false
    not_over : past_optional date_parse (signing_time q) key.valid_until ≡ false
    usable : status_refusal date_parse key q ≡ none
    fresh : is_older date_parse q.now (date_parse store.as_of) store.max_age_ms ≡ false

  -- An active key is good, a rotated one for what was signed before its rotation, and a revoked or
  -- compromised one only for what is proven older than that.
  abbrev pub IsUsable : KeyRecord Entry → TrustQuery → Type 0
  IsUsable k q =
      (k.status ≡ active)
      ⊎ (k.status ≡ rotated) × IsNotAfter date_parse (signing_time q) k.rotated_at
      ⊎ (k.status ≡ revoked)
        × IsProvenBefore date_parse q.proven_signed_before (or_else k.revoked_at k.valid_from)
      ⊎ (k.status ≡ compromised)
        × IsProvenBefore date_parse q.proven_signed_before
            (or_else k.compromised_since k.valid_from)

  -- What the store must hold for the answer to be a pass.
  pub record IsTrusted (store : TrustStore Entry) (q : TrustQuery) : Type 0 where
    pub key : KeyRecord Entry
    pub known : trust_get store q.key_id ≡ some key
    pub purpose : In q.purpose key.purposes
    pub begun :
        (date_parse key.valid_from ≡ none)
        ⊎ ((t : ℕ) × (date_parse key.valid_from ≡ some t) × (t ≤ signing_time q))
    pub not_over : IsNotAfter date_parse (signing_time q) key.valid_until
    pub usable : IsUsable key q
    pub fresh : IsFresh q.now (date_parse store.as_of) store.max_age_ms

  evaluate_key-none :
      (store : TrustStore Entry) (q : TrustQuery)
      → (evaluate_key date_parse store q none).status ≡ CheckStatus.pass
      → CheckStatus.fail ≡ CheckStatus.pass
  unfolding evaluate_key
  evaluate_key-none store q e = e

  evaluate_known :
      (store : TrustStore Entry) (q : TrustQuery) (k : KeyRecord Entry)
      → trust_get store q.key_id ≡ some k
      → evaluate date_parse store q ≡ evaluate_key date_parse store q (some k)
  unfolding evaluate
  evaluate_known store q k found = rw found refl

  some-eq :
      {k k' : KeyRecord Entry} {o : Option (KeyRecord Entry)} → o ≡ some k → o ≡ some k' → k ≡ k'
  some-eq p q = cc

  proof_of_age :
      (k : KeyRecord Entry) (q : TrustQuery) (since : ℕ)
      → (k.status ≡ revoked) × (date_parse (or_else k.revoked_at k.valid_from) ≡ some since)
        ⊎ (k.status ≡ compromised)
          × (date_parse (or_else k.compromised_since k.valid_from) ≡ some since)
      → status_refusal date_parse k q ≡ none
      → (proven : ℕ) × (q.proven_signed_before ≡ some proven) × (proven < since)
  unfolding status_refusal
  proof_of_age k q since bad usable = elim (Option-cases q.proven_signed_before) [
    | inl without ↦ absurd (ground arith)
    | inr (p, with_proof) ↦ (p, with_proof, ground arith)
  ]

  known_key :
      (store : TrustStore Entry) (q : TrustQuery)
      → (evaluate date_parse store q).status ≡ CheckStatus.pass
      → (k : KeyRecord Entry) × (trust_get store q.key_id ≡ some k)
        × ((evaluate_key date_parse store q (some k)).status ≡ CheckStatus.pass)
  unfolding evaluate
  known_key store q e = elim (Option-cases (trust_get store q.key_id)) [
    | inl missing ↦ absurd (refuse (rw missing at e))
    | inr (k, found) ↦ (k, found, rw found at e)
  ]
    where
      refuse : (evaluate_key date_parse store q none).status ≡ CheckStatus.pass → ⊥
      refuse h = cc (evaluate_key-none store q h)

  usable_iff :
      (k : KeyRecord Entry) (q : TrustQuery) → (status_refusal date_parse k q ≡ none) ↔ IsUsable k q
  unfolding status_refusal
  usable_iff k q = of_status k.status refl
    where
      allowed : (t : Bool) (reason : String) → (if t then some reason else none) ≡ none → t ≡ false
      allowed true reason h = cc h
      allowed false reason h = refl

      of_status :
          (t : KeyStatus) → k.status ≡ t → (status_refusal date_parse k q ≡ none) ↔ IsUsable k q
      of_status active e = (λ h. inl e, λ h. rw (e, status_refusal) refl)
      of_status rotated e =
          let (to, from) = past_optional-IsNotAfter date_parse (signing_time q) k.rotated_at in
          (
            λ h. inr (inl (e, to (allowed _ _ (rw (e, status_refusal) at h)))),
            λ h. elim h [
              | inl x ↦ cc (e, x)
              | inr (inl (x, date)) ↦ rw (e, status_refusal, from date) refl
              | inr (inr (inl (x, date))) ↦ cc (e, x)
              | inr (inr (inr (x, date))) ↦ cc (e, x)
            ],
          )
      of_status revoked e =
          let (to, from) =
            proven_iff date_parse q.proven_signed_before (or_else k.revoked_at k.valid_from) in
          (
            λ h. inr (inr (inl (e, to (allowed _ _ (rw (e, status_refusal) at h))))),
            λ h. elim h [
              | inl x ↦ cc (e, x)
              | inr (inl (x, date)) ↦ cc (e, x)
              | inr (inr (inl (x, date))) ↦ rw (e, status_refusal, from date) refl
              | inr (inr (inr (x, date))) ↦ cc (e, x)
            ],
          )
      of_status compromised e =
          let (to, from) =
            proven_iff date_parse q.proven_signed_before
              (or_else k.compromised_since k.valid_from) in
          (
            λ h. inr (inr (inr (e, to (allowed _ _ (rw (e, status_refusal) at h))))),
            λ h. elim h [
              | inl x ↦ cc (e, x)
              | inr (inl (x, date)) ↦ cc (e, x)
              | inr (inr (inl (x, date))) ↦ cc (e, x)
              | inr (inr (inr (x, date))) ↦ rw (e, status_refusal, from date) refl
            ],
          )

  evaluate_key-PassesTests :
      (store : TrustStore Entry) (q : TrustQuery) (k : KeyRecord Entry)
      → ((evaluate_key date_parse store q (some k)).status ≡ CheckStatus.pass)
        ↔ PassesTests store q k
  unfolding evaluate_key
  evaluate_key-PassesTests store q k = (
    λ e. record {
      purpose = ground arith;
      begun = ground arith;
      not_over = ground arith;
      usable = ground arith;
      fresh = ground arith;
    },
    λ t.
        let a = t.purpose in
        let b = t.begun in
        let d = t.not_over in let e = t.usable in let f = t.fresh in ground arith,
  )

  -- The answer is a pass exactly when the store holds a record of the key that lists the purpose
  -- asked for; the signing time lies within its two dates, is no later than the rotation of a
  -- rotated key, and is proven to be before the recorded time of a revoked or compromised one, as
  -- far as these dates can be read; and the snapshot is not older than its bound.
  pub evaluate-pass_iff :
      (store : TrustStore Entry) (q : TrustQuery)
      → ((evaluate date_parse store q).status ≡ CheckStatus.pass) ↔ IsTrusted store q
  evaluate-pass_iff store q = (to, from)
    where
      to : (evaluate date_parse store q).status ≡ CheckStatus.pass → IsTrusted store q
      to e =
          let (k, found, passed) = known_key store q e in
          let t = (evaluate_key-PassesTests store q k).0 passed in
          record {
            key = k;
            known = found;
            purpose = (has_purpose_iff k.purposes q.purpose).0 t.purpose;
            begun = (begun_iff (signing_time q) (date_parse k.valid_from)).0 t.begun;
            not_over =
                (past_optional-IsNotAfter date_parse (signing_time q) k.valid_until).0 t.not_over;
            usable = (usable_iff k q).0 t.usable;
            fresh =
                (is_older-IsFresh date_parse q.now (date_parse store.as_of) store.max_age_ms).0
                  t.fresh;
          }

      from : IsTrusted store q → (evaluate date_parse store q).status ≡ CheckStatus.pass
      from t =
          let k = t.key in
          rw (evaluate_known store q k t.known) (
            (evaluate_key-PassesTests store q k).1 (record {
              purpose = (has_purpose_iff k.purposes q.purpose).1 t.purpose;
              begun = (begun_iff (signing_time q) (date_parse k.valid_from)).1 t.begun;
              not_over =
                  (past_optional-IsNotAfter date_parse (signing_time q) k.valid_until).1 t.not_over;
              usable = (usable_iff k q).1 t.usable;
              fresh =
                  (is_older-IsFresh date_parse q.now (date_parse store.as_of) store.max_age_ms).1
                    t.fresh;
            }))

  -- A revoked or compromised key whose recorded time can be read is accepted only with a proof
  -- that the signature is older than that time, whatever time the evidence itself claims.
  pub evaluate_revoked :
      (store : TrustStore Entry) (q : TrustQuery) (k : KeyRecord Entry) (since : ℕ)
      → trust_get store q.key_id ≡ some k
      → (k.status ≡ revoked) × (date_parse (or_else k.revoked_at k.valid_from) ≡ some since)
        ⊎ (k.status ≡ compromised)
          × (date_parse (or_else k.compromised_since k.valid_from) ≡ some since)
      → (evaluate date_parse store q).status ≡ CheckStatus.pass
      → (proven : ℕ) × (q.proven_signed_before ≡ some proven) × (proven < since)
  evaluate_revoked store q k since found bad e =
      let t = (evaluate-pass_iff store q).0 e in
      proof_of_age k q since bad (rw (some-eq found t.known) ((usable_iff t.key q).1 t.usable))

  abbrev first_some : Option (KeyRecord Entry) → Option (KeyRecord Entry) → Option (KeyRecord Entry)
  first_some none other = other
  first_some (some r) other = some r

  -- The last record of a list that has this key id.
  abbrev pub last_record : String → List (KeyRecord Entry) → Option (KeyRecord Entry)
  last_record id [] = none
  last_record id (k ∷ keys) =
      first_some (last_record id keys) (if str_eq k.key_id id then some k else none)

  get-set_keys :
      (id : String) (keys : List (KeyRecord Entry)) (m : Map (KeyRecord Entry))
      → Map.get id (set_keys keys m) ≡ first_some (last_record id keys) (Map.get id m)
  unfolding set_keys
  get-set_keys id [] m = refl
  get-set_keys id (k ∷ keys) m =
      ground (arith, get-set_keys id keys (Map.set k.key_id k m), get-set k.key_id id k m)

  -- A store built from a snapshot answers with the snapshot's last record of a key, and with no
  -- record exactly for the keys that the snapshot does not list.
  pub trust_get-new_trust_store :
      (s : TrustSnapshot Entry) (id : String)
      → trust_get (new_trust_store s) id ≡ last_record id s.keys
  unfolding trust_get new_trust_store
  trust_get-new_trust_store s id =
      get-set_keys id s.keys [] ∙ first_some-none (last_record id s.keys)
    where
      first_some-none : (o : Option (KeyRecord Entry)) → first_some o none ≡ o
      first_some-none none = refl
      first_some-none (some r) = refl
