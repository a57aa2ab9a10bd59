-- ===== src/Phala/Query/Meets.antt =====
-- What a query asks of a receipt, and that `matches` tests just that.
use cool_sdk.Prelude.{
  String, ◌≡◌, ◌⊎◌, ◌↔◌, inl, inr, refl, Bool, true, false, not, ◌&&◌, Option, none, some, arith,
  codes, truthy, text_lt,
}
use cool_sdk.Codec.{Text}
use cool_sdk.Phala.Receipt.{ReceiptV2}
use cool_sdk.Phala.Policy.{contains}
use cool_sdk.Phala.Query.{
  Query, subject_of, actor_of, environment_of, is_change_record, given, is_name, issued_at,
  mentions, matches,
}
use cool_sdk.Phala.Query.Fields.{
  Unset, IsOfKind, IsOfChange, HasApproval, IsRunIn, given_iff, wrong_kind_iff, positive, negative,
  wrong_change_iff, wrong_decision_iff, wrong_runtime_iff, is_name_iff,
}

module _ (to_lower_case : String → Text) (locale_lt : String → String → Bool) where
  -- The first text has the second in it, in lower case.
  abbrev pub Mentions : String → String → Type 0
  Mentions text part = contains (to_lower_case text) (to_lower_case part) ≡ true

  -- A string of the query, when it is given, that the receipt is to satisfy.
  abbrev pub Satisfies : Option String → (String → Type 0) → Type 0
  Satisfies o P = Unset o ⊎ ((s : String) × (o ≡ some s) × P s)

  -- What a query asks of a receipt.
  pub record Meets (r : ReceiptV2) (q : Query) : Type 0 where
    pub kind : IsOfKind q.kind r.signed.core.subject
    pub change_kind : IsOfChange q.change_kinds r.signed.core.subject
    pub environment : Satisfies q.environment (λ s. environment_of r ≡ some s)
    pub runtime : IsRunIn q.runtime r.signed.core.runtime.mode
    pub subject : Satisfies q.subject (λ s. Mentions (subject_of r) s)
    pub actor :
        Satisfies q.actor
          (λ s. (name : String) × (actor_of r ≡ some name) × (truthy name ≡ true) × Mentions name s)
    pub decision : HasApproval q.decision r.signed.core.subject
    pub since : Satisfies q.since (λ t. text_lt (codes (issued_at r)) (codes t) ≡ false)
    pub until : Satisfies q.until (λ t. text_lt (codes t) (codes (issued_at r)) ≡ false)

  given-Satisfies :
      (o : Option String) (test : String → Bool) (P : String → Type 0)
      → ((s : String) → (test s ≡ false) ↔ P s)
      → (given o test ≡ false) ↔ Satisfies o P
  given-Satisfies o test P each =
      let (to, from) = given_iff o test in
      (
        λ h. elim (to h) [
          | inl unset ↦ inl unset
          | inr (s, e, passes) ↦ inr (s, e, (each s).0 passes)
        ],
        λ h. elim h [
          | inl unset ↦ from (inl unset)
          | inr (s, e, holds) ↦ from (inr (s, e, (each s).1 holds))
        ],
      )

  not_false : (b : Bool) → (not b ≡ false) ↔ (b ≡ true)
  not_false b = (λ h. positive h, λ h. negative h)

  mentions_iff :
      (o : Option String) (s : String)
      → (mentions to_lower_case locale_lt o s ≡ true)
        ↔ ((name : String) × (o ≡ some name) × (truthy name ≡ true) × Mentions name s)
  mentions_iff none s = (λ h. cc h, λ (name, e, full, has). cc e)
  mentions_iff (some t) s =
      (λ h. (t, refl, (parts h).0, (parts h).1), λ (name, e, full, has). whole name e full has)
    where
      parts :
          (truthy t && contains (to_lower_case t) (to_lower_case s)) ≡ true
          → (truthy t ≡ true) × Mentions t s
      parts h = ground arith

      whole :
          (name : String)
          → some t ≡ some name
          → truthy name ≡ true
          → Mentions name s
          → (truthy t && contains (to_lower_case t) (to_lower_case s)) ≡ true
      whole name e full has = let same : t ≡ name = cc in rw same (rw (full, has) refl)

  through : {P Q R : Type 0} → (P ↔ Q) → (Q ↔ R) → P ↔ R
  through (a, b) (c, d) = (λ x. c (a x), λ x. b (d x))

  environment_iff :
      (r : ReceiptV2) (q : Query)
      → (given q.environment (λ e. not (is_name e (environment_of r))) ≡ false)
        ↔ Satisfies q.environment (λ s. environment_of r ≡ some s)
  environment_iff r q =
      given-Satisfies q.environment _ _
        (λ s. through (not_false (is_name s (environment_of r))) (is_name_iff s (environment_of r)))

  subject_iff :
      (r : ReceiptV2) (q : Query)
      → (given q.subject (λ s. not (contains (to_lower_case (subject_of r)) (to_lower_case s)))
          ≡ false)
        ↔ Satisfies q.subject (λ s. Mentions (subject_of r) s)
  subject_iff r q = given-Satisfies q.subject _ _ (λ s. not_false _)

  actor_iff :
      (r : ReceiptV2) (q : Query)
      → (given q.actor (λ a. not (mentions to_lower_case locale_lt (actor_of r) a)) ≡ false)
        ↔ Satisfies q.actor (λ s.
          (name : String) × (actor_of r ≡ some name) × (truthy name ≡ true) × Mentions name s)
  actor_iff r q = given-Satisfies q.actor _ _ (λ s.
      through (not_false (mentions to_lower_case locale_lt (actor_of r) s))
        (mentions_iff (actor_of r) s))

  plain : (b : Bool) → (b ≡ false) ↔ (b ≡ false)
  plain b = (λ h. h, λ h. h)

  nine :
      (a b d e f g h i j : Bool)
      → ((not a && not b && not d && not e && not f && not g && not h && not i && not j) ≡ true) ↔ (
          (a ≡ false)
          × (b ≡ false)
          × (d ≡ false)
          × (e ≡ false)
          × (f ≡ false)
          × (g ≡ false)
          × (h ≡ false)
          × (i ≡ false)
          × (j ≡ false))
  nine a b d e f g h i j = (λ x. ground arith, λ x. ground arith)

  pub matches-Meets :
      (r : ReceiptV2) (q : Query) → (matches to_lower_case locale_lt r q ≡ true) ↔ Meets r q
  unfolding matches is_change_record
  matches-Meets r q =
      let (parts, whole) = nine _ _ _ _ _ _ _ _ _ in
      (
        λ x.
            let (a, b, d, e, f, g, h, i, j) = parts x in
            record {
              kind = (wrong_kind_iff q.kind r.signed.core.subject).0 a;
              change_kind = (wrong_change_iff q.change_kinds r.signed.core.subject).0 b;
              environment = (environment_iff r q).0 d;
              runtime = (wrong_runtime_iff q.runtime r).0 e;
              subject = (subject_iff r q).0 f;
              actor = (actor_iff r q).0 g;
              decision = (wrong_decision_iff q.decision r.signed.core.subject).0 h;
              since = (given-Satisfies q.since _ _ (λ t. plain _)).0 i;
              until = (given-Satisfies q.until _ _ (λ t. plain _)).0 j;
            },
        λ m. whole (
          (wrong_kind_iff q.kind r.signed.core.subject).1 m.kind,
          (wrong_change_iff q.change_kinds r.signed.core.subject).1 m.change_kind,
          (environment_iff r q).1 m.environment,
          (wrong_runtime_iff q.runtime r).1 m.runtime,
          (subject_iff r q).1 m.subject,
          (actor_iff r q).1 m.actor,
          (wrong_decision_iff q.decision r.signed.core.subject).1 m.decision,
          (given-Satisfies q.since _ _ (λ t. plain _)).1 m.since,
          (given-Satisfies q.until _ _ (λ t. plain _)).1 m.until,
        ),
      )
