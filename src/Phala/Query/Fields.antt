-- ===== src/Phala/Query/Fields.antt =====
-- The conditions of a query on a receipt, and the tests of `matches` that decide them.
use cool_sdk.Prelude.{
  ℕ, String, ◌≡◌, ◌⊎◌, ◌↔◌, inl, inr, refl, ap, sym, ◌∙◌, Bool, true, false, not, ◌&&◌, Option,
  none, some, List, [], ◌∷◌, arith, In, str_eq, eq_iff, truthy, ==_iff, Bool-cases, if◌then◌else◌,
}
use cool_sdk.Phala.Receipt.{
  ChangeKind, Subject, event, change, EvidenceSubject, ChangeSubject, ApprovalDecision,
  ChangeApproval, RuntimeMode, ReceiptV2, kind_text, prompt, model, params, policy, dataset,
  agent_permission, tool,
}
use cool_sdk.Phala.Policy.{kinds_include}
use cool_sdk.Phala.Query.{
  RecordKind, evidence, change_kind, is_change_subject, decision_text, has_decision, mode_index,
  has_mode, wrong_kind, wrong_change, given, is_name, wrong_runtime, wrong_decision,
}

-- An option that is not given: an empty string is as none.
abbrev pub Unset : Option String → Type 0
Unset o = (o ≡ none) ⊎ ((s : String) × (o ≡ some s) × (truthy s ≡ false))

abbrev pub IsOfKind : Option RecordKind → Subject → Type 0
IsOfKind kind subject =
    (kind ≡ none)
    ⊎ (kind ≡ some evidence) × ((e : EvidenceSubject) × (subject ≡ event e))
    ⊎ (kind ≡ some change_kind) × ((ch : ChangeSubject) × (subject ≡ change ch))

abbrev pub IsOfChange : Option (List ChangeKind) → Subject → Type 0
IsOfChange kinds subject =
    (kinds ≡ none)
    ⊎ ((ks : List ChangeKind) × (ch : ChangeSubject) × (kinds ≡ some ks)
        × (subject ≡ change ch)
        × In ch.kind ks)

abbrev pub HasApproval : Option ApprovalDecision → Subject → Type 0
HasApproval decision subject =
    (decision ≡ none)
    ⊎ ((d : ApprovalDecision) × (ch : ChangeSubject) × (a : ChangeApproval) × (decision ≡ some d)
        × (subject ≡ change ch)
        × (ch.approval ≡ some a)
        × (a.decision ≡ d))

abbrev pub IsRunIn : Option RuntimeMode → RuntimeMode → Type 0
IsRunIn wanted mode = (wanted ≡ none) ⊎ (wanted ≡ some mode)

-- A given string that a test, which refuses, does not refuse.
abbrev pub IsUnrefused : Option String → (String → Bool) → Type 0
IsUnrefused o test = Unset o ⊎ ((s : String) × (o ≡ some s) × (test s ≡ false))

pub given_iff :
    (o : Option String) (test : String → Bool) → (given o test ≡ false) ↔ IsUnrefused o test
given_iff none test = (λ h. inl (inl refl), λ h. refl)
given_iff (some s) test = (
  λ h. elim (Bool-cases (truthy s)) [
    | inr empty ↦ inl (inr (s, refl, empty))
    | inl full ↦ inr (s, refl, ground arith)
  ],
  λ h. elim h [
    | inl (inl e) ↦ cc e
    | inl (inr (t, e, empty)) ↦ ground arith
    | inr (t, e, passes) ↦ refused t e passes
  ],
)
  where
    refused : (t : String) → some s ≡ some t → test t ≡ false → (truthy s && test s) ≡ false
    refused t e passes = let off : test s ≡ false = cc in ground arith

pub wrong_kind_iff :
    (kind : Option RecordKind) (subject : Subject)
    → (wrong_kind kind (is_change_subject subject) ≡ false) ↔ IsOfKind kind subject
wrong_kind_iff none subject = (λ h. inl refl, λ h. refl)
wrong_kind_iff (some evidence) (event e) = (λ h. inr (inl (refl, (e, refl))), λ h. refl)
wrong_kind_iff (some evidence) (change ch) = (
  λ h. cc h,
  λ h. elim h [ inl e ↦ cc e | inr (inl (e, (x, s))) ↦ cc s | inr (inr (e, s)) ↦ cc e ],
)
wrong_kind_iff (some change_kind) (change ch) = (λ h. inr (inr (refl, (ch, refl))), λ h. refl)
wrong_kind_iff (some change_kind) (event x) = (
  λ h. cc h,
  λ h. elim h [ inl e ↦ cc e | inr (inl (e, s)) ↦ cc e | inr (inr (e, (ch, s))) ↦ cc s ],
)

-- The kind and the decision that a text names.
read_kind : String → ChangeKind
read_kind s =
    if str_eq s "prompt"
    then prompt
    else if str_eq s "model"
    then model
    else if str_eq s "params"
    then params
    else if str_eq s "policy"
    then policy
    else if str_eq s "dataset"
    then dataset
    else if str_eq s "agent-permission"
    then agent_permission
    else tool

read_kind-kind_text : (k : ChangeKind) → read_kind (kind_text k) ≡ k
unfolding read_kind
read_kind-kind_text prompt = refl
read_kind-kind_text model = refl
read_kind-kind_text params = refl
read_kind-kind_text policy = refl
read_kind-kind_text dataset = refl
read_kind-kind_text agent_permission = refl
read_kind-kind_text tool = refl

read_decision : String → ApprovalDecision
read_decision s =
    if str_eq s "auto-approved"
    then ApprovalDecision.auto_approved
    else if str_eq s "approved"
    then ApprovalDecision.approved
    else if str_eq s "rejected"
    then ApprovalDecision.rejected
    else ApprovalDecision.waived

read_decision-decision_text : (d : ApprovalDecision) → read_decision (decision_text d) ≡ d
unfolding read_decision
read_decision-decision_text ApprovalDecision.auto_approved = refl
read_decision-decision_text ApprovalDecision.approved = refl
read_decision-decision_text ApprovalDecision.rejected = refl
read_decision-decision_text ApprovalDecision.waived = refl

same_kind : (j k : ChangeKind) → str_eq (kind_text j) (kind_text k) ≡ true → j ≡ k
same_kind j k h =
    sym (read_kind-kind_text j)
    ∙ ap read_kind ((eq_iff (kind_text j) (kind_text k)).0 h)
    ∙ read_kind-kind_text k

kinds_include_iff :
    (kinds : List ChangeKind) (k : ChangeKind) → (kinds_include kinds k ≡ true) ↔ In k kinds
kinds_include_iff [] k = (λ h. cc h, λ at. absurd at)
kinds_include_iff (j ∷ kinds) k =
    let (to, from) = kinds_include_iff kinds k in
    elim (Bool-cases (str_eq (kind_text j) (kind_text k))) [
      | inl same ↦ rw same (λ h. inl (same_kind j k same), λ at. refl)
      | inr other ↦ rw other (
        λ h. inr (to h),
        λ at. elim at [
          | inl e ↦ cc (
              sym other
              ∙ ap (λ x. str_eq (kind_text x) (kind_text k)) e
              ∙ (eq_iff (kind_text k) (kind_text k)).1 refl)
          | inr further ↦ from further
        ],
      )
    ]

pub positive : {b : Bool} → not b ≡ false → b ≡ true
positive h = ground arith

pub negative : {b : Bool} → b ≡ true → not b ≡ false
negative h = ground arith

pub wrong_change_iff :
    (kinds : Option (List ChangeKind)) (subject : Subject)
    → (wrong_change kinds subject ≡ false) ↔ IsOfChange kinds subject
wrong_change_iff none subject = (λ h. inl refl, λ h. refl)
wrong_change_iff (some ks) (event x) =
    (λ h. cc h, λ h. elim h [ inl e ↦ cc e | inr (js, ch, e, s, at) ↦ cc s ])
wrong_change_iff (some ks) (change ch) = (
  λ h. inr (ks, ch, refl, refl, (kinds_include_iff ks ch.kind).0 (positive h)),
  λ h. elim h [ inl e ↦ cc e | inr (js, x, e, s, at) ↦ listed js x e s at ],
)
  where
    kind_in : Subject → ChangeKind
    kind_in (event e) = ch.kind
    kind_in (change x) = x.kind

    listed :
        (js : List ChangeKind) (x : ChangeSubject)
        → some ks ≡ some js
        → change ch ≡ change x
        → In x.kind js
        → not (kinds_include ks ch.kind) ≡ false
    listed js x e s at =
        let same : ks ≡ js = cc in
        let kind : ch.kind ≡ x.kind = ap kind_in s in
        negative (rw (same, kind) ((kinds_include_iff js x.kind).1 at))

same_decision :
    (a b : ApprovalDecision) → (str_eq (decision_text a) (decision_text b) ≡ true) ↔ (a ≡ b)
same_decision a b = (
  λ h.
      sym (read_decision-decision_text a)
      ∙ ap read_decision ((eq_iff (decision_text a) (decision_text b)).0 h)
      ∙ read_decision-decision_text b,
  λ h. rw h ((eq_iff (decision_text b) (decision_text b)).1 refl),
)

has_decision_iff :
    (d : ApprovalDecision) (approval : Option ChangeApproval)
    → (has_decision d approval ≡ true)
      ↔ ((a : ChangeApproval) × (approval ≡ some a) × (a.decision ≡ d))
has_decision_iff d none = (λ h. cc h, λ (a, e, is). cc e)
has_decision_iff d (some a) = (
  λ h. (a, refl, (same_decision a.decision d).0 h),
  λ (b, e, is). (same_decision a.decision d).1 (decision_of b e is),
)
  where
    decision_of : (b : ChangeApproval) → some a ≡ some b → b.decision ≡ d → a.decision ≡ d
    decision_of b e is = let same : a ≡ b = cc in ap (λ x. x.decision) same ∙ is

pub wrong_decision_iff :
    (decision : Option ApprovalDecision) (subject : Subject)
    → (wrong_decision decision subject ≡ false) ↔ HasApproval decision subject
wrong_decision_iff none subject = (λ h. inl refl, λ h. refl)
wrong_decision_iff (some d) (event x) =
    (λ h. cc h, λ h. elim h [ inl e ↦ cc e | inr (f, ch, a, e, s, at, is) ↦ cc s ])
wrong_decision_iff (some d) (change ch) = (
  λ h.
      let (a, at, is) = (has_decision_iff d ch.approval).0 (positive h) in
      inr (d, ch, a, refl, refl, at, is),
  λ h. elim h [ inl e ↦ cc e | inr (f, x, a, e, s, at, is) ↦ approved f x a e s at is ],
)
  where
    approval_in : Subject → Option ChangeApproval
    approval_in (event e) = none
    approval_in (change x) = x.approval

    approved :
        (f : ApprovalDecision) (x : ChangeSubject) (a : ChangeApproval)
        → some d ≡ some f
        → change ch ≡ change x
        → x.approval ≡ some a
        → a.decision ≡ f
        → not (has_decision d ch.approval) ≡ false
    approved f x a e s at is =
        let same : d ≡ f = cc in
        negative ((has_decision_iff d ch.approval).1 (a, ap approval_in s ∙ at, is ∙ sym same))

pub wrong_runtime_iff :
    (wanted : Option RuntimeMode) (r : ReceiptV2)
    → (wrong_runtime wanted r ≡ false) ↔ IsRunIn wanted r.signed.core.runtime.mode
unfolding has_mode
wrong_runtime_iff none r = (λ h. inl refl, λ h. refl)
wrong_runtime_iff (some m) r =
    let (to, from) = ==_iff (mode_index r.signed.core.runtime.mode) (mode_index m) in
    (
      λ h. inr (ap (λ x. some x) (same_mode m r.signed.core.runtime.mode (to (positive h)))),
      λ h. elim h [ inl e ↦ cc e | inr e ↦ negative (from (ap mode_of (sym e))) ],
    )
  where
    mode_of : Option RuntimeMode → ℕ
    mode_of none = 3
    mode_of (some x) = mode_index x

    same_mode : (a b : RuntimeMode) → mode_index b ≡ mode_index a → a ≡ b
    same_mode a b h = ground arith

pub is_name_iff : (s : String) (o : Option String) → (is_name s o ≡ true) ↔ (o ≡ some s)
is_name_iff s none = (λ h. cc h, λ e. cc e)
is_name_iff s (some t) =
    (λ h. ap (λ x. some x) ((eq_iff t s).0 h), λ e. let same : t ≡ s = cc in (eq_iff t s).1 same)
