-- ===== src/Phala/Query.antt =====
-- src/phala/query.ts: filters, groups and the summary of receipts. `toLowerCase` and the comparison
-- of two times by `localeCompare` are parameters.
pub mod Fields
pub mod Meets
pub mod Found
pub mod Counts
use cool_sdk.Prelude.{
  ℕ, zero, suc, ◌+◌, ◌-◌, String, Bool, true, false, not, ◌&&◌, ◌||◌, Option, none, some, List, [],
  ◌∷◌, ltb, leb, ◌==◌, if◌then◌else◌, map, length, take, codes, str_eq, truthy, text_lt,
}
use cool_sdk.Prelude.Map
use cool_sdk.Prelude.Map.{Map}
use cool_sdk.Codec.{Text}
use cool_sdk.Phala.Receipt.{
  ChangeKind, Subject, event, change, ApprovalDecision, ChangeApproval, RuntimeMode, ReceiptV2,
  kind_text,
}
use cool_sdk.Phala.Policy.{contains, kinds_include}

pub data RecordKind : Type 0 where
  evidence change_kind : RecordKind

pub record Query : Type 0 where
  pub kind : Option RecordKind
  pub change_kinds : Option (List ChangeKind)
  pub subject : Option String
  pub environment : Option String
  pub actor : Option String
  pub decision : Option ApprovalDecision
  pub since : Option String
  pub until : Option String
  pub runtime : Option RuntimeMode
  pub limit : Option ℕ

abbrev pub name_of : Subject → String
name_of (event e) = e.event_type
name_of (change ch) = ch.target

unfoldable pub subject_of : ReceiptV2 → String
subject_of r = name_of r.signed.core.subject

abbrev pub actor_name : Subject → Option String
actor_name (event e) = none
actor_name (change ch) = some ch.actor.id

unfoldable pub actor_of : ReceiptV2 → Option String
actor_of r = actor_name r.signed.core.subject

abbrev pub environment_name : Subject → Option String
environment_name (event e) = none
environment_name (change ch) = some ch.environment

unfoldable pub environment_of : ReceiptV2 → Option String
environment_of r = environment_name r.signed.core.subject

abbrev pub is_change_subject : Subject → Bool
is_change_subject (event e) = false
is_change_subject (change ch) = true

-- `record.schema === "cool.change.v2"`
unfoldable pub is_change_record : ReceiptV2 → Bool
is_change_record r = is_change_subject r.signed.core.subject

abbrev pub decision_text : ApprovalDecision → String
decision_text ApprovalDecision.auto_approved = "auto-approved"
decision_text ApprovalDecision.approved = "approved"
decision_text ApprovalDecision.rejected = "rejected"
decision_text ApprovalDecision.waived = "waived"

abbrev pub has_decision : ApprovalDecision → Option ChangeApproval → Bool
has_decision d none = false
has_decision d (some a) = str_eq (decision_text a.decision) (decision_text d)

-- `record.change.approval?.decision === d` of a change
abbrev pub decided : ApprovalDecision → Subject → Bool
decided d (event e) = false
decided d (change ch) = has_decision d ch.approval

abbrev pub mode_index : RuntimeMode → ℕ
mode_index RuntimeMode.mock = 0
mode_index RuntimeMode.simulated = 1
mode_index RuntimeMode.hardware = 2

unfoldable pub has_mode : RuntimeMode → ReceiptV2 → Bool
has_mode mode r = mode_index r.signed.core.runtime.mode == mode_index mode

abbrev pub wrong_kind : Option RecordKind → Bool → Bool
wrong_kind none is_change = false
wrong_kind (some evidence) is_change = is_change
wrong_kind (some change_kind) is_change = not is_change

abbrev pub wrong_change : Option (List ChangeKind) → Subject → Bool
wrong_change none subject = false
wrong_change (some kinds) (event e) = true
wrong_change (some kinds) (change ch) = not (kinds_include kinds ch.kind)

-- An option that is given: an empty string is as none.
abbrev pub given : Option String → (String → Bool) → Bool
given none test = false
given (some s) test = truthy s && test s

abbrev pub is_name : String → Option String → Bool
is_name s none = false
is_name s (some t) = str_eq t s

abbrev pub wrong_runtime : Option RuntimeMode → ReceiptV2 → Bool
wrong_runtime none r = false
wrong_runtime (some mode) r = not (has_mode mode r)

abbrev pub wrong_decision : Option ApprovalDecision → Subject → Bool
wrong_decision none subject = false
wrong_decision (some d) subject = not (decided d subject)

unfoldable pub issued_at : ReceiptV2 → String
issued_at r = r.signed.core.time.issued_at

module _ (to_lower_case : String → Text) (locale_lt : String → String → Bool) where
  abbrev pub mentions : Option String → String → Bool
  mentions none part = false
  mentions (some name) part = truthy name && contains (to_lower_case name) (to_lower_case part)

  unfoldable pub matches : ReceiptV2 → Query → Bool
  matches r q =
      not (wrong_kind q.kind (is_change_record r))
      && not (wrong_change q.change_kinds r.signed.core.subject)
      && not (given q.environment (λ e. not (is_name e (environment_of r))))
      && not (wrong_runtime q.runtime r)
      && not
          (given q.subject (λ s. not (contains (to_lower_case (subject_of r)) (to_lower_case s))))
      && not (given q.actor (λ a. not (mentions (actor_of r) a)))
      && not (wrong_decision q.decision r.signed.core.subject)
      && not (given q.since (λ t. text_lt (codes (issued_at r)) (codes t)))
      && not (given q.until (λ t. text_lt (codes t) (codes (issued_at r))))

  unfoldable pub filter_matches : List ReceiptV2 → Query → List ReceiptV2
  filter_matches [] q = []
  filter_matches (r ∷ receipts) q =
      let rest = filter_matches receipts q in if matches r q then r ∷ rest else rest

  -- The stable sort, newest first.
  unfoldable pub insert_newest : ReceiptV2 → List ReceiptV2 → List ReceiptV2
  insert_newest r [] = r ∷ []
  insert_newest r (s ∷ sorted) =
      let rest = insert_newest r sorted in
      if locale_lt (issued_at r) (issued_at s) then s ∷ rest else r ∷ s ∷ sorted

  unfoldable pub sort_newest : List ReceiptV2 → List ReceiptV2
  sort_newest [] = []
  sort_newest (r ∷ receipts) = insert_newest r (sort_newest receipts)

  -- `q.limit ? found.slice(0, q.limit) : found`
  abbrev pub limited : Option ℕ → List ReceiptV2 → List ReceiptV2
  limited none found = found
  limited (some zero) found = found
  limited (some (suc n)) found = take (suc n) found

  unfoldable pub query : List ReceiptV2 → Query → List ReceiptV2
  query receipts q = limited q.limit (sort_newest (filter_matches receipts q))

abbrev pub or_zero : Option ℕ → ℕ
or_zero none = 0
or_zero (some n) = n

-- One round of the loop of `groupBy`.
unfoldable pub count_in : Map ℕ → String → Map ℕ
count_in counts bucket = Map.set bucket (suc (or_zero (Map.get bucket counts))) counts

unfoldable pub count_all : Map ℕ → List ReceiptV2 → (ReceiptV2 → String) → Map ℕ
count_all counts [] key = counts
count_all counts (r ∷ receipts) key = count_all (count_in counts (key r)) receipts key

unfoldable pub insert_count : String × ℕ → List (String × ℕ) → List (String × ℕ)
insert_count x [] = x ∷ []
insert_count x (y ∷ ys) =
    let rest = insert_count x ys in if ltb x.1 y.1 then y ∷ rest else x ∷ y ∷ ys

unfoldable pub sort_counts : List (String × ℕ) → List (String × ℕ)
sort_counts [] = []
sort_counts (x ∷ xs) = insert_count x (sort_counts xs)

unfoldable pub group_by : List ReceiptV2 → (ReceiptV2 → String) → List (String × ℕ)
group_by receipts key = sort_counts (count_all [] receipts key)

unfoldable pub keep : (ReceiptV2 → Bool) → List ReceiptV2 → List ReceiptV2
keep test [] = []
keep test (r ∷ receipts) = let rest = keep test receipts in if test r then r ∷ rest else rest

-- a ?? "—"
abbrev pub or_dash : Option String → String
or_dash none = "—"
or_dash (some s) = s

abbrev pub kind_name : Subject → String
kind_name (event e) = e.event_type
kind_name (change ch) = kind_text ch.kind

-- The first and the last time of the sorted times, by code units.
unfoldable pub earliest_of : List ReceiptV2 → Option String
earliest_of [] = none
earliest_of (r ∷ receipts) = some (least (earliest_of receipts))
  where
    least : Option String → String
    least none = issued_at r
    least (some t) = if text_lt (codes t) (codes (issued_at r)) then t else issued_at r

unfoldable pub latest_of : List ReceiptV2 → Option String
latest_of [] = none
latest_of (r ∷ receipts) = some (greatest (latest_of receipts))
  where
    greatest : Option String → String
    greatest none = issued_at r
    greatest (some t) = if text_lt (codes t) (codes (issued_at r)) then issued_at r else t

pub record Summary : Type 0 where
  pub total : ℕ
  pub evidence : ℕ
  pub changes : ℕ
  pub by_kind : List (String × ℕ)
  pub by_environment : List (String × ℕ)
  pub by_actor : List (String × ℕ)
  pub needing_review : ℕ
  pub hardware : ℕ
  pub simulated : ℕ
  pub earliest : Option String
  pub latest : Option String

unfoldable pub summarise : List ReceiptV2 → Summary
summarise receipts =
    let changes = keep is_change_record receipts in
    record {
      total = length receipts;
      evidence = length receipts - length changes;
      changes = length changes;
      by_kind = group_by receipts (λ r. kind_name r.signed.core.subject);
      by_environment = group_by changes (λ r. or_dash (environment_of r));
      by_actor = group_by changes (λ r. or_dash (actor_of r));
      needing_review =
          length (keep (λ r. decided ApprovalDecision.rejected r.signed.core.subject) changes);
      hardware = length (keep (has_mode RuntimeMode.hardware) receipts);
      simulated = length (keep (has_mode RuntimeMode.simulated) receipts);
      earliest = earliest_of receipts;
      latest = latest_of receipts;
    }
