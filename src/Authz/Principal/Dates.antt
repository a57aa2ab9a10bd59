-- ===== src/Authz/Principal/Dates.antt =====
-- `PrincipalDirectory.apply` keeps the events in chronological order, where all dates can be read.
use cool_sdk.Prelude.{
  ℕ, ◌≤◌, String, ◌≡◌, inl, inr, sym, subst, false, Option, some, List, [], ◌∷◌, ◌++◌, arith, All,
  Bool-cases, str_eq,
}
use cool_sdk.Prelude.Map
use cool_sdk.Prelude.Map.{get-set}
use cool_sdk.Codec.{Bytes}
use cool_sdk.Platform.Status.{Check}
use cool_sdk.Sign.{Crypto}
use cool_sdk.Sign.Object.{Signed}
use cool_sdk.Authz.Principal.{
  PrincipalRecord, PrincipalEvent, PrincipalDirectory, Entry, later, insert_event, sort_events,
  store_event, apply,
}
use cool_sdk.Authz.Principal.Order.{IsBefore, Ordered, All-insert_event, sort_events-Ordered}
use cool_sdk.Authz.Principal.Apply.{apply_cases}

module _ (date_parse : String → Option ℕ) where
  abbrev pub HasDate : PrincipalEvent → Type 0
  HasDate ev = (t : ℕ) × (date_parse ev.at ≡ some t)

  -- Each event has a date that can be read, no later than the date of any event after it.
  abbrev pub IsChronological : List PrincipalEvent → Type 0
  IsChronological [] = Unit
  IsChronological (x ∷ xs) =
      ((t : ℕ) × (date_parse x.at ≡ some t)
        × All (λ y. (u : ℕ) × (date_parse y.at ≡ some u) × (t ≤ u)) xs)
      × IsChronological xs

  dates_of : (xs : List PrincipalEvent) → IsChronological xs → All HasDate xs
  dates_of [] c = tt
  dates_of (x ∷ xs) ((t, read, after), c) = ((t, read), dates_of xs c)

  after_date :
      (x : PrincipalEvent) (t : ℕ) (ys : List PrincipalEvent)
      → date_parse x.at ≡ some t
      → All (IsBefore date_parse x) ys
      → All HasDate ys
      → All (λ y. (u : ℕ) × (date_parse y.at ≡ some u) × (t ≤ u)) ys
  after_date x t [] read before dates = tt
  after_date x t (y ∷ ys) read (first, before) ((u, read_y), dates) =
      ((u, read_y, ordered (rw (read, read_y) at first)), after_date x t ys read before dates)
    where
      ordered : later (some t) (some u) ≡ false → t ≤ u
      ordered h = ground arith

  Ordered-IsChronological :
      (xs : List PrincipalEvent) → Ordered date_parse xs → All HasDate xs → IsChronological xs
  Ordered-IsChronological [] o dates = tt
  Ordered-IsChronological (x ∷ xs) (before, o) ((t, read), dates) =
      ((t, read, after_date x t xs read before dates), Ordered-IsChronological xs o dates)

  All-sort_events :
      (P : PrincipalEvent → Type 0) (acc xs : List PrincipalEvent)
      → All P acc
      → All P xs
      → All P (sort_events date_parse acc xs)
  unfolding sort_events
  All-sort_events P acc [] all rest = all
  All-sort_events P acc (x ∷ xs) all (p, rest) =
      All-sort_events P (insert_event date_parse x acc) xs
        (All-insert_event date_parse P x acc p all) rest

  All-append_one :
      (P : PrincipalEvent → Type 0) (xs : List PrincipalEvent) (ev : PrincipalEvent)
      → All P xs
      → P ev
      → All P (xs ++ ev ∷ [])
  All-append_one P [] ev all p = (p, tt)
  All-append_one P (x ∷ xs) ev (q, all) p = (q, All-append_one P xs ev all p)

  sorted-IsChronological :
      (xs : List PrincipalEvent) (ev : PrincipalEvent)
      → IsChronological xs
      → HasDate ev
      → IsChronological (sort_events date_parse [] (xs ++ ev ∷ []))
  sorted-IsChronological xs ev c dated =
      Ordered-IsChronological (sort_events date_parse [] (xs ++ ev ∷ []))
        (sort_events-Ordered date_parse [] (xs ++ ev ∷ []) tt)
        (All-sort_events HasDate [] (xs ++ ev ∷ []) tt
          (All-append_one HasDate xs ev (dates_of xs c) dated))

  -- So it is for the events of each principal.
  abbrev pub KeepsTime : PrincipalDirectory → Type 0
  KeepsTime dir =
      (id : String) (e : Entry) → Map.get id dir.entries ≡ some e → IsChronological e.events

  store_event-KeepsTime :
      (dir : PrincipalDirectory) (e : Entry) (ev : PrincipalEvent)
      → KeepsTime dir
      → IsChronological e.events
      → HasDate ev
      → KeepsTime (store_event date_parse dir e ev)
  unfolding store_event
  store_event-KeepsTime dir e ev keeps c dated id found h =
      elim (Bool-cases (str_eq ev.principal_id id)) [
        | inl same ↦
            let read = rw (get-set ev.principal_id id _ dir.entries, same) at h in
            subst (λ x. IsChronological x.events) (some_inj read)
              (sorted-IsChronological e.events ev c dated)
        | inr other ↦ keeps id found (rw (get-set ev.principal_id id _ dir.entries, other) at h)
      ]
    where
      some_inj : {a b : Entry} → some a ≡ some b → a ≡ b
      some_inj q = cc

  module _ (c : Crypto) (encode_record : PrincipalRecord → Option Bytes)
      (encode_event : PrincipalEvent → Option Bytes) where
    -- Let all stored events have readable dates, in chronological order. Each run of `apply` on an
    -- event whose date can be read keeps this, whether the event is stored or refused.
    pub apply-KeepsTime :
        (dir after : PrincipalDirectory) (s : Signed PrincipalEvent) (k : Check)
        → KeepsTime dir
        → HasDate s.body
        → apply date_parse c encode_record encode_event dir s ≡ some (after, k)
        → KeepsTime after
    apply-KeepsTime dir after s k keeps dated h =
        elim (apply_cases date_parse c encode_record encode_event dir after s k h) [
          | inl same ↦ subst KeepsTime (sym same) keeps
          | inr (e, found, stored) ↦
              subst KeepsTime (sym stored)
                (store_event-KeepsTime dir e s.body keeps (keeps s.body.principal_id e found) dated)
        ]
