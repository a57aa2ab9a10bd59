-- ===== src/Authz/Principal/Order.antt =====
-- The stored events of a principal stay in the order of their dates, and a new event does not
-- change the state at an earlier instant.
use cool_sdk.Prelude.{
  ℕ, String, ◌≡◌, inl, inr, refl, ap, sym, ◌∙◌, subst, true, false, Option, none, some, List, [],
  ◌∷◌, ◌++◌, arith, Bool-cases, All, append-nil, append_assoc,
}
use cool_sdk.Authz.Principal.{
  PrincipalEvent, Standing, apply_kind, later, replay, insert_event, sort_events,
}

module _ (date_parse : String → Option ℕ) where
  abbrev pub IsBefore : PrincipalEvent → PrincipalEvent → Type 0
  IsBefore a b = later (date_parse a.at) (date_parse b.at) ≡ false

  abbrev pub Ordered : List PrincipalEvent → Type 0
  Ordered [] = Unit
  Ordered (x ∷ xs) = All (IsBefore x) xs × Ordered xs

  pub All-insert_event :
      (P : PrincipalEvent → Type 0) (ev : PrincipalEvent) (xs : List PrincipalEvent)
      → P ev
      → All P xs
      → All P (insert_event date_parse ev xs)
  unfolding insert_event
  All-insert_event P ev [] p all = (p, tt)
  All-insert_event P ev (x ∷ xs) p all =
      elim (Bool-cases (later (date_parse x.at) (date_parse ev.at))) [
        | inl here ↦ rw here (p, all)
        | inr further ↦ rw further (all.0, All-insert_event P ev xs p all.1)
      ]

  earlier-All :
      (ev y : PrincipalEvent) (ys : List PrincipalEvent)
      → later (date_parse y.at) (date_parse ev.at) ≡ true
      → All (IsBefore y) ys
      → All (IsBefore ev) ys
  earlier-All ev y [] h all = tt
  earlier-All ev y (z ∷ ys) h all = (
    through (date_parse y.at) (date_parse ev.at) (date_parse z.at) h all.0,
    earlier-All ev y ys h all.1,
  )
    where
      through : (y e z : Option ℕ) → later y e ≡ true → later y z ≡ false → later e z ≡ false
      through (some y) (some e) (some z) h k = ground arith
      through (some y) (some e) none h k = refl
      through (some y) none z h k = cc
      through none e z h k = cc

  pub insert_event-Ordered :
      (ev : PrincipalEvent) (xs : List PrincipalEvent)
      → Ordered xs
      → Ordered (insert_event date_parse ev xs)
  unfolding insert_event
  insert_event-Ordered ev [] o = (tt, tt)
  insert_event-Ordered ev (x ∷ xs) o =
      elim (Bool-cases (later (date_parse x.at) (date_parse ev.at))) [
        | inl here ↦
            rw here
              ((asym (date_parse x.at) (date_parse ev.at) here, earlier-All ev x xs here o.0), o)
        | inr further ↦
            rw further
              (All-insert_event (IsBefore x) ev xs further o.0, insert_event-Ordered ev xs o.1)
      ]
    where
      asym : (a b : Option ℕ) → later a b ≡ true → later b a ≡ false
      asym (some a) (some b) h = ground arith
      asym (some a) none h = refl
      asym none b h = cc

  pub sort_events-Ordered :
      (acc xs : List PrincipalEvent) → Ordered acc → Ordered (sort_events date_parse acc xs)
  unfolding sort_events
  sort_events-Ordered acc [] o = o
  sort_events-Ordered acc (x ∷ xs) o =
      sort_events-Ordered (insert_event date_parse x acc) xs (insert_event-Ordered x acc o)

  -- Behind events that are ordered, insertion puts each event where it stands.
  insert_event-last :
      (ev : PrincipalEvent) (xs ys : List PrincipalEvent)
      → Ordered (xs ++ ev ∷ ys)
      → insert_event date_parse ev xs ≡ xs ++ ev ∷ []
  unfolding insert_event
  insert_event-last ev [] ys o = refl
  insert_event-last ev (x ∷ xs) ys o =
      rw (before_last x xs ev ys o.0) (ap (x ∷◌) (insert_event-last ev xs ys o.1))
    where
      before_last :
          (x : PrincipalEvent) (xs : List PrincipalEvent) (ev : PrincipalEvent)
          (ys : List PrincipalEvent)
          → All (IsBefore x) (xs ++ ev ∷ ys)
          → later (date_parse x.at) (date_parse ev.at) ≡ false
      before_last x [] ev ys all = all.0
      before_last x (y ∷ xs) ev ys all = before_last x xs ev ys all.1

  pub sort_events-same :
      (acc xs : List PrincipalEvent)
      → Ordered (acc ++ xs)
      → sort_events date_parse acc xs ≡ acc ++ xs
  unfolding sort_events
  sort_events-same acc [] o = sym (append-nil acc)
  sort_events-same acc (x ∷ xs) o =
      let e = insert_event-last x acc xs o in
      let shift = append_assoc acc (x ∷ []) xs in
      rw e (sort_events-same (acc ++ x ∷ []) xs (subst Ordered (sym shift) o) ∙ shift)

  pub sort_events-last :
      (acc xs : List PrincipalEvent) (ev : PrincipalEvent)
      → sort_events date_parse acc (xs ++ ev ∷ [])
        ≡ insert_event date_parse ev (sort_events date_parse acc xs)
  unfolding sort_events
  sort_events-last acc [] ev = refl
  sort_events-last acc (x ∷ xs) ev = sort_events-last (insert_event date_parse x acc) xs ev

  pub replay-insert_event :
      (at : Option ℕ) (ev : PrincipalEvent) (xs : List PrincipalEvent) (s : Standing)
      → later (date_parse ev.at) at ≡ true
      → replay date_parse at (insert_event date_parse ev xs) s ≡ replay date_parse at xs s
  unfolding replay insert_event
  replay-insert_event at ev [] s h = rw h refl
  replay-insert_event at ev (x ∷ xs) s h =
      elim (Bool-cases (later (date_parse x.at) (date_parse ev.at))) [
        | inl here ↦ rw (here, h, beyond (date_parse x.at) (date_parse ev.at) at here h) refl
        | inr further ↦ rw (further, replay-insert_event at ev xs (apply_kind x.kind x s) h) refl
      ]
    where
      beyond : (x e a : Option ℕ) → later x e ≡ true → later e a ≡ true → later x a ≡ true
      beyond (some x) (some e) (some a) h k = ground arith
      beyond (some x) (some e) none h k = cc
      beyond (some x) none a h k = cc
      beyond none e a h k = cc
