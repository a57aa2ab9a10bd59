-- ===== src/Authz/Replay/Once.antt =====
-- The in-process store lets each nonce be consumed once.
use cool_sdk.Prelude.{
  String, ◌≡◌, refl, ap, sym, ◌∙◌, Option, none, some, List, [], ◌∷◌, str_eq, eq_iff, Bool-cases,
  inl, inr,
}
use cool_sdk.Prelude.Map
use cool_sdk.Prelude.Map.{Map, get-set}
use cool_sdk.Authz.Replay.{replayed, Use, nonce_key, consume, consume_at, consume_all}

abbrev Holds : Map String → String → Type 0
Holds used key = (holder : String) × (Map.get key used ≡ some holder)

set-Holds : (used : Map String) (k id key : String) → Holds used key → Holds (Map.set k id used) key
set-Holds used k id key (holder, h) = elim (Bool-cases (str_eq k key)) [
  | inl same ↦ (id, rw (get-set k key id used, same) refl)
  | inr other ↦ (holder, rw (get-set k key id used, other) h)
]

consume-Holds :
    (used : Map String) (u : Use) (key : String) → Holds used key → Holds (consume used u).0 key
unfolding consume
consume-Holds used u key h = at_key (Map.get (nonce_key u.scope u.nonce) used)
  where
    at_key :
        (o : Option String)
        → Holds (consume_at used (nonce_key u.scope u.nonce) u.request_id o).0 key
    at_key none = set-Holds used (nonce_key u.scope u.nonce) u.request_id key h
    at_key (some holder) = h

consume_all-Holds :
    (used : Map String) (uses : List Use) (key : String)
    → Holds used key
    → Holds (consume_all used uses) key
unfolding consume_all
consume_all-Holds used [] key h = h
consume_all-Holds used (u ∷ uses) key h =
    consume_all-Holds (consume used u).0 uses key (consume-Holds used u key h)

consume_stores :
    (used : Map String) (u : Use) → Holds (consume used u).0 (nonce_key u.scope u.nonce)
unfolding consume
consume_stores used u = at_key (Map.get (nonce_key u.scope u.nonce) used) refl
  where
    at_key :
        (o : Option String)
        → Map.get (nonce_key u.scope u.nonce) used ≡ o
        → Holds
            (consume_at used (nonce_key u.scope u.nonce) u.request_id o).0
            (nonce_key u.scope u.nonce)
    at_key (some holder) e = (holder, e)
    at_key none e = (
      u.request_id,
      rw
          (
            get-set (nonce_key u.scope u.nonce) (nonce_key u.scope u.nonce) u.request_id used,
            (eq_iff (nonce_key u.scope u.nonce) (nonce_key u.scope u.nonce)).1 refl,
          )
          refl,
    )

-- After a call of `consume`, and after any further calls, a call with the same key answers
-- `replayed`, whatever the request.
pub consume-replayed :
    (used : Map String) (first again : Use) (between : List Use)
    → nonce_key first.scope first.nonce ≡ nonce_key again.scope again.nonce
    → (consume (consume_all (consume used first).0 between) again).1 ≡ replayed
unfolding consume
consume-replayed used first again between same =
    let (holder, held) =
      consume_all-Holds (consume used first).0 between (nonce_key first.scope first.nonce)
        (consume_stores used first) in
    ap
      (λ o.
        (consume_at (consume_all (consume used first).0 between) (nonce_key again.scope again.nonce)
          again.request_id o).1)
      (ap (λ key. Map.get key (consume_all (consume used first).0 between)) (sym same) ∙ held)
