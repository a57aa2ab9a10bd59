-- ===== src/Authz/Scope/Gap.antt =====
-- An action or a resource that is the empty string hides what stands after it from `scopeExcess`.
use cool_sdk.Prelude.{String, ◌≡◌, refl, false, none, List, ◌∷◌, includes}
use cool_sdk.Authz.Scope.{Scope, amount_excess, is_covered, scope_excess}

-- Let the parent's actions lack the empty string, its resources not cover it, and its ceiling
-- bound the child's. Then `scopeExcess` finds no excess for a child whose actions and resources
-- each begin with the empty string, whatever the rest of the two lists grants.
pub scope_excess_hidden :
    (child parent : Scope) (granted reached : List String)
    → child.actions ≡ "" ∷ granted
    → child.resources ≡ "" ∷ reached
    → includes parent.actions "" ≡ false
    → is_covered parent.resources "" ≡ false
    → amount_excess child.max_amount parent.max_amount ≡ false
    → scope_excess child parent ≡ none
unfolding scope_excess
scope_excess_hidden child parent granted reached a r no_action no_resource m =
    rw (a, r, no_action, no_resource, m) refl
