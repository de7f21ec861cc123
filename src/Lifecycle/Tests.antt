-- ===== src/Lifecycle/Tests.antt =====
-- A template that is published, and one that tries to skip the smoke test.
use selfservice_api.Base.{◌≡◌, refl, ◌↔◌, [], ◌∷◌, none, some, In, inl, inr}
use selfservice_api.Lifecycle
use selfservice_api.Lifecycle.{
  find_state, has_state, can_transition, invalid_transition, unknown_to, insert_sorted,
  sort_strings, allowed_next_states, all_template_states, is_known_state,
}
use selfservice_api.Lifecycle.Diagram.{State, name, ◌⟶◌}
use selfservice_api.Lifecycle.Agreement.{can_transition-⟶}
use selfservice_api.Lifecycle.Runs.{IsRun, run_verified}

skip_refused : can_transition "ready" "active" ≡ some (invalid_transition "ready" "active")
unfolding can_transition find_state has_state
skip_refused = refl

unknown_refused : can_transition "ready" "archived" ≡ some (unknown_to "archived")
unfolding can_transition find_state has_state
unknown_refused = refl

offered : allowed_next_states "ready" ≡ some ("configuring" ∷ "draft" ∷ "verifying" ∷ [])
unfolding allowed_next_states find_state sort_strings insert_sorted
offered = refl

can_transition-⟶_example :
    (can_transition "draft" "provisioning" ≡ none)
    ↔ ((x : State) × (y : State) × ("draft" ≡ name x) × ("provisioning" ≡ name y) × (x ⟶ y))
can_transition-⟶_example = can_transition-⟶ "draft" "provisioning"

publishing : IsRun "ready" ("verifying" ∷ "active" ∷ [])
unfolding can_transition find_state has_state
publishing = (refl, (refl, tt))

run_verified_example : In Lifecycle.verifying ("ready" ∷ "verifying" ∷ "active" ∷ [])
run_verified_example =
    run_verified "ready" ("verifying" ∷ "active" ∷ []) publishing (inr (inl refl))
