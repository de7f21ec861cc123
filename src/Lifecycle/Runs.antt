-- ===== src/Lifecycle/Runs.antt =====
-- internal/templates/lifecycle.go: runs of allowed moves.
use selfservice_api.Base.{◌≡◌, refl, sym, ◌∙◌, inl, inr, List, [], ◌∷◌, none, true, String, In}
use selfservice_api.Lifecycle
use selfservice_api.Lifecycle.{
  allowed_transitions, find_state, can_transition, insert_sorted, sort_strings, allowed_next_states,
  is_terminal, is_known_state,
}
use selfservice_api.Lifecycle.Diagram.{
  State, draft, provisioning, configuring, generalizing, ready, verifying, active, error, name, ◌⟶◌,
  start, built, build_failed, generalize, cancel, generalized, generalize_failed, publish, discard,
  smoke_passed, verify_failed, unpublish, recover,
}
use selfservice_api.Lifecycle.Agreement.{can_transition-name, can_transition-⟶, known_name}

-- The code allows each move of the run that starts in `s` and goes through the list.
abbrev pub IsRun : String → List String → Type 0
IsRun s [] = Unit
IsRun s (t ∷ ts) = (can_transition s t ≡ none) × IsRun t ts

into_active : {x y : State} → x ⟶ y → name y ≡ Lifecycle.active → name x ≡ Lifecycle.verifying
into_active smoke_passed e = refl
into_active _ e = cc

before_active :
    (s t : String) → can_transition s t ≡ none → t ≡ Lifecycle.active → s ≡ Lifecycle.verifying
before_active s t h e =
    let (x, y, p, q, r) = (can_transition-⟶ s t).0 h in p ∙ into_active r (sym q ∙ e)

-- The smoke gate cannot be skipped: a run of allowed moves that gets to `active`, from whatever
-- string, stands in `verifying` on the way.
pub run_verified :
    (s : String) (ts : List String)
    → IsRun s ts
    → In Lifecycle.active ts
    → In Lifecycle.verifying (s ∷ ts)
run_verified s [] r h = elim h [ ]
run_verified s (t ∷ ts) r (inl e) = inl (before_active s t r.0 e)
run_verified s (t ∷ ts) r (inr h) = inr (run_verified t ts r.1 h)

onwards :
    {x y : State} (ts : List String) → x ⟶ y → IsRun (name y) ts → IsRun (name x) (name y ∷ ts)
onwards ts e r = (can_transition-name e, r)

abbrev to_active : List String
to_active =
    Lifecycle.provisioning ∷ Lifecycle.configuring ∷ Lifecycle.generalizing ∷ Lifecycle.ready
    ∷ Lifecycle.verifying ∷ Lifecycle.active ∷ []

publish-IsRun : IsRun Lifecycle.draft to_active
publish-IsRun = (
  can_transition-name start,
  (
    can_transition-name built,
    (
      can_transition-name generalize,
      (
        can_transition-name generalized,
        (can_transition-name publish, (can_transition-name smoke_passed, tt)),
      ),
    ),
  ),
)

-- A run from a state over `draft` to `active`.
abbrev pub Recovers : String → Type 0
Recovers s = (ts : List String) × IsRun s ts × In Lifecycle.active ts × In Lifecycle.draft (s ∷ ts)

abbrev ends : In Lifecycle.active to_active
ends = inr (inr (inr (inr (inr (inl refl)))))

-- From a state with an edge to `draft`.
by_draft : {x : State} → x ⟶ draft → Recovers (name x)
by_draft e =
    (Lifecycle.draft ∷ to_active, onwards to_active e publish-IsRun, inr ends, inr (inl refl))

-- From a state with an edge to `error` or `ready`.
by_step : {x y : State} → x ⟶ y → Recovers (name y) → Recovers (name x)
by_step {y = y} e (ts, r, a, d) = (name y ∷ ts, onwards ts e r, inr a, inr d)

name-Recovers : (x : State) → Recovers (name x)
name-Recovers draft = (to_active, publish-IsRun, ends, inl refl)
name-Recovers provisioning = by_step build_failed (by_draft recover)
name-Recovers configuring = by_draft cancel
name-Recovers generalizing = by_step generalize_failed (by_draft recover)
name-Recovers ready = by_draft discard
name-Recovers verifying = by_step verify_failed (by_draft recover)
name-Recovers active = by_step unpublish (by_draft discard)
name-Recovers error = by_draft recover

-- No known state is a dead end: allowed moves lead from it over `draft` to `active`.
pub known-Recovers : (s : String) → is_known_state s ≡ true → Recovers s
known-Recovers s h = let (x, p) = known_name s h in rw p (name-Recovers x)
