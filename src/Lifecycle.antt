-- ===== src/Lifecycle.antt =====
-- internal/templates/lifecycle.go: which moves a template's state may make. States are the strings
-- of models.TemplateState*; a Go map is a list of pairs. An error carries what its text shows.
pub mod Diagram
pub mod Agreement
pub mod Runs
pub mod Choices
mod Tests
use selfservice_api.Base.{
  ℕ, List, [], ◌∷◌, map, Option, none, some, Bool, true, false, String, str_eq, if◌then◌else◌,
}
use Prim.Native.Nat.{Ordering}
use Prim.Native.String.{compare}

abbrev pub draft : String
draft = "draft"

abbrev pub provisioning : String
provisioning = "provisioning"

abbrev pub configuring : String
configuring = "configuring"

abbrev pub generalizing : String
generalizing = "generalizing"

abbrev pub ready : String
ready = "ready"

abbrev pub verifying : String
verifying = "verifying"

abbrev pub active : String
active = "active"

abbrev pub error : String
error = "error"

-- models.AllTemplateStates
abbrev pub all_template_states : List String
all_template_states =
    draft ∷ provisioning ∷ configuring ∷ generalizing ∷ ready ∷ verifying ∷ active ∷ error ∷ []

abbrev pub allowed_transitions : List (String × List String)
allowed_transitions =
    (draft, provisioning ∷ [])
    ∷ (provisioning, configuring ∷ error ∷ [])
    ∷ (configuring, generalizing ∷ draft ∷ [])
    ∷ (generalizing, ready ∷ error ∷ [])
    ∷ (ready, verifying ∷ configuring ∷ draft ∷ [])
    ∷ (verifying, active ∷ ready ∷ error ∷ [])
    ∷ (active, ready ∷ [])
    ∷ (error, draft ∷ [])
    ∷ []

pub data TransitionError : Type 0 where
  unknown_from : String → TransitionError
  unknown_to : String → TransitionError
  invalid_transition : String → String → TransitionError

unfoldable pub find_state : String → List (String × List String) → Option (List String)
find_state s [] = none
find_state s ((k, v) ∷ m) = if str_eq k s then some v else find_state s m

unfoldable pub has_state : String → List String → Bool
has_state s [] = false
has_state s (k ∷ ks) = if str_eq k s then true else has_state s ks

-- `none` is the nil error.
unfoldable pub can_transition : String → String → Option TransitionError
can_transition from to = elim (find_state from allowed_transitions) [
  | none ↦ some (unknown_from from)
  | some out ↦ elim (find_state to allowed_transitions) [
    | none ↦ some (unknown_to to)
    | some _ ↦ if has_state to out then none else some (invalid_transition from to)
  ]
]

-- sort.Strings: the order of texts is that of their bytes.
unfoldable pub insert_sorted : String → List String → List String
insert_sorted s [] = s ∷ []
insert_sorted s (k ∷ ks) = elim (compare s k) [
  | Ordering.gt ↦ k ∷ insert_sorted s ks
  | _ ↦ s ∷ k ∷ ks
]

unfoldable pub sort_strings : List String → List String
sort_strings [] = []
sort_strings (s ∷ ss) = insert_sorted s (sort_strings ss)

-- `none` is ErrUnknownState.
unfoldable pub allowed_next_states : String → Option (List String)
allowed_next_states from = elim (find_state from allowed_transitions) [
  | none ↦ none
  | some out ↦ some (sort_strings out)
]

unfoldable pub is_terminal : String → Bool
is_terminal state = elim (find_state state allowed_transitions) [
  | none ↦ false
  | some [] ↦ true
  | some (_ ∷ _) ↦ false
]

unfoldable pub is_known_state : String → Bool
is_known_state state = elim (find_state state allowed_transitions) [ none ↦ false | some _ ↦ true ]
