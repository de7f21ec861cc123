-- ===== src/Lifecycle/Choices.antt =====
-- internal/templates/lifecycle.go: AllowedNextStates, the list of next states that the UI is given.
use selfservice_api.Base.{
  ◌≡◌, refl, sym, ap, ◌∙◌, inl, inr, ◌↔◌, List, [], ◌∷◌, Option, none, some, Bool, true, false,
  str_eq, if◌then◌else◌, ◌&&◌, String, arith, In, Option-cases,
}
use mathlib.Core.Option.{some_inj}
use Prim.Native.Nat.{Ordering}
use Prim.Native.String.{compare}
use selfservice_api.Lifecycle
use selfservice_api.Lifecycle.{
  allowed_transitions, find_state, can_transition, insert_sorted, sort_strings, allowed_next_states,
  is_terminal, is_known_state,
}
use selfservice_api.Lifecycle.Diagram.{
  State, draft, provisioning, configuring, generalizing, ready, verifying, active, error, name, ◌⟶◌,
  start, built, build_failed, generalize, cancel, generalized, generalize_failed, publish,
  reconfigure, discard, smoke_passed, smoke_failed, verify_failed, unpublish, recover,
}
use selfservice_api.Lifecycle.Agreement.{targets, find_state-IsRow, edge_of_In, can_transition-⟶}

In-insert_sorted : (t s : String) (ks : List String) → In t (insert_sorted s ks) ↔ In t (s ∷ ks)
unfolding insert_sorted
In-insert_sorted t s [] = (λ h. h, λ h. h)
In-insert_sorted t s (k ∷ ks) = go (compare s k) refl (In-insert_sorted t s ks)
  where
    go :
        (o : Ordering)
        → compare s k ≡ o
        → In t (insert_sorted s ks) ↔ In t (s ∷ ks)
        → In t (insert_sorted s (k ∷ ks)) ↔ In t (s ∷ k ∷ ks)
    go Ordering.lt e ih = rw (insert_sorted, e) (λ h. h, λ h. h)
    go Ordering.eq e ih = rw (insert_sorted, e) (λ h. h, λ h. h)
    go Ordering.gt e ih =
        rw (insert_sorted, e)
          (
            λ h. elim h [
              | inl q ↦ inr (inl q)
              | inr r ↦ elim (ih.0 r) [ inl q ↦ inl q | inr q ↦ inr (inr q) ]
            ],
            λ h. elim h [
              | inl q ↦ inr (ih.1 (inl q))
              | inr r ↦ elim r [ inl q ↦ inl q | inr q ↦ inr (ih.1 (inr q)) ]
            ],
          )

In-sort_strings : (t : String) (ks : List String) → In t (sort_strings ks) ↔ In t ks
unfolding sort_strings
In-sort_strings t [] = (λ h. h, λ h. h)
In-sort_strings t (k ∷ ks) =
    let front = In-insert_sorted t k (sort_strings ks) in
    let rest = In-sort_strings t ks in
    (
      λ h. elim (front.0 h) [ inl q ↦ inl q | inr r ↦ inr (rest.0 r) ],
      λ h. elim h [ inl q ↦ front.1 (inl q) | inr r ↦ front.1 (inr (rest.1 r)) ],
    )

row_of_next :
    (s : String) (next : List String)
    → allowed_next_states s ≡ some next
    → (x : State) × (s ≡ name x) × (next ≡ sort_strings (targets x))
unfolding allowed_next_states
row_of_next s next h = elim (Option-cases (find_state s allowed_transitions)) [
  | inl e ↦ absurd (ground arith)
  | inr (out, e) ↦
      let (x, p, q) = find_state-IsRow s out e in
      let r : next ≡ sort_strings out = ground arith in (x, p, r ∙ ap sort_strings q)
]

In-targets : {x y : State} → x ⟶ y → In (name y) (targets x)
In-targets start = inl refl
In-targets built = inl refl
In-targets build_failed = inr (inl refl)
In-targets generalize = inl refl
In-targets cancel = inr (inl refl)
In-targets generalized = inl refl
In-targets generalize_failed = inr (inl refl)
In-targets publish = inl refl
In-targets reconfigure = inr (inl refl)
In-targets discard = inr (inr (inl refl))
In-targets smoke_passed = inl refl
In-targets smoke_failed = inr (inl refl)
In-targets verify_failed = inr (inr (inl refl))
In-targets unpublish = inl refl
In-targets recover = inl refl

state_of : String → Option State
state_of s =
    if str_eq s Lifecycle.draft
    then some draft
    else if str_eq s Lifecycle.provisioning
    then some provisioning
    else if str_eq s Lifecycle.configuring
    then some configuring
    else if str_eq s Lifecycle.generalizing
    then some generalizing
    else if str_eq s Lifecycle.ready
    then some ready
    else if str_eq s Lifecycle.verifying
    then some verifying
    else if str_eq s Lifecycle.active
    then some active
    else if str_eq s Lifecycle.error
    then some error
    else none

state_of-name : (x : State) → state_of (name x) ≡ some x
unfolding state_of
state_of-name draft = refl
state_of-name provisioning = refl
state_of-name configuring = refl
state_of-name generalizing = refl
state_of-name ready = refl
state_of-name verifying = refl
state_of-name active = refl
state_of-name error = refl

name-injective : (x y : State) → name x ≡ name y → x ≡ y
name-injective x y h = some_inj.0 (sym (state_of-name x) ∙ ap state_of h ∙ state_of-name y)

-- In the order of the texts, none twice.
abbrev pub is_ascending : List String → Bool
is_ascending [] = true
is_ascending (s ∷ []) = true
is_ascending (s ∷ t ∷ ts) =
    (elim (compare s t) [ Ordering.lt ↦ true | _ ↦ false ]) && is_ascending (t ∷ ts)

targets_ascend : (x : State) → is_ascending (sort_strings (targets x)) ≡ true
unfolding sort_strings insert_sorted
targets_ascend draft = refl
targets_ascend provisioning = refl
targets_ascend configuring = refl
targets_ascend generalizing = refl
targets_ascend ready = refl
targets_ascend verifying = refl
targets_ascend active = refl
targets_ascend error = refl

-- What the UI is offered for a known state, in ascending order, is exactly what CanTransition
-- allows from it.
pub allowed_next_states-can_transition :
    (s : String) (next : List String)
    → allowed_next_states s ≡ some next
    → ((t : String) → In t next ↔ (can_transition s t ≡ none)) × (is_ascending next ≡ true)
allowed_next_states-can_transition s next h = (both, rw q (targets_ascend x))
  where
    x : State
    x = (row_of_next s next h).0

    p : s ≡ name x
    p = (row_of_next s next h).1

    q : next ≡ sort_strings (targets x)
    q = (row_of_next s next h).2

    back :
        (t : String)
        → (x' : State) × (y : State) × (s ≡ name x') × (t ≡ name y) × (x' ⟶ y)
        → In t (targets x)
    back t (x', y, p', q', r) = rw (q', name-injective x x' (sym p ∙ p')) (In-targets r)

    both : (t : String) → In t next ↔ (can_transition s t ≡ none)
    both t = rw q (
      λ i.
          let (y, e, r) = edge_of_In x t ((In-sort_strings t (targets x)).0 i) in
          (can_transition-⟶ s t).1 (x, y, p, e, r),
      λ c. (In-sort_strings t (targets x)).1 (back t ((can_transition-⟶ s t).0 c)),
    )

has_target : (x : State) → ◌≡◌ {A = Bool} (elim (targets x) [ [] ↦ true | _ ∷ _ ↦ false ]) false
has_target draft = refl
has_target provisioning = refl
has_target configuring = refl
has_target generalizing = refl
has_target ready = refl
has_target verifying = refl
has_target active = refl
has_target error = refl

-- No state is terminal.
is_terminal-eq-false : (s : String) → is_terminal s ≡ false
unfolding is_terminal
is_terminal-eq-false s = elim (Option-cases (find_state s allowed_transitions)) [
  | inl e ↦ rw (is_terminal, e)
  | inr (out, e) ↦ let (x, p, q) = find_state-IsRow s out e in rw (is_terminal, e, q) (has_target x)
]
