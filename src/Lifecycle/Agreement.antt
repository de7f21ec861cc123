-- ===== src/Lifecycle/Agreement.antt =====
-- The table of the code is the diagram.
use selfservice_api.Base.{
  ◌≡◌, refl, sym, ap, inl, inr, ◌↔◌, List, [], ◌∷◌, none, some, true, String, arith, str_eq,
  str_eq_iff, In, Option-cases, Bool-cases,
}
use selfservice_api.Lifecycle
use selfservice_api.Lifecycle.{
  allowed_transitions, all_template_states, find_state, has_state, can_transition, is_known_state,
}
use selfservice_api.Lifecycle.Diagram.{
  State, draft, provisioning, configuring, generalizing, ready, verifying, active, error, name, ◌⟶◌,
  start, built, build_failed, generalize, cancel, generalized, generalize_failed, publish,
  reconfigure, discard, smoke_passed, smoke_failed, verify_failed, unpublish, recover,
}

In-find_state :
    (s : String) (m : List (String × List String)) (out : List String)
    → find_state s m ≡ some out
    → In (s, out) m
unfolding find_state
In-find_state s [] out h = cc
In-find_state s ((k, v) ∷ m) out h = elim (Bool-cases (str_eq k s)) [
  | inl e ↦ inl (ground (arith, str_eq_iff k s))
  | inr e ↦ inr (In-find_state s m out (rw (find_state, e) at h))
]

In-has_state : (s : String) (ks : List String) → has_state s ks ≡ true → In s ks
unfolding has_state
In-has_state s [] h = cc
In-has_state s (k ∷ ks) h = elim (Bool-cases (str_eq k s)) [
  | inl e ↦ inl ((str_eq_iff k s).0 e)
  | inr e ↦ inr (In-has_state s ks (rw (has_state, e) at h))
]

-- The rows of the table, by state.
abbrev pub targets : State → List String
targets draft = Lifecycle.provisioning ∷ []
targets provisioning = Lifecycle.configuring ∷ Lifecycle.error ∷ []
targets configuring = Lifecycle.generalizing ∷ Lifecycle.draft ∷ []
targets generalizing = Lifecycle.ready ∷ Lifecycle.error ∷ []
targets ready = Lifecycle.verifying ∷ Lifecycle.configuring ∷ Lifecycle.draft ∷ []
targets verifying = Lifecycle.active ∷ Lifecycle.ready ∷ Lifecycle.error ∷ []
targets active = Lifecycle.ready ∷ []
targets error = Lifecycle.draft ∷ []

abbrev pub IsRow : String → List String → Type 0
IsRow s out = (x : State) × (s ≡ name x) × (out ≡ targets x)

row :
    (s : String) (out : List String) (x : State)
    → ◌≡◌ {A = String × List String} (name x, targets x) (s, out)
    → IsRow s out
row s out x e = (
  x,
  sym (ap (λ (p : String × List String). p.0) e),
  sym (ap (λ (p : String × List String). p.1) e),
)

IsRow-of_In : (s : String) (out : List String) → In (s, out) allowed_transitions → IsRow s out
IsRow-of_In s out (inl e) = row s out draft e
IsRow-of_In s out (inr (inl e)) = row s out provisioning e
IsRow-of_In s out (inr (inr (inl e))) = row s out configuring e
IsRow-of_In s out (inr (inr (inr (inl e)))) = row s out generalizing e
IsRow-of_In s out (inr (inr (inr (inr (inl e))))) = row s out ready e
IsRow-of_In s out (inr (inr (inr (inr (inr (inl e)))))) = row s out verifying e
IsRow-of_In s out (inr (inr (inr (inr (inr (inr (inl e))))))) = row s out active e
IsRow-of_In s out (inr (inr (inr (inr (inr (inr (inr (inl e)))))))) = row s out error e
IsRow-of_In s out (inr (inr (inr (inr (inr (inr (inr (inr f)))))))) = elim f [ ]

-- What the table lists for a string is a row of the diagram's.
pub find_state-IsRow :
    (s : String) (out : List String) → find_state s allowed_transitions ≡ some out → IsRow s out
find_state-IsRow s out h = IsRow-of_In s out (In-find_state s allowed_transitions out h)

pub find_state-name : (x : State) → find_state (name x) allowed_transitions ≡ some (targets x)
unfolding find_state
find_state-name draft = refl
find_state-name provisioning = refl
find_state-name configuring = refl
find_state-name generalizing = refl
find_state-name ready = refl
find_state-name verifying = refl
find_state-name active = refl
find_state-name error = refl

pub edge_of_In : (x : State) (t : String) → In t (targets x) → (y : State) × (t ≡ name y) × (x ⟶ y)
edge_of_In draft t (inl e) = (provisioning, sym e, start)
edge_of_In draft t (inr f) = elim f [ ]
edge_of_In provisioning t (inl e) = (configuring, sym e, built)
edge_of_In provisioning t (inr (inl e)) = (error, sym e, build_failed)
edge_of_In provisioning t (inr (inr f)) = elim f [ ]
edge_of_In configuring t (inl e) = (generalizing, sym e, generalize)
edge_of_In configuring t (inr (inl e)) = (draft, sym e, cancel)
edge_of_In configuring t (inr (inr f)) = elim f [ ]
edge_of_In generalizing t (inl e) = (ready, sym e, generalized)
edge_of_In generalizing t (inr (inl e)) = (error, sym e, generalize_failed)
edge_of_In generalizing t (inr (inr f)) = elim f [ ]
edge_of_In ready t (inl e) = (verifying, sym e, publish)
edge_of_In ready t (inr (inl e)) = (configuring, sym e, reconfigure)
edge_of_In ready t (inr (inr (inl e))) = (draft, sym e, discard)
edge_of_In ready t (inr (inr (inr f))) = elim f [ ]
edge_of_In verifying t (inl e) = (active, sym e, smoke_passed)
edge_of_In verifying t (inr (inl e)) = (ready, sym e, smoke_failed)
edge_of_In verifying t (inr (inr (inl e))) = (error, sym e, verify_failed)
edge_of_In verifying t (inr (inr (inr f))) = elim f [ ]
edge_of_In active t (inl e) = (ready, sym e, unpublish)
edge_of_In active t (inr f) = elim f [ ]
edge_of_In error t (inl e) = (draft, sym e, recover)
edge_of_In error t (inr f) = elim f [ ]

pub can_transition-name : {x y : State} → x ⟶ y → can_transition (name x) (name y) ≡ none
unfolding can_transition find_state has_state
can_transition-name start = refl
can_transition-name built = refl
can_transition-name build_failed = refl
can_transition-name generalize = refl
can_transition-name cancel = refl
can_transition-name generalized = refl
can_transition-name generalize_failed = refl
can_transition-name publish = refl
can_transition-name reconfigure = refl
can_transition-name discard = refl
can_transition-name smoke_passed = refl
can_transition-name smoke_failed = refl
can_transition-name verify_failed = refl
can_transition-name unpublish = refl
can_transition-name recover = refl

row_of_can_transition :
    (from to : String)
    → can_transition from to ≡ none
    → (out : List String) × (find_state from allowed_transitions ≡ some out)
      × (has_state to out ≡ true)
unfolding can_transition
row_of_can_transition from to h = elim (Option-cases (find_state from allowed_transitions)) [
  | inl e ↦ absurd (ground arith)
  | inr (out, e) ↦ (out, e, ground arith)
]

-- For any two strings, CanTransition allows the move exactly when they are the names of two states
-- of the diagram with an edge from the first to the second.
pub can_transition-⟶ :
    (from to : String)
    → (can_transition from to ≡ none)
      ↔ ((x : State) × (y : State) × (from ≡ name x) × (to ≡ name y) × (x ⟶ y))
can_transition-⟶ from to = (
  λ h.
      let (out, e, m) = row_of_can_transition from to h in
      let (x, p, q) = find_state-IsRow from out e in
      let (y, r, s) = edge_of_In x to (rw q at (In-has_state to out m)) in (x, y, p, r, s),
  λ (x, y, p, q, s). rw (p, q) (can_transition-name s),
)

In-name : (x : State) → In (name x) all_template_states
In-name draft = inl refl
In-name provisioning = inr (inl refl)
In-name configuring = inr (inr (inl refl))
In-name generalizing = inr (inr (inr (inl refl)))
In-name ready = inr (inr (inr (inr (inl refl))))
In-name verifying = inr (inr (inr (inr (inr (inl refl)))))
In-name active = inr (inr (inr (inr (inr (inr (inl refl))))))
In-name error = inr (inr (inr (inr (inr (inr (inr (inl refl)))))))

name_of_In : (s : String) → In s all_template_states → (x : State) × (s ≡ name x)
name_of_In s (inl e) = (draft, sym e)
name_of_In s (inr (inl e)) = (provisioning, sym e)
name_of_In s (inr (inr (inl e))) = (configuring, sym e)
name_of_In s (inr (inr (inr (inl e)))) = (generalizing, sym e)
name_of_In s (inr (inr (inr (inr (inl e))))) = (ready, sym e)
name_of_In s (inr (inr (inr (inr (inr (inl e)))))) = (verifying, sym e)
name_of_In s (inr (inr (inr (inr (inr (inr (inl e))))))) = (active, sym e)
name_of_In s (inr (inr (inr (inr (inr (inr (inr (inl e)))))))) = (error, sym e)
name_of_In s (inr (inr (inr (inr (inr (inr (inr (inr f)))))))) = elim f [ ]

pub known_name : (s : String) → is_known_state s ≡ true → (x : State) × (s ≡ name x)
unfolding is_known_state
known_name s h = elim (Option-cases (find_state s allowed_transitions)) [
  | inl e ↦ absurd (ground arith)
  | inr (out, e) ↦ let (x, p, q) = find_state-IsRow s out e in (x, p)
]

is_known_state-name : (x : State) → is_known_state (name x) ≡ true
unfolding is_known_state
is_known_state-name x = rw (is_known_state, find_state-name x)

-- The table has a row for exactly the states of models.AllTemplateStates.
pub is_known_state-In : (s : String) → (is_known_state s ≡ true) ↔ In s all_template_states
is_known_state-In s = (
  λ h. let (x, p) = known_name s h in rw p (In-name x),
  λ h. let (x, p) = name_of_In s h in rw p (is_known_state-name x),
)
