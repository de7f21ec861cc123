-- ===== src/Leases/Exclusive.antt =====
-- internal/worklease/lease.go: RunExclusive and TryRun.
use selfservice_api.Base.{
  ℕ, ◌≡◌, ◌≢◌, refl, sym, ◌∙◌, ◌↔◌, List, [], ◌∷◌, Option, none, some, Bool, false, inl, inr, ◌⊎◌,
}
use selfservice_api.Leases.{
  Pulse, beating, finished, lost, expired, ClaimReply, claim_failed, refused, granted, ParentCause,
  canceled, deadline_exceeded, RunError, LeaseCall, ran, released, returned_cause, run_exclusive,
  is_not_claimed, try_run,
}
use selfservice_api.Leases.Takeover.{HasStopped}

module _ {E : Type 0} where
  -- A run that may count as done: fn was called under the lease and returned nil, the heartbeat had
  -- not given the lease up, and the caller's deadline had not passed.
  abbrev pub IsDone : ClaimReply E → Option E → Pulse → Option ParentCause → Type 0
  IsDone claim run pulse parent =
      ((token : ℕ) × (generation : ℕ) × (claim ≡ granted token generation))
      × (run ≡ none)
      × (HasStopped pulse → ⊥)
      × (parent ≢ some deadline_exceeded)

  cause_nil :
      (pulse : Pulse) (parent : Option ParentCause)
      → (returned_cause {E = E} pulse parent ≡ none)
        ↔ ((HasStopped pulse → ⊥) × (parent ≢ some deadline_exceeded))
  unfolding returned_cause
  cause_nil lost parent = (λ h. cc, λ (a, b). absurd (a tt))
  cause_nil expired parent = (λ h. cc, λ (a, b). absurd (a tt))
  cause_nil finished none = (λ h. (λ s. s, λ e. cc), λ _. refl)
  cause_nil finished (some canceled) = (λ h. (λ s. s, λ e. cc), λ _. refl)
  cause_nil finished (some deadline_exceeded) = (λ h. cc, λ (a, b). absurd (b refl))
  cause_nil (beating t) none = (λ h. (λ s. s, λ e. cc), λ _. refl)
  cause_nil (beating t) (some canceled) = (λ h. (λ s. s, λ e. cc), λ _. refl)
  cause_nil (beating t) (some deadline_exceeded) = (λ h. cc, λ (a, b). absurd (b refl))

  not_granted : {e : E} {t g : ℕ} → claim_failed e ≡ granted t g → ⊥
  not_granted h = cc

  refused_not_granted : {t g : ℕ} → ◌≡◌ {A = ClaimReply E} refused (granted t g) → ⊥
  refused_not_granted h = cc

  some_not_none : {e : E} → some e ≡ none → ⊥
  some_not_none h = cc

  -- RunExclusive returns nil exactly if fn ran under a granted lease and returned nil, and until
  -- then neither the heartbeat had stopped nor the caller's deadline had passed.
  pub run_exclusive-IsDone :
      (claim : ClaimReply E) (run : Option E) (pulse : Pulse) (parent : Option ParentCause)
      → ((run_exclusive claim run pulse parent).0 ≡ none) ↔ IsDone claim run pulse parent
  unfolding run_exclusive
  run_exclusive-IsDone (claim_failed e) run pulse parent =
      (λ h. cc, λ d. absurd (not_granted d.0.2))
  run_exclusive-IsDone refused run pulse parent = (λ h. cc, λ d. absurd (refused_not_granted d.0.2))
  run_exclusive-IsDone (granted t g) (some e) pulse parent =
      (λ h. cc, λ d. absurd (some_not_none d.1))
  run_exclusive-IsDone (granted t g) none pulse parent =
      let nil = cause_nil pulse parent in
      (λ h. ((t, g, refl), refl, (nil.0 h).0, (nil.0 h).1), λ d. nil.1 (d.2, d.3))

  abbrev pub refusals : ClaimReply E → List LeaseCall
  refusals (granted token generation) = ran token generation ∷ released token ∷ []
  refusals _ = []

  through :
      (claim : ClaimReply E) (run : Option E) (pulse : Pulse) (parent : Option ParentCause)
      (result : Option (RunError E))
      → claim ≢ refused
      → result ≡ (run_exclusive claim run pulse parent).0
      → (result ≡ none) ↔ ((claim ≡ refused) ⊎ IsDone claim run pulse parent)
  through claim run pulse parent result c e =
      let done = run_exclusive-IsDone claim run pulse parent in
      (λ h. inr (done.0 (sym e ∙ h)), λ s. elim s [ inl r ↦ absurd (c r) | inr d ↦ e ∙ done.1 d ])

  -- If no error of the store or of fn says that a lease was not claimed: TryRun calls fn, and then
  -- releases the token it was granted, exactly if the lease is granted; it returns nil where
  -- RunExclusive does, and also where the lease is refused.
  pub try_run-IsDone :
      (wraps : E → Bool) (claim : ClaimReply E) (run : Option E) (pulse : Pulse)
      (parent : Option ParentCause)
      → ((e : E) → wraps e ≡ false)
      → ((try_run wraps claim run pulse parent).1 ≡ refusals claim)
        × (((try_run wraps claim run pulse parent).0 ≡ none)
            ↔ ((claim ≡ refused) ⊎ IsDone claim run pulse parent))
  unfolding try_run run_exclusive is_not_claimed returned_cause
  try_run-IsDone wraps (claim_failed e) run pulse parent w =
      rw (w e) (refl, through (claim_failed e) run pulse parent _ (λ h. cc) refl)
  try_run-IsDone wraps refused run pulse parent w = (refl, (λ _. inl refl, λ _. refl))
  try_run-IsDone wraps (granted t g) (some e) pulse parent w =
      rw (w e) (refl, through (granted t g) (some e) pulse parent _ (λ h. cc) refl)
  try_run-IsDone wraps (granted t g) none lost parent w =
      (refl, through (granted t g) none lost parent _ (λ h. cc) refl)
  try_run-IsDone wraps (granted t g) none expired parent w =
      (refl, through (granted t g) none expired parent _ (λ h. cc) refl)
  try_run-IsDone wraps (granted t g) none finished none w =
      (refl, through (granted t g) none finished none _ (λ h. cc) refl)
  try_run-IsDone wraps (granted t g) none finished (some canceled) w =
      (refl, through (granted t g) none finished (some canceled) _ (λ h. cc) refl)
  try_run-IsDone wraps (granted t g) none finished (some deadline_exceeded) w =
      (refl, through (granted t g) none finished (some deadline_exceeded) _ (λ h. cc) refl)
  try_run-IsDone wraps (granted t g) none (beating b) none w =
      (refl, through (granted t g) none (beating b) none _ (λ h. cc) refl)
  try_run-IsDone wraps (granted t g) none (beating b) (some canceled) w =
      (refl, through (granted t g) none (beating b) (some canceled) _ (λ h. cc) refl)
  try_run-IsDone wraps (granted t g) none (beating b) (some deadline_exceeded) w =
      (refl, through (granted t g) none (beating b) (some deadline_exceeded) _ (λ h. cc) refl)
