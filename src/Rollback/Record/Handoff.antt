-- ===== src/Rollback/Record/Handoff.antt =====
-- The loop of Record over HandoffRollbackStep ends in time.
use selfservice_api.Base.{
  ℕ, zero, suc, [], ◌∷◌, ◌++◌, ◌+◌, ◌-◌, ◌*◌, ◌<◌, ◌≤◌, ◌≡◌, ◌≢◌, inl, inr, List, Option, none,
  some, Option-cases, String, arith, min,
}
use selfservice_api.Rollback.{
  Step, Engine, Persister, out_of_fuel, handoff_delay, record_cleanup_timeout,
}
use selfservice_api.Rollback.Record.{
  HandoffEnd, accepted, expired, exhausted, handoff_loop, handoff_fuel, hand_over, persist_failed,
  persist, append_step, record_step,
}

abbrev IsExhausted : {E : Type 0} → HandoffEnd E → Type 0
IsExhausted exhausted = Unit
IsExhausted _ = ⊥

late_delay : (attempt : ℕ) → 4 ≤ attempt → handoff_delay attempt ≡ 16000
late_delay attempt h = let e : min attempt 4 ≡ 4 = omega arith in rw e

module _ {W E : Type 0} (call : W → Option E × ℕ × W) where
  -- From here the loop does not run out of rounds, whatever the calls do.
  abbrev Ends : ℕ → ℕ → ℕ → Type 0
  Ends fuel attempt left = (w : W) → ¬ IsExhausted (handoff_loop fuel attempt left call w).0

  round-Ends :
      (fuel attempt left : ℕ)
      → ((left' : ℕ) (w : W)
          → left' + handoff_delay attempt ≤ left
          → ¬ IsExhausted (handoff_loop fuel (attempt + 1) left' call w).0)
      → Ends (suc fuel) attempt left
  unfolding handoff_loop
  round-Ends fuel attempt left next w =
      ground (arith, next (left - (call w).1 - handoff_delay attempt) (call w).2)

  -- From the fifth round on each costs sixteen seconds.
  late-Ends : (fuel attempt left : ℕ) → 4 ≤ attempt → left < 16000 * fuel → Ends fuel attempt left
  late-Ends zero attempt left a h = absurd (omega arith)
  late-Ends (suc fuel) attempt left a h = round-Ends fuel attempt left λ left' w b.
      late-Ends fuel (attempt + 1) left' (omega arith) (omega (arith, late_delay attempt a)) w

  pub handoff-Ends : Ends handoff_fuel 0 record_cleanup_timeout
  handoff-Ends = round-Ends 8 0 _ λ a w0 ha.
      round-Ends 7 1 a
        (λ b w1 hb.
          round-Ends 6 2 b
            (λ c w2 hc.
              round-Ends 5 3 c (λ d w3 hd. late-Ends 5 4 d (omega arith) (omega arith) w3) w2)
            w1)
        w0

  hand_over-fuel :
      (name : String) (e : E) (w : W)
      → (hand_over name e (handoff_loop handoff_fuel 0 record_cleanup_timeout call w)).0
        ≢ out_of_fuel
  unfolding hand_over
  hand_over-fuel name e w =
      go (handoff_loop handoff_fuel 0 record_cleanup_timeout call w) (handoff-Ends w)
    where
      go : (r : HandoffEnd E × W) → ¬ IsExhausted r.0 → (hand_over name e r).0 ≢ out_of_fuel
      go (accepted, w') h = λ q. cc
      go (expired x, w') h = λ q. cc
      go (exhausted, w') h = absurd (h tt)

module _ {W E : Type 0} where
  persist_failed-fuel :
      (p : Persister W E) (job : ℕ) (step : Step) (e : E) (w : W)
      → (persist_failed p job step e w).0 ≢ out_of_fuel
  unfolding persist_failed
  persist_failed-fuel p job step e w = elim (Option-cases p.handoff) [
    | inl q ↦ rw (persist_failed, q) (λ h. cc)
    | inr (call, q) ↦ rw (persist_failed, q) (hand_over-fuel (call job step) step.name e w)
  ]

  persist-fuel :
      (p : Option (Persister W E)) (job : ℕ) (step : Step) (steps : List Step) (w : W)
      → (persist p job step steps w).0 ≢ some out_of_fuel
  unfolding persist
  persist-fuel none job step steps w = λ h. cc
  persist-fuel (some p) job step steps w = elim (Option-cases (p.save job steps w).0) [
    | inl q ↦ rw (persist, q) (λ h. cc)
    | inr (e, q) ↦
        rw (persist, q) (λ h. persist_failed-fuel p job step e (p.save job steps w).1 (cc))
  ]

  append_step-fuel :
      (e : Engine W E) (step : Step) (w : W) → (append_step e step w).0 ≢ some out_of_fuel
  unfolding append_step
  append_step-fuel e step w =
      ground (arith, persist-fuel e.persister e.job_id step (e.steps ++ step ∷ []) w)

  -- The loop that hands a receipt over makes at most nine calls before its ninety seconds are gone,
  -- however long each call takes: Record always comes to an end, for every persister.
  pub record_step-fuel :
      {A : Type 0} (marshal : A → Option (List ℕ)) (e : Engine W E) (name : String) (value : A)
      (w : W)
      → (record_step marshal e name value w).0 ≢ some out_of_fuel
  unfolding record_step
  record_step-fuel marshal e name value w = elim (Option-cases (marshal value)) [
    | inl q ↦ rw (record_step, q) (λ h. cc)
    | inr (raw, q) ↦
        rw (record_step, q) (append_step-fuel e (record { name = name; payload = raw }) w)
  ]
