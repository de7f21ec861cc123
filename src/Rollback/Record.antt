-- ===== src/Rollback/Record.antt =====
-- internal/rollback/engine.go, Record: append a step, persist, and hand a lost receipt over.
use selfservice_api.Base.{
  ℕ, zero, suc, ◌+◌, ◌-◌, List, [], ◌∷◌, ◌++◌, Option, none, some, String, if◌then◌else◌, leb,
}
use selfservice_api.Rollback.{
  Step, Persister, Engine, RecordError, marshal_failed, uncertain_ownership, handed_to_successor,
  handoff_failed, out_of_fuel, is_recorded, handoff_delay, record_cleanup_timeout,
}
pub mod Handoff
pub mod Receipt

-- How the loop over HandoffRollbackStep ends.
pub data HandoffEnd (E : Type 0) : Type 0 where
  accepted : HandoffEnd E
  expired : E → HandoffEnd E
  exhausted : HandoffEnd E

-- The rounds that the deadline leaves room for.
abbrev pub handoff_fuel : ℕ
handoff_fuel = 9

module _ {W E : Type 0} where
  -- One round waits for the timer or for the deadline, whichever is first; where both fall on one
  -- instant the deadline is taken. `left` is the time until the deadline.
  unfoldable pub handoff_loop : ℕ → ℕ → ℕ → (W → Option E × ℕ × W) → W → HandoffEnd E × W
  handoff_loop zero attempt left call w = (exhausted, w)
  handoff_loop (suc fuel) attempt left call w =
      let (failure, elapsed, w') = call w in
      let rest = handoff_loop fuel (attempt + 1) (left - elapsed - handoff_delay attempt) call w' in
      elim failure [
        | none ↦ (accepted, w')
        | some e ↦ if leb (left - elapsed) (handoff_delay attempt) then (expired e, w') else rest
      ]

  pub hand_over : String → E → HandoffEnd E × W → RecordError E × W
  hand_over name e (accepted, w) = (handed_to_successor name e, w)
  hand_over name e (expired h, w) = (handoff_failed name e h, w)
  hand_over name e (exhausted, w) = (out_of_fuel, w)

  -- What Record does after SaveRollbackSteps returned an error.
  pub persist_failed : Persister W E → ℕ → Step → E → W → RecordError E × W
  unfolding hand_over
  persist_failed p job step e w = elim p.handoff [
    | none ↦ (uncertain_ownership step.name e, w)
    | some call ↦
        hand_over step.name e (handoff_loop handoff_fuel 0 record_cleanup_timeout (call job step) w)
  ]

  pub persist : Option (Persister W E) → ℕ → Step → List Step → W → Option (RecordError E) × W
  unfolding persist_failed
  persist none job step steps w = (none, w)
  persist (some p) job step steps w =
      let (failure, w') = p.save job steps w in
      elim failure [
        | none ↦ (none, w')
        | some e ↦ let (r, w'') = persist_failed p job step e w' in (some r, w'')
      ]

  -- After a failure the step stays in `steps`.
  unfoldable pub append_step : Engine W E → Step → W → Option (RecordError E) × Engine W E × W
  unfolding persist
  append_step e step w =
      if is_recorded step e.steps
      then (none, e, w)
      else (let steps = e.steps ++ step ∷ [] in
          let (failure, w') = persist e.persister e.job_id step steps w in
          (failure, record e { steps = steps }, w'))

  -- `marshal` is json.Marshal at the type of the step's data; `none` is its error.
  unfoldable pub record_step :
      {A : Type 0}
      → (A → Option (List ℕ))
      → Engine W E
      → String
      → A
      → W
      → Option (RecordError E) × Engine W E × W
  unfolding append_step
  record_step marshal e name value w = elim (marshal value) [
    | none ↦ (some marshal_failed, e, w)
    | some raw ↦ append_step e (record { name = name; payload = raw }) w
  ]
