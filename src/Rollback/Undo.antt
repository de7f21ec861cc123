-- ===== src/Rollback/Undo.antt =====
-- internal/rollback/engine.go, Rollback: the loop over the recorded steps, last first.
use selfservice_api.Base.{
  ℕ, zero, suc, List, [], ◌∷◌, ◌++◌, Option, none, some, length, get_elem?, erase_at,
}
use selfservice_api.Rollback.{
  Step, Engine, UndoError, fence_failed, not_registered, undo_failed, checkpoint_failed, find_undo,
}
pub mod Loop
pub mod Remaining
pub mod Durable
pub mod Order

-- How one round of the loop leaves the remaining steps and the errors.
pub data Round (W E : Type 0) : Type 0 where
  continue_with : List Step → List (UndoError E) → W → Round W E
  return_with : List Step → List (UndoError E) → W → Round W E

module _ {W E : Type 0} where
  -- SaveRollbackSteps under the guard `e.persister != nil`.
  pub save_steps : Engine W E → List Step → W → Option E × W
  save_steps e steps w = elim e.persister [ none ↦ (none, w) | some p ↦ p.save e.job_id steps w ]

  -- The round after the undo function returned.
  pub after_undo : Engine W E → ℕ → Step → List Step → List (UndoError E) → Option E × W → Round W E
  unfolding save_steps
  after_undo e i step remaining errs (some err, w) =
      continue_with remaining (errs ++ undo_failed step.name err ∷ []) w
  after_undo e i step remaining errs (none, w) =
      let shorter = erase_at remaining i in
      let (failure, w') = save_steps e shorter w in
      elim failure [
        | none ↦ continue_with shorter errs w'
        | some err ↦ return_with remaining (errs ++ checkpoint_failed step.name err ∷ []) w'
      ]

  -- The round after the fence was written.
  pub run_undo : Engine W E → ℕ → Step → List Step → List (UndoError E) → W → Round W E
  unfolding after_undo
  run_undo e i step remaining errs w = elim (find_undo step.name e.undo_funcs) [
    | none ↦ continue_with remaining (errs ++ not_registered step.name ∷ []) w
    | some undo ↦ after_undo e i step remaining errs (undo step.payload w)
  ]

  -- One round of the loop. A failed fence drops the errors so far.
  unfoldable pub undo_round : Engine W E → ℕ → Step → List Step → List (UndoError E) → W → Round W E
  unfolding run_undo
  undo_round e i step remaining errs w =
      let (failure, w') = save_steps e remaining w in
      elim failure [
        | some err ↦ return_with remaining (fence_failed step.name err ∷ []) w'
        | none ↦ run_undo e i step remaining errs w'
      ]

  -- The loop, with `n` rounds to go. `remaining[i]` out of range would panic; here the loop stops.
  pub undo_loop :
      Engine W E → ℕ → List Step → List (UndoError E) → W → List Step × List (UndoError E) × W
  undo_loop e zero remaining errs w = (remaining, errs, w)
  undo_loop e (suc i) remaining errs w = elim (get_elem? remaining i) [
    | none ↦ (remaining, errs, w)
    | some step ↦ elim (undo_round e i step remaining errs w) [
      | continue_with rem errs' w' ↦ undo_loop e i rem errs' w'
      | return_with rem errs' w' ↦ (rem, errs', w')
    ]
  ]

  -- The errors, the engine with the steps that are left, and the world.
  unfoldable pub rollback : Engine W E → W → List (UndoError E) × Engine W E × W
  unfolding undo_loop
  rollback e w =
      let (remaining, errs, w') = undo_loop e (length e.steps) e.steps [] w in
      (errs, record e { steps = remaining }, w')
