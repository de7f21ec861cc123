-- ===== src/Rollback/Undo/Order.antt =====
-- Rollback where nothing fails: the undo functions run once each, last step first.
use selfservice_api.Base.{◌≡◌, refl, List, [], ◌∷◌, reverse, Option, none, some, arith, length}
use selfservice_api.Rollback.{Step, Engine, UndoError, find_undo}
use selfservice_api.Rollback.Undo.{undo_round, rollback}
use selfservice_api.Rollback.Undo.Loop.{unwind, erase_at-unwind, Owes, loop_rule}

module _ {W E : Type 0} where
  abbrev world_of : Option E × W → Option W
  world_of (none, w) = some w
  world_of (some err, w) = none

  -- One undo; `none` if it is not registered or fails.
  abbrev pub undo_one : Engine W E → Step → W → Option W
  undo_one e step w = elim (find_undo step.name e.undo_funcs) [
    | none ↦ none
    | some undo ↦ world_of (undo step.payload w)
  ]

  -- The undo functions in the order of the list.
  abbrev pub undo_each : Engine W E → List Step → W → Option W
  undo_each e [] w = some w
  undo_each e (step ∷ todo) w = elim (undo_one e step w) [
    | none ↦ none
    | some w' ↦ undo_each e todo w'
  ]

  module _ (e : Engine W E) (final : W) (unstored : e.persister ≡ none) where
    abbrev Ahead : List Step → List Step → List (UndoError E) → W → Type 0
    Ahead todo kept errs w = (undo_each e todo w ≡ some final) × (kept ≡ []) × (errs ≡ [])

    abbrev Done : List Step → List (UndoError E) → W → Type 0
    Done rem errs w = (w ≡ final) × (rem ≡ []) × (errs ≡ [])

    order_round :
        (step : Step) (todo kept : List Step) (errs : List (UndoError E)) (w : W)
        → Ahead (step ∷ todo) kept errs w
        → Owes Ahead Done todo step kept
            (undo_round e (length todo) step (unwind todo (step ∷ kept)) errs w)
    unfolding undo_round
    order_round step todo kept errs w h = ground (arith, erase_at-unwind todo step kept)

    -- With no persister: if the undo functions succeed one after the other, from the last recorded
    -- step to the first, then Rollback ends in the world that they lead to, with no step left and
    -- no error.
    pub rollback-undo_each :
        (w : W)
        → undo_each e (reverse e.steps) w ≡ some final
        → ((rollback e w).2 ≡ final) × ((rollback e w).1.steps ≡ []) × ((rollback e w).0 ≡ [])
    rollback-undo_each w h =
        loop_rule e Ahead Done (λ kept errs w' a. (ground arith, a.1, a.2)) order_round w
          (h, refl, refl)
