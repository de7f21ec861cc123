-- ===== src/Rollback/Journal.antt =====
-- What a crash leaves of a rollback: the writes to jobs.rollback_steps and the undo calls, in order.
use selfservice_api.Base.{◌≡◌, ◌⊎◌, List, [], ◌∷◌, none, some, In}
use selfservice_api.Rollback.{Step, Persister, Engine, UndoFunc, find_undo}

pub data Entry : Type 0 where
  saved : List Step → Entry
  undid : Step → Entry

-- Newest first.
abbrev pub Journal : Type 0
Journal = List Entry

-- What a successor reads after a crash: the last write.
abbrev pub durable : Journal → List Step
durable [] = []
durable (saved steps ∷ j) = steps
durable (undid step ∷ j) = durable j

-- Every undo call came when the stored steps still listed its step.
abbrev pub IsFenced : Journal → Type 0
IsFenced [] = Unit
IsFenced (saved steps ∷ j) = IsFenced j
IsFenced (undid step ∷ j) = In step (durable j) × IsFenced j

-- A write is made whole or not at all, and one that returns an error may still have been made. An undo
-- function does not write the steps itself.
pub record IsJournaled {W E : Type 0} (view : W → Journal) (e : Engine W E) (p : Persister W E)
    : Type 0 where
  pub stored : e.persister ≡ some p
  pub save_ok :
      (steps : List Step) (w : W)
      → (p.save e.job_id steps w).0 ≡ none
      → view (p.save e.job_id steps w).1 ≡ saved steps ∷ view w
  pub save_failed :
      (steps : List Step) (w : W) (err : E)
      → (p.save e.job_id steps w).0 ≡ some err
      → (view (p.save e.job_id steps w).1 ≡ view w)
        ⊎ (view (p.save e.job_id steps w).1 ≡ saved steps ∷ view w)
  pub undo_noted :
      (step : Step) (undo : UndoFunc W E) (w : W)
      → find_undo step.name e.undo_funcs ≡ some undo
      → view (undo step.payload w).1 ≡ undid step ∷ view w
