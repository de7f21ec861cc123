-- ===== src/Rollback/Undo/Durable.antt =====
-- Rollback against a crash: the stored steps and the undo calls.
use selfservice_api.Base.{
  ℕ, ◌≡◌, refl, ◌⊎◌, inl, inr, List, [], ◌∷◌, ◌++◌, Option, none, some, arith, length, get_elem?,
  erase_at, In,
}
use selfservice_api.Rollback.{Step, Persister, Engine, UndoError, checkpoint_failed}
use selfservice_api.Rollback.Journal.{Journal, saved, undid, durable, IsFenced, IsJournaled}
use selfservice_api.Rollback.Undo.{Round, undo_round, rollback}
use selfservice_api.Rollback.Undo.Loop.{unwind, erase_at-unwind, Owes, loop_rule}

In-unwind : (todo : List Step) (x : Step) (kept : List Step) → In x kept → In x (unwind todo kept)
In-unwind [] x kept h = h
In-unwind (y ∷ todo) x kept h = In-unwind todo x (y ∷ kept) (inr h)

module _ {W E : Type 0} (view : W → Journal) (e : Engine W E) (p : Persister W E)
    (j : IsJournaled view e p) where
  -- The last call was a checkpoint that returned an error and was made all the same: the stored steps
  -- are the engine's but for one, whose undo function was called just before.
  pub record IsUnconfirmed (rem : List Step) (errs : List (UndoError E)) (w : W) : Type 0 where
    pub step : Step
    pub place : ℕ
    pub cause : E
    pub earlier : List (UndoError E)
    pub past : Journal
    pub reported : errs ≡ earlier ++ checkpoint_failed step.name cause ∷ []
    pub still_listed : get_elem? rem place ≡ some step
    pub noted : view w ≡ saved (erase_at rem place) ∷ undid step ∷ past

  abbrev Agree : List Step → List (UndoError E) → W → Type 0
  Agree rem _ w = durable (view w) ≡ rem

  abbrev Ends : List Step → List (UndoError E) → W → Type 0
  Ends rem errs w = (durable (view w) ≡ rem) ⊎ IsUnconfirmed rem errs w

  abbrev Promise : Step → List Step → List Step → Round W E → Type 0
  Promise step todo kept r = Owes (λ todo' kept'. Agree (unwind todo' kept')) Ends todo step kept r

  -- A write of `steps` in `w`.
  abbrev Saves : List Step → W → Option E → W → Type 0
  Saves steps w none w' = view w' ≡ saved steps ∷ view w
  Saves steps w (some err) w' = (view w' ≡ view w) ⊎ (view w' ≡ saved steps ∷ view w)

  Fenced-round :
      (step : Step) (todo kept : List Step) (errs : List (UndoError E)) (w : W)
      → IsFenced (view w)
      → Owes
          (λ todo' kept' _ w'. IsFenced (view w'))
          (λ _ _ w'. IsFenced (view w'))
          todo
          step
          kept
          (undo_round e (length todo) step (unwind todo (step ∷ kept)) errs w)
  unfolding undo_round
  Fenced-round step todo kept errs w h = grind (
    arith,
    j.stored,
    j.save_ok,
    j.save_failed,
    j.undo_noted,
    erase_at-unwind todo step kept,
    In-unwind todo step (step ∷ kept) (inl refl),
  )

  -- Whatever the stored steps are when Rollback starts, each undo function it calls is called while
  -- the stored steps list its step: the fence has been written before.
  pub rollback-IsFenced : (w : W) → IsFenced (view w) → IsFenced (view (rollback e w).2)
  rollback-IsFenced w f =
      loop_rule e (λ _ _ _ w'. IsFenced (view w')) (λ _ _ w'. IsFenced (view w'))
        (λ kept errs w' h. h) Fenced-round w f
