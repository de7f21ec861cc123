-- ===== src/Rollback/Undo/Remaining.antt =====
-- What Rollback leaves in the engine.
use mathlib.Core.List.{Sublist}
use mathlib.Core.List.Sublist
use selfservice_api.Base.{
  ◌≡◌, refl, sym, ap, ◌∙◌, ◌↔◌, Bool, true, false, List, [], ◌∷◌, ◌++◌, arith, length,
}
use selfservice_api.Rollback.{Step, Engine, UndoError}
use selfservice_api.Rollback.Undo.{undo_round, rollback}
use selfservice_api.Rollback.Undo.Loop.{unwind, unwind_all, erase_at-unwind, Owes, loop_rule}

abbrev is_nil {ℓ} : {A : Type ℓ} → List A → Bool
is_nil [] = true
is_nil (_ ∷ _) = false

is_nil-unwind :
    (todo : List Step) (x : Step) (kept : List Step) → is_nil (unwind todo (x ∷ kept)) ≡ false
is_nil-unwind [] x kept = refl
is_nil-unwind (y ∷ todo) x kept = is_nil-unwind todo y (x ∷ kept)

is_nil-snoc {ℓ} : {A : Type ℓ} (xs : List A) (x : A) → is_nil (xs ++ x ∷ []) ≡ false
is_nil-snoc [] x = refl
is_nil-snoc (_ ∷ _) x = refl

unwind-sublist :
    (todo : List Step) {xs ys : List Step}
    → Sublist xs ys
    → Sublist (unwind todo xs) (unwind todo ys)
unwind-sublist [] h = h
unwind-sublist (x ∷ todo) h = unwind-sublist todo (Sublist.cons-cons x h)

nil_of_is_nil {ℓ} : {A : Type ℓ} (xs : List A) → is_nil xs ≡ true → xs ≡ []
nil_of_is_nil [] h = refl
nil_of_is_nil (_ ∷ _) h = cc

-- The step that a round drops.
drop-sublist :
    (todo : List Step) (x : Step) (kept steps : List Step)
    → Sublist (unwind todo (x ∷ kept)) steps
    → Sublist (unwind todo kept) steps
drop-sublist todo x kept steps h =
    Sublist.trans (unwind-sublist todo (Sublist.cons x (Sublist.refl kept))) h

module _ {W E : Type 0} where
  -- A step has stayed behind exactly when an error has been noted.
  abbrev Clean : List Step → List (UndoError E) → W → Type 0
  Clean kept errs _ = is_nil kept ≡ is_nil errs

  abbrev Within : List Step → List Step → List (UndoError E) → W → Type 0
  Within steps rem _ _ = Sublist rem steps

module _ {W E : Type 0} (e : Engine W E) where
  Clean-round :
      (step : Step) (todo kept : List Step) (errs : List (UndoError E)) (w : W)
      → Clean kept errs w
      → Owes
          (λ _. Clean)
          Clean
          todo
          step
          kept
          (undo_round e (length todo) step (unwind todo (step ∷ kept)) errs w)
  unfolding undo_round
  Clean-round step todo kept errs w h = grind (arith, is_nil-unwind, is_nil-snoc, erase_at-unwind)

  same_nil : (w : W) → is_nil (rollback e w).1.steps ≡ is_nil (rollback e w).0
  same_nil w = loop_rule e (λ _. Clean) Clean (λ kept errs w' h. h) Clean-round w refl

  sublist_round :
      (step : Step) (todo kept : List Step) (errs : List (UndoError E)) (w : W)
      → Within e.steps (unwind todo (step ∷ kept)) errs w
      → Owes
          (λ todo' kept'. Within e.steps (unwind todo' kept'))
          (Within e.steps)
          todo
          step
          kept
          (undo_round e (length todo) step (unwind todo (step ∷ kept)) errs w)
  unfolding undo_round
  sublist_round step todo kept errs w h =
      ground (arith, h, drop-sublist todo step kept e.steps h, erase_at-unwind todo step kept)

  -- For every persister and all undo functions: Rollback returns no error exactly when it leaves
  -- no step in the engine, and what it leaves is a sublist of the steps recorded, in their order.
  pub rollback_leaves :
      (w : W)
      → (((rollback e w).0 ≡ []) ↔ ((rollback e w).1.steps ≡ []))
        × Sublist (rollback e w).1.steps e.steps
  rollback_leaves w = (
    (
      λ h. nil_of_is_nil _ (same_nil w ∙ ap is_nil h),
      λ h. nil_of_is_nil _ (sym (same_nil w) ∙ ap is_nil h),
    ),
    loop_rule e (λ todo kept. Within e.steps (unwind todo kept)) (Within e.steps)
        (λ kept errs w' h. h) sublist_round w (rw (unwind_all e.steps) (Sublist.refl e.steps)),
  )
