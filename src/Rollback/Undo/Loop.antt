-- ===== src/Rollback/Undo/Loop.antt =====
-- A rule for the loop of Rollback: what each round keeps holds at the end.
use selfservice_api.Base.{
  ◌≡◌, refl, sym, ap, ◌∙◌, ◌⊎◌, inl, inr, List, [], ◌∷◌, ◌++◌, reverse, reverse-cons, append-nil,
  append_assoc, some, length, get_elem?, erase_at, length-reverse, get_elem?-append,
  erase_at-append,
}
use mathlib.Core.List.{reverse-reverse}
use mathlib.Core.Path.{subst}
use selfservice_api.Rollback.{Step, Engine, UndoError}
use selfservice_api.Rollback.Undo.{
  Round, continue_with, return_with, undo_round, undo_loop, rollback,
}

-- The steps still to be undone, last first, in front of those that stay.
abbrev pub unwind : List Step → List Step → List Step
unwind [] kept = kept
unwind (x ∷ todo) kept = unwind todo (x ∷ kept)

unwind-reverse : (todo kept : List Step) → unwind todo kept ≡ reverse todo ++ kept
unwind-reverse [] kept = refl
unwind-reverse (x ∷ todo) kept =
    unwind-reverse todo (x ∷ kept)
    ∙ sym (append_assoc (reverse todo) (x ∷ []) kept)
    ∙ ap (λ l. l ++ kept) (sym (reverse-cons x todo))

pub unwind_all : (steps : List Step) → unwind (reverse steps) [] ≡ steps
unwind_all steps =
    unwind-reverse (reverse steps) [] ∙ append-nil (reverse (reverse steps)) ∙ reverse-reverse steps

pub get_elem?-unwind :
    (todo : List Step) (x : Step) (kept : List Step)
    → get_elem? (unwind todo (x ∷ kept)) (length todo) ≡ some x
get_elem?-unwind todo x kept =
    rw (unwind-reverse todo (x ∷ kept), ← length-reverse todo)
      (get_elem?-append (reverse todo) x kept)

pub erase_at-unwind :
    (todo : List Step) (x : Step) (kept : List Step)
    → erase_at (unwind todo (x ∷ kept)) (length todo) ≡ unwind todo kept
erase_at-unwind todo x kept =
    rw (unwind-reverse todo (x ∷ kept), unwind-reverse todo kept, ← length-reverse todo)
      (erase_at-append (reverse todo) x kept)

module _ {W E : Type 0} where
  -- What a round owes: it goes on with its step kept or dropped, or it ends the loop.
  abbrev pub Owes :
      (List Step → List Step → List (UndoError E) → W → Type 0)
      → (List Step → List (UndoError E) → W → Type 0)
      → List Step
      → Step
      → List Step
      → Round W E
      → Type 0
  Owes I Q todo step kept (continue_with rem errs w) =
      ((rem ≡ unwind todo (step ∷ kept)) × I todo (step ∷ kept) errs w)
      ⊎ ((rem ≡ unwind todo kept) × I todo kept errs w)
  Owes I Q todo step kept (return_with rem errs w) = Q rem errs w

  abbrev pub Holds :
      (List Step → List (UndoError E) → W → Type 0) → List Step × List (UndoError E) × W → Type 0
  Holds Q (rem, errs, w) = Q rem errs w

  module _ (e : Engine W E) (I : List Step → List Step → List (UndoError E) → W → Type 0)
      (Q : List Step → List (UndoError E) → W → Type 0)
      (done : (kept : List Step) (errs : List (UndoError E)) (w : W)
        → I [] kept errs w
        → Q kept errs w)
      (round : (step : Step) (todo kept : List Step) (errs : List (UndoError E)) (w : W)
        → I (step ∷ todo) kept errs w
        → Owes I Q todo step kept
            (undo_round e (length todo) step (unwind todo (step ∷ kept)) errs w)) where
    loop_rule_from :
        (todo kept : List Step) (errs : List (UndoError E)) (w : W)
        → I todo kept errs w
        → Holds Q (undo_loop e (length todo) (unwind todo kept) errs w)
    unfolding undo_loop
    loop_rule_from [] kept errs w h = done kept errs w h
    loop_rule_from (step ∷ todo) kept errs w h =
        rw (undo_loop, get_elem?-unwind todo step kept)
          (go (undo_round e (length todo) step (unwind todo (step ∷ kept)) errs w)
            (round step todo kept errs w h) (loop_rule_from todo))
      where
        go :
            (r : Round W E)
            → Owes I Q todo step kept r
            → ((kept' : List Step) (errs' : List (UndoError E)) (w' : W)
                → I todo kept' errs' w'
                → Holds Q (undo_loop e (length todo) (unwind todo kept') errs' w'))
            → Holds Q (elim r [
              | continue_with rem errs' w' ↦ undo_loop e (length todo) rem errs' w'
              | return_with rem errs' w' ↦ (rem, errs', w')
            ])
        go (continue_with rem errs' w') (inl (e, i)) ih = rw e (ih (step ∷ kept) errs' w' i)
        go (continue_with rem errs' w') (inr (e, i)) ih = rw e (ih kept errs' w' i)
        go (return_with rem errs' w') q ih = q

    -- The loop from the start, over all the steps.
    pub loop_rule :
        (w : W)
        → I (reverse e.steps) [] [] w
        → Q (rollback e w).1.steps (rollback e w).0 (rollback e w).2
    unfolding rollback
    loop_rule w h =
        subst (λ n. Holds Q (undo_loop e n e.steps [] w)) (length-reverse e.steps)
          (subst (λ l. Holds Q (undo_loop e (length (reverse e.steps)) l [] w)) (unwind_all e.steps)
            (loop_rule_from (reverse e.steps) [] [] w h))
