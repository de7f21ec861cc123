-- ===== src/Rollback/Record/Receipt.antt =====
-- What a call of Record promises to its caller.
use selfservice_api.Base.{
  ℕ, ◌≡◌, refl, ◌⊎◌, true, List, [], ◌∷◌, ◌++◌, Option, none, some, String, arith, str_eq_iff,
  bytes_eq_refl,
}
use selfservice_api.Rollback.{Step, Persister, Engine, is_recorded}
use selfservice_api.Rollback.Journal.{Journal, durable, IsJournaled}
use selfservice_api.Rollback.Record.{persist, append_step, record_step}

is_recorded-snoc : (step : Step) (steps : List Step) → is_recorded step (steps ++ step ∷ []) ≡ true
unfolding is_recorded
is_recorded-snoc step [] =
    ground (arith, (str_eq_iff step.name step.name).1 refl, bytes_eq_refl step.payload)
is_recorded-snoc step (x ∷ xs) = ground (arith, is_recorded-snoc step xs)

module _ {W E : Type 0} where
  recorded_after :
      (e : Engine W E) (step : Step) (w : W)
      → is_recorded step (append_step e step w).1.steps ≡ true
  unfolding append_step
  recorded_after e step w = ground (arith, is_recorded-snoc step e.steps)

  append_step_of_recorded :
      (e : Engine W E) (step : Step) (w : W)
      → is_recorded step e.steps ≡ true
      → append_step e step w ≡ (none, e, w)
  unfolding append_step
  append_step_of_recorded e step w h = rw h

  record_step_of_marshal :
      {A : Type 0} (marshal : A → Option (List ℕ)) (raw : List ℕ) (name : String) (value : A)
      → marshal value ≡ some raw
      → (e : Engine W E) (w : W)
      → record_step marshal e name value w ≡ append_step e (record { name = name; payload = raw }) w
  unfolding record_step
  record_step_of_marshal marshal raw name value m e w = rw (record_step, m)

  -- Record is idempotent: where the data marshals, a second call for the same step, right after the
  -- first, returns no error and changes neither the engine nor the world. That holds also if the
  -- first call failed to persist the step.
  pub record_step-again :
      {A : Type 0} (marshal : A → Option (List ℕ)) (raw : List ℕ) (e : Engine W E) (name : String)
      (value : A) (w : W)
      → marshal value ≡ some raw
      → let (_, e', w') = record_step marshal e name value w in
        record_step marshal e' name value w' ≡ (none, e', w')
  record_step-again marshal raw e name value w m =
      let step : Step = record { name = name; payload = raw } in
      simp (record_step_of_marshal marshal raw name value m) (
        append_step_of_recorded (append_step e step w).1 step (append_step e step w).2
          (recorded_after e step w))

  module _ (view : W → Journal) (e : Engine W E) (p : Persister W E)
      (j : IsJournaled view e p) where
    -- With a persister: where Record returns no error, either the step was there before and nothing
    -- has changed, or it is now the last of the engine's steps and the stored steps are those.
    -- (`step` is the name with the marshalled data.)
    pub record_step-durable :
        {A : Type 0} (marshal : A → Option (List ℕ)) (raw : List ℕ) (name : String) (value : A)
        (w : W)
        → marshal value ≡ some raw
        → (record_step marshal e name value w).0 ≡ none
        → let step : Step = record { name = name; payload = raw } in
          let (_, e', w') = record_step marshal e name value w in
          ((is_recorded step e.steps ≡ true) × (e' ≡ e) × (w' ≡ w))
          ⊎ ((e'.steps ≡ e.steps ++ step ∷ []) × (durable (view w') ≡ e'.steps))
    unfolding record_step append_step persist
    record_step-durable marshal raw name value w m h = grind (arith, j.stored, j.save_ok)
