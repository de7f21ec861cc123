-- ===== src/Rollback.antt =====
-- internal/rollback/engine.go: the journal of provisioning steps and its undo.
-- `W` is the world that the persister and the undo functions act on, `E` its errors.
-- A call of either takes the world and returns it changed, with `none` for a nil error.
-- The logger is left out. A step's data is the byte string that `json.Marshal` returned.
use selfservice_api.Base.{
  ℕ, zero, suc, ◌+◌, ◌-◌, ◌*◌, ◌^◌, min, List, [], ◌∷◌, ◌++◌, Option, none, some, String, Bool,
  true, false, ◌&&◌, ◌||◌, if◌then◌else◌, leb, str_eq, bytes_eq, length, get_elem?, erase_at,
}
pub mod Record
pub mod Journal
pub mod Undo
mod Tests

pub record Step : Type 0 where
  pub name : String
  pub payload : List ℕ

-- What the code asks of durable storage. `handoff` is there if the persister also implements
-- `ownershipHandoffPersister`; its number is the time that the call took, in milliseconds.
pub record Persister (W E : Type 0) : Type 0 where
  pub save : ℕ → List Step → W → Option E × W
  pub handoff : Option (ℕ → Step → W → Option E × ℕ × W)

abbrev pub UndoFunc : Type 0 → Type 0 → Type 0
UndoFunc W E = List ℕ → W → Option E × W

pub record Engine (W E : Type 0) : Type 0 where
  pub job_id : ℕ
  pub steps : List Step
  pub undo_funcs : List (String × UndoFunc W E)
  pub persister : Option (Persister W E)

pub data RecordError (E : Type 0) : Type 0 where
  marshal_failed : RecordError E
  uncertain_ownership : String → E → RecordError E
  handed_to_successor : String → E → RecordError E
  handoff_failed : String → E → E → RecordError E
  -- Not an error of the code: the model's loop ran out of rounds, which never happens.
  out_of_fuel : RecordError E

pub data UndoError (E : Type 0) : Type 0 where
  fence_failed : String → E → UndoError E
  not_registered : String → UndoError E
  undo_failed : String → E → UndoError E
  checkpoint_failed : String → E → UndoError E

-- recordCleanupTimeout, in milliseconds.
abbrev pub record_cleanup_timeout : ℕ
record_cleanup_timeout = 90000

-- time.Second << min(attempt, 4)
abbrev pub handoff_delay : ℕ → ℕ
handoff_delay attempt = 1000 * 2 ^ min attempt 4

module _ {W E : Type 0} where
  unfoldable pub new_engine : ℕ → Option (Persister W E) → Engine W E
  new_engine job_id persister = record {
    job_id = job_id;
    steps = [];
    undo_funcs = [];
    persister = persister;
  }

  -- A map write: a second registration of a name replaces the first.
  put_undo : String → UndoFunc W E → List (String × UndoFunc W E) → List (String × UndoFunc W E)
  put_undo name fn [] = (name, fn) ∷ []
  put_undo name fn ((n, f) ∷ m) =
      if str_eq n name then (name, fn) ∷ m else (n, f) ∷ put_undo name fn m

  unfoldable pub find_undo : String → List (String × UndoFunc W E) → Option (UndoFunc W E)
  find_undo name [] = none
  find_undo name ((n, f) ∷ m) = if str_eq n name then some f else find_undo name m

  unfoldable pub register_undo : String → UndoFunc W E → Engine W E → Engine W E
  unfolding put_undo
  register_undo name fn e = record e { undo_funcs = put_undo name fn e.undo_funcs }

  unfoldable pub load_steps : List Step → Engine W E → Engine W E
  load_steps steps e = record e { steps = steps }

-- The loop of Record over the steps that it holds already.
unfoldable pub is_recorded : Step → List Step → Bool
is_recorded step [] = false
is_recorded step (x ∷ xs) =
    str_eq x.name step.name && bytes_eq x.payload step.payload || is_recorded step xs
