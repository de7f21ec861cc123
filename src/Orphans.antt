-- ===== src/Orphans.antt =====
-- internal/provisioner/orphan_scheduler.go: when the orphan reconciler runs. A region under the
-- scheduler's lock is one function; it returns the next scheduler and what the caller does once the
-- lock is free. A context is a number, and `done` says which are over. Logging is left out.
pub mod Steps
pub mod Kept
pub mod Serial
pub mod Stopped
pub mod Wakes
mod Tests
use selfservice_api.Base.{
  ℕ, Option, none, some, Bool, true, false, not, ◌&&◌, ◌||◌, ℤ, pos, int_eq, if◌then◌else◌,
}

-- OrphanLeadershipState
pub record Leadership : Type 0 where
  pub is_leader : Bool
  pub generation : ℤ
  pub context : Option ℕ

abbrev pub no_leadership : Leadership
no_leadership = record { is_leader = false; generation = pos 0; context = none }

-- A cancel function is the number of the run that it cancels.
pub record Scheduler : Type 0 where
  pub has_reconcile : Bool
  pub started : Bool
  pub leader_observed : Bool
  pub was_leader : Bool
  pub observed_generation : ℤ
  pub running : Bool
  pub rerun : Bool
  pub stopped : Bool
  pub cancel_run : Option ℕ
  pub rerun_ctx : Option ℕ
  pub rerun_leadership : Leadership

unfoldable pub new_scheduler : Bool → Scheduler
new_scheduler has_reconcile = record {
  has_reconcile = has_reconcile;
  started = false;
  leader_observed = false;
  was_leader = false;
  observed_generation = pos 0;
  running = false;
  rerun = false;
  stopped = false;
  cancel_run = none;
  rerun_ctx = none;
  rerun_leadership = no_leadership;
}

-- A call of `trigger` that has not taken the lock yet.
pub record Trigger : Type 0 where
  pub ctx : ℕ
  pub state : Leadership

-- A run, with the contexts that it ends with.
pub record Run : Type 0 where
  pub run_id : ℕ
  pub leader_ctx : ℕ
  pub worker_ctx : ℕ
  pub cancelled : Bool

-- What is done after the lock: a trigger, a call of a cancel function, or `go s.run`.
pub record Outcome : Type 0 where
  pub next : Scheduler
  pub fired : Option Trigger
  pub to_cancel : Option ℕ
  pub begun : Option Run

abbrev pub quiet : Scheduler → Outcome
quiet s = record { next = s; fired = none; to_cancel = none; begun = none }

abbrev pub firing : Scheduler → ℕ → Leadership → Outcome
firing s ctx state = record {
  next = s;
  fired = some (record { ctx = ctx; state = state });
  to_cancel = none;
  begun = none;
}

abbrev pub cancelling : Scheduler → Outcome
cancelling s = record { next = s; fired = none; to_cancel = s.cancel_run; begun = none }

abbrev pub without_rerun : Scheduler → Scheduler
without_rerun s = record s { rerun = false; rerun_ctx = none; rerun_leadership = no_leadership }

abbrev pub observing : Scheduler → Bool → ℤ → Scheduler
observing s leads generation = record s {
  leader_observed = true;
  was_leader = leads;
  observed_generation = generation;
}

unfoldable pub start : Scheduler → ℕ → Leadership → Outcome
start s ctx state =
    if s.started || s.stopped
    then quiet s
    else let s' = observing (record s { started = true }) state.is_leader state.generation in
      if state.is_leader then firing s' ctx state else quiet s'

unfoldable pub observe_leadership_loss : Scheduler → Outcome
observe_leadership_loss s =
    cancelling (without_rerun (record s { leader_observed = true; was_leader = false }))

unfoldable pub tick : Scheduler → ℕ → Leadership → Outcome
tick s ctx state =
    if state.is_leader
    then firing (observing s true state.generation) ctx state
    else observe_leadership_loss s

unfoldable pub is_new_leadership : Scheduler → Leadership → Bool
is_new_leadership s state =
    not s.leader_observed || not s.was_leader || not (int_eq s.observed_generation state.generation)

unfoldable pub leadership_changed : Scheduler → ℕ → Leadership → Outcome
leadership_changed s ctx state =
    let s' = observing s state.is_leader state.generation in
    if state.is_leader
    then if is_new_leadership s state then firing s' ctx state else quiet s'
    else cancelling (without_rerun s')

-- state.Context is nil or over.
abbrev pub is_over : (ℕ → Bool) → Option ℕ → Bool
is_over done none = true
is_over done (some ctx) = done ctx

-- The early return of `trigger`, before it takes the lock.
unfoldable pub is_pointless : Scheduler → (ℕ → Bool) → Trigger → Bool
is_pointless s done t =
    done t.ctx || not t.state.is_leader || is_over done t.state.context || not s.has_reconcile

abbrev pub launch : Scheduler → ℕ → ℕ → Option ℕ → Outcome
launch s id worker none = quiet s
launch s id worker (some leader) = record {
  next = record s { running = true; cancel_run = some id };
  fired = none;
  to_cancel = none;
  begun =
      some (record { run_id = id; leader_ctx = leader; worker_ctx = worker; cancelled = false });
}

abbrev pub queue : Scheduler → Trigger → Outcome
queue s t = quiet (record s { rerun = true; rerun_ctx = some t.ctx; rerun_leadership = t.state })

-- `id` is the number of the run that begins, if one does.
unfoldable pub trigger : Scheduler → (ℕ → Bool) → ℕ → Trigger → Outcome
trigger s done id t =
    if is_pointless s done t
    then quiet s
    else if s.stopped
    then quiet s
    else if s.running
    then queue s t
    else launch s id t.ctx t.state.context

abbrev pub retrigger : Scheduler → Bool → Option ℕ → Leadership → Outcome
retrigger s true (some ctx) state = firing s ctx state
retrigger s _ _ state = quiet s

unfoldable pub finish_run : Scheduler → Outcome
finish_run s =
    retrigger (without_rerun (record s { running = false; cancel_run = none }))
      (s.rerun && not s.stopped) s.rerun_ctx s.rerun_leadership

unfoldable pub stop : Scheduler → Outcome
stop s = cancelling (without_rerun (record s { stopped = true }))
