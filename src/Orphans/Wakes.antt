-- ===== src/Orphans/Wakes.antt =====
-- internal/provisioner/orphan_scheduler.go: no wanted pass is lost, and none is doubled at the start.
use mathlib.Core.Path.{subst}
use selfservice_api.Base.{
  ℕ, ◌≡◌, refl, ◌∙◌, ◌↔◌, ◌⊎◌, inl, inr, List, [], ◌∷◌, Option, none, some, Bool, true, false, not,
  ◌&&◌, arith, int_eq, if◌then◌else◌, Bool-cases,
}
use selfservice_api.Orphans.{
  Leadership, Scheduler, Trigger, Outcome, start, observe_leadership_loss, tick, leadership_changed,
  is_new_leadership, is_over, is_pointless, quiet, trigger, retrigger, finish_run, stop, observing,
  firing,
}

-- What may happen between the beginning and the end of a run.
pub data Event : Type 0 where
  starting ticking changing : ℕ → Leadership → Event
  stopping : Event
  triggering : (ℕ → Bool) → ℕ → Trigger → Event

unfoldable pub after_event : Scheduler → Event → Scheduler
after_event s (starting ctx state) = (start s ctx state).next
after_event s (ticking ctx state) = (tick s ctx state).next
after_event s (changing ctx state) = (leadership_changed s ctx state).next
after_event s stopping = (stop s).next
after_event s (triggering done id request) = (trigger s done id request).next

unfoldable pub after_events : Scheduler → List Event → Scheduler
after_events s [] = s
after_events s (event ∷ events) = after_events (after_event s event) events

-- A request of a leader whose contexts are live, where there is something to run.
abbrev pub is_wanted : Bool → (ℕ → Bool) → Trigger → Bool
is_wanted reconciles done request =
    not (done request.ctx)
    && request.state.is_leader
    && not (is_over done request.state.context)
    && reconciles

-- The last request that is wanted and that came before Stop, if neither Stop nor a lost leadership
-- came after it.
unfoldable pub last_wish : Bool → Bool → Option Trigger → List Event → Option Trigger
last_wish reconciles stopped wish [] = wish
last_wish reconciles stopped wish (starting ctx state ∷ events) =
    last_wish reconciles stopped wish events
last_wish reconciles stopped wish (ticking ctx state ∷ events) =
    last_wish reconciles stopped (if state.is_leader then wish else none) events
last_wish reconciles stopped wish (changing ctx state ∷ events) =
    last_wish reconciles stopped (if state.is_leader then wish else none) events
last_wish reconciles stopped wish (stopping ∷ events) = last_wish reconciles true none events
last_wish reconciles stopped wish (triggering done id request ∷ events) =
    last_wish reconciles stopped
      (if is_wanted reconciles done request && not stopped then some request else wish) events

abbrev wish_of : Bool → Option ℕ → Leadership → Option Trigger
wish_of true (some ctx) state = some (record { ctx = ctx; state = state })
wish_of _ _ state = none

retrigger-fired :
    (s : Scheduler) (b : Bool) (ctx : Option ℕ) (state : Leadership)
    → (retrigger s b ctx state).fired ≡ wish_of b ctx state
retrigger-fired s true (some ctx) state = refl
retrigger-fired s true none state = refl
retrigger-fired s false ctx state = refl

-- The scheduler while a run is in flight, with the request that is queued.
record IsBusy (reconciles stopped : Bool) (wish : Option Trigger) (s : Scheduler) : Type 0 where
  pub busy : s.running ≡ true
  pub same_reconcile : s.has_reconcile ≡ reconciles
  pub same_stopped : s.stopped ≡ stopped
  pub queued : wish_of (s.rerun && not s.stopped) s.rerun_ctx s.rerun_leadership ≡ wish

if-IsBusy :
    {reconciles stopped : Bool} {v w : Option Trigger} (b : Bool) (o p : Outcome)
    → (b ≡ true → IsBusy reconciles stopped v o.next)
    → (b ≡ false → IsBusy reconciles stopped w p.next)
    → IsBusy reconciles stopped (if b then v else w) (if b then o else p).next
if-IsBusy true o p h k = h refl
if-IsBusy false o p h k = k refl

module _ {reconciles stopped : Bool} {wish : Option Trigger} (s : Scheduler)
    (h : IsBusy reconciles stopped wish s) where
  start-IsBusy :
      (ctx : ℕ) (state : Leadership) → IsBusy reconciles stopped wish (start s ctx state).next
  unfolding start
  start-IsBusy ctx state = record {
    busy = ground (arith, h.busy);
    same_reconcile = ground (arith, h.same_reconcile);
    same_stopped = ground (arith, h.same_stopped);
    queued = grind (arith, h.queued);
  }

  loss-IsBusy : IsBusy reconciles stopped none (observe_leadership_loss s).next
  unfolding observe_leadership_loss
  loss-IsBusy = record {
    busy = h.busy;
    same_reconcile = h.same_reconcile;
    same_stopped = h.same_stopped;
    queued = refl;
  }

  tick-IsBusy :
      (ctx : ℕ) (state : Leadership)
      → IsBusy reconciles stopped (if state.is_leader then wish else none) (tick s ctx state).next
  unfolding tick
  tick-IsBusy ctx state =
      if-IsBusy state.is_leader _ _
        (λ e. record {
          busy = h.busy;
          same_reconcile = h.same_reconcile;
          same_stopped = h.same_stopped;
          queued = h.queued;
        })
        (λ e. loss-IsBusy)

  change-IsBusy :
      (ctx : ℕ) (state : Leadership)
      → IsBusy reconciles stopped
          (if state.is_leader then wish else none)
          (leadership_changed s ctx state).next
  unfolding leadership_changed
  change-IsBusy ctx state =
      if-IsBusy state.is_leader _ _ (λ e. same_if (is_new_leadership s state))
        (λ e. record {
          busy = h.busy;
          same_reconcile = h.same_reconcile;
          same_stopped = h.same_stopped;
          queued = refl;
        })
    where
      kept : IsBusy reconciles stopped wish (observing s state.is_leader state.generation)
      kept = record {
        busy = h.busy;
        same_reconcile = h.same_reconcile;
        same_stopped = h.same_stopped;
        queued = h.queued;
      }

      same_if :
          (b : Bool)
          → IsBusy reconciles stopped wish
              (if b
                then firing (observing s state.is_leader state.generation) ctx state
                else quiet (observing s state.is_leader state.generation)).next
      same_if true = kept
      same_if false = kept

  stop-IsBusy : IsBusy reconciles true none (stop s).next
  unfolding stop
  stop-IsBusy = record {
    busy = h.busy;
    same_reconcile = h.same_reconcile;
    same_stopped = refl;
    queued = refl;
  }

  pointless-wanted :
      (done : ℕ → Bool) (request : Trigger)
      → is_pointless s done request ≡ not (is_wanted reconciles done request)
  unfolding is_pointless
  pointless-wanted done request = ground (arith, h.same_reconcile)

  trigger-IsBusy :
      (done : ℕ → Bool) (id : ℕ) (request : Trigger)
      → IsBusy reconciles stopped
          (if is_wanted reconciles done request && not stopped then some request else wish)
          (trigger s done id request).next
  unfolding trigger
  trigger-IsBusy done id request = elim (Bool-cases (is_wanted reconciles done request)) [
    | inr e ↦ rw (pointless-wanted done request, e) h
    | inl e ↦ elim (Bool-cases stopped) [
      | inl t ↦
          simp (pointless-wanted done request, e, h.same_stopped, t)
            (subst (λ st. IsBusy reconciles st wish s) t h)
      | inr f ↦
          simp (pointless-wanted done request, e, h.same_stopped, f, h.busy)
            (record {
              busy = refl;
              same_reconcile = h.same_reconcile;
              same_stopped = refl;
              queued = refl;
            })
    ]
  ]

finish_run-queued :
    (s : Scheduler)
    → (finish_run s).fired ≡ wish_of (s.rerun && not s.stopped) s.rerun_ctx s.rerun_leadership
unfolding finish_run
finish_run-queued s = retrigger-fired _ (s.rerun && not s.stopped) s.rerun_ctx s.rerun_leadership

after_events-wish :
    {reconciles stopped : Bool} {wish : Option Trigger} (s : Scheduler) (events : List Event)
    → IsBusy reconciles stopped wish s
    → ((after_events s events).running ≡ true)
      × ((finish_run (after_events s events)).fired ≡ last_wish reconciles stopped wish events)
unfolding after_events after_event last_wish
after_events-wish s [] h = (h.busy, finish_run-queued s ∙ h.queued)
after_events-wish s (starting ctx state ∷ events) h =
    after_events-wish (start s ctx state).next events (start-IsBusy s h ctx state)
after_events-wish s (ticking ctx state ∷ events) h =
    after_events-wish (tick s ctx state).next events (tick-IsBusy s h ctx state)
after_events-wish s (changing ctx state ∷ events) h =
    after_events-wish (leadership_changed s ctx state).next events (change-IsBusy s h ctx state)
after_events-wish s (stopping ∷ events) h = after_events-wish (stop s).next events (stop-IsBusy s h)
after_events-wish s (triggering done id request ∷ events) h =
    after_events-wish (trigger s done id request).next events (trigger-IsBusy s h done id request)

-- While a run is in flight that began with no request queued, whatever starts, ticks, changes of the
-- leadership, triggers and stops follow: the scheduler stays busy, and the end of the run fires the
-- last of these triggers that was wanted and came before Stop, unless Stop or a lost leadership came
-- after it; if there is none, it fires nothing.
pub finish_run-last_wish :
    (s : Scheduler) (events : List Event)
    → s.running ≡ true
    → s.rerun ≡ false
    → ((after_events s events).running ≡ true)
      × ((finish_run (after_events s events)).fired
          ≡ last_wish s.has_reconcile s.stopped none events)
finish_run-last_wish s events busy fresh =
    after_events-wish s events
      (record { busy = busy; same_reconcile = refl; same_stopped = refl; queued = rw fresh refl })

-- A worker that starts as the leader of a term fires once for it: the change that is seen next fires
-- exactly if it shows the worker leading and the term is another one, or it did not lead before.
pub leadership_changed-start :
    (s : Scheduler) (ctx ctx' : ℕ) (state state' : Leadership)
    → s.started ≡ false
    → s.stopped ≡ false
    → ((leadership_changed (start s ctx state).next ctx' state').fired
        ≡ some (record { ctx = ctx'; state = state' }))
      ↔ ((state'.is_leader ≡ true)
          × ((state.is_leader ≡ false) ⊎ (int_eq state.generation state'.generation ≡ false)))
unfolding start leadership_changed is_new_leadership
leadership_changed-start s ctx ctx' state state' a b = ground arith
