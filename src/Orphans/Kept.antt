-- ===== src/Orphans/Kept.antt =====
-- internal/provisioner/orphan_scheduler.go: the regions in which no run begins or ends.
use selfservice_api.Base.{
  ℕ, ◌≡◌, refl, sym, ◌∙◌, List, ◌||◌, none, Bool, true, false, if◌then◌else◌,
}
use selfservice_api.Orphans.{
  Leadership, Scheduler, Run, Outcome, start, tick, leadership_changed, observe_leadership_loss,
  is_new_leadership, stop,
}
use selfservice_api.Orphans.Steps.{System, apply, IsSerial, none_runs, one_runs, IsSound}

-- A region in which no run begins or ends.
pub record Keeps (s : Scheduler) (o : Outcome) : Type 0 where
  pub nothing_begun : o.begun ≡ none
  pub same_running : o.next.running ≡ s.running
  pub same_cancel : o.next.cancel_run ≡ s.cancel_run
  pub queues : o.next.rerun ≡ true → o.next.running ≡ true
  pub clears : o.next.stopped ≡ true → o.next.rerun ≡ false

pub IsSerial-kept :
    {s : Scheduler} {o : Outcome} {runs : List Run}
    → Keeps s o
    → IsSerial s runs
    → IsSerial o.next runs
IsSerial-kept k (none_runs a b) = none_runs (k.same_running ∙ a) (k.same_cancel ∙ b)
IsSerial-kept k (one_runs a b) = one_runs (k.same_running ∙ a) (k.same_cancel ∙ b)

pub if-Keeps :
    {s : Scheduler} (b : Bool) (o p : Outcome)
    → Keeps s o
    → Keeps s p
    → Keeps s (if b then o else p)
if-Keeps true o p h k = h
if-Keeps false o p h k = k

pub clash : true ≡ false → ⊥
clash e = cc

module _ (s : System) (h : IsSound s) where
  pub queue_kept :
      {o : Outcome}
      → o.begun ≡ none
      → o.next.running ≡ s.scheduler.running
      → o.next.cancel_run ≡ s.scheduler.cancel_run
      → o.next.rerun ≡ s.scheduler.rerun
      → o.next.stopped ≡ s.scheduler.stopped
      → Keeps s.scheduler o
  queue_kept n a b c d = record {
    nothing_begun = n;
    same_running = a;
    same_cancel = b;
    queues = λ q. a ∙ h.queued_behind (sym c ∙ q);
    clears = λ q. c ∙ h.stopped_clear (sym d ∙ q);
  }

  pub queue_dropped :
      {o : Outcome}
      → o.begun ≡ none
      → o.next.running ≡ s.scheduler.running
      → o.next.cancel_run ≡ s.scheduler.cancel_run
      → o.next.rerun ≡ false
      → Keeps s.scheduler o
  queue_dropped n a b c = record {
    nothing_begun = n;
    same_running = a;
    same_cancel = b;
    queues = λ q. absurd (clash (sym q ∙ c));
    clears = λ _. c;
  }

  pub start-Keeps : (ctx : ℕ) (state : Leadership) → Keeps s.scheduler (start s.scheduler ctx state)
  unfolding start
  start-Keeps ctx state =
      if-Keeps (s.scheduler.started || s.scheduler.stopped) _ _
        (queue_kept refl refl refl refl refl)
        (if-Keeps state.is_leader _ _ (queue_kept refl refl refl refl refl)
          (queue_kept refl refl refl refl refl))

  pub tick-Keeps : (ctx : ℕ) (state : Leadership) → Keeps s.scheduler (tick s.scheduler ctx state)
  unfolding tick observe_leadership_loss
  tick-Keeps ctx state =
      if-Keeps state.is_leader _ _ (queue_kept refl refl refl refl refl)
        (queue_dropped refl refl refl refl)

  pub changed-Keeps :
      (ctx : ℕ) (state : Leadership) → Keeps s.scheduler (leadership_changed s.scheduler ctx state)
  unfolding leadership_changed
  changed-Keeps ctx state =
      if-Keeps state.is_leader _ _
        (if-Keeps (is_new_leadership s.scheduler state) _ _ (queue_kept refl refl refl refl refl)
          (queue_kept refl refl refl refl refl))
        (queue_dropped refl refl refl refl)

  pub stop-Keeps : Keeps s.scheduler (stop s.scheduler)
  unfolding stop
  stop-Keeps = queue_dropped refl refl refl refl

  -- Regions in which no run begins or ends.
  pub kept-IsSound : (o : Outcome) → Keeps s.scheduler o → IsSound (apply s o)
  kept-IsSound o k = record {
    serial = rw k.nothing_begun (IsSerial-kept k h.serial);
    queued_behind = k.queues;
    stopped_clear = k.clears;
  }
