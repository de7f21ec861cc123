-- ===== src/Orphans/Serial.antt =====
-- internal/provisioner/orphan_scheduler.go: the passes never overlap.
use selfservice_api.Base.{
  ℕ, zero, suc, not, ◌&&◌, ◌≡◌, refl, sym, ap, ◌∙◌, List, [], ◌∷◌, ◌++◌, map, Option, none, some,
  Bool, true, false, arith, get_elem?, erase_at, if◌then◌else◌,
}
use selfservice_api.Orphans.{
  Leadership, Scheduler, new_scheduler, Trigger, Run, Outcome, is_pointless, quiet, queue, launch,
  without_rerun, retrigger, trigger, finish_run,
}
use selfservice_api.Orphans.Steps.{
  System, apply, cancel_one, Step, starts, ticks, changes, stops, triggers_now, finishes,
  cancels_now, Reach, here, next, initial, IsSerial, none_runs, one_runs, IsSound,
}
use selfservice_api.Orphans.Kept.{
  Keeps, clash, queue_kept, start-Keeps, tick-Keeps, changed-Keeps, stop-Keeps, kept-IsSound,
}

quiet-IsSound : (s : System) → IsSound s → IsSound (apply s (quiet s.scheduler))
quiet-IsSound s h =
    kept-IsSound s h (quiet s.scheduler)
      (queue_kept s h {o = quiet s.scheduler} refl refl refl refl refl)

if-IsSound :
    (s : System) (b : Bool) (o p : Outcome)
    → (b ≡ true → IsSound (apply s o))
    → (b ≡ false → IsSound (apply s p))
    → IsSound (apply s (if b then o else p))
if-IsSound s true o p h k = h refl
if-IsSound s false o p h k = k refl

begun-IsSerial :
    {s : Scheduler} {runs : List Run} (run : Run)
    → IsSerial s runs
    → s.running ≡ false
    → IsSerial (record s { running = true; cancel_run = some run.run_id }) (runs ++ run ∷ [])
begun-IsSerial run (none_runs a b) f = one_runs refl refl
begun-IsSerial run (one_runs a b) f = absurd (clash (sym a ∙ f))

queue-IsSound :
    (s : System) (request : Trigger)
    → IsSound s
    → s.scheduler.running ≡ true
    → s.scheduler.stopped ≡ false
    → IsSound (apply s (queue s.scheduler request))
queue-IsSound s request h busy on = kept-IsSound s h (queue s.scheduler request) (record {
  nothing_begun = refl;
  same_running = refl;
  same_cancel = refl;
  queues = λ _. busy;
  clears = λ q. absurd (clash (sym q ∙ on));
})

launch-IsSound :
    (s : System) (worker : ℕ) (leader : Option ℕ)
    → IsSound s
    → s.scheduler.running ≡ false
    → s.scheduler.stopped ≡ false
    → IsSound (apply s (launch s.scheduler s.next_id worker leader))
launch-IsSound s worker none h f g = quiet-IsSound s h
launch-IsSound s worker (some leader) h f g = record {
  serial = begun-IsSerial _ h.serial f;
  queued_behind = λ _. refl;
  stopped_clear = h.stopped_clear;
}

trigger-IsSound :
    (s : System) (done : ℕ → Bool) (request : Trigger)
    → IsSound s
    → IsSound (apply s (trigger s.scheduler done s.next_id request))
unfolding trigger
trigger-IsSound s done request h =
    if-IsSound s (is_pointless s.scheduler done request) _ _ (λ _. same)
      λ _.
        if-IsSound s s.scheduler.stopped _ _ (λ _. same)
          λ on.
            if-IsSound s s.scheduler.running _ _ (λ busy. queue-IsSound s request h busy on)
              λ free. launch-IsSound s request.ctx request.state.context h free on
  where
    same : IsSound (apply s (quiet s.scheduler))
    same = quiet-IsSound s h

not_queued-Keeps :
    {s : Scheduler} (o : Outcome) → o.begun ≡ none → o.next ≡ s → s.rerun ≡ false → Keeps s o
not_queued-Keeps o n e f = record {
  nothing_begun = n;
  same_running = ap (λ (x : Scheduler). x.running) e;
  same_cancel = ap (λ (x : Scheduler). x.cancel_run) e;
  queues = λ q. absurd (clash (sym q ∙ ap (λ (x : Scheduler). x.rerun) e ∙ f));
  clears = λ _. ap (λ (x : Scheduler). x.rerun) e ∙ f;
}

retrigger-Keeps :
    (s : Scheduler) (again : Bool) (ctx : Option ℕ) (state : Leadership)
    → s.rerun ≡ false
    → Keeps s (retrigger s again ctx state)
retrigger-Keeps s true (some ctx) state f = not_queued-Keeps _ refl refl f
retrigger-Keeps s true none state f = not_queued-Keeps _ refl refl f
retrigger-Keeps s false ctx state f = not_queued-Keeps _ refl refl f

-- The run that ends was the only one.
ended :
    {s : Scheduler} {runs : List Run} (i : ℕ) (run : Run)
    → IsSerial s runs
    → get_elem? runs i ≡ some run
    → erase_at runs i ≡ []
ended i run (none_runs a b) e = cc
ended zero run (one_runs a b) e = refl
ended (suc i) run (one_runs a b) e = cc

finish-IsSound :
    (s : System) (i : ℕ) (run : Run)
    → IsSound s
    → get_elem? s.runs i ≡ some run
    → IsSound (apply (record s { runs = erase_at s.runs i }) (finish_run s.scheduler))
unfolding finish_run
finish-IsSound s i run h e =
    let rest = without_rerun (record s.scheduler { running = false; cancel_run = none }) in
    let k =
      retrigger-Keeps rest (s.scheduler.rerun && not s.scheduler.stopped) s.scheduler.rerun_ctx
        s.scheduler.rerun_leadership refl in
    record {
      serial =
          rw (ended i run h.serial e, k.nothing_begun) (none_runs k.same_running k.same_cancel);
      queued_behind = k.queues;
      stopped_clear = k.clears;
    }

cancel-IsSerial :
    {s : Scheduler} {runs : List Run} (id : ℕ)
    → IsSerial s runs
    → IsSerial s (map (cancel_one id) runs)
cancel-IsSerial id (none_runs a b) = none_runs a b
cancel-IsSerial id (one_runs {run} a b) = one_runs a (b ∙ ap some (same_id run))
  where
    same_id : (run : Run) → run.run_id ≡ (cancel_one id run).run_id
    same_id run = ground arith

Step-IsSound : {s t : System} → Step s t → IsSound s → IsSound t
Step-IsSound {s} (starts ctx state e) h = rw e (kept-IsSound s h _ (start-Keeps s h ctx state))
Step-IsSound {s} (ticks ctx state e) h = rw e (kept-IsSound s h _ (tick-Keeps s h ctx state))
Step-IsSound {s} (changes ctx state e) h = rw e (kept-IsSound s h _ (changed-Keeps s h ctx state))
Step-IsSound {s} (stops e) h = rw e (kept-IsSound s h _ (stop-Keeps s h))
Step-IsSound {s} (triggers_now i request done m e) h = rw e (
    trigger-IsSound (record s { triggers = erase_at s.triggers i }) done request
      (record {
        serial = h.serial;
        queued_behind = h.queued_behind;
        stopped_clear = h.stopped_clear;
      }))
Step-IsSound {s} (finishes i run m e) h = rw e (finish-IsSound s i run h m)
Step-IsSound {s} (cancels_now i id m e) h = rw e (record {
  serial = cancel-IsSerial id h.serial;
  queued_behind = h.queued_behind;
  stopped_clear = h.stopped_clear;
})

initial-IsSound : (has_reconcile : Bool) → IsSound (initial has_reconcile)
unfolding new_scheduler
initial-IsSound has_reconcile = record {
  serial = none_runs refl refl;
  queued_behind = λ e. e;
  stopped_clear = λ _. refl;
}

-- From a new scheduler on, in whatever order its callers and runs take their steps: at most one pass
-- is between `trigger` and `finishRun`, `running` says whether one is, and then `cancelRun` is its
-- cancel function; a pass is queued only behind a running one, and none once it is stopped.
pub Reach-IsSound :
    (has_reconcile : Bool) {t : System} → Reach (initial has_reconcile) t → IsSound t
Reach-IsSound has_reconcile here = initial-IsSound has_reconcile
Reach-IsSound has_reconcile (next r st) = Step-IsSound st (Reach-IsSound has_reconcile r)
