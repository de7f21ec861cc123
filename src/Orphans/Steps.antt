-- ===== src/Orphans/Steps.antt =====
-- internal/provisioner/orphan_scheduler.go: the scheduler among its callers and its runs, in any order.
use selfservice_api.Base.{
  ℕ, suc, ◌≡◌, List, [], ◌∷◌, ◌++◌, map, Option, none, some, Bool, true, false, get_elem?, erase_at,
  ◌==◌, if◌then◌else◌,
}
use selfservice_api.Orphans.{
  Leadership, Scheduler, new_scheduler, Trigger, Run, Outcome, start, tick, leadership_changed,
  trigger, finish_run, stop,
}

-- The scheduler, the calls of `trigger` and of cancel functions that are under way, the runs between
-- `trigger` and `finishRun`, and the number of the next run.
pub record System : Type 0 where
  pub scheduler : Scheduler
  pub triggers : List Trigger
  pub cancels : List ℕ
  pub runs : List Run
  pub next_id : ℕ

abbrev pub add : {A : Type 0} → List A → Option A → List A
add xs none = xs
add xs (some x) = xs ++ x ∷ []

abbrev pub count : Option Run → ℕ → ℕ
count none n = n
count (some run) n = suc n

abbrev pub apply : System → Outcome → System
apply s o = record {
  scheduler = o.next;
  triggers = add s.triggers o.fired;
  cancels = add s.cancels o.to_cancel;
  runs = add s.runs o.begun;
  next_id = count o.begun s.next_id;
}

abbrev pub cancel_one : ℕ → Run → Run
cancel_one id run = if run.run_id == id then record run { cancelled = true } else run

pub data Step (s : System) (t : System) : Type 0 where
  starts : (ctx : ℕ) (state : Leadership) → t ≡ apply s (start s.scheduler ctx state) → Step s t
  ticks : (ctx : ℕ) (state : Leadership) → t ≡ apply s (tick s.scheduler ctx state) → Step s t
  changes :
      (ctx : ℕ) (state : Leadership)
      → t ≡ apply s (leadership_changed s.scheduler ctx state)
      → Step s t
  stops : t ≡ apply s (stop s.scheduler) → Step s t
  triggers_now :
      (i : ℕ) (request : Trigger) (done : ℕ → Bool)
      → get_elem? s.triggers i ≡ some request
      → t
        ≡ apply
            (record s { triggers = erase_at s.triggers i })
            (trigger s.scheduler done s.next_id request)
      → Step s t
  finishes :
      (i : ℕ) (run : Run)
      → get_elem? s.runs i ≡ some run
      → t ≡ apply (record s { runs = erase_at s.runs i }) (finish_run s.scheduler)
      → Step s t
  cancels_now :
      (i : ℕ) (id : ℕ)
      → get_elem? s.cancels i ≡ some id
      → t ≡ record s { cancels = erase_at s.cancels i; runs = map (cancel_one id) s.runs }
      → Step s t

pub data Reach (s : System) : System → Type 0 where
  here : Reach s s
  next : {t u : System} → Reach s t → Step t u → Reach s u

abbrev pub initial : Bool → System
initial has_reconcile = record {
  scheduler = new_scheduler has_reconcile;
  triggers = [];
  cancels = [];
  runs = [];
  next_id = 0;
}

-- No run is in flight, or one is, and the scheduler can cancel it.
pub data IsSerial (s : Scheduler) : List Run → Type 0 where
  none_runs : s.running ≡ false → s.cancel_run ≡ none → IsSerial s []
  one_runs : {run : Run} → s.running ≡ true → s.cancel_run ≡ some run.run_id → IsSerial s (run ∷ [])

pub record IsSound (s : System) : Type 0 where
  pub serial : IsSerial s.scheduler s.runs
  pub queued_behind : s.scheduler.rerun ≡ true → s.scheduler.running ≡ true
  pub stopped_clear : s.scheduler.stopped ≡ true → s.scheduler.rerun ≡ false
