-- ===== src/Orphans/Stopped.antt =====
-- internal/provisioner/orphan_scheduler.go: what Stop brings about.
use mathlib.Core.Option.{some_inj}
use selfservice_api.Base.{
  ℕ, zero, suc, not, ◌&&◌, ◌||◌, ◌==◌, ==_iff, ◌≡◌, refl, sym, ap, ◌∙◌, ◌⊎◌, inl, inr, List, [],
  ◌∷◌, map, Option, none, some, Bool, true, false, get_elem?, erase_at, if◌then◌else◌, In,
  In-append_left, In-append_right, Bool-cases,
}
use selfservice_api.Orphans.{
  Leadership, Scheduler, Trigger, Run, Outcome, start, tick, leadership_changed,
  observe_leadership_loss, is_new_leadership, is_pointless, without_rerun, retrigger, trigger,
  finish_run, stop,
}
use selfservice_api.Orphans.Steps.{
  System, add, apply, cancel_one, Step, starts, ticks, changes, stops, triggers_now, finishes,
  cancels_now, Reach, here, next, initial, IsSerial, none_runs, one_runs, IsSound,
}
use selfservice_api.Orphans.Serial.{Reach-IsSound}

module _ {A : Type 0} where
  In-erase_at : (a : A) (xs : List A) (i : ℕ) → In a (erase_at xs i) → In a xs
  In-erase_at a [] i m = m
  In-erase_at a (x ∷ xs) zero m = inr m
  In-erase_at a (x ∷ xs) (suc i) (inl e) = inl e
  In-erase_at a (x ∷ xs) (suc i) (inr m) = inr (In-erase_at a xs i m)

  In-erase_at_other :
      (a b : A) (xs : List A) (i : ℕ)
      → In a xs
      → get_elem? xs i ≡ some b
      → (a ≡ b) ⊎ In a (erase_at xs i)
  In-erase_at_other a b [] i m e = absurd m
  In-erase_at_other a b (x ∷ xs) zero (inl q) e = inl (sym q ∙ some_inj.0 e)
  In-erase_at_other a b (x ∷ xs) zero (inr m) e = inr m
  In-erase_at_other a b (x ∷ xs) (suc i) (inl q) e = inr (inl q)
  In-erase_at_other a b (x ∷ xs) (suc i) (inr m) e = elim (In-erase_at_other a b xs i m e) [
    | inl q ↦ inl q
    | inr m ↦ inr (inr m)
  ]

  In-add : (a : A) (xs : List A) (o : Option A) → In a xs → In a (add xs o)
  In-add a xs none m = m
  In-add a xs (some x) m = In-append_left a xs _ m

-- Its context is over, or a call of its cancel function is under way.
abbrev pub IsDoomed : List ℕ → Run → Type 0
IsDoomed cancels run = (run.cancelled ≡ true) ⊎ In run.run_id cancels

-- Stopped, `n` runs have begun in all, and those in flight are doomed.
pub record IsOver (n : ℕ) (s : System) : Type 0 where
  pub is_stopped : s.scheduler.stopped ≡ true
  pub no_more : s.next_id ≡ n
  pub doomed : (run : Run) → In run s.runs → IsDoomed s.cancels run

-- A region that leaves a stopped scheduler stopped and begins nothing.
record StaysStopped (o : Outcome) : Type 0 where
  pub still : o.next.stopped ≡ true
  pub nothing : o.begun ≡ none

if-StaysStopped :
    (b : Bool) (o p : Outcome) → StaysStopped o → StaysStopped p → StaysStopped (if b then o else p)
if-StaysStopped true o p h k = h
if-StaysStopped false o p h k = k

module _ (s : Scheduler) (h : s.stopped ≡ true) where
  start-StaysStopped : (ctx : ℕ) (state : Leadership) → StaysStopped (start s ctx state)
  unfolding start
  start-StaysStopped ctx state =
      if-StaysStopped (s.started || s.stopped) _ _ (record { still = h; nothing = refl })
        (if-StaysStopped state.is_leader _ _ (record { still = h; nothing = refl })
          (record { still = h; nothing = refl }))

  tick-StaysStopped : (ctx : ℕ) (state : Leadership) → StaysStopped (tick s ctx state)
  unfolding tick observe_leadership_loss
  tick-StaysStopped ctx state =
      if-StaysStopped state.is_leader _ _ (record { still = h; nothing = refl })
        (record { still = h; nothing = refl })

  changed-StaysStopped :
      (ctx : ℕ) (state : Leadership) → StaysStopped (leadership_changed s ctx state)
  unfolding leadership_changed
  changed-StaysStopped ctx state =
      if-StaysStopped state.is_leader _ _
        (if-StaysStopped (is_new_leadership s state) _ _ (record { still = h; nothing = refl })
          (record { still = h; nothing = refl }))
        (record { still = h; nothing = refl })

  trigger-StaysStopped :
      (done : ℕ → Bool) (id : ℕ) (request : Trigger) → StaysStopped (trigger s done id request)
  unfolding trigger
  trigger-StaysStopped done id request =
      if-StaysStopped (is_pointless s done request) _ _ (record { still = h; nothing = refl })
        (rw h (record { still = refl; nothing = refl }))

  retrigger-StaysStopped :
      (again : Bool) (ctx : Option ℕ) (state : Leadership)
      → StaysStopped (retrigger s again ctx state)
  retrigger-StaysStopped true (some ctx) state = record { still = h; nothing = refl }
  retrigger-StaysStopped true none state = record { still = h; nothing = refl }
  retrigger-StaysStopped false ctx state = record { still = h; nothing = refl }

apply-IsOver :
    {n : ℕ} (s : System) (o : Outcome) → IsOver n s → StaysStopped o → IsOver n (apply s o)
apply-IsOver s o h k = record {
  is_stopped = k.still;
  no_more = rw k.nothing h.no_more;
  doomed = λ run. rw k.nothing (λ m. elim (h.doomed run m) [
    | inl c ↦ inl c
    | inr c ↦ inr (In-add run.run_id s.cancels o.to_cancel c)
  ]);
}

finish-IsOver :
    {n : ℕ} (s : System) (i : ℕ)
    → IsOver n s
    → IsOver n (apply (record s { runs = erase_at s.runs i }) (finish_run s.scheduler))
unfolding finish_run
finish-IsOver s i h =
    apply-IsOver (record s { runs = erase_at s.runs i }) _
      (record {
        is_stopped = h.is_stopped;
        no_more = h.no_more;
        doomed = λ run m. h.doomed run (In-erase_at run s.runs i m);
      })
      (retrigger-StaysStopped
        (without_rerun (record s.scheduler { running = false; cancel_run = none })) h.is_stopped
        (s.scheduler.rerun && not s.scheduler.stopped) s.scheduler.rerun_ctx
        s.scheduler.rerun_leadership)

-- A call of a cancel function is done: its run is cancelled, the others are as before.
cancelled_after :
    (id : ℕ) (cancels : List ℕ) (i : ℕ) (run : Run)
    → get_elem? cancels i ≡ some id
    → IsDoomed cancels run
    → IsDoomed (erase_at cancels i) (cancel_one id run)
cancelled_after id cancels i run e d = elim (Bool-cases (run.run_id == id)) [
  | inl t ↦ rw t (inl refl)
  | inr f ↦ rw f (elim d [
    | inl c ↦ inl c
    | inr c ↦ elim (In-erase_at_other run.run_id id cancels i c e) [
      | inl q ↦ absurd (clash (sym ((==_iff run.run_id id).1 q) ∙ f))
      | inr m ↦ inr m
    ]
  ])
]
  where
    clash : true ≡ false → ⊥
    clash x = cc

In-map :
    (id : ℕ) (runs : List Run) (run : Run)
    → In run (map (cancel_one id) runs)
    → (before : Run) × In before runs × (run ≡ cancel_one id before)
In-map id [] run m = absurd m
In-map id (r ∷ runs) run (inl q) = (r, inl refl, sym q)
In-map id (r ∷ runs) run (inr m) = let (before, a, b) = In-map id runs run m in (before, inr a, b)

Step-IsOver : {n : ℕ} {s t : System} → Step s t → IsOver n s → IsOver n t
unfolding stop
Step-IsOver {s = s} (starts ctx state e) h =
    rw e (apply-IsOver s _ h (start-StaysStopped s.scheduler h.is_stopped ctx state))
Step-IsOver {s = s} (ticks ctx state e) h =
    rw e (apply-IsOver s _ h (tick-StaysStopped s.scheduler h.is_stopped ctx state))
Step-IsOver {s = s} (changes ctx state e) h =
    rw e (apply-IsOver s _ h (changed-StaysStopped s.scheduler h.is_stopped ctx state))
Step-IsOver {s = s} (stops e) h =
    rw e (apply-IsOver s (stop s.scheduler) h (record { still = refl; nothing = refl }))
Step-IsOver {s = s} (triggers_now i request done m e) h = rw e (
    apply-IsOver (record s { triggers = erase_at s.triggers i }) _
      (record { is_stopped = h.is_stopped; no_more = h.no_more; doomed = h.doomed })
      (trigger-StaysStopped s.scheduler h.is_stopped done s.next_id request))
Step-IsOver {s = s} (finishes i run m e) h = rw e (finish-IsOver s i h)
Step-IsOver {s = s} (cancels_now i id m e) h = rw e (record {
  is_stopped = h.is_stopped;
  no_more = h.no_more;
  doomed = λ run k.
      let (before, a, b) = In-map id s.runs run k in
      rw b (cancelled_after id s.cancels i before m (h.doomed before a));
})

serial-IsDoomed :
    {s : Scheduler} {runs : List Run} (cancels : List ℕ)
    → IsSerial s runs
    → (run : Run) → In run runs
    → IsDoomed (add cancels s.cancel_run) run
serial-IsDoomed cancels (none_runs a b) run m = absurd m
serial-IsDoomed cancels (one_runs a b) run (inl q) =
    rw b (inr (In-append_right run.run_id cancels _ (inl (ap (λ (r : Run). r.run_id) q))))
serial-IsDoomed cancels (one_runs a b) run (inr m) = absurd m

stop-IsOver : (s : System) → IsSound s → IsOver s.next_id (apply s (stop s.scheduler))
unfolding stop
stop-IsOver s h = record {
  is_stopped = refl;
  no_more = refl;
  doomed = serial-IsDoomed s.cancels h.serial;
}

Reach-IsOver : {n : ℕ} {s t : System} → IsOver n s → Reach s t → IsOver n t
Reach-IsOver h here = h
Reach-IsOver h (next r st) = Step-IsOver st (Reach-IsOver h r)

-- Stop is final: after it, whatever steps follow in whatever order, no run begins, and a run that is
-- still in flight has its context cancelled, or the call that cancels it is under way.
pub stop_final :
    (has_reconcile : Bool) {s t : System}
    → Reach (initial has_reconcile) s
    → Reach (apply s (stop s.scheduler)) t
    → IsOver s.next_id t
stop_final has_reconcile {s} before after =
    Reach-IsOver (stop-IsOver s (Reach-IsSound has_reconcile before)) after
