-- ===== src/IdleEval/Counting.antt =====
-- What a pass counts, and what it writes in dry-run mode.
use selfservice_api.Base.{
  ℕ, suc, ◌+◌, ◌≡◌, refl, ap, ◌∙◌, List, [], ◌∷◌, ◌++◌, Option, some, Bool, true, false, String,
  arith, length, All, str_eq, Bool-cases, inl, inr,
}
use selfservice_api.IdleEval.{
  Candidate, VmIdleState, VmPerfSample, Answers, Config, Counts, Reason, Effect, touch_activity,
  suspend_vm, set_vm_suspended, update_status, record_suspend, set_suspended_gauge, set_last_run,
}
use selfservice_api.IdleEval.Step.{
  Outcome, synced_vm_status, sync_power_state, suspend, act, guards, clock, utilisation,
  evaluate_known, evaluate_candidate,
}
use selfservice_api.IdleEval.Pass.{
  Environment, no_counts, morefs_of, without_moref, evaluate_from, evaluate_all, evaluate_batch,
  evaluate_idle_vms, gauges,
}

-- No call to vCenter, and no write of a VM's status.
abbrev pub IsHarmless : Effect → Type 0
IsHarmless (suspend_vm _) = ⊥
IsHarmless (set_vm_suspended _ _ _) = ⊥
IsHarmless (update_status _ _) = ⊥
IsHarmless (touch_activity _ _) = Unit
IsHarmless (record_suspend _) = Unit
IsHarmless (set_suspended_gauge _) = Unit
IsHarmless (set_last_run _) = Unit

All-append :
    (xs ys : List Effect) → All IsHarmless xs → All IsHarmless ys → All IsHarmless (xs ++ ys)
All-append [] ys hx hy = hy
All-append (x ∷ xs) ys hx hy = (hx.0, All-append xs ys hx.1 hy)

-- Each candidate is counted once. The counters that a pass spreads the candidates over:
abbrev pub tally : Counts → ℕ
tally n =
    n.skipped + n.tools_missing + n.perf_missing + n.activity_fresh + n.activity_unknown
    + n.refused_job + n.refused_pod + n.refused_run + n.suspended + n.power_synced + n.errors

-- The writes that follow a decision succeed, and no sync finds its row changed.
abbrev pub IsCalm : Answers → Type 0
IsCalm a = (a.touched ≡ true) × (a.mark_suspended_done ≡ true) × (a.status_changed ≡ some true)

-- The calls of SetVMSuspended.
abbrev pub marks : List Effect → ℕ
marks [] = 0
marks (set_vm_suspended _ _ _ ∷ es) = suc (marks es)
marks (suspend_vm _ ∷ es) = marks es
marks (touch_activity _ _ ∷ es) = marks es
marks (update_status _ _ ∷ es) = marks es
marks (record_suspend _ ∷ es) = marks es
marks (set_suspended_gauge _ ∷ es) = marks es
marks (set_last_run _ ∷ es) = marks es

marks-append : (xs ys : List Effect) → marks (xs ++ ys) ≡ marks xs + marks ys
marks-append [] ys = omega arith
marks-append (set_vm_suspended _ _ _ ∷ xs) ys = omega (arith, marks-append xs ys)
marks-append (suspend_vm _ ∷ xs) ys = marks-append xs ys
marks-append (touch_activity _ _ ∷ xs) ys = marks-append xs ys
marks-append (update_status _ _ ∷ xs) ys = marks-append xs ys
marks-append (record_suspend _ ∷ xs) ys = marks-append xs ys
marks-append (set_suspended_gauge _ ∷ xs) ys = marks-append xs ys
marks-append (set_last_run _ ∷ xs) ys = marks-append xs ys

module _ (cfg : Config) (now : ℕ) (c : Candidate) (a : Answers) (n : Counts) where
  module _ (reason : Reason) where
    guards-IsHarmless : cfg.dry_run ≡ true → All IsHarmless (guards cfg now c a reason n).1
    unfolding guards act suspend
    guards-IsHarmless d = ground arith

    tally-guards : IsCalm a → tally (guards cfg now c a reason n).0 ≡ tally n + 1
    unfolding guards act suspend
    tally-guards q = ground arith

    guards-marks :
        cfg.dry_run ≡ false
        → (guards cfg now c a reason n).0.suspended
          ≡ n.suspended + marks (guards cfg now c a reason n).1
    unfolding guards act suspend
    guards-marks d = ground arith

  guards_kept : (reason : Reason) → (guards cfg now c a reason n).0.candidates ≡ n.candidates
  unfolding guards act suspend
  guards_kept reason = ground arith

  clock_kept : (up : Bool) → (clock cfg now c a up n).0.candidates ≡ n.candidates
  unfolding clock
  clock_kept up = grind (arith, guards_kept)

  clock-IsHarmless : (up : Bool) → cfg.dry_run ≡ true → All IsHarmless (clock cfg now c a up n).1
  unfolding clock
  clock-IsHarmless up d = grind (arith, guards-IsHarmless)

  tally-clock : (up : Bool) → IsCalm a → tally (clock cfg now c a up n).0 ≡ tally n + 1
  unfolding clock
  tally-clock up q = grind (arith, tally-guards)

  clock-marks :
      (up : Bool)
      → cfg.dry_run ≡ false
      → (clock cfg now c a up n).0.suspended ≡ n.suspended + marks (clock cfg now c a up n).1
  unfolding clock
  clock-marks up d = grind (arith, guards-marks)

  module _ (state : Option VmIdleState) (sample : Option VmPerfSample) where
    candidate-IsHarmless :
        cfg.dry_run ≡ true → All IsHarmless (evaluate_candidate cfg now state sample c a n).1
    unfolding evaluate_candidate evaluate_known synced_vm_status sync_power_state utilisation
    candidate-IsHarmless d = ground (arith, clock-IsHarmless true, clock-IsHarmless false)

    candidate_tally :
        IsCalm a
        → str_eq c.vcenter_vm_id "" ≡ false
        → tally (evaluate_candidate cfg now state sample c a n).0 ≡ tally n + 1
    unfolding evaluate_candidate evaluate_known synced_vm_status sync_power_state utilisation
    candidate_tally q m = ground (arith, tally-clock true, tally-clock false)

    candidate_same :
        str_eq c.vcenter_vm_id "" ≡ true → (evaluate_candidate cfg now state sample c a n) ≡ (n, [])
    unfolding evaluate_candidate
    candidate_same m = ground arith

    candidate_kept : (evaluate_candidate cfg now state sample c a n).0.candidates ≡ n.candidates
    unfolding evaluate_candidate evaluate_known synced_vm_status sync_power_state utilisation
    candidate_kept = ground (arith, clock_kept true, clock_kept false)

    candidate_marks :
        cfg.dry_run ≡ false
        → (evaluate_candidate cfg now state sample c a n).0.suspended
          ≡ n.suspended + marks (evaluate_candidate cfg now state sample c a n).1
    unfolding evaluate_candidate evaluate_known synced_vm_status sync_power_state utilisation
    candidate_marks d = ground (arith, clock-marks true, clock-marks false)

module _ (cfg : Config) (now : ℕ) (states : String → Option VmIdleState)
    (perf : String → Option VmPerfSample) (answers : ℕ → Answers) where
  from_IsHarmless :
      (base : ℕ) (cs : List Candidate) (n : Counts)
      → cfg.dry_run ≡ true
      → All IsHarmless (evaluate_from cfg now states perf answers base cs n).1
  unfolding evaluate_from
  from_IsHarmless base [] n d = tt
  from_IsHarmless base (c ∷ cs) n d =
      All-append _ _
        (candidate-IsHarmless cfg now c (answers base) n (states c.vcenter_vm_id)
          (perf c.vcenter_vm_id) d)
        (from_IsHarmless (base + 1) cs _ d)

  from_marks :
      (base : ℕ) (cs : List Candidate) (n : Counts)
      → cfg.dry_run ≡ false
      → (evaluate_from cfg now states perf answers base cs n).0.suspended
        ≡ n.suspended + marks (evaluate_from cfg now states perf answers base cs n).1
  unfolding evaluate_from
  from_marks base [] n d = omega arith
  from_marks base (c ∷ cs) n d =
      let one : Outcome =
        evaluate_candidate cfg now (states c.vcenter_vm_id) (perf c.vcenter_vm_id) c (answers base)
          n in
      omega (
        arith,
        candidate_marks cfg now c (answers base) n (states c.vcenter_vm_id) (perf c.vcenter_vm_id)
            d,
        from_marks (base + 1) cs one.0 d,
        marks-append one.1 (evaluate_from cfg now states perf answers (base + 1) cs one.0).1,
      )

  from_tally :
      (base : ℕ) (cs : List Candidate) (n : Counts)
      → ((i : ℕ) → IsCalm (answers i))
      → tally (evaluate_from cfg now states perf answers base cs n).0 + without_moref cs
        ≡ tally n + length cs
  unfolding evaluate_from without_moref
  from_tally base [] n q = omega arith
  from_tally base (c ∷ cs) n q =
      let one : Outcome =
        evaluate_candidate cfg now (states c.vcenter_vm_id) (perf c.vcenter_vm_id) c (answers base)
          n in
      elim (Bool-cases (str_eq c.vcenter_vm_id "")) [
        | inl e ↦ rw e (
            omega (
              arith,
              ap (λ (r : Outcome). tally r.0)
                  (candidate_same cfg now c (answers base) n (states c.vcenter_vm_id)
                    (perf c.vcenter_vm_id) e),
              from_tally (base + 1) cs one.0 q,
            ))
        | inr e ↦ rw e (
            omega (
              arith,
              candidate_tally cfg now c (answers base) n (states c.vcenter_vm_id)
                  (perf c.vcenter_vm_id) (q base) e,
              from_tally (base + 1) cs one.0 q,
            ))
      ]

  from_candidates :
      (base : ℕ) (cs : List Candidate) (n : Counts)
      → (evaluate_from cfg now states perf answers base cs n).0.candidates ≡ n.candidates
  unfolding evaluate_from
  from_candidates base [] n = refl
  from_candidates base (c ∷ cs) n =
      from_candidates (base + 1) cs
        (evaluate_candidate cfg now (states c.vcenter_vm_id) (perf c.vcenter_vm_id) c (answers base)
          n).0
      ∙ candidate_kept cfg now c (answers base) n (states c.vcenter_vm_id) (perf c.vcenter_vm_id)

without-morefs : (cs : List Candidate) → without_moref cs + length (morefs_of cs) ≡ length cs
unfolding without_moref morefs_of
without-morefs [] = omega arith
without-morefs (c ∷ cs) = ground (arith, without-morefs cs)

module _ (cfg : Config) (env : Environment) where
  gauges-IsHarmless : (n : Counts) → All IsHarmless (gauges cfg n env.now)
  gauges-IsHarmless n = ground arith

  marks-gauges : (n : Counts) → marks (gauges cfg n env.now) ≡ 0
  marks-gauges n = ground arith

  module _ (states : String → Option VmIdleState) (perf : String → Option VmPerfSample)
      (cs : List Candidate) (n : Counts) where
    All-IsHarmless :
        cfg.dry_run ≡ true → All IsHarmless (evaluate_all cfg env states perf cs n).effects
    unfolding evaluate_all
    All-IsHarmless d =
        All-append _ _ (from_IsHarmless cfg env.now states perf env.answers 0 cs n d)
          (gauges-IsHarmless (evaluate_from cfg env.now states perf env.answers 0 cs n).0)

    all_marks :
        cfg.dry_run ≡ false
        → (evaluate_all cfg env states perf cs n).counts.suspended
          ≡ n.suspended + marks (evaluate_all cfg env states perf cs n).effects
    unfolding evaluate_all
    all_marks d =
        let r : Outcome = evaluate_from cfg env.now states perf env.answers 0 cs n in
        omega (
          arith,
          from_marks cfg env.now states perf env.answers 0 cs n d,
          marks-append r.1 (gauges cfg r.0 env.now),
          marks-gauges r.0,
        )

    all_tally :
        ((i : ℕ) → IsCalm (env.answers i))
        → tally (evaluate_all cfg env states perf cs n).counts + without_moref cs
          ≡ tally n + length cs
    unfolding evaluate_all
    all_tally q = from_tally cfg env.now states perf env.answers 0 cs n q

    all_candidates : (evaluate_all cfg env states perf cs n).counts.candidates ≡ n.candidates
    unfolding evaluate_all
    all_candidates = from_candidates cfg env.now states perf env.answers 0 cs n

  -- In dry-run mode a pass makes no call to vCenter that changes a VM and writes no VM status: it
  -- only refreshes activity times and records metrics.
  pub dry_run-IsHarmless : cfg.dry_run ≡ true → All IsHarmless (evaluate_idle_vms cfg env).effects
  unfolding evaluate_idle_vms evaluate_batch
  dry_run-IsHarmless d = grind (arith, All-IsHarmless)

  -- In live mode the counter of suspensions is the number of SetVMSuspended calls.
  pub suspended-marks :
      cfg.dry_run ≡ false
      → (evaluate_idle_vms cfg env).counts.suspended ≡ marks (evaluate_idle_vms cfg env).effects
  unfolding evaluate_idle_vms evaluate_batch no_counts
  suspended-marks d = grind (arith, all_marks)

  -- If the writes that follow a decision succeed and no sync loses its race, then the counters of
  -- a pass add up to the number of candidates: each is counted once, also where a query fails.
  pub tally-candidates :
      ((i : ℕ) → IsCalm (env.answers i))
      → tally (evaluate_idle_vms cfg env).counts ≡ (evaluate_idle_vms cfg env).counts.candidates
  unfolding evaluate_idle_vms evaluate_batch no_counts
  tally-candidates q = grind (arith, all_tally, all_candidates, without-morefs)
