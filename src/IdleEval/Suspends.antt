-- ===== src/IdleEval/Suspends.antt =====
-- Which VMs a whole pass suspends.
use selfservice_api.Base.{
  ℕ, zero, suc, ◌+◌, ◌≡◌, refl, sym, ◌∙◌, append-nil, ◌⊎◌, inl, inr, ◌↔◌, List, [], ◌∷◌, ◌++◌,
  Option, some, true, String, arith, str_eq, length, In, In-append_left, In-append_right,
  In-append_cases, get_elem?,
}
use mathlib.Core.Path.{subst}
use native.Mathlib.Nat.{add-zero}
use selfservice_api.IdleEval.{
  Candidate, VmIdleState, VmPerfSample, Answers, Config, Counts, Effect, touch_activity, suspend_vm,
  set_vm_suspended, update_status, record_suspend, set_suspended_gauge, set_last_run,
}
use selfservice_api.IdleEval.Step.{Outcome, evaluate_candidate}
use selfservice_api.IdleEval.Pass.{
  Environment, no_counts, morefs_of, without_moref, evaluate_from, evaluate_all, evaluate_batch,
  evaluate_idle_vms, gauges,
}
use selfservice_api.IdleEval.Safety.{suspensions, MaySuspend, evaluate_candidate-MaySuspend}

suspensions-append :
    (xs ys : List Effect) → suspensions (xs ++ ys) ≡ suspensions xs ++ suspensions ys
suspensions-append [] ys = refl
suspensions-append (suspend_vm m ∷ xs) ys = ground (arith, suspensions-append xs ys)
suspensions-append (touch_activity _ _ ∷ xs) ys = suspensions-append xs ys
suspensions-append (set_vm_suspended _ _ _ ∷ xs) ys = suspensions-append xs ys
suspensions-append (update_status _ _ ∷ xs) ys = suspensions-append xs ys
suspensions-append (record_suspend _ ∷ xs) ys = suspensions-append xs ys
suspensions-append (set_suspended_gauge _ ∷ xs) ys = suspensions-append xs ys
suspensions-append (set_last_run _ ∷ xs) ys = suspensions-append xs ys

module _ (cfg : Config) (now : ℕ) (states : String → Option VmIdleState)
    (perf : String → Option VmPerfSample) (answers : ℕ → Answers) (m : String) where
  -- The candidate at index `i`, counted from `base`, is the reason that `m` is suspended.
  abbrev pub Cause : ℕ → List Candidate → Type 0
  Cause base cs =
      (i : ℕ) × (c : Candidate) × (get_elem? cs i ≡ some c)
      × (c.vcenter_vm_id ≡ m)
      × MaySuspend cfg now (states m) (perf m) c (answers (base + i))

  Cause-head :
      (base : ℕ) (c : Candidate) (cs : List Candidate)
      → c.vcenter_vm_id ≡ m
      → MaySuspend cfg now (states c.vcenter_vm_id) (perf c.vcenter_vm_id) c (answers base)
      → Cause base (c ∷ cs)
  Cause-head base c cs e h = (
    0,
    c,
    refl,
    e,
    subst (λ k. MaySuspend cfg now (states m) (perf m) c (answers k)) (sym (add-zero base))
        (subst (λ s. MaySuspend cfg now (states s) (perf s) c (answers base)) e h),
  )

  Cause-tail :
      (base : ℕ) (c : Candidate) (cs : List Candidate) → Cause (base + 1) cs → Cause base (c ∷ cs)
  Cause-tail base c cs (i, d, g, e, h) =
      let p : base + 1 + i ≡ base + suc i = omega arith in
      (suc i, d, g, e, subst (λ k. MaySuspend cfg now (states m) (perf m) d (answers k)) p h)

  Cause-cases :
      (base : ℕ) (c : Candidate) (cs : List Candidate)
      → Cause base (c ∷ cs)
      → ((c.vcenter_vm_id ≡ m)
          × MaySuspend cfg now (states c.vcenter_vm_id) (perf c.vcenter_vm_id) c (answers base))
        ⊎ Cause (base + 1) cs
  Cause-cases base c cs (zero, d, g, e, h) =
      let q : c ≡ d = cc in
      let e' : c.vcenter_vm_id ≡ m = subst (λ x. x.vcenter_vm_id ≡ m) (sym q) e in
      inl (
        e',
        subst (λ s. MaySuspend cfg now (states s) (perf s) c (answers base)) (sym e')
            (subst (λ k. MaySuspend cfg now (states m) (perf m) c (answers k)) (add-zero base)
              (subst (λ x. MaySuspend cfg now (states m) (perf m) x (answers (base + 0))) (sym q)
                h)),
      )
  Cause-cases base c cs (suc i, d, g, e, h) =
      let p : base + suc i ≡ base + 1 + i = omega arith in
      inr (i, d, g, e, subst (λ k. MaySuspend cfg now (states m) (perf m) d (answers k)) p h)

  Cause-nil : (base : ℕ) → Cause base [] → ⊥
  Cause-nil base (i, c, g, e, h) = cc

  In-one :
      {P : Type 0} (k : String) (ms : List String)
      → (P × (ms ≡ k ∷ [])) ⊎ ((¬ P) × (ms ≡ []))
      → In m ms ↔ ((k ≡ m) × P)
  In-one k ms (inl (p, e)) =
      rw e ((λ h. (elim h [ inl q ↦ q | inr f ↦ absurd f ], p)), λ q. inl q.0)
  In-one k ms (inr (np, e)) = rw e ((λ h. absurd h), λ q. np q.1)

  evaluate_from-Cause :
      (base : ℕ) (cs : List Candidate) (n : Counts)
      → In m (suspensions (evaluate_from cfg now states perf answers base cs n).1) ↔ Cause base cs
  unfolding evaluate_from
  evaluate_from-Cause base [] n = (λ h. elim h [ ], λ h. Cause-nil base h)
  evaluate_from-Cause base (c ∷ cs) n = (
    λ h. elim (In-append_cases m (suspensions one.1) (suspensions rest.1) (rw split at h)) [
      | inl l ↦ let q = first.0 l in Cause-head base c cs q.0 q.1
      | inr r ↦ Cause-tail base c cs ((evaluate_from-Cause (base + 1) cs one.0).0 r)
    ],
    λ h. rw split (elim (Cause-cases base c cs h) [
      | inl q ↦ In-append_left m (suspensions one.1) (suspensions rest.1) (first.1 q)
      | inr r ↦
          In-append_right m (suspensions one.1) (suspensions rest.1)
            ((evaluate_from-Cause (base + 1) cs one.0).1 r)
    ]),
  )
    where
      one : Outcome
      one =
          evaluate_candidate cfg now (states c.vcenter_vm_id) (perf c.vcenter_vm_id) c
            (answers base) n

      rest : Outcome
      rest = evaluate_from cfg now states perf answers (base + 1) cs one.0

      split : suspensions (one.1 ++ rest.1) ≡ suspensions one.1 ++ suspensions rest.1
      split = suspensions-append one.1 rest.1

      first : In m (suspensions one.1) ↔ (
          (c.vcenter_vm_id ≡ m)
          × MaySuspend cfg now (states c.vcenter_vm_id) (perf c.vcenter_vm_id) c (answers base))
      first = In-one c.vcenter_vm_id (suspensions one.1) (
          evaluate_candidate-MaySuspend cfg now c (answers base) n (states c.vcenter_vm_id)
            (perf c.vcenter_vm_id))

no_moref :
    (cs : List Candidate) (i : ℕ) (c : Candidate)
    → morefs_of cs ≡ []
    → get_elem? cs i ≡ some c
    → str_eq c.vcenter_vm_id "" ≡ true
unfolding morefs_of
no_moref [] i c h g = cc
no_moref (d ∷ cs) zero c h g = ground arith
no_moref (d ∷ cs) (suc i) c h g = ground (arith, no_moref cs i c)

suspensions-gauges : (cfg : Config) (n : Counts) (now : ℕ) → suspensions (gauges cfg n now) ≡ []
suspensions-gauges cfg n now = ground arith

all_suspensions :
    (cfg : Config) (env : Environment) (states : String → Option VmIdleState)
    (perf : String → Option VmPerfSample) (cs : List Candidate) (n : Counts)
    → suspensions (evaluate_all cfg env states perf cs n).effects
      ≡ suspensions (evaluate_from cfg env.now states perf env.answers 0 cs n).1
unfolding evaluate_all
all_suspensions cfg env states perf cs n =
    let r : Outcome = evaluate_from cfg env.now states perf env.answers 0 cs n in
    suspensions-append r.1 (gauges cfg r.0 env.now)
    ∙ rw (suspensions-gauges cfg r.0 env.now) (append-nil (suspensions r.1))

module _ (cfg : Config) (env : Environment) (states : String → Option VmIdleState)
    (perf : String → Option VmPerfSample) (cs : List Candidate)
    (listed : env.list_running ≡ some cs) (known : env.vm_idle_states (morefs_of cs) ≡ some states)
    (sampled : env.perf_samples (morefs_of cs) ≡ some perf) where
  batch : (n : Counts) → evaluate_batch cfg env cs n ≡ evaluate_all cfg env states perf cs n
  unfolding evaluate_batch
  batch n = ground arith

  abbrev start : Counts
  start = record no_counts { candidates = length cs; skipped = without_moref cs }

  effects_without : morefs_of cs ≡ [] → (evaluate_idle_vms cfg env).effects ≡ []
  unfolding evaluate_idle_vms
  effects_without e = rw (evaluate_idle_vms, listed, e)

  effects_batch :
      (k : String) (ks : List String)
      → morefs_of cs ≡ k ∷ ks
      → evaluate_idle_vms cfg env ≡ evaluate_batch cfg env cs start
  unfolding evaluate_idle_vms
  effects_batch k ks e = ground arith

  -- Where the candidates are listed and both batched queries answer, a pass calls SuspendVM for a
  -- moref exactly when some candidate with that moref meets all the documented conditions: the
  -- evaluator is live, vCenter knows the VM and does not report it off or suspended, its sample is
  -- quiet if VMware Tools runs, its activity clock is known and has expired, its pod is active, no
  -- job and no run is in flight, and the last check still finds it eligible.
  pub evaluate_idle_vms-Cause :
      (m : String)
      → In m (suspensions (evaluate_idle_vms cfg env).effects)
        ↔ Cause cfg env.now states perf env.answers m 0 cs
  evaluate_idle_vms-Cause m = go (morefs_of cs) refl
    where
      go :
          (ms : List String)
          → morefs_of cs ≡ ms
          → In m (suspensions (evaluate_idle_vms cfg env).effects)
            ↔ Cause cfg env.now states perf env.answers m 0 cs
      go [] e =
          rw (effects_without e)
            (λ h. absurd h, λ (i, c, g, q, may). cc (no_moref cs i c e g, may.moref_known))
      go (k ∷ ks) e =
          rw (effects_batch k ks e, batch start, all_suspensions cfg env states perf cs start)
            (evaluate_from-Cause cfg env.now states perf env.answers m 0 cs start)
