-- ===== src/IdleEval/Safety.antt =====
-- When a pass suspends a VM.
use selfservice_api.Base.{
  ℕ, ◌+◌, ◌-◌, ◌≤◌, ◌<◌, ◌≡◌, refl, ◌⊎◌, List, [], ◌∷◌, Option, none, some, Bool, true, false,
  String, arith, str_eq,
}
use selfservice_api.IdleEval.{
  Candidate, VmIdleState, VmPerfSample, Answers, Config, Counts, Reason, Effect, touch_activity,
  suspend_vm, set_vm_suspended, update_status, record_suspend, set_suspended_gauge, set_last_run,
  cpu_idle_threshold, net_idle_threshold, round_minute,
}
use selfservice_api.IdleEval.Step.{
  Outcome, synced_vm_status, sync_power_state, suspend, act, guards, threshold_of, clock,
  utilisation, evaluate_known, evaluate_candidate,
}

-- The morefs that SuspendVM is called for.
abbrev pub suspensions : List Effect → List String
suspensions [] = []
suspensions (suspend_vm m ∷ es) = m ∷ suspensions es
suspensions (touch_activity _ _ ∷ es) = suspensions es
suspensions (set_vm_suspended _ _ _ ∷ es) = suspensions es
suspensions (update_status _ _ ∷ es) = suspensions es
suspensions (record_suspend _ ∷ es) = suspensions es
suspensions (set_suspended_gauge _ ∷ es) = suspensions es
suspensions (set_last_run _ ∷ es) = suspensions es

abbrev pub When : {A : Type 0} → Option A → (A → Type 0) → Type 0
When none P = ⊥
When (some a) P = P a

-- No sign of work: the sample is there and under both thresholds.
abbrev pub IsQuiet : Option VmPerfSample → Type 0
IsQuiet none = ⊥
IsQuiet (some perf) =
    (perf.valid ≡ true)
    × (perf.cpu_usage < cpu_idle_threshold)
    × (perf.net_usage < net_idle_threshold)

abbrev pub IsOn : VmIdleState → Type 0
IsOn s = (str_eq s.power_state "poweredOff" ≡ false) × (str_eq s.power_state "suspended" ≡ false)

-- The conditions that the package documents for a suspension.
pub record MaySuspend (cfg : Config) (now : ℕ) (state : Option VmIdleState)
    (sample : Option VmPerfSample) (c : Candidate) (a : Answers) : Type 0 where
  pub live : cfg.dry_run ≡ false
  pub moref_known : str_eq c.vcenter_vm_id "" ≡ false
  pub idle : When state (λ s. IsOn s × (s.tools_running ≡ true → IsQuiet sample))
  pub clock_expired : When c.last_activity_at (λ last. last + threshold_of a ≤ now)
  pub pod_active : str_eq c.pod_status "active" ≡ true
  pub no_job : a.has_active_job ≡ some false
  pub no_run : a.has_in_flight_run ≡ some false
  pub eligible : a.still_eligible ≡ some true

module _ (cfg : Config) (now : ℕ) (c : Candidate) (a : Answers) (n : Counts) where
  abbrev pub GuardsPass : Type 0
  GuardsPass =
      (cfg.dry_run ≡ false)
      × (str_eq c.pod_status "active" ≡ true)
      × (a.has_active_job ≡ some false)
      × (a.has_in_flight_run ≡ some false)
      × (a.still_eligible ≡ some true)

  abbrev pub Exactly : Type 0 → Outcome → Type 0
  Exactly P r = (P × (suspensions r.1 ≡ c.vcenter_vm_id ∷ [])) ⊎ ((¬ P) × (suspensions r.1 ≡ []))

  guards_suspend : (reason : Reason) → Exactly GuardsPass (guards cfg now c a reason n)
  unfolding guards act suspend
  guards_suspend reason = ground arith

  abbrev Expired : Type 0
  Expired = When c.last_activity_at (λ last. last + threshold_of a ≤ now)

  clock_suspend : (tools_up : Bool) → Exactly (GuardsPass × Expired) (clock cfg now c a tools_up n)
  unfolding clock
  clock_suspend tools_up = go c.last_activity_at refl
    where
      go :
          (o : Option ℕ)
          → c.last_activity_at ≡ o
          → Exactly (GuardsPass × Expired) (clock cfg now c a tools_up n)
      go none e = ground arith
      go (some last) e = ground (
        arith,
        guards_suspend (record {
          tools_running = tools_up;
          idle_for = round_minute (now - last);
          threshold = threshold_of a;
        }),
      )

  utilisation_suspend :
      (sample : Option VmPerfSample)
      → Exactly (IsQuiet sample × GuardsPass × Expired) (utilisation cfg now sample c a n)
  unfolding utilisation
  utilisation_suspend none = ground arith
  utilisation_suspend (some perf) = ground (arith, clock_suspend true)

  sync_suspend : (status : String) → suspensions (sync_power_state cfg c a status n).1 ≡ []
  unfolding sync_power_state
  sync_suspend status = ground arith

  known_suspend :
      (s : VmIdleState) (sample : Option VmPerfSample)
      → Exactly
          (IsOn s × (s.tools_running ≡ true → IsQuiet sample) × GuardsPass × Expired)
          (evaluate_known cfg now s sample c a n)
  unfolding evaluate_known synced_vm_status
  known_suspend s sample = ground (
    arith,
    utilisation_suspend sample,
    clock_suspend false,
    sync_suspend "stopped",
    sync_suspend "suspended",
  )

  -- For one candidate SuspendVM is called, once and for its own moref, exactly when all the
  -- documented conditions hold.
  pub evaluate_candidate-MaySuspend :
      (state : Option VmIdleState) (sample : Option VmPerfSample)
      → Exactly
          (MaySuspend cfg now state sample c a)
          (evaluate_candidate cfg now state sample c a n)
  unfolding evaluate_candidate
  evaluate_candidate-MaySuspend none sample = ground arith
  evaluate_candidate-MaySuspend (some s) sample = ground (arith, known_suspend s sample)
