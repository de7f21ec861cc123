-- ===== src/IdleEval/Step.antt =====
-- internal/provisioner/idle_eval.go, the body of the loop of evaluateIdleVMs for one candidate, and
-- syncPowerState. Each stage ends in the new counts and the writes that it made.
use selfservice_api.Base.{
  ℕ, ◌+◌, ◌-◌, ◌*◌, List, [], ◌∷◌, Option, none, some, Bool, true, false, not, ◌||◌, String, ltb,
  leb, str_eq, if◌then◌else◌,
}
use selfservice_api.IdleEval.{
  Candidate, VmIdleState, VmPerfSample, Answers, Config, Counts, Reason, Effect, touch_activity,
  suspend_vm, set_vm_suspended, update_status, record_suspend, cpu_idle_threshold,
  net_idle_threshold, default_idle_timeout_seconds, second, round_minute,
}

abbrev pub Outcome : Type 0
Outcome = Counts × List Effect

-- syncedVMStatus.
unfoldable pub synced_vm_status : String → Option String
synced_vm_status ps =
    if str_eq ps "poweredOff"
    then some "stopped"
    else if str_eq ps "suspended"
    then some "suspended"
    else none

unfoldable pub sync_power_state : Config → Candidate → Answers → String → Counts → Outcome
sync_power_state cfg c a status n = elim a.has_active_job [
  | none ↦ (record n { errors = n.errors + 1 }, [])
  | some true ↦ (record n { refused_job = n.refused_job + 1 }, [])
  | some false ↦
      if cfg.dry_run
      then (record n { power_synced = n.power_synced + 1 }, [])
      else elim a.status_changed [
        | none ↦ (record n { errors = n.errors + 1 }, update_status c.pod_vm_id status ∷ [])
        | some true ↦
            (record n { power_synced = n.power_synced + 1 }, update_status c.pod_vm_id status ∷ [])
        | some false ↦ (n, update_status c.pod_vm_id status ∷ [])
      ]
]

-- cfg.Pusher.RecordSuspend under its guard.
abbrev pub pushed : Config → String → List Effect
pushed cfg label = if cfg.pusher then record_suspend label ∷ [] else []

-- From the suspend call on.
unfoldable pub suspend : Config → ℕ → Candidate → Answers → Reason → Counts → Outcome
suspend cfg now c a reason n =
    if a.suspend_done
    then (
      record n {
        suspended = n.suspended + 1;
        errors = if a.mark_suspended_done then n.errors else n.errors + 1;
      },
      suspend_vm c.vcenter_vm_id ∷ set_vm_suspended c.pod_vm_id now reason ∷ pushed cfg "idle",
    )
    else (record n { errors = n.errors + 1 }, suspend_vm c.vcenter_vm_id ∷ pushed cfg "error")

-- All guards have passed.
unfoldable pub act : Config → ℕ → Candidate → Answers → Reason → Counts → Outcome
act cfg now c a reason n =
    if cfg.dry_run
    then (record n { suspended = n.suspended + 1 }, pushed cfg "dry_run")
    else elim a.still_eligible [
      | none ↦ (record n { errors = n.errors + 1 }, [])
      | some false ↦ (record n { errors = n.errors + 1 }, [])
      | some true ↦ suspend cfg now c a reason n
    ]

-- Guards 2, 1 and 3, in the order of the code.
unfoldable pub guards : Config → ℕ → Candidate → Answers → Reason → Counts → Outcome
guards cfg now c a reason n =
    if not (str_eq c.pod_status "active")
    then (record n { refused_pod = n.refused_pod + 1 }, [])
    else elim a.has_active_job [
      | none ↦ (record n { errors = n.errors + 1 }, [])
      | some true ↦ (record n { refused_job = n.refused_job + 1 }, [])
      | some false ↦ elim a.has_in_flight_run [
        | none ↦ (record n { errors = n.errors + 1 }, [])
        | some true ↦ (record n { refused_run = n.refused_run + 1 }, [])
        | some false ↦ act cfg now c a reason n
      ]
    ]

abbrev pub threshold_of : Answers → ℕ
threshold_of a = elim a.timeout_seconds [
  | none ↦ default_idle_timeout_seconds * second
  | some s ↦ s * second
]

-- The activity clock: guard 5, then its freshness. `now.Sub(last) < threshold` is written as
-- `now < last + threshold`.
unfoldable pub clock : Config → ℕ → Candidate → Answers → Bool → Counts → Outcome
clock cfg now c a tools_up n = elim c.last_activity_at [
  | none ↦ (record n { activity_unknown = n.activity_unknown + 1 }, [])
  | some last ↦
      if ltb now (last + threshold_of a)
      then (if not tools_up
          then (record n { tools_missing = n.tools_missing + 1 }, [])
          else (record n { activity_fresh = n.activity_fresh + 1 }, []))
      else (let reason : Reason = record {
        tools_running = tools_up;
        idle_for = round_minute (now - last);
        threshold = threshold_of a;
      } in
          guards cfg now c a reason n)
]

-- The performance sample, wanted only while VMware Tools runs.
unfoldable pub utilisation :
    Config → ℕ → Option VmPerfSample → Candidate → Answers → Counts → Outcome
utilisation cfg now sample c a n = elim sample [
  | none ↦ (record n { perf_missing = n.perf_missing + 1 }, [])
  | some perf ↦
      if not perf.valid
      then (record n { perf_missing = n.perf_missing + 1 }, [])
      else if leb cpu_idle_threshold perf.cpu_usage || leb net_idle_threshold perf.net_usage
      then (
        record n {
          activity_fresh = n.activity_fresh + 1;
          errors = if a.touched then n.errors else n.errors + 1;
        },
        touch_activity c.pod_vm_id now ∷ [],
      )
      else clock cfg now c a true n
]

-- A VM that vCenter returned.
unfoldable pub evaluate_known :
    Config → ℕ → VmIdleState → Option VmPerfSample → Candidate → Answers → Counts → Outcome
evaluate_known cfg now state sample c a n = elim (synced_vm_status state.power_state) [
  | some status ↦ sync_power_state cfg c a status n
  | none ↦
      if state.tools_running then utilisation cfg now sample c a n else clock cfg now c a false n
]

unfoldable pub evaluate_candidate :
    Config → ℕ → Option VmIdleState → Option VmPerfSample → Candidate → Answers → Counts → Outcome
evaluate_candidate cfg now state sample c a n =
    if str_eq c.vcenter_vm_id "" then (n, []) else elim state [
      | none ↦ (record n { tools_missing = n.tools_missing + 1 }, [])
      | some s ↦ evaluate_known cfg now s sample c a n
    ]
