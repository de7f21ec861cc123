-- ===== src/IdleEval/Tests.antt =====
-- A pass over three VMs: one idle, one at work, one whose pod is being destroyed.
use selfservice_api.Base.{
  bytes_eq, ◌≡◌, refl, ◌↔◌, List, [], ◌∷◌, Option, none, some, true, false, String, str_eq,
  if◌then◌else◌, In, All,
}
use selfservice_api.IdleEval.{Candidate, VmIdleState, VmPerfSample, Answers, Config}
use selfservice_api.IdleEval.Parse.{parse_dry_run_env, off_explicit}
use selfservice_api.IdleEval.Step.{
  synced_vm_status, sync_power_state, suspend, act, guards, clock, utilisation, evaluate_known,
  evaluate_candidate,
}
use selfservice_api.IdleEval.Pass.{
  Environment, no_counts, morefs_of, without_moref, evaluate_from, evaluate_all, evaluate_batch,
  evaluate_idle_vms,
}
use selfservice_api.IdleEval.Safety.{suspensions}
use selfservice_api.IdleEval.Suspends.{Cause, evaluate_idle_vms-Cause}
use selfservice_api.IdleEval.Counting.{IsHarmless, tally, dry_run-IsHarmless, tally-candidates}

abbrev live : Config
live = record { dry_run = false; pusher = true }

abbrev rehearsal : Config
rehearsal = record { dry_run = true; pusher = false }

abbrev idle_vm : Candidate
idle_vm = record {
  pod_vm_id = 1;
  pod_id = 1;
  vcenter_vm_id = "vm-1";
  pod_status = "active";
  last_activity_at = some 5;
}

abbrev doomed_vm : Candidate
doomed_vm = record {
  pod_vm_id = 2;
  pod_id = 2;
  vcenter_vm_id = "vm-2";
  pod_status = "destroying";
  last_activity_at = some 5;
}

abbrev busy_vm : Candidate
busy_vm = record {
  pod_vm_id = 3;
  pod_id = 3;
  vcenter_vm_id = "vm-3";
  pod_status = "active";
  last_activity_at = some 5;
}

abbrev lost_vm : Candidate
lost_vm = record {
  pod_vm_id = 4;
  pod_id = 4;
  vcenter_vm_id = "";
  pod_status = "active";
  last_activity_at = none;
}

abbrev calm : Answers
calm = record {
  touched = true;
  timeout_seconds = some 60;
  has_active_job = some false;
  has_in_flight_run = some false;
  still_eligible = some true;
  suspend_done = true;
  mark_suspended_done = true;
  status_changed = some true;
}

abbrev powered : String → Option VmIdleState
powered m = some (record { tools_running = true; power_state = "poweredOn" })

abbrev sample : String → Option VmPerfSample
sample m =
    some (record { valid = true; cpu_usage = if str_eq m "vm-3" then 900 else 20; net_usage = 1 })

abbrev fleet : List Candidate
fleet = idle_vm ∷ doomed_vm ∷ busy_vm ∷ lost_vm ∷ []

abbrev night : Environment
night = record {
  list_running = some fleet;
  vm_idle_states = λ morefs. some powered;
  perf_samples = λ morefs. some sample;
  now = 100000000000;
  answers = λ i. calm;
}

night_suspends : suspensions (evaluate_idle_vms live night).effects ≡ "vm-1" ∷ []
unfolding synced_vm_status sync_power_state suspend act guards clock utilisation evaluate_known
    evaluate_candidate no_counts morefs_of without_moref evaluate_from evaluate_all evaluate_batch
    evaluate_idle_vms
night_suspends = refl

evaluate_idle_vms-Cause_example :
    In "vm-1" (suspensions (evaluate_idle_vms live night).effects)
    ↔ Cause live 100000000000 powered sample (λ i. calm) "vm-1" 0 fleet
evaluate_idle_vms-Cause_example =
    evaluate_idle_vms-Cause live night powered sample fleet refl refl refl "vm-1"

dry_run-IsHarmless_example : All IsHarmless (evaluate_idle_vms rehearsal night).effects
dry_run-IsHarmless_example = dry_run-IsHarmless rehearsal night refl

tally-candidates_example :
    tally (evaluate_idle_vms live night).counts ≡ (evaluate_idle_vms live night).counts.candidates
tally-candidates_example = tally-candidates live night (λ i. (refl, refl, refl))

disarmed : (parse_dry_run_env (b'F' ∷ b'a' ∷ b'l' ∷ b's' ∷ b'E' ∷ [])).outcome ≡ off_explicit
unfolding parse_dry_run_env bytes_eq
disarmed = refl
