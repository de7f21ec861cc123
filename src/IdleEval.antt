-- ===== src/IdleEval.antt =====
-- internal/provisioner/idle_eval.go: which running VMs one pass of the evaluator suspends.
-- vCenter and the database are the environment: what they hold, and what each call returns, is an
-- argument. `none` stands for a non-nil error of a call. Times and durations are nanoseconds, not
-- negative; a sample below zero reads as zero.
pub mod Parse
pub mod Step
pub mod Pass
pub mod Safety
pub mod Suspends
pub mod Counting
mod Tests
use selfservice_api.Base.{ℕ, ◌+◌, ◌*◌, ◌/◌, List, Option, Bool, String}

-- database.IdleSuspendCandidate.
pub record Candidate : Type 0 where
  pub pod_vm_id : ℕ
  pub pod_id : ℕ
  pub vcenter_vm_id : String
  pub pod_status : String
  pub last_activity_at : Option ℕ

-- vcenter.VMIdleState.
pub record VmIdleState : Type 0 where
  pub tools_running : Bool
  pub power_state : String

-- vcenter.VMPerfSample.
pub record VmPerfSample : Type 0 where
  pub valid : Bool
  pub cpu_usage : ℕ
  pub net_usage : ℕ

-- What the calls for one candidate return; the Boolean of a write says that it succeeded.
pub record Answers : Type 0 where
  pub touched : Bool
  pub timeout_seconds : Option ℕ
  pub has_active_job : Option Bool
  pub has_in_flight_run : Option Bool
  pub still_eligible : Option Bool
  pub suspend_done : Bool
  pub mark_suspended_done : Bool
  pub status_changed : Option Bool

pub record Config : Type 0 where
  pub dry_run : Bool
  -- Whether a Pusher is set.
  pub pusher : Bool

pub record Counts : Type 0 where
  pub candidates : ℕ
  pub skipped : ℕ
  pub tools_missing : ℕ
  pub perf_missing : ℕ
  pub activity_fresh : ℕ
  pub activity_unknown : ℕ
  pub refused_job : ℕ
  pub refused_pod : ℕ
  pub refused_run : ℕ
  pub suspended : ℕ
  pub power_synced : ℕ
  pub errors : ℕ

-- The text of a suspension: whether VMware Tools ran, the idle time and the threshold.
pub record Reason : Type 0 where
  pub tools_running : Bool
  pub idle_for : ℕ
  pub threshold : ℕ

-- The calls that write, in order.
pub data Effect : Type 0 where
  touch_activity : ℕ → ℕ → Effect
  suspend_vm : String → Effect
  set_vm_suspended : ℕ → ℕ → Reason → Effect
  update_status : ℕ → String → Effect
  record_suspend : String → Effect
  set_suspended_gauge : ℕ → Effect
  set_last_run : ℕ → Effect

abbrev pub cpu_idle_threshold : ℕ
cpu_idle_threshold = 500

abbrev pub net_idle_threshold : ℕ
net_idle_threshold = 10

abbrev pub default_idle_timeout_seconds : ℕ
default_idle_timeout_seconds = 7200

abbrev pub second : ℕ
second = 1000000000

-- Duration.Round(time.Minute), for a duration that is not negative.
abbrev pub round_minute : ℕ → ℕ
round_minute d = (d + 30 * second) / (60 * second) * (60 * second)
