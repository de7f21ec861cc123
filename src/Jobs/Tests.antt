-- ===== src/Jobs/Tests.antt =====
-- internal/provisioner/create.go, processJobLifecycle: a clone that fails again and again, an import,
-- and a clean-up whose first write is lost.
use selfservice_api.Base.{◌≡◌, refl, List, [], ◌∷◌, none, some, true, false}
use selfservice_api.Retry.{
  JobError, codes, contains_any_folded, contains_any, contains, has_prefix, to_lower,
}
use selfservice_api.Retry.Classify.{
  classify_error, classify_marked, classify_text, import_timed_out, classify_vcenter,
}
use selfservice_api.Jobs.Verdict.{verdict_of, retry_available}
use selfservice_api.Jobs.{
  is_template_job_type, Job, Setup, CleanupRound, Replies, succeeded, classify_placement,
  image_import_retry_within_budget,
}
use selfservice_api.Jobs.Process.{process_job, finish_job, handle_error, schedule_job, fail_job}
use selfservice_api.Jobs.Settling.{settled, expected, process_job-settled}
use selfservice_api.Jobs.Budget.{
  is_retried, Sequel, put_back, recovered, ended, is_settled, attempts,
}
use selfservice_api.Jobs.Failure.{Attempt}
use selfservice_api.Jobs.Writes.{gives_up, count_writes}
use selfservice_api.Jobs.Cleanup.{IsCleanup, IsKept, process_job-IsKept, cleanup_scheduled}

abbrev plain : JobError
plain = record {
  blocked_by_mutator = false;
  compensated = false;
  manual_cleanup = false;
  compensation_retry = false;
  pod_create_cleanup_retry = false;
  job_lease_lost = false;
  placement_unavailable = true;
  capacity_release = false;
  placement_drift = false;
  drs_control_drift = false;
  build_obsolete = false;
  text = codes "no host";
}

abbrev drifted : JobError
drifted = record plain { placement_drift = true }

abbrev setup : Setup
setup = record { pipeline = true; publish = true; template_store = false }

abbrev add_vm : Job
add_vm = record {
  job_type = "vm_add";
  retry_count = 0;
  max_retries = 2;
  cleanup_only = false;
  created_at = some 0;
  claimed = true;
}

abbrev import_image : Job
import_image = record add_vm { job_type = "image_import"; retry_count = 9 }

abbrev clean_up : Job
clean_up = record add_vm { cleanup_only = true; retry_count = 9 }

abbrev lost_round : CleanupRound
lost_round = record { stopped = false; now = 7; jitter = none; written = false }

abbrev written_round : CleanupRound
written_round = record { stopped = false; now = 9; jitter = none; written = true }

abbrev fails_with : JobError → Replies
fails_with err = record {
  in_progress_set = true;
  dispatched = some err;
  completed_set = true;
  now = 5;
  jitter = none;
  retry_set = true;
  template_retry_set = true;
  cleanup_rounds = lost_round ∷ written_round ∷ [];
  template_failed = some true;
  failed_set = true;
}

process_job-settled_example :
    settled (process_job setup clean_up (fails_with plain)).1
    ≡ expected (process_job setup clean_up (fails_with plain)).0
process_job-settled_example = process_job-settled setup clean_up (fails_with plain)

import_put_back : is_retried (process_job setup import_image (fails_with plain)).1 ≡ true
unfolding is_retried process_job finish_job handle_error verdict_of retry_available
    image_import_retry_within_budget schedule_job classify_placement classify_error classify_marked
    classify_text contains_any_folded contains_any contains has_prefix to_lower import_timed_out
    classify_vcenter
import_put_back = refl

-- Two runs are put back, one is recovered after its writes failed, and the last fails for good.
abbrev history : List (Replies × Sequel)
history =
    (fails_with plain, put_back)
    ∷ (fails_with plain, put_back)
    ∷ (record (fails_with plain) { failed_set = false }, recovered)
    ∷ (fails_with plain, ended)
    ∷ []

-- Four attempts, for two retries and a recovery.
attempts_used : attempts setup add_vm history ≡ 4
unfolding is_template_job_type attempts is_retried is_settled process_job finish_job handle_error
    verdict_of retry_available schedule_job fail_job classify_placement classify_error
    classify_marked classify_text contains_any_folded contains_any contains has_prefix to_lower
    import_timed_out classify_vcenter
attempts_used = refl

plain-IsCleanup : IsCleanup clean_up (classify_placement plain)
unfolding classify_placement
plain-IsCleanup = record { cleans = refl; wanted = refl; undone = refl; automatic = refl }

process_job-IsKept_example : IsKept (process_job setup clean_up (fails_with plain))
process_job-IsKept_example =
    process_job-IsKept setup clean_up (fails_with plain) plain refl refl refl plain-IsCleanup

cleanup_scheduled_example :
    ((process_job setup clean_up (fails_with plain)).0 ≡ succeeded)
    × (gives_up (process_job setup clean_up (fails_with plain)).1 ≡ false)
    × (count_writes true (process_job setup clean_up (fails_with plain)).1 ≡ 1)
    × (count_writes false (process_job setup clean_up (fails_with plain)).1 ≡ 1)
cleanup_scheduled_example =
    cleanup_scheduled setup clean_up (fails_with plain) plain (lost_round ∷ []) written_round []
      refl refl refl plain-IsCleanup refl ((refl, refl), tt) (refl, refl)

abbrev first_try : Attempt
first_try = record { cause = some plain; retry_count = 0; max_retries = 2; jitter = none }

abbrev second_try : Attempt
second_try = record { cause = some drifted; retry_count = 1; max_retries = 2; jitter = none }
