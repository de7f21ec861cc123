-- ===== src/Retry/Tests.antt =====
-- internal/provisioner/retryable.go: a clone the storage rejected, and a wrong password.
use selfservice_api.Base.{ℕ, ◌≡◌, ◌↔◌, List, some, true, false}
use selfservice_api.Retry.{JobError, codes}
use selfservice_api.Retry.Classify.{classify_error}
use selfservice_api.Retry.Retried.{IsRetried, classify_error-IsRetried}

abbrev plain : List ℕ → JobError
plain text = record {
  blocked_by_mutator = false;
  compensated = false;
  manual_cleanup = false;
  compensation_retry = false;
  pod_create_cleanup_retry = false;
  job_lease_lost = false;
  placement_unavailable = false;
  capacity_release = false;
  placement_drift = false;
  drs_control_drift = false;
  build_obsolete = false;
  text = text;
}

abbrev rejected_clone : JobError
rejected_clone =
    plain (codes "clone: The virtual disk is either corrupted or not a supported format.")

classify_error-IsRetried_example :
    ((classify_error (some rejected_clone) "vm_add").0 ≡ true) ↔ IsRetried rejected_clone "vm_add"
classify_error-IsRetried_example = classify_error-IsRetried rejected_clone "vm_add"
