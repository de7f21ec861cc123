-- ===== src/Synthetic/Tests.antt =====
-- A check that vCenter slows down once and that passes when it is tried again.
use selfservice_api.Base.{
  ℕ, ◌*◌, ◌≤◌, ◌≡◌, ◌↔◌, List, [], ◌∷◌, Option, none, some, true, false, String, pos, arith, ◌==◌,
  if◌then◌else◌,
}
use selfservice_api.Retry.{codes}
use selfservice_api.Synthetic.{
  second, CheckError, RetryConfig, default_retry_config, CheckRun, returned, find_policy, run_one,
  retry_cycle_timeout,
}
use selfservice_api.Synthetic.Attempts.{PassesAt}
use selfservice_api.Synthetic.Outcome.{allowed, run_one-passes}
use selfservice_api.Synthetic.Budget.{spent, run_one-retry_cycle_timeout}

abbrev policy : List (String × RetryConfig)
policy = ("pod_lifecycle", default_retry_config) ∷ []

abbrev runs : ℕ → CheckRun
runs j =
    if j == 1
    then returned 0 (
        some (record {
          deadline_exceeded = false;
          message = codes "timed out (last seen provisioning)";
        }))
    else returned 200 none

abbrev no_pause_ends : ℕ → Option CheckError
no_pause_ends j = none

run_one-passes_example :
    ((1 ≤ (run_one policy "pod_lifecycle" runs no_pause_ends).attempts)
      × ((run_one policy "pod_lifecycle" runs no_pause_ends).attempts
          ≤ allowed policy "pod_lifecycle" runs no_pause_ends))
    × (((run_one policy "pod_lifecycle" runs no_pause_ends).success ≡ true) ↔ (
        (k : ℕ) × PassesAt runs no_pause_ends 1 k
        × (k ≤ allowed policy "pod_lifecycle" runs no_pause_ends)
        × ((run_one policy "pod_lifecycle" runs no_pause_ends).attempts ≡ k)))
run_one-passes_example = run_one-passes policy "pod_lifecycle" runs no_pause_ends

-- Two attempts of three hundred seconds and a pause of thirty.
run_one-retry_cycle_timeout_example :
    (limit : ℕ) × (retry_cycle_timeout (300 * second) default_retry_config ≡ pos limit)
    × (spent
          (λ j. 200 * second)
          (30 * second)
          (run_one policy "pod_lifecycle" runs no_pause_ends).attempts
        ≤ limit)
unfolding find_policy
run_one-retry_cycle_timeout_example =
    run_one-retry_cycle_timeout policy "pod_lifecycle" runs no_pause_ends (λ j. 200 * second)
      (300 * second) (λ j. omega arith) (omega arith)
