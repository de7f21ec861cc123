-- ===== src/Synthetic.antt =====
-- internal/synthetic/runner.go and retry.go: one check with its retries, and the time it may take.
-- What a check does, and whether the context ends during a pause, is answered for each attempt. Logging
-- and the time of a result are left out; a duration is in nanoseconds.
pub mod Attempts
pub mod Outcome
pub mod Budget
mod Tests
use selfservice_api.Base.{
  ℕ, zero, suc, ◌+◌, ◌-◌, ◌*◌, List, [], ◌∷◌, map, Option, none, some, Bool, true, false, not, ◌&&◌,
  ◌||◌, String, str_eq, ◌==◌, if◌then◌else◌, ℤ, pos, negsuc, signed, int_ltb, ◌+ℤ◌,
}
use selfservice_api.Retry.{codes, contains}

abbrev pub second : ℕ
second = 1000000000

-- An error, with the answer of errors.Is for context.DeadlineExceeded and its text.
pub record CheckError : Type 0 where
  pub deadline_exceeded : Bool
  pub message : List ℕ

unfoldable pub is_vcenter_degraded : Option CheckError → Bool
is_vcenter_degraded none = false
is_vcenter_degraded (some e) =
    e.deadline_exceeded
    || (contains e.message (codes "provisioning") && contains e.message (codes "timed out"))
    || contains e.message (codes "context deadline exceeded")

pub record RetryConfig : Type 0 where
  pub max_attempts : ℤ
  pub backoff : ℕ

abbrev pub default_retry_config : RetryConfig
default_retry_config = record { max_attempts = pos 2; backoff = 30 * second }

-- Check.Run returns a status and an error, or panics.
pub data CheckRun : Type 0 where
  returned : ℕ → Option CheckError → CheckRun
  panics : CheckRun

pub record Executed : Type 0 where
  pub status : ℕ
  pub failure : Option CheckError
  pub panicked : Bool

unfoldable pub exec_once : CheckRun → Executed
exec_once (returned status err) = record { status = status; failure = err; panicked = false }
exec_once panics = record {
  status = 0;
  failure = some (record { deadline_exceeded = false; message = codes "synthetic check panicked" });
  panicked = true;
}

pub record CheckResult : Type 0 where
  pub attempts : ℕ
  pub success : Bool
  pub result_err : Option CheckError
  pub http_status : ℕ
  pub vcenter_degraded : Bool

abbrev pub no_result : CheckResult
no_result = record {
  attempts = 0;
  success = false;
  result_err = none;
  http_status = 0;
  vcenter_degraded = false;
}

abbrev pub is_nil : Option CheckError → Bool
is_nil none = true
is_nil (some e) = false

abbrev pub succeeds : Executed → Bool
succeeds x = is_nil x.failure && not x.panicked

-- The result after one attempt: degradation is kept from earlier ones.
unfoldable pub after_attempt : ℕ → Executed → CheckResult → CheckResult
after_attempt attempt x res = record {
  attempts = attempt;
  success = succeeds x;
  result_err = x.failure;
  http_status = x.status;
  vcenter_degraded =
      if not (succeeds x) && is_vcenter_degraded x.failure then true else res.vcenter_degraded;
}

-- The context ended during the pause, with its error, or the next attempts follow.
abbrev pub after_pause : Option CheckError → CheckResult → CheckResult → CheckResult
after_pause none res rest = rest
after_pause (some e) res rest = record res { success = false; result_err = some e }

abbrev pub is_last : ℕ → Bool
is_last zero = true
is_last (suc left) = false

-- `run` answers the attempt of a number, `pause` the select after it.
module _ (run : ℕ → CheckRun) (pause : ℕ → Option CheckError) where
  -- The loop of `runOne`, with the number of attempts that are left.
  unfoldable pub run_attempts : ℕ → ℕ → CheckResult → CheckResult
  run_attempts zero attempt res = res
  run_attempts (suc left) attempt res =
      let tried = after_attempt attempt (exec_once (run attempt)) res in
      let rest = run_attempts left (suc attempt) tried in
      if tried.success
      then tried
      else if is_last left
      then tried
      else after_pause (pause attempt) tried rest

unfoldable pub find_policy : String → List (String × RetryConfig) → RetryConfig
find_policy name [] = record { max_attempts = pos 1; backoff = 0 }
find_policy name ((check, cfg) ∷ policy) =
    if str_eq check name then cfg else find_policy name policy

abbrev pub at_least_one : ℤ → ℕ
at_least_one (pos zero) = 1
at_least_one (pos (suc n)) = suc n
at_least_one (negsuc n) = 1

unfoldable pub run_one :
    List (String × RetryConfig) → String → (ℕ → CheckRun) → (ℕ → Option CheckError) → CheckResult
run_one policy name run pause =
    run_attempts run pause (at_least_one (find_policy name policy).max_attempts) 1 no_result

abbrev pub check_attempt_overhead : ℕ
check_attempt_overhead = 60 * second

abbrev pub check_cleanup_reserve : ℕ
check_cleanup_reserve = 30 * second

abbrev pub runner_session_token_margin : ℕ
runner_session_token_margin = 30 * second

unfoldable pub sum_onto : ℤ → List ℤ → ℤ
sum_onto total [] = total
sum_onto total (phase ∷ phases) = sum_onto (total +ℤ phase) phases

unfoldable pub check_attempt_timeout : List ℤ → ℤ
check_attempt_timeout phases = sum_onto (pos check_attempt_overhead) phases

-- The product and the sum wrap as int64 ones do; a duration is not negative.
unfoldable pub retry_cycle_timeout : ℕ → RetryConfig → ℤ
retry_cycle_timeout per_attempt cfg =
    let n = at_least_one cfg.max_attempts in signed (n * per_attempt + (n - 1) * cfg.backoff)

unfoldable pub runner_session_token_ttl : ℤ → ℤ → Option ℤ
runner_session_token_ttl active_deadline schedule_interval =
    if not (int_ltb (pos 0) active_deadline)
    then none
    else if not (int_ltb (pos 0) schedule_interval)
    then none
    else let ttl =
        active_deadline +ℤ pos check_cleanup_reserve +ℤ pos runner_session_token_margin in
      if int_ltb ttl schedule_interval then some ttl else none
