-- ===== src/Synthetic/Budget.antt =====
-- internal/synthetic/retry.go: the time that a check may take, and the lifetime of the runner's token.
use mathlib.Core.Path.{subst}
use native.Mathlib.Nat.{suc-mul, mul-le-mul_right}
use selfservice_api.Base.{
  ℕ, zero, suc, ◌+◌, ◌-◌, ◌*◌, ◌^◌, ◌≤◌, ◌<◌, ◌≡◌, sym, ◌↔◌, Option, some, arith, List, String, ℤ,
  pos, sum-small, signed,
}
use selfservice_api.Synthetic.{
  RetryConfig, CheckError, CheckRun, find_policy, at_least_one, run_one, retry_cycle_timeout,
  check_cleanup_reserve, runner_session_token_margin, runner_session_token_ttl,
}
use selfservice_api.Synthetic.Outcome.{run_one-passes}

-- The time that `n` attempts take, with the pauses between them; `took` is the time of each.
unfoldable pub spent : (ℕ → ℕ) → ℕ → ℕ → ℕ
spent took backoff zero = 0
spent took backoff (suc zero) = took 1
spent took backoff (suc (suc n)) = spent took backoff (suc n) + backoff + took (suc (suc n))

spent_le :
    (took : ℕ → ℕ) (per_attempt backoff n : ℕ)
    → ((j : ℕ) → took j ≤ per_attempt)
    → spent took backoff n ≤ n * per_attempt + (n - 1) * backoff
unfolding spent
spent_le took per_attempt backoff zero h = omega arith
spent_le took per_attempt backoff (suc zero) h = omega (arith, h 1)
spent_le took per_attempt backoff (suc (suc n)) h =
    let one_less : suc n - 1 ≡ n = omega arith in
    let two_less : suc (suc n) - 1 ≡ suc n = omega arith in
    let before =
      subst (λ k. spent took backoff (suc n) ≤ suc n * per_attempt + k * backoff) one_less
        (spent_le took per_attempt backoff (suc n) h) in
    subst
      (λ k.
        spent took backoff (suc n) + backoff + took (suc (suc n))
        ≤ suc (suc n) * per_attempt + k * backoff)
      (sym two_less)
      (omega (arith, before, h (suc (suc n)), suc-mul n backoff, suc-mul (suc n) per_attempt))

signed-small : (n : ℕ) → n < 2 ^ 63 → signed n ≡ pos n
signed-small n h = ground arith

-- With a policy set for a check, the attempts that are made and the pauses between them take no longer
-- than RetryCycleTimeout says, if no attempt takes longer than it is given and the sum fits an int64.
pub run_one-retry_cycle_timeout :
    (policy : List (String × RetryConfig)) (name : String) (run : ℕ → CheckRun)
    (pause : ℕ → Option CheckError) (took : ℕ → ℕ) (per_attempt : ℕ)
    → ((j : ℕ) → took j ≤ per_attempt)
    → let cfg = find_policy name policy in
      let n = at_least_one cfg.max_attempts in
      n * per_attempt + (n - 1) * cfg.backoff < 2 ^ 63
      → (limit : ℕ) × (retry_cycle_timeout per_attempt cfg ≡ pos limit)
        × (spent took cfg.backoff (run_one policy name run pause).attempts ≤ limit)
unfolding retry_cycle_timeout
run_one-retry_cycle_timeout policy name run pause took per_attempt h small =
    let cfg = find_policy name policy in
    let n = at_least_one cfg.max_attempts in
    let made = (run_one policy name run pause).attempts in
    let le = (run_one-passes policy name run pause).0.1 in
    let less : made - 1 ≤ n - 1 = omega (arith, le) in
    (
      n * per_attempt + (n - 1) * cfg.backoff,
      signed-small _ small,
      omega (
        arith,
        spent_le took per_attempt cfg.backoff made h,
        mul-le-mul_right per_attempt le,
        mul-le-mul_right cfg.backoff less,
      ),
    )

-- RunnerSessionTokenTTL gives a lifetime exactly if the deadline and the interval are positive and the
-- deadline with the reserve and the margin is below the interval; the lifetime is then that sum, and
-- the token outlives the deadline and the clean-up and ends before the next run.
pub runner_session_token_ttl-IsBetween :
    (deadline interval : ℕ) (ttl : ℤ)
    → deadline < 2 ^ 62
    → (runner_session_token_ttl (pos deadline) (pos interval) ≡ some ttl) ↔ (
        (0 < deadline)
        × (deadline + check_cleanup_reserve + runner_session_token_margin < interval)
        × (ttl ≡ pos (deadline + check_cleanup_reserve + runner_session_token_margin)))
unfolding runner_session_token_ttl
runner_session_token_ttl-IsBetween deadline interval ttl small =
    rw
      (
        sum-small deadline check_cleanup_reserve (omega (arith, small)),
        sum-small (deadline + check_cleanup_reserve) runner_session_token_margin
            (omega (arith, small)),
      )
      (ground arith)
