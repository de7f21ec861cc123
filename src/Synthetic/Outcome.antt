-- ===== src/Synthetic/Outcome.antt =====
-- internal/synthetic/runner.go: when a check passes, and when it counts as slowed down by vCenter.
use mathlib.Core.Path.{subst}
use selfservice_api.Base.{
  ℕ, zero, suc, ◌≤◌, ◌≡◌, refl, sym, ◌↔◌, inl, inr, Option, true, arith, List, String, ℤ,
}
use selfservice_api.Synthetic.{
  CheckError, RetryConfig, CheckRun, CheckResult, no_result, run_attempts, find_policy,
  at_least_one, run_one,
}
use selfservice_api.Synthetic.Attempts.{
  PassesAt, Ends, run_attempts-Ends, Ends-bounds, Ends-passes, HasSlow, Ends-degraded,
}

attempts_of : (z : ℤ) → (n : ℕ) × (at_least_one z ≡ suc n)
attempts_of (ℤ.pos zero) = (0, refl)
attempts_of (ℤ.pos (suc n)) = (n, refl)
attempts_of (ℤ.negsuc n) = (0, refl)

module _ (policy : List (String × RetryConfig)) (name : String) (run : ℕ → CheckRun)
    (pause : ℕ → Option CheckError) where
  abbrev pub allowed : ℕ
  allowed = at_least_one (find_policy name policy).max_attempts

  abbrev outcome : CheckResult
  outcome = run_one policy name run pause

  run_one-Ends : Ends run pause allowed 1 no_result outcome
  unfolding run_one
  run_one-Ends =
      let (n, e) = attempts_of (find_policy name policy).max_attempts in
      subst (λ k. Ends run pause k 1 no_result (run_attempts run pause k 1 no_result)) (sym e)
        (run_attempts-Ends run pause n 1 no_result)

  -- A check is tried once at least and at most as often as its policy allows. It succeeds exactly if
  -- an allowed attempt passes before which every attempt failed and was followed by a whole pause, and
  -- the count of attempts is then that one's number.
  pub run_one-passes :
      ((1 ≤ (run_one policy name run pause).attempts)
        × ((run_one policy name run pause).attempts ≤ allowed))
      × (((run_one policy name run pause).success ≡ true) ↔ (
          (k : ℕ) × PassesAt run pause 1 k
          × (k ≤ allowed)
          × ((run_one policy name run pause).attempts ≡ k)))
  run_one-passes =
      let bounds = Ends-bounds run pause run_one-Ends in
      let split = Ends-passes run pause run_one-Ends in
      (
        (bounds.0, omega (arith, bounds.1)),
        (
          λ h. let (k, at, lt, e) = split.0 h in (k, at, omega (arith, lt), e),
          λ w. split.1 (w.0, w.1, omega (arith, w.2), w.3),
        ),
      )

  -- The result says that vCenter was slow exactly if one of the attempts made failed with an error of
  -- that kind, also when a later one passed.
  pub run_one-degraded :
      ((run_one policy name run pause).vcenter_degraded ≡ true)
      ↔ HasSlow run pause 1 (run_one policy name run pause).attempts
  run_one-degraded =
      let split = Ends-degraded run pause run_one-Ends in
      (λ h. elim (split.0 h) [ inl r ↦ cc | inr s ↦ s ], λ s. split.1 (inr s))
