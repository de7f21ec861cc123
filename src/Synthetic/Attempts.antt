-- ===== src/Synthetic/Attempts.antt =====
-- internal/synthetic/runner.go: how the loop over the attempts ends.
use mathlib.Core.Path.{subst}
use selfservice_api.Base.{
  ℕ, zero, suc, ◌+◌, ◌≤◌, ◌<◌, ◌≡◌, refl, sym, ◌∙◌, ◌↔◌, ◌⊎◌, inl, inr, Option, none, some, Bool,
  true, false, arith, if◌then◌else◌, ℕ_discrete,
}
use selfservice_api.Synthetic.{
  CheckError, is_vcenter_degraded, CheckRun, exec_once, CheckResult, succeeds, after_attempt,
  after_pause, run_attempts,
}

pub first_or_later : (first j : ℕ) → first ≤ j → (first ≡ j) ⊎ (suc first ≤ j)
first_or_later first j h = elim (ℕ_discrete first j) [
  | yes e ↦ inl e
  | no n ↦ inr (omega (arith, h, n))
]

module _ (run : ℕ → CheckRun) (pause : ℕ → Option CheckError) where
  abbrev pub passes : ℕ → Bool
  passes j = succeeds (exec_once (run j))

  -- Attempt `k` passes, and each one from `first` on before it failed and was followed by a whole pause.
  pub record PassesAt (first : ℕ) (k : ℕ) : Type 0 where
    pub from_first : first ≤ k
    pub passed : passes k ≡ true
    pub failed : (j : ℕ) → first ≤ j → j < k → (passes j ≡ false) × (pause j ≡ none)

  pub passes_now : (first : ℕ) → passes first ≡ true → PassesAt first first
  passes_now first h = record {
    from_first = omega arith;
    passed = h;
    failed = λ j a b. absurd (omega (arith, a, b));
  }

  pub passes_later :
      (first k : ℕ)
      → passes first ≡ false
      → pause first ≡ none
      → PassesAt (suc first) k
      → PassesAt first k
  passes_later first k f p later = record {
    from_first = omega (arith, later.from_first);
    passed = later.passed;
    failed = λ j a b. elim (first_or_later first j a) [
      | inl e ↦ rw (← e) (f, p)
      | inr le ↦ later.failed j le b
    ];
  }

  -- How the loop ends, from attempt `first` on with `left` attempts.
  pub data Ends : ℕ → ℕ → CheckResult → CheckResult → Type 0 where
    passing :
        {left first : ℕ} {res : CheckResult}
        → passes first ≡ true
        → Ends (suc left) first res (after_attempt first (exec_once (run first)) res)
    last_failing :
        {first : ℕ} {res : CheckResult}
        → passes first ≡ false
        → Ends 1 first res (after_attempt first (exec_once (run first)) res)
    interrupted :
        {left first : ℕ} {res : CheckResult} (e : CheckError)
        → passes first ≡ false
        → pause first ≡ some e
        → Ends (suc left) first res (record (after_attempt first (exec_once (run first)) res) {
          success = false;
          result_err = some e;
        })
    retried :
        {left first : ℕ} {res out : CheckResult}
        → passes first ≡ false
        → pause first ≡ none
        → Ends left (suc first) (after_attempt first (exec_once (run first)) res) out
        → Ends (suc left) first res out

  pub paused :
      (left first : ℕ) (res rest : CheckResult) (o : Option CheckError)
      → passes first ≡ false
      → pause first ≡ o
      → Ends left (suc first) (after_attempt first (exec_once (run first)) res) rest
      → Ends
          (suc left)
          first
          res
          (after_pause o (after_attempt first (exec_once (run first)) res) rest)
  paused left first res rest none f p h = retried f p h
  paused left first res rest (some e) f p h = interrupted e f p

  pub if-Ends :
      {left first : ℕ} {res : CheckResult} (b : Bool) (a o : CheckResult)
      → (b ≡ true → Ends left first res a)
      → (b ≡ false → Ends left first res o)
      → Ends left first res (if b then a else o)
  if-Ends true a o h k = h refl
  if-Ends false a o h k = k refl

  pub tried_success :
      (first : ℕ) (res : CheckResult)
      → (after_attempt first (exec_once (run first)) res).success ≡ passes first
  unfolding after_attempt
  tried_success first res = refl

  pub run_attempts-Ends :
      (left first : ℕ) (res : CheckResult)
      → Ends (suc left) first res (run_attempts run pause (suc left) first res)
  unfolding run_attempts
  run_attempts-Ends zero first res =
      if-Ends (after_attempt first (exec_once (run first)) res).success _ _
        (λ t. passing (sym (tried_success first res) ∙ t))
        λ f. last_failing (sym (tried_success first res) ∙ f)
  run_attempts-Ends (suc left) first res =
      if-Ends (after_attempt first (exec_once (run first)) res).success _ _
        (λ t. passing (sym (tried_success first res) ∙ t))
        λ f.
          paused (suc left) first res _ (pause first) (sym (tried_success first res) ∙ f) refl
            (run_attempts-Ends left (suc first) (after_attempt first (exec_once (run first)) res))

  abbrev pub PassesWithin : ℕ → ℕ → CheckResult → Type 0
  PassesWithin left first out = (k : ℕ) × PassesAt first k × (k < first + left) × (out.attempts ≡ k)

  pub Ends-bounds :
      {left first : ℕ} {res out : CheckResult}
      → Ends left first res out
      → (first ≤ out.attempts) × (out.attempts < first + left)
  unfolding after_attempt
  Ends-bounds (passing t) = (omega arith, omega arith)
  Ends-bounds (last_failing f) = (omega arith, omega arith)
  Ends-bounds (interrupted e f p) = (omega arith, omega arith)
  Ends-bounds (retried f p rest) =
      let (a, b) = Ends-bounds rest in (omega (arith, a), omega (arith, b))

  pub clash : true ≡ false → ⊥
  clash h = cc

  pub at_first :
      {first k : ℕ} → PassesAt first k → first ≡ k → passes first ≡ false → passes k ≡ false
  at_first at e f = rw (← e) f

  pub passes_rest : (first k : ℕ) → PassesAt first k → suc first ≤ k → PassesAt (suc first) k
  passes_rest first k at le = record {
    from_first = le;
    passed = at.passed;
    failed = λ j a b. at.failed j (omega (arith, a)) b;
  }

  pub Ends-passes :
      {left first : ℕ} {res out : CheckResult}
      → Ends left first res out
      → (out.success ≡ true) ↔ PassesWithin left first out
  unfolding after_attempt
  Ends-passes (passing {first = first} t) =
      (λ _. (first, passes_now first t, omega arith, refl), λ w. t)
  Ends-passes (last_failing {first} f) =
      (λ h. absurd (clash (sym h ∙ f)), λ w. absurd (clash (sym (w.1.passed) ∙ at_first w.1 w.3 f)))
  Ends-passes (interrupted {first = first} e f p) =
      (λ h. cc, λ w. absurd (clash (sym (w.1.passed) ∙ at_first w.1 w.3 f)))
  Ends-passes (retried {first = first} {out = out} f p rest) =
      let split = Ends-passes rest in
      let bounds = Ends-bounds rest in
      (
        λ h.
            let (k, at, lt, e) = split.0 h in
            (k, passes_later first k f p at, omega (arith, lt), e),
        λ w. split.1 (
          w.0,
          passes_rest first w.0 w.1 (omega (arith, bounds.0, w.3)),
          omega (arith, w.2),
          w.3,
        ),
      )

  abbrev pub IsSlow : ℕ → Type 0
  IsSlow j = (passes j ≡ false) × (is_vcenter_degraded (exec_once (run j)).failure ≡ true)

  -- Attempts `first` to `last` include one that vCenter slowed down.
  abbrev pub HasSlow : ℕ → ℕ → Type 0
  HasSlow first last = (j : ℕ) × (first ≤ j) × (j ≤ last) × IsSlow j

  pub IsSlow-after :
      (first : ℕ) (res : CheckResult)
      → ((after_attempt first (exec_once (run first)) res).vcenter_degraded ≡ true)
        ↔ ((res.vcenter_degraded ≡ true) ⊎ IsSlow first)
  unfolding after_attempt
  IsSlow-after first res = ground arith

  pub IsSlow-once :
      (first : ℕ) (res : CheckResult)
      → ((after_attempt first (exec_once (run first)) res).vcenter_degraded ≡ true)
        ↔ ((res.vcenter_degraded ≡ true) ⊎ HasSlow first first)
  IsSlow-once first res =
      let one = IsSlow-after first res in
      (
        λ h. elim (one.0 h) [
          | inl r ↦ inl r
          | inr slow ↦ inr (first, omega arith, omega arith, slow)
        ],
        λ s. elim s [
          | inl r ↦ one.1 (inl r)
          | inr (j, a, b, slow) ↦
              let e : j ≡ first = omega (arith, a, b) in one.1 (inr (subst IsSlow e slow))
        ],
      )

  pub Ends-degraded :
      {left first : ℕ} {res out : CheckResult}
      → Ends left first res out
      → (out.vcenter_degraded ≡ true) ↔ ((res.vcenter_degraded ≡ true) ⊎ HasSlow first out.attempts)
  unfolding after_attempt
  Ends-degraded (passing {first = first} {res = res} t) = IsSlow-once first res
  Ends-degraded (last_failing {first} {res = res} f) = IsSlow-once first res
  Ends-degraded (interrupted {first = first} {res = res} e f p) = IsSlow-once first res
  Ends-degraded (retried {first = first} {res = res} f p rest) =
      let later = Ends-degraded rest in
      let one = IsSlow-after first res in
      let bounds = Ends-bounds rest in
      (
        λ h. elim (later.0 h) [
          | inl r ↦ elim (one.0 r) [
            | inl r ↦ inl r
            | inr slow ↦ inr (first, omega arith, omega (arith, bounds.0), slow)
          ]
          | inr (j, a, b, slow) ↦ inr (j, omega (arith, a), b, slow)
        ],
        λ s. elim s [
          | inl r ↦ later.1 (inl (one.1 (inl r)))
          | inr (j, a, b, slow) ↦ elim (first_or_later first j a) [
            | inl e ↦ later.1 (inl (one.1 (inr (subst IsSlow (sym e) slow))))
            | inr le ↦ later.1 (inr (j, le, b, slow))
          ]
        ],
      )
