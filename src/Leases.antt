-- ===== src/Leases.antt =====
-- internal/worklease/lease.go, internal/provisioner/job_lease.go and the work-lease queries of
-- internal/database/queries.go: leases that workers claim, renew and release. A claim token, a UUID,
-- is a number; times are those of the database's clock.
pub mod Fencing
pub mod Takeover
pub mod Exclusive
mod Tests
use selfservice_api.Base.{
  ℕ, ◌+◌, ◌-◌, ◌*◌, List, [], ◌∷◌, Option, none, some, Bool, true, false, ◌&&◌, ltb, leb, ◌==◌,
  String, str_eq, if◌then◌else◌,
}

-- One row of worker_work_leases.
pub record Lease : Type 0 where
  pub claimed_by : Option String
  pub claim_token : Option ℕ
  pub claimed_at : Option ℕ
  pub generation : ℕ

abbrev pub lease_duration : ℕ
lease_duration = 90 * 1000000000

-- The condition of the claim.
unfoldable pub is_free : Lease → ℕ → ℕ → Bool
is_free l now duration = elim l.claim_token [
  | none ↦ true
  | some _ ↦ elim l.claimed_at [ none ↦ true | some at ↦ ltb (at + duration) now ]
]

-- The token and the generation, if the lease was free, and the row.
unfoldable pub try_claim : Lease → String → ℕ → ℕ → ℕ → Option (ℕ × ℕ) × Lease
try_claim l worker token now duration =
    if is_free l now duration
    then (
      some (token, l.generation + 1),
      record {
        claimed_by = some worker;
        claim_token = some token;
        claimed_at = some now;
        generation = l.generation + 1;
      },
    )
    else (none, l)

unfoldable pub owns : Lease → String → ℕ → Bool
owns l worker token =
    elim l.claimed_by [ none ↦ false | some w ↦ str_eq w worker ]
    && elim l.claim_token [ none ↦ false | some t ↦ t == token ]

unfoldable pub renew : Lease → String → ℕ → ℕ → Bool × Lease
renew l worker token now =
    if owns l worker token then (true, record l { claimed_at = some now }) else (false, l)

unfoldable pub release : Lease → String → ℕ → Lease
release l worker token =
    if owns l worker token
    then record l { claimed_by = none; claim_token = none; claimed_at = none }
    else l

-- What the call of a renewal answers.
pub data RenewReply : Type 0 where
  owned not_owned renew_failed : RenewReply

-- What the select of the heartbeat sees: the end of the context, or a tick, with the time after the
-- renewal and its answer.
pub data Beat : Type 0 where
  context_done : Beat
  tick : ℕ → RenewReply → Beat

-- How the heartbeat stands after its last beat; `beating` has the time of the last renewal.
pub data Pulse : Type 0 where
  beating : ℕ → Pulse
  finished lost expired : Pulse

-- The loop of maintainJobLease and of `maintain`, from the time of the last renewal on.
unfoldable pub heartbeat : ℕ → ℕ → List Beat → Pulse
heartbeat duration last_ok [] = beating last_ok
heartbeat duration last_ok (context_done ∷ bs) = finished
heartbeat duration last_ok (tick now owned ∷ bs) = heartbeat duration now bs
heartbeat duration last_ok (tick now not_owned ∷ bs) = lost
heartbeat duration last_ok (tick now renew_failed ∷ bs) =
    let rest = heartbeat duration last_ok bs in
    if leb duration (now - last_ok) then expired else rest

-- `maintain`, the heartbeat of a work lease.
abbrev pub maintain : ℕ → List Beat → Pulse
maintain = heartbeat lease_duration

-- What TryClaimWorkLease answers: an error, no row, or a token and a generation.
pub data ClaimReply (E : Type 0) : Type 0 where
  claim_failed : E → ClaimReply E
  refused : ClaimReply E
  granted : ℕ → ℕ → ClaimReply E

-- Why the context of the caller ended.
pub data ParentCause : Type 0 where
  canceled deadline_exceeded : ParentCause

pub data RunError (E : Type 0) : Type 0 where
  claim_error : E → RunError E
  not_claimed lease_lost lease_expired parent_deadline : RunError E
  run_failed : E → RunError E

pub data LeaseCall : Type 0 where
  ran : ℕ → ℕ → LeaseCall
  released : ℕ → LeaseCall

-- context.Cause of the lease's context after fn has returned, as far as it is returned. The first
-- cause counts, so the pulse at that time decides, then the caller's context.
unfoldable pub returned_cause : {E : Type 0} → Pulse → Option ParentCause → Option (RunError E)
returned_cause lost parent = some lease_lost
returned_cause expired parent = some lease_expired
returned_cause _ (some deadline_exceeded) = some parent_deadline
returned_cause _ _ = none

-- RunExclusive: its error and its calls. `run` is the error of fn.
unfoldable pub run_exclusive :
    {E : Type 0}
    → ClaimReply E
    → Option E
    → Pulse
    → Option ParentCause
    → Option (RunError E) × List LeaseCall
run_exclusive (claim_failed e) run pulse parent = (some (claim_error e), [])
run_exclusive refused run pulse parent = (some not_claimed, [])
run_exclusive (granted token generation) run pulse parent =
    let calls = ran token generation ∷ released token ∷ [] in
    elim run [ some e ↦ (some (run_failed e), calls) | none ↦ (returned_cause pulse parent, calls) ]

-- errors.Is of the error and ErrNotClaimed; `wraps` answers it for the errors of the store and of fn.
unfoldable pub is_not_claimed : {E : Type 0} → (E → Bool) → RunError E → Bool
is_not_claimed wraps not_claimed = true
is_not_claimed wraps (claim_error e) = wraps e
is_not_claimed wraps (run_failed e) = wraps e
is_not_claimed wraps _ = false

-- TryRun: a lease that another replica holds is no error.
unfoldable pub try_run :
    {E : Type 0}
    → (E → Bool)
    → ClaimReply E
    → Option E
    → Pulse
    → Option ParentCause
    → Option (RunError E) × List LeaseCall
try_run wraps claim run pulse parent =
    let (failure, calls) = run_exclusive claim run pulse parent in
    elim failure [
      | none ↦ (none, calls)
      | some e ↦ if is_not_claimed wraps e then (none, calls) else (some e, calls)
    ]
