-- ===== src/Leases/Tests.antt =====
-- A lease that one worker holds and another takes over, and a run under a lease.
use selfservice_api.Base.{ℕ, ◌*◌, ◌≡◌, refl, [], ◌∷◌, ◌++◌, none, some, String, arith}
use selfservice_api.Leases.{
  Lease, lease_duration, is_free, try_claim, owned, renew_failed, tick, beating, heartbeat,
  ClaimReply, refused, granted,
}
use selfservice_api.Leases.Fencing.{renewal, give_up, execute_all, IsFencedOff, claim-IsFencedOff}
use selfservice_api.Leases.Takeover.{HasStopped, heartbeat-HasStopped}

abbrev second : ℕ
second = 1000000000

abbrev held : Lease
held = record {
  claimed_by = some "worker-a";
  claim_token = some 7;
  claimed_at = some second;
  generation = 3;
}

taken : (try_claim held "worker-b" 8 (92 * second) lease_duration).0 ≡ some (8, 4)
unfolding try_claim is_free
taken = refl

too_early : (try_claim held "worker-b" 8 (91 * second) lease_duration).0 ≡ none
unfolding try_claim is_free
too_early = refl

-- The old holder asks again, the new one renews and gives up.
claim-IsFencedOff_example :
    IsFencedOff
      (execute_all lease_duration
        (renewal "worker-a" 7 (93 * second)
          ∷ renewal "worker-b" 8 (94 * second)
          ∷ give_up "worker-b" 8
          ∷ [])
        (try_claim held "worker-b" 8 (92 * second) lease_duration).1)
      "worker-a"
      7
      (95 * second)
claim-IsFencedOff_example =
    claim-IsFencedOff lease_duration held "worker-b" 8 (92 * second) (8, 4) taken
      (renewal "worker-a" 7 (93 * second)
        ∷ renewal "worker-b" 8 (94 * second)
        ∷ give_up "worker-b" 8
        ∷ [])
      "worker-a" 7 (95 * second) (λ e. absurd (omega arith)) (tt, (tt, (tt, tt)))

heartbeat-HasStopped_example : HasStopped (
    heartbeat lease_duration second
      ((tick (16 * second) renew_failed ∷ []) ++ tick (97 * second) renew_failed ∷ []))
heartbeat-HasStopped_example =
    heartbeat-HasStopped lease_duration held 7 second (5 * second) refl refl "worker-b" 8
      (92 * second) (8, 4) taken (λ e. absurd (omega arith)) [] tt "worker-a"
      (tick (16 * second) renew_failed ∷ []) [] second (97 * second) (97 * second) renew_failed
      (tt, tt) (omega arith) (omega arith) (λ e. cc)

still_beating :
    heartbeat lease_duration second
      (tick (16 * second) owned ∷ tick (31 * second) renew_failed ∷ [])
    ≡ beating (16 * second)
unfolding heartbeat
still_beating = refl

abbrev grant : ClaimReply String
grant = granted 7 3

abbrev refusal : ClaimReply String
refusal = refused
