-- ===== src/Leader/Tests.antt =====
-- A worker that leads and loses its connection, and a fleet of workers that have not begun.
use selfservice_api.Base.{
  ℕ, zero, suc, ◌≡◌, refl, ◌+◌, ◌*◌, ◌-◌, ◌<◌, ◌↔◌, [], ◌∷◌, none, some, true, false, In,
  if◌then◌else◌, ℕ_discrete,
}
use selfservice_api.Leader.{
  new_elector, new_always_leader, become_leader, lose_leadership, current_leadership,
}
use selfservice_api.Leader.Attempt.{
  Answers, acquired, refused, tick_alive, tick_lost, try_acquire, keepalive, release, close, hold,
  finish_attempt, attempt_leadership, run_attempts,
}
use selfservice_api.Leader.Lease.{become, lose, lead, apply_all, lease_consistent}
use selfservice_api.Leader.Fleet.{
  idle, opened, granted, holding, put, set_phase, open_backend, get_lock, take_lead, next, Worker,
  Fleet, Reach, here, IsStart, one_leader,
}

abbrev lost_line : Answers
lost_line = acquired (tick_alive ∷ tick_lost ∷ [])

two_attempts : (run_attempts (refused ∷ lost_line ∷ []) new_elector).transitions ≡ 2
unfolding run_attempts attempt_leadership finish_attempt hold become_leader lose_leadership
    new_elector
two_attempts = refl

calls_of_attempt :
    (attempt_leadership lost_line new_elector).1
    ≡ try_acquire false ∷ keepalive true ∷ keepalive true ∷ release false ∷ close false ∷ []
unfolding attempt_leadership finish_attempt hold become_leader lose_leadership new_elector
calls_of_attempt = refl

lease_consistent_example :
    let e = apply_all (become ∷ lose ∷ become ∷ []) new_elector in
    let s = current_leadership e in
    (s.context ≡ (if s.is_leader then some (s.generation - 1) else none))
    × ((c : ℕ) → In c e.cancelled ↔ (c + lead s.is_leader < s.generation))
    × (e.transitions + lead s.is_leader ≡ 2 * s.generation)
lease_consistent_example = lease_consistent (become ∷ lose ∷ become ∷ [])

abbrev fresh_worker : Worker
fresh_worker = record { phase = idle; elector = new_elector }

abbrev leading_worker : Worker
leading_worker = record { phase = holding; elector = new_always_leader }

abbrev one_leads : Fleet
one_leads = record {
  lock = some 0;
  workers = λ i. elim i [ zero ↦ leading_worker | suc _ ↦ fresh_worker ];
}

abbrev at_rest : Fleet
at_rest = record { lock = none; workers = λ i. fresh_worker }

at_rest-IsStart : IsStart at_rest
unfolding new_elector
at_rest-IsStart = (refl, λ i. (refl, refl))

abbrev after_open : Fleet
after_open = set_phase at_rest 0 opened

abbrev after_grant : Fleet
after_grant = record (set_phase after_open 0 granted) { lock = some 0 }

abbrev after_lead : Fleet
after_lead = record after_grant {
  workers =
      put after_grant.workers 0
        (record { phase = holding; elector = become_leader (after_grant.workers 0).elector });
}

elected : Reach at_rest after_lead
unfolding ℕ_discrete
elected =
    next (next (next here (open_backend 0 refl refl)) (get_lock 0 refl refl refl))
      (take_lead 0 refl refl)

one_leader_example : (◌≡◌ {A = ℕ} 0 0) × (after_lead.lock ≡ some 0)
unfolding ℕ_discrete become_leader new_elector
one_leader_example = one_leader 0 0 at_rest-IsStart elected refl refl
