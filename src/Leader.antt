-- ===== src/Leader.antt =====
-- internal/leader/leader.go: leader election among the replicas of the provision worker.
-- A context that the elector made is its number; the contexts that were cancelled are listed. The
-- Postgres advisory lock is reached through a LockBackend, whose answers are arguments.
pub mod Lease
pub mod Attempt
pub mod Fleet
mod Tests
use selfservice_api.Base.{
  ℕ, ◌+◌, List, [], ◌∷◌, ◌++◌, Option, none, some, Bool, true, false, if◌then◌else◌,
}

pub record Elector : Type 0 where
  -- newBackend is nil.
  pub always : Bool
  pub is_leader : Bool
  pub transitions : ℕ
  -- The buffered channel of Changes, of capacity one.
  pub change_ch : Option Bool
  pub leader_context : Option ℕ
  pub cancel_leadership : Option ℕ
  pub generation : ℕ
  -- How many contexts have been made, and which were cancelled.
  pub made : ℕ
  pub cancelled : List ℕ

pub record LeadershipState : Type 0 where
  pub is_leader : Bool
  pub generation : ℕ
  pub context : Option ℕ

unfoldable pub new_elector : Elector
new_elector = record {
  always = false;
  is_leader = false;
  transitions = 0;
  change_ch = none;
  leader_context = none;
  cancel_leadership = none;
  generation = 0;
  made = 0;
  cancelled = [];
}

unfoldable pub new_always_leader : Elector
new_always_leader = record {
  always = true;
  is_leader = true;
  transitions = 1;
  change_ch = none;
  leader_context = some 0;
  cancel_leadership = some 0;
  generation = 1;
  made = 1;
  cancelled = [];
}

unfoldable pub current_leadership : Elector → LeadershipState
current_leadership e = record {
  is_leader = e.is_leader;
  generation = e.generation;
  context = e.leader_context;
}

-- A send that does not wait: a full channel drops the value.
abbrev pub send : Option Bool → Bool → Option Bool
send none v = some v
send (some w) v = some w

unfoldable pub become_leader : Elector → Elector
become_leader e = if e.is_leader then e else record e {
  leader_context = some e.made;
  cancel_leadership = some e.made;
  made = e.made + 1;
  generation = e.generation + 1;
  is_leader = true;
  transitions = e.transitions + 1;
  change_ch = send e.change_ch true;
}

-- cancelLeadership() under its guard.
abbrev pub cancel_context : Option ℕ → List ℕ → List ℕ
cancel_context none cs = cs
cancel_context (some c) cs = c ∷ cs

unfoldable pub lose_leadership : Elector → Elector
lose_leadership e =
    if e.is_leader
    then record e {
      is_leader = false;
      cancelled = cancel_context e.cancel_leadership e.cancelled;
      leader_context = none;
      cancel_leadership = none;
      transitions = e.transitions + 1;
      change_ch = send e.change_ch false;
    }
    else e

-- A receive from Changes().
unfoldable pub receive_change : Elector → Option Bool × Elector
receive_change e = (e.change_ch, record e { change_ch = none })

-- Run in AlwaysLeader mode: one signal, then it waits for the end.
unfoldable pub run_always : Elector → Elector
run_always e = record e { change_ch = send e.change_ch true }
