-- ===== src/Leader/Fleet.antt =====
-- A fleet of electors around one Postgres advisory lock, as interleavings of their steps.
use selfservice_api.Base.{
  ℕ, ◌≡◌, refl, ap, ◌∙◌, ◌≢◌, ◌⊎◌, Option, none, some, true, false, arith, ite, ℕ_discrete,
}
use selfservice_api.Leader.Attempt.{leads_after, follows_after}
use selfservice_api.Leader.{Elector, become_leader, lose_leadership}

-- Where a worker stands in attemptLeadership.
pub data Phase : Type 0 where
  -- Between two attempts.
  idle : Phase
  -- The backend is open.
  opened : Phase
  -- TryAcquire said yes; becomeLeader is next.
  granted : Phase
  -- In the holding loop.
  holding : Phase
  -- The deferred Release and Close are next.
  closing : Phase

pub record Worker : Type 0 where
  pub phase : Phase
  pub elector : Elector

-- `lock` is the worker whose session holds the advisory lock.
pub record Fleet : Type 0 where
  pub lock : Option ℕ
  pub workers : ℕ → Worker

abbrev pub put : (ℕ → Worker) → ℕ → Worker → ℕ → Worker
put f i w j = ite (ℕ_discrete i j) w (f j)

-- Release and Close by a session that does not hold the lock leave it alone.
abbrev pub unlock : ℕ → Option ℕ → Option ℕ
unlock i none = none
unlock i (some j) = ite (ℕ_discrete i j) none (some j)

abbrev pub at_phase : Phase → Worker → Worker
at_phase p w = record w { phase = p }

abbrev pub set_phase : Fleet → ℕ → Phase → Fleet
set_phase s i p = record s { workers = put s.workers i (at_phase p (s.workers i)) }

-- One step of worker `i`. The lock is Postgres's: at most one session has it, and it is taken only
-- when it is free.
pub data Step (s : Fleet) (t : Fleet) : Type 0 where
  open_backend : (i : ℕ) → (s.workers i).phase ≡ idle → t ≡ set_phase s i opened → Step s t
  get_lock :
      (i : ℕ)
      → (s.workers i).phase ≡ opened
      → s.lock ≡ none
      → t ≡ record (set_phase s i granted) { lock = some i }
      → Step s t
  miss_lock : (i : ℕ) → (s.workers i).phase ≡ opened → t ≡ set_phase s i closing → Step s t
  take_lead :
      (i : ℕ)
      → (s.workers i).phase ≡ granted
      → t ≡ record s {
        workers =
            put s.workers i
              (record { phase = holding; elector = become_leader (s.workers i).elector });
      }
      → Step s t
  give_up :
      (i : ℕ)
      → (s.workers i).phase ≡ holding
      → t ≡ record s {
        workers =
            put s.workers i
              (record { phase = closing; elector = lose_leadership (s.workers i).elector });
      }
      → Step s t
  end_session :
      (i : ℕ)
      → (s.workers i).phase ≡ closing
      → t ≡ record (set_phase s i idle) { lock = unlock i s.lock }
      → Step s t

-- What is known of a worker: it leads only in the holding loop, and its session has the lock from
-- the grant on until the loop ends.
pub record IsHonest (lock : Option ℕ) (i : ℕ) (w : Worker) : Type 0 where
  pub leads_holding : w.elector.is_leader ≡ true → w.phase ≡ holding
  pub has_lock : (w.phase ≡ granted) ⊎ (w.phase ≡ holding) → lock ≡ some i

abbrev pub AllHonest : Fleet → Type 0
AllHonest s = (i : ℕ) → IsHonest s.lock i (s.workers i)

Step-AllHonest : {s t : Fleet} → Step s t → AllHonest s → AllHonest t
Step-AllHonest (open_backend i p e) h j = rw e (ground (arith, h i, h j))
Step-AllHonest (get_lock i p f e) h j = rw e (ground (arith, h i, h j))
Step-AllHonest (miss_lock i p e) h j = rw e (ground (arith, h i, h j))
Step-AllHonest (take_lead i p e) h j = rw e (ground (arith, h i, h j))
Step-AllHonest {s = s} (give_up i p e) h j =
    rw e (ground (arith, h i, h j, follows_after (s.workers i).elector))
Step-AllHonest (end_session i p e) h j = rw e (ground (arith, h i, h j))

pub data Reach (s : Fleet) : Fleet → Type 0 where
  here : Reach s s
  next : {t u : Fleet} → Reach s t → Step t u → Reach s u

-- Nobody has begun.
abbrev pub IsStart : Fleet → Type 0
IsStart s =
    (s.lock ≡ none)
    × ((i : ℕ) → ((s.workers i).phase ≡ idle) × ((s.workers i).elector.is_leader ≡ false))

start-AllHonest : (s : Fleet) → IsStart s → AllHonest s
start-AllHonest s h i = ground (arith, h.1 i)

Reach-AllHonest : {s t : Fleet} → AllHonest s → Reach s t → AllHonest t
Reach-AllHonest h here = h
Reach-AllHonest h (next r st) = Step-AllHonest st (Reach-AllHonest h r)

-- From a fleet in which nobody has begun, and while no session is lost, at most one worker calls
-- itself leader, in whatever order the workers take their steps, and it has the lock.
pub one_leader :
    {s t : Fleet} (i j : ℕ)
    → IsStart s
    → Reach s t
    → (t.workers i).elector.is_leader ≡ true
    → (t.workers j).elector.is_leader ≡ true
    → (i ≡ j) × (t.lock ≡ some i)
one_leader {s = s} i j h r a b =
    let honest = Reach-AllHonest (start-AllHonest s h) r in ground (arith, honest i, honest j)

-- Postgres loses the session that holds the lock; its worker learns of it at the next keepalive.
abbrev pub drop_session : Fleet → Fleet
drop_session s = record s { lock = none }

put-same : (f : ℕ → Worker) (i : ℕ) (w : Worker) → put f i w i ≡ w
put-same f i w = ground arith

put-other : (f : ℕ → Worker) (i j : ℕ) (w : Worker) → i ≢ j → put f i w j ≡ f j
put-other f i j w h = ground arith

-- Whenever the session of a worker that leads is lost, another worker that is between attempts can
-- become leader before the first one notices: then both call themselves leader.
pub two_leaders :
    (s : Fleet) (i j : ℕ)
    → (s.workers i).elector.is_leader ≡ true
    → (s.workers j).phase ≡ idle
    → i ≢ j
    → (t : Fleet) × Reach (drop_session s) t
      × ((t.workers i).elector.is_leader ≡ true)
      × ((t.workers j).elector.is_leader ≡ true)
two_leaders s i j lead quiet ne =
    (third, next (next (next here one) two) three, ground (arith, lead), led)
  where
    first : Fleet
    first = set_phase (drop_session s) j opened

    second : Fleet
    second = record (set_phase first j granted) { lock = some j }

    third : Fleet
    third = record second {
      workers =
          put second.workers j
            (record { phase = holding; elector = become_leader (second.workers j).elector });
    }

    one : Step (drop_session s) first
    one = open_backend j quiet refl

    two : Step first second
    two = get_lock j (ap (λ (w : Worker). w.phase) (put-same s.workers j _)) refl refl

    three : Step second third
    three = take_lead j (ap (λ (w : Worker). w.phase) (put-same first.workers j _)) refl

    led : (third.workers j).elector.is_leader ≡ true
    led =
        ap (λ (w : Worker). w.elector.is_leader) (put-same second.workers j _)
        ∙ leads_after (second.workers j).elector
