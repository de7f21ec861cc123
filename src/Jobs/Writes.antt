-- ===== src/Jobs/Writes.antt =====
-- internal/provisioner/create.go: what the calls of a run do to the job's row, and which leave it alone.
use selfservice_api.Base.{
  ℕ, ◌+◌, ◌≡◌, refl, ◌∙◌, List, [], ◌∷◌, ◌++◌, Bool, true, false, ◌||◌, ltb, String, arith,
  if◌then◌else◌,
}
use selfservice_api.Retry.Backoff.{cleanup_reschedule_backoff}
use selfservice_api.Jobs.{
  Setup, JobCall, mark_completed, mark_failed, fail_template, retry_job, pause, note_retry,
  note_duration, publish_event,
}
use selfservice_api.Jobs.Process.{paused, published, metered, scheduled}

-- A write that ends the job, whether it is answered or not.
abbrev pub is_giving_up : JobCall → Bool
is_giving_up (mark_failed _) = true
is_giving_up (mark_completed _) = true
is_giving_up (fail_template _) = true
is_giving_up _ = false

unfoldable pub gives_up : List JobCall → Bool
gives_up [] = false
gives_up (c ∷ cs) = is_giving_up c || gives_up cs

-- How many writes put the job back as a clean-up, by their answer.
abbrev pub scores : Bool → JobCall → ℕ
scores true (retry_job true _ true) = 1
scores false (retry_job true _ false) = 1
scores _ _ = 0

unfoldable pub count_writes : Bool → List JobCall → ℕ
count_writes answer [] = 0
count_writes answer (c ∷ cs) = scores answer c + count_writes answer cs

pub gives_up-append : (cs ds : List JobCall) → gives_up (cs ++ ds) ≡ (gives_up cs || gives_up ds)
unfolding gives_up
gives_up-append [] ds = refl
gives_up-append (c ∷ cs) ds = ground (arith, gives_up-append cs ds)

pub count_writes-append :
    (b : Bool) (cs ds : List JobCall)
    → count_writes b (cs ++ ds) ≡ count_writes b cs + count_writes b ds
unfolding count_writes
count_writes-append b [] ds = omega arith
count_writes-append b (c ∷ cs) ds = omega (arith, count_writes-append b cs ds)

-- What the two lists say of the job is the same.
pub record IsSame (cs ds : List JobCall) : Type 0 where
  pub same_end : gives_up cs ≡ gives_up ds
  pub same_writes : (b : Bool) → count_writes b cs ≡ count_writes b ds

-- Calls that neither end the job nor write it back.
abbrev pub IsSilent : List JobCall → Type 0
IsSilent cs = (gives_up cs ≡ false) × ((b : Bool) → count_writes b cs ≡ 0)

pub IsSilent-append : (cs ds : List JobCall) → IsSilent cs → IsSilent ds → IsSilent (cs ++ ds)
IsSilent-append cs ds (u, m) (v, n) = (
  ground (arith, gives_up-append cs ds, u, v),
  λ b. omega (arith, count_writes-append b cs ds, m b, n b),
)

pub IsSame-before : (cs ds : List JobCall) → IsSilent cs → IsSame (cs ++ ds) ds
IsSame-before cs ds (u, m) = record {
  same_end = ground (arith, gives_up-append cs ds, u);
  same_writes = λ b. omega (arith, count_writes-append b cs ds, m b);
}

pub IsSame-after : (cs ds : List JobCall) → IsSilent ds → IsSame (cs ++ ds) cs
IsSame-after cs ds (u, m) = record {
  same_end = ground (arith, gives_up-append cs ds, u);
  same_writes = λ b. omega (arith, count_writes-append b cs ds, m b);
}

pub either-IsSilent :
    (b : Bool) (c : JobCall)
    → is_giving_up c ≡ false
    → scores true c ≡ 0
    → scores false c ≡ 0
    → IsSilent (if b then c ∷ [] else [])
unfolding gives_up count_writes
either-IsSilent true c g t f = (ground (arith, g), by_answer)
  where
    by_answer : (b : Bool) → count_writes b (c ∷ []) ≡ 0
    by_answer true = omega (arith, t)
    by_answer false = omega (arith, f)
either-IsSilent false c g t f = (refl, λ b. refl)

pub paused-IsSilent : (n : ℕ) → IsSilent (paused n)
unfolding gives_up count_writes
paused-IsSilent n = either-IsSilent (ltb 0 n) (pause (cleanup_reschedule_backoff n)) refl refl refl

pub published-IsSilent : (s : Setup) (event : String) → IsSilent (published s event)
unfolding gives_up count_writes
published-IsSilent s event = either-IsSilent s.publish (publish_event event) refl refl refl

pub scheduled-IsSilent : (s : Setup) (reason : String) → IsSilent (scheduled s reason)
unfolding gives_up count_writes
scheduled-IsSilent s reason =
    IsSilent-append (metered s (note_retry reason)) (published s "retry_scheduled")
      (either-IsSilent s.pipeline (note_retry reason) refl refl refl)
      (published-IsSilent s "retry_scheduled")

pub duration-IsSilent :
    (s : Setup) (b : Bool) → IsSilent (if b then metered s note_duration else [])
unfolding gives_up count_writes
duration-IsSilent s true = either-IsSilent s.pipeline note_duration refl refl refl
duration-IsSilent s false = (refl, λ b. refl)

-- A number of failed writes back, and then perhaps one that succeeds.
pub record HasWrites (calls : List JobCall) (won lost : ℕ) : Type 0 where
  pub keeps : gives_up calls ≡ false
  pub wins : count_writes true calls ≡ won
  pub losses : count_writes false calls ≡ lost

pub IsSame-HasWrites :
    {cs ds : List JobCall} {won lost : ℕ}
    → IsSame cs ds
    → HasWrites ds won lost
    → HasWrites cs won lost
IsSame-HasWrites same h = record {
  keeps = same.same_end ∙ h.keeps;
  wins = same.same_writes true ∙ h.wins;
  losses = same.same_writes false ∙ h.losses;
}

-- A failed write in front.
pub lost_HasWrites :
    (pre : List JobCall) (next_at : ℕ) (cs : List JobCall) {won lost : ℕ}
    → IsSilent pre
    → HasWrites cs won lost
    → HasWrites ((pre ++ retry_job true next_at false ∷ []) ++ cs) won (lost + 1)
unfolding gives_up count_writes
lost_HasWrites pre next_at cs (u, m) h =
    let calls = pre ++ retry_job true next_at false ∷ [] in
    let one = retry_job true next_at false ∷ [] in
    record {
      keeps = ground (arith, gives_up-append calls cs, gives_up-append pre one, u, h.keeps);
      wins = omega (
        arith,
        count_writes-append true calls cs,
        count_writes-append true pre one,
        m true,
        h.wins,
      );
      losses = omega (
        arith,
        count_writes-append false calls cs,
        count_writes-append false pre one,
        m false,
        h.losses,
      );
    }

pub won_HasWrites :
    (pre : List JobCall) (next_at : ℕ) (post : List JobCall)
    → IsSilent pre
    → IsSilent post
    → HasWrites (pre ++ retry_job true next_at true ∷ post) 1 0
unfolding gives_up count_writes
won_HasWrites pre next_at post (u, m) (v, n) =
    let end = retry_job true next_at true ∷ post in
    record {
      keeps = ground (arith, gives_up-append pre end, u, v);
      wins = omega (arith, count_writes-append true pre end, m true, n true);
      losses = omega (arith, count_writes-append false pre end, m false, n false);
    }
