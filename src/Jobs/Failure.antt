-- ===== src/Jobs/Failure.antt =====
-- internal/provisioner/retryable.go, FriendlyError, and create.go, marshalTemplateProvisionFailure:
-- what a failed template job says of its errors. A message is a text, or one of the two that are
-- written for a rejected clone; the JSON around a failure is left out.
use selfservice_api.Base.{
  ℕ, ◌+◌, ◌*◌, ◌/◌, ◌≤◌, ◌≡◌, ◌≢◌, refl, ◌∙◌, List, [], ◌∷◌, Option, none, some, Bool, true, false,
  not, leb, ltb, arith, if◌then◌else◌,
}
use selfservice_api.Retry.{JobError, codes, contains}
use selfservice_api.Retry.Phrases.{disk_format_phrase}
use selfservice_api.Retry.Backoff.{seconds, retry_backoff}

pub data Message : Type 0 where
  verbatim : List ℕ → Message
  -- The attempts and the seconds that the text names.
  clone_exhausted : ℕ → ℕ → Message
  clone_scheduled : Message

-- Duration.Round(time.Second), as a number of seconds.
abbrev pub rounded_seconds : ℕ → ℕ
rounded_seconds d = (d + 500000000) / seconds

unfoldable pub friendly_error : Option JobError → ℕ → ℕ → Option ℕ → Message
friendly_error none retry_count max_retries jitter = verbatim []
friendly_error (some err) retry_count max_retries jitter =
    if contains err.text (codes disk_format_phrase)
    then (if leb max_retries retry_count
        then clone_exhausted (retry_count + 1)
            (rounded_seconds (retry_backoff 0 jitter * max_retries))
        else clone_scheduled)
    else verbatim err.text

-- The test against "".
abbrev pub is_empty : Message → Bool
is_empty (verbatim []) = true
is_empty _ = false

-- `currentError != cause.Error()`, and the raw error it decides on: the two other messages do not
-- hold the phrase that their error does.
unfoldable pub raw_error_of : Message → Option JobError → List ℕ
raw_error_of (verbatim _) cause = []
raw_error_of _ none = []
raw_error_of _ (some err) = err.text

pub record Failure : Type 0 where
  pub error : Message
  pub raw_error : List ℕ
  pub attempts : ℕ
  pub first_error : Message
  pub first_raw_error : List ℕ
  pub first_attempt : ℕ
  pub current_error : Message
  pub current_raw_error : List ℕ
  pub current_attempt : ℕ

-- One failed attempt of the job.
pub record Attempt : Type 0 where
  pub cause : Option JobError
  pub retry_count : ℕ
  pub max_retries : ℕ
  pub jitter : Option ℕ

unfoldable pub new_failure : Attempt → Failure
new_failure a =
    let message = friendly_error a.cause a.retry_count a.max_retries a.jitter in
    let raw = raw_error_of message a.cause in
    let attempt = a.retry_count + 1 in
    record {
      error = message;
      raw_error = raw;
      attempts = attempt;
      first_error = message;
      first_raw_error = raw;
      first_attempt = attempt;
      current_error = message;
      current_raw_error = raw;
      current_attempt = attempt;
    }

abbrev pub at_least_one : Failure → Failure
at_least_one f = record f { first_attempt = if ltb f.first_attempt 1 then 1 else f.first_attempt }

-- `none` is a previous result that is empty or does not parse.
unfoldable pub marshal_failure : Option Failure → Attempt → Failure
marshal_failure none a = at_least_one (new_failure a)
marshal_failure (some prior) a = at_least_one (
    if not (is_empty prior.first_error)
    then record (new_failure a) {
      first_error = prior.first_error;
      first_raw_error = prior.first_raw_error;
      first_attempt = prior.first_attempt;
    }
    else if not (is_empty prior.error)
    then record (new_failure a) {
      first_error = prior.error;
      first_raw_error = prior.raw_error;
      first_attempt = prior.attempts;
    }
    else new_failure a)

-- The failures of one job, each stored over the one before.
unfoldable pub marshal_all : Failure → List Attempt → Failure
marshal_all f [] = f
marshal_all f (a ∷ attempts) = marshal_all (marshal_failure (some f) a) attempts

record Keeps (f : Failure) (g : Failure) : Type 0 where
  error_kept : g.first_error ≡ f.first_error
  raw_kept : g.first_raw_error ≡ f.first_raw_error
  attempt_kept : g.first_attempt ≡ f.first_attempt

marshal_failure-Keeps :
    (f : Failure) (a : Attempt)
    → is_empty f.first_error ≡ false
    → 1 ≤ f.first_attempt
    → Keeps f (marshal_failure (some f) a)
unfolding marshal_failure
marshal_failure-Keeps f a e n = record {
  error_kept = ground (arith, e);
  raw_kept = ground (arith, e);
  attempt_kept = ground (arith, e, n);
}

marshal_all-Keeps :
    (f : Failure) (attempts : List Attempt)
    → is_empty f.first_error ≡ false
    → 1 ≤ f.first_attempt
    → Keeps f (marshal_all f attempts)
unfolding marshal_all
marshal_all-Keeps f [] e n = record { error_kept = refl; raw_kept = refl; attempt_kept = refl }
marshal_all-Keeps f (a ∷ attempts) e n =
    let one = marshal_failure-Keeps f a e n in
    let rest =
      marshal_all-Keeps (marshal_failure (some f) a) attempts (ground (arith, e, one.error_kept))
        (omega (arith, n, one.attempt_kept)) in
    record {
      error_kept = rest.error_kept ∙ one.error_kept;
      raw_kept = rest.raw_kept ∙ one.raw_kept;
      attempt_kept = rest.attempt_kept ∙ one.attempt_kept;
    }

abbrev pub last_of : Attempt → List Attempt → Attempt
last_of a [] = a
last_of a (b ∷ attempts) = last_of b attempts

abbrev pub message_of : Attempt → Message
message_of a = friendly_error a.cause a.retry_count a.max_retries a.jitter

current_is : (f : Option Failure) (a : Attempt) → (marshal_failure f a).current_error ≡ message_of a
unfolding marshal_failure new_failure
current_is none a = refl
current_is (some f) a = ground arith

last_is :
    (a : Attempt) (attempts : List Attempt) (f : Failure)
    → f.current_error ≡ message_of a
    → (marshal_all f attempts).current_error ≡ message_of (last_of a attempts)
unfolding marshal_all
last_is a [] f h = h
last_is a (b ∷ attempts) f h =
    last_is b attempts (marshal_failure (some f) b) (current_is (some f) b)

text_there : (text : List ℕ) → text ≢ [] → is_empty (verbatim text) ≡ false
text_there [] h = absurd (h refl)
text_there (c ∷ text) h = refl

message_there :
    (err : JobError) (retry_count max_retries : ℕ) (jitter : Option ℕ)
    → err.text ≢ []
    → is_empty (friendly_error (some err) retry_count max_retries jitter) ≡ false
unfolding friendly_error
message_there err retry_count max_retries jitter h = ground (arith, text_there err.text h)

started_at : (a : Attempt) → (marshal_failure none a).first_attempt ≡ a.retry_count + 1
unfolding marshal_failure new_failure
started_at a = ground arith

-- However often a template job fails, what is stored names the error and the number of the first
-- attempt and the error of the last, if no result was stored before the first and its error has a
-- text.
pub marshal_all-first :
    (a : Attempt) (attempts : List Attempt) (err : JobError)
    → a.cause ≡ some err
    → err.text ≢ []
    → let g = marshal_all (marshal_failure none a) attempts in
      (g.first_error ≡ message_of a)
      × (g.first_attempt ≡ a.retry_count + 1)
      × (g.current_error ≡ message_of (last_of a attempts))
unfolding marshal_failure new_failure
marshal_all-first a attempts err c t =
    let f = marshal_failure none a in
    let kept =
      marshal_all-Keeps f attempts (rw c (message_there err a.retry_count a.max_retries a.jitter t))
        (omega (arith, started_at a)) in
    (kept.error_kept, kept.attempt_kept ∙ started_at a, last_is a attempts f (current_is none a))
