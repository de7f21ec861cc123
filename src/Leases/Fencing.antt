-- ===== src/Leases/Fencing.antt =====
-- The claim token fences a worker whose lease was taken over.
use selfservice_api.Base.{
  ℕ, ◌≡◌, ◌≢◌, refl, sym, ap, ◌∙◌, inl, inr, ==_iff, List, [], ◌∷◌, some, false, String, arith, All,
  ◌==◌, Bool-cases, Option-cases,
}
use mathlib.Core.Option.{some_inj}
use selfservice_api.Leases.{Lease, is_free, try_claim, owns, renew, release}

-- The queries of any workers, in the order the database makes them.
pub data Query : Type 0 where
  claim : String → ℕ → ℕ → Query
  renewal : String → ℕ → ℕ → Query
  give_up : String → ℕ → Query

unfoldable pub execute : ℕ → Query → Lease → Lease
execute duration (claim worker token now) l = (try_claim l worker token now duration).1
execute duration (renewal worker token now) l = (renew l worker token now).1
execute duration (give_up worker token) l = release l worker token

unfoldable pub execute_all : ℕ → List Query → Lease → Lease
execute_all duration [] l = l
execute_all duration (q ∷ qs) l = execute_all duration qs (execute duration q l)

-- No claim draws the token again, as UUIDs promise.
abbrev pub IsFresh : ℕ → Query → Type 0
IsFresh token (claim _ t _) = t ≢ token
IsFresh token _ = Unit

-- What a worker with the token may still do: nothing.
pub record IsFencedOff (l : Lease) (worker : String) (token now : ℕ) : Type 0 where
  pub renewal_refused : (renew l worker token now).0 ≡ false
  pub renewal_idle : (renew l worker token now).1 ≡ l
  pub release_idle : release l worker token ≡ l

not_owner :
    (l : Lease) (worker : String) (token : ℕ)
    → l.claim_token ≢ some token
    → owns l worker token ≡ false
unfolding owns
not_owner l worker token h = elim (Option-cases l.claim_token) [
  | inl e ↦ ground (arith, e)
  | inr (t, e) ↦ elim (Bool-cases (t == token)) [
    | inl b ↦ absurd (h (e ∙ ap (λ x. some x) ((==_iff t token).0 b)))
    | inr b ↦ ground (arith, e, b)
  ]
]

away_once :
    (duration : ℕ) (q : Query) (l : Lease) (token : ℕ)
    → l.claim_token ≢ some token
    → IsFresh token q
    → (execute duration q l).claim_token ≢ some token
unfolding execute try_claim renew release
away_once duration (claim w t now) l token h f = elim (Bool-cases (is_free l now duration)) [
  | inl e ↦ rw (execute, try_claim, e) (λ g. f (some_inj.0 g))
  | inr e ↦ rw (execute, try_claim, e) h
]
away_once duration (renewal w t now) l token h f = elim (Bool-cases (owns l w t)) [
  | inl e ↦ rw (execute, renew, e) h
  | inr e ↦ rw (execute, renew, e) h
]
away_once duration (give_up w t) l token h f = elim (Bool-cases (owns l w t)) [
  | inl e ↦ rw (execute, release, e) (λ g. cc)
  | inr e ↦ rw (execute, release, e) h
]

stays_away :
    (duration : ℕ) (qs : List Query) (l : Lease) (token : ℕ)
    → l.claim_token ≢ some token
    → All (IsFresh token) qs
    → (execute_all duration qs l).claim_token ≢ some token
unfolding execute_all
stays_away duration [] l token h a = h
stays_away duration (q ∷ qs) l token h (f, a) =
    stays_away duration qs (execute duration q l) token (away_once duration q l token h f) a

claim_takes :
    (l : Lease) (worker : String) (token now duration : ℕ) (grant : ℕ × ℕ)
    → (try_claim l worker token now duration).0 ≡ some grant
    → (try_claim l worker token now duration).1.claim_token ≡ some token
unfolding try_claim
claim_takes l worker token now duration grant h = ground (arith, h)

-- Once another token was granted, and if no claim draws the old token again, a worker with the old
-- one can neither renew nor release the lease, in whatever order all workers go on.
pub claim-IsFencedOff :
    (duration : ℕ) (l : Lease) (worker : String) (token at : ℕ) (grant : ℕ × ℕ)
    → (try_claim l worker token at duration).0 ≡ some grant
    → (qs : List Query) (old_worker : String) (old now : ℕ) → token ≢ old
    → All (IsFresh old) qs
    → IsFencedOff
        (execute_all duration qs (try_claim l worker token at duration).1)
        old_worker
        old
        now
unfolding renew release
claim-IsFencedOff duration l worker token at grant g qs old_worker old now d f =
    let taken = claim_takes l worker token at duration grant g in
    let l' = (try_claim l worker token at duration).1 in
    let away = stays_away duration qs l' old (λ e. d (some_inj.0 (sym taken ∙ e))) f in
    let other = not_owner (execute_all duration qs l') old_worker old away in
    record {
      renewal_refused = rw (renew, other) refl;
      renewal_idle = rw (renew, other) refl;
      release_idle = rw (release, other) refl;
    }
