-- ===== src/Leases/Takeover.antt =====
-- The heartbeat of a worker whose lease another worker takes over.
use selfservice_api.Base.{
  ℕ, ◌+◌, ◌-◌, ◌≤◌, ◌<◌, ◌≡◌, ◌≢◌, refl, sym, ◌∙◌, List, [], ◌∷◌, ◌++◌, some, true, false, String,
  arith, All, leb, inl, inr, Bool-cases,
}
use selfservice_api.Leases.{
  Lease, is_free, try_claim, renew, RenewReply, owned, not_owned, renew_failed, Beat, context_done,
  tick, Pulse, beating, lost, expired, heartbeat,
}
use selfservice_api.Leases.Fencing.{Query, execute_all, IsFresh, claim-IsFencedOff}

abbrev pub HasStopped : Pulse → Type 0
HasStopped lost = Unit
HasStopped expired = Unit
HasStopped _ = ⊥

abbrev pub IsFailedTick : Beat → Type 0
IsFailedTick (tick _ renew_failed) = Unit
IsFailedTick _ = ⊥

abbrev pub IsTick : ℕ → Beat → Type 0
IsTick bound context_done = Unit
IsTick bound (tick now _) = now < bound

-- The ticks come in the order of time.
abbrev pub Ascends : ℕ → List Beat → Type 0
Ascends t [] = Unit
Ascends t (context_done ∷ bs) = Ascends t bs
Ascends t (tick now _ ∷ bs) = (t ≤ now) × Ascends now bs

false_not_true : false ≡ true → ⊥
false_not_true h = cc

beating_not_expired : {t : ℕ} → expired ≡ beating t → ⊥
beating_not_expired h = cc

module _ (duration : ℕ) where
  overdue_stops :
      (last_ok now : ℕ) (reply : RenewReply) (bs : List Beat)
      → last_ok + duration ≤ now
      → reply ≢ owned
      → HasStopped (heartbeat duration last_ok (tick now reply ∷ bs))
  unfolding heartbeat
  overdue_stops last_ok now owned bs h n = absurd (n refl)
  overdue_stops last_ok now not_owned bs h n = tt
  overdue_stops last_ok now renew_failed bs h n = ground (arith, h)

  after_failures :
      (earlier : List Beat) (last_ok now : ℕ) (reply : RenewReply) (bs : List Beat)
      → All IsFailedTick earlier
      → last_ok + duration ≤ now
      → reply ≢ owned
      → HasStopped (heartbeat duration last_ok (earlier ++ tick now reply ∷ bs))
  unfolding heartbeat
  after_failures [] last_ok now reply bs f h n = overdue_stops last_ok now reply bs h n
  after_failures (context_done ∷ earlier) last_ok now reply bs f h n = absurd f.0
  after_failures (tick t owned ∷ earlier) last_ok now reply bs f h n = absurd f.0
  after_failures (tick t not_owned ∷ earlier) last_ok now reply bs f h n = tt
  after_failures (tick t renew_failed ∷ earlier) last_ok now reply bs f h n =
      ground (arith, after_failures earlier last_ok now reply bs f.1 h n)

  taken_over :
      (l : Lease) (worker : String) (token at last : ℕ) (grant : ℕ × ℕ) (old : ℕ)
      → l.claim_token ≡ some old
      → l.claimed_at ≡ some last
      → (try_claim l worker token at duration).0 ≡ some grant
      → last + duration < at
  unfolding try_claim is_free
  taken_over l worker token at last grant old t c g = ground (arith, t, c, g)

  -- Let a worker hold the lease with the token `old`, renewed last at `last` by the database's
  -- clock, and learn of a renewal no more than `lag` late. If another worker is granted the lease
  -- at `at` with another token, and no claim draws the old token again, then the first worker's
  -- heartbeat has stopped at its first tick that is `lag` after that, all its ticks before having
  -- failed, whether the database can be reached or not, and whatever the workers ask of it in
  -- between.
  pub heartbeat-HasStopped :
      (l : Lease) (old last lag : ℕ)
      → l.claim_token ≡ some old
      → l.claimed_at ≡ some last
      → (worker : String) (token at : ℕ) (grant : ℕ × ℕ)
      → (try_claim l worker token at duration).0 ≡ some grant
      → token ≢ old
      → (qs : List Query) → All (IsFresh old) qs
      → (holder : String) (earlier rest : List Beat) (last_ok asked now : ℕ) (reply : RenewReply)
      → All IsFailedTick earlier
      → last_ok ≤ last + lag
      → at + lag ≤ now
      → (reply ≡ owned
          → (renew
              (execute_all duration qs (try_claim l worker token at duration).1)
              holder
              old
              asked).0
            ≡ true)
      → HasStopped (heartbeat duration last_ok (earlier ++ tick now reply ∷ rest))
  heartbeat-HasStopped l old last lag t c worker token at grant g d qs f holder earlier rest last_ok
        asked now reply e k n a =
      let off = claim-IsFencedOff duration l worker token at grant g qs holder old asked d f in
      let late = taken_over l worker token at last grant old t c g in
      after_failures earlier last_ok now reply rest e (omega (arith, late, k, n))
        (λ o. false_not_true (sym off.renewal_refused ∙ a o))

  Ascends-earlier : (bs : List Beat) (t u : ℕ) → t ≤ u → Ascends u bs → Ascends t bs
  Ascends-earlier [] t u h a = tt
  Ascends-earlier (context_done ∷ bs) t u h a = Ascends-earlier bs t u h a
  Ascends-earlier (tick now _ ∷ bs) t u h (b, a) = (omega (arith, h, b), a)

  unexpired :
      (last_ok now t : ℕ) (bs : List Beat)
      → heartbeat duration last_ok (tick now renew_failed ∷ bs) ≡ beating t
      → (now - last_ok < duration) × (heartbeat duration last_ok bs ≡ beating t)
  unfolding heartbeat
  unexpired last_ok now t bs h = elim (Bool-cases (leb duration (now - last_ok))) [
    | inl e ↦ absurd (beating_not_expired (sym (rw e refl) ∙ h))
    | inr e ↦ (ground (arith, e), sym (rw e refl) ∙ h)
  ]

  beating_later :
      (bs : List Beat) (last_ok t : ℕ)
      → Ascends last_ok bs
      → heartbeat duration last_ok bs ≡ beating t
      → last_ok ≤ t
  unfolding heartbeat
  beating_later [] last_ok t a h = ground (arith, h)
  beating_later (context_done ∷ bs) last_ok t a h = cc
  beating_later (tick now owned ∷ bs) last_ok t (b, a) h =
      let later = beating_later bs now t a h in omega (arith, later, b)
  beating_later (tick now not_owned ∷ bs) last_ok t a h = cc
  beating_later (tick now renew_failed ∷ bs) last_ok t (b, a) h =
      let (_, g) = unexpired last_ok now t bs h in
      beating_later bs last_ok t (Ascends-earlier bs last_ok now b a) g

  -- A heartbeat that goes on, its ticks in the order of time, has renewed its lease less than the
  -- lease's duration before each of its ticks.
  pub beating_recent :
      (bs : List Beat) (last_ok t : ℕ)
      → 0 < duration
      → Ascends last_ok bs
      → heartbeat duration last_ok bs ≡ beating t
      → All (IsTick (t + duration)) bs
  unfolding heartbeat
  beating_recent [] last_ok t z a h = tt
  beating_recent (context_done ∷ bs) last_ok t z a h = cc
  beating_recent (tick now owned ∷ bs) last_ok t z (b, a) h =
      let later = beating_later bs now t a h in
      (omega (arith, later, z), beating_recent bs now t z a h)
  beating_recent (tick now not_owned ∷ bs) last_ok t z a h = cc
  beating_recent (tick now renew_failed ∷ bs) last_ok t z (b, a) h =
      let (short, g) = unexpired last_ok now t bs h in
      let a' = Ascends-earlier bs last_ok now b a in
      let later = beating_later bs last_ok t a' g in
      (omega (arith, short, later), beating_recent bs last_ok t z a' g)
