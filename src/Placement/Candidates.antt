-- ===== src/Placement/Candidates.antt =====
-- internal/vcenter/placement.go: what the loops of ResolvePlacement collect.
use mathlib.Core.Option.{some_inj}
use selfservice_api.Base.{
  ◌≡◌, refl, sym, ap, ◌∙◌, ◌↔◌, ◌⊎◌, inl, inr, List, [], ◌∷◌, Option, none, some, true, false, In,
  In-append_left, In-append_right, In-append_cases, Bool-cases,
}
use selfservice_api.Placement.{
  HostIdentity, PlacementRequest, Pool, Placement, PoolProps, HostProps, Inventory, Reason,
}
use selfservice_api.Placement.Pairs.{
  Target, is_other_source, is_passed_over, lacks_memory, pair_reasons, placement_of, Scan,
  turn_down, take, note_headroom, conclude, judge_read, judge,
}
use selfservice_api.Placement.Resolve.{scan_hosts, scan_read, scan_pool, scan_pools}
use selfservice_api.Placement.Fit.{Passes}

module _ (p : Placement) where
  conclude-In :
      (placement : Placement) (pool : Pool) (identity : HostIdentity) (reasons : List Reason)
      (scan : Scan)
      → In p (conclude placement pool identity reasons scan).candidates
        ↔ (In p scan.candidates ⊎ ((reasons ≡ []) × (p ≡ placement)))
  unfolding conclude take turn_down
  conclude-In placement pool identity [] scan = (
    λ m. elim (In-append_cases p scan.candidates _ m) [
      | inl l ↦ inl l
      | inr (inl e) ↦ inr (refl, sym e)
      | inr (inr x) ↦ absurd x
    ],
    λ s. elim s [
      | inl l ↦ In-append_left p scan.candidates _ l
      | inr (e, q) ↦ In-append_right p scan.candidates _ (inl (sym q))
    ],
  )
  conclude-In placement pool identity (reason ∷ reasons) scan =
      (λ m. inl m, λ s. elim s [ inl l ↦ l | inr (e, q) ↦ cc ])

  module _ (env : Inventory) (request : PlacementRequest) (target : Target) where
    abbrev Offers : Pool → PoolProps → HostIdentity → Type 0
    Offers pool pool_props identity =
        (props : HostProps) × Passes env request target pool identity p pool_props props

    judge_read-In :
        (pool : Pool) (pool_props : PoolProps) (identity : HostIdentity) (read : Option HostProps)
        (scan : Scan)
        → In p (judge_read request target pool pool_props identity read scan).candidates ↔ (
            In p scan.candidates
            ⊎ ((props : HostProps) × (read ≡ some props)
                × (pair_reasons request target pool_props (some props) identity ≡ [])
                × (p ≡ placement_of target pool pool_props props identity)))
    unfolding judge_read turn_down note_headroom
    judge_read-In pool pool_props identity none scan =
        (λ m. inl m, λ s. elim s [ inl l ↦ l | inr (props, e, r, q) ↦ cc ])
    judge_read-In pool pool_props identity (some props) scan =
        let split =
          conclude-In (placement_of target pool pool_props props identity) pool identity
            (pair_reasons request target pool_props (some props) identity)
            (note_headroom (lacks_memory request identity props) scan) in
        (
          λ m. elim (split.0 m) [ inl l ↦ inl l | inr (r, q) ↦ inr (props, refl, r, q) ],
          λ s. elim s [
            | inl l ↦ split.1 (inl l)
            | inr (other, e, r, q) ↦ split.1 (inr (rw (some_inj.0 e) r, rw (some_inj.0 e) q))
          ],
        )

    judge-In :
        (pool : Pool) (pool_props : PoolProps) (identity : HostIdentity) (scan : Scan)
        → env.pool_props pool ≡ some pool_props
        → is_other_source target pool_props ≡ false
        → In p (judge env request target pool pool_props identity scan).candidates
          ↔ (In p scan.candidates ⊎ Offers pool pool_props identity)
    unfolding judge
    judge-In pool pool_props identity scan found source =
        let read =
          judge_read-In pool pool_props identity (env.host_props pool identity.moref) scan in
        elim (Bool-cases (is_passed_over request identity)) [
          | inl e ↦ rw e (
            λ m. inl m,
            λ s. elim s [ inl l ↦ l | inr (props, h) ↦ absurd (clash (sym e ∙ h.not_passed_over)) ],
          )
          | inr e ↦ rw e (
            λ m. elim (read.0 m) [
              | inl l ↦ inl l
              | inr (props, r, n, q) ↦ inr (
                props,
                record {
                  pool_found = found;
                  host_found = r;
                  source_passes = source;
                  not_passed_over = e;
                  no_reasons = n;
                  placed = q;
                },
              )
            ],
            λ s. elim s [
              | inl l ↦ read.1 (inl l)
              | inr (props, h) ↦ read.1 (inr (props, h.host_found, h.no_reasons, h.placed))
            ],
          )
        ]
      where
        clash : true ≡ false → ⊥
        clash e = cc

    scan_hosts-In :
        (pool : Pool) (pool_props : PoolProps) (hosts : List HostIdentity) (scan : Scan)
        → env.pool_props pool ≡ some pool_props
        → is_other_source target pool_props ≡ false
        → In p (scan_hosts env request target pool pool_props hosts scan).candidates ↔ (
            In p scan.candidates
            ⊎ ((identity : HostIdentity) × In identity hosts × Offers pool pool_props identity))
    unfolding scan_hosts
    scan_hosts-In pool pool_props [] scan found source =
        (λ m. inl m, λ s. elim s [ inl l ↦ l | inr (identity, m, o) ↦ absurd m ])
    scan_hosts-In pool pool_props (host ∷ hosts) scan found source =
        let one = judge-In pool pool_props host scan found source in
        let rest =
          scan_hosts-In pool pool_props hosts (judge env request target pool pool_props host scan)
            found source in
        (
          λ m. elim (rest.0 m) [
            | inl l ↦ elim (one.0 l) [ inl l ↦ inl l | inr o ↦ inr (host, inl refl, o) ]
            | inr (identity, m, o) ↦ inr (identity, inr m, o)
          ],
          λ s. elim s [
            | inl l ↦ rest.1 (inl (one.1 (inl l)))
            | inr (identity, inl e, o) ↦ rest.1 (inl (one.1 (inr (rw e o))))
            | inr (identity, inr m, o) ↦ rest.1 (inr (identity, m, o))
          ],
        )

    abbrev PoolOffers : List HostIdentity → Pool → Type 0
    PoolOffers hosts pool =
        (pool_props : PoolProps) × (identity : HostIdentity) × In identity hosts
        × Offers pool pool_props identity

    scan_read-In :
        (hosts : List HostIdentity) (pool : Pool) (read : Option PoolProps) (scan : Scan)
        → env.pool_props pool ≡ read
        → In p (scan_read env request target hosts pool read scan).candidates
          ↔ (In p scan.candidates ⊎ PoolOffers hosts pool)
    unfolding scan_read
    scan_read-In hosts pool none scan found = (
      λ m. inl m,
      λ s. elim s [
        | inl l ↦ l
        | inr (props, identity, m, (host, o)) ↦ absurd (not_read (sym found ∙ o.pool_found))
      ],
    )
      where
        not_read : {props : PoolProps} → none ≡ some props → ⊥
        not_read e = cc
    scan_read-In hosts pool (some pool_props) scan found =
        elim (Bool-cases (is_other_source target pool_props)) [
          | inl e ↦ rw e (
            λ m. inl m,
            λ s. elim s [
              | inl l ↦ l
              | inr (props, identity, m, (host, o)) ↦ absurd (
                  clash (
                    sym e
                    ∙ ap (is_other_source target) (some_inj.0 (sym found ∙ o.pool_found))
                    ∙ o.source_passes))
            ],
          )
          | inr e ↦
              let rest = scan_hosts-In pool pool_props hosts scan found e in
              rw e (
                λ m. elim (rest.0 m) [
                  | inl l ↦ inl l
                  | inr (identity, m, o) ↦ inr (pool_props, identity, m, o)
                ],
                λ s. elim s [
                  | inl l ↦ rest.1 (inl l)
                  | inr (props, identity, m, o) ↦
                      rest.1 (inr (identity, m, rw (some_inj.0 (sym found ∙ o.1.pool_found)) o))
                ],
              )
        ]
      where
        clash : true ≡ false → ⊥
        clash e = cc

    -- A candidate of the whole scan is one found before it, or what a pool and a host offer.
    pub scan_pools-In :
        (hosts : List HostIdentity) (pools : List Pool) (scan : Scan)
        → In p (scan_pools env request target hosts pools scan).candidates
          ↔ (In p scan.candidates ⊎ ((pool : Pool) × In pool pools × PoolOffers hosts pool))
    unfolding scan_pools scan_pool
    scan_pools-In hosts [] scan =
        (λ m. inl m, λ s. elim s [ inl l ↦ l | inr (pool, m, o) ↦ absurd m ])
    scan_pools-In hosts (pool ∷ pools) scan =
        let one = scan_read-In hosts pool (env.pool_props pool) scan refl in
        let rest = scan_pools-In hosts pools (scan_pool env request target hosts pool scan) in
        (
          λ m. elim (rest.0 m) [
            | inl l ↦ elim (one.0 l) [ inl l ↦ inl l | inr o ↦ inr (pool, inl refl, o) ]
            | inr (other, m, o) ↦ inr (other, inr m, o)
          ],
          λ s. elim s [
            | inl l ↦ rest.1 (inl (one.1 (inl l)))
            | inr (other, inl e, o) ↦ rest.1 (inl (one.1 (inr (rw e o))))
            | inr (other, inr m, o) ↦ rest.1 (inr (other, m, o))
          ],
        )
