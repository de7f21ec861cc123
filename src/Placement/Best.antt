-- ===== src/Placement/Best.antt =====
-- internal/vcenter/placement.go: ResolvePlacement returns the best of the pairs that fit, and no pair
-- fits where it finds no candidate.
use mathlib.Core.Path.{subst}
use selfservice_api.Base.{
  ◌≡◌, refl, sym, ap, ◌↔◌, inl, inr, List, [], ◌∷◌, Bool, true, false, int_ltb, int_eq, str_eq,
  ◌-ℤ◌, In, String, Result, ok, err, >>=-eq-ok,
}
use selfservice_api.Base.Orders.{
  IsWeak, int-IsTotal, text-IsTotal, descending-IsTotal, first_by-IsWeak, key-IsWeak, first_by,
  descending, first_by-before, text_ltb, sort_stable-nil, sort_stable-head, best_from-In,
  best_from-le,
}
use selfservice_api.Placement.{
  HostIdentity, Client, PlacementRequest, Pool, Placement, PoolProps, HostProps, Inventory, Reason,
  PlacementError, no_candidate,
}
use selfservice_api.Placement.Pairs.{Target, placement_of}
use selfservice_api.Placement.Resolve.{
  prepare, scan_pools, comes_before, host_available_mb, choose, no_scan, resolve_placement,
}
use selfservice_api.Placement.Fit.{IsFit}
use selfservice_api.Placement.Passing.{Passes-IsFit, IsFit-Passes}
use selfservice_api.Placement.Guards.{IsGuarded, prepare-IsGuarded}
use selfservice_api.Placement.Candidates.{scan_pools-In}

comes_before-IsWeak : (request : PlacementRequest) → IsWeak (comes_before request)
unfolding comes_before
comes_before-IsWeak request =
    first_by-IsWeak (λ p. p.free_pool_mb) (descending-IsTotal int-IsTotal)
      (first_by-IsWeak (host_available_mb request) (descending-IsTotal int-IsTotal) (
        first_by-IsWeak (λ p. p.identity.name) text-IsTotal
          (key-IsWeak (λ p. p.pool_path) text-IsTotal)))

-- A placement on a host of `hosts` in a pool of `pools` that fit each other and the request.
pub record IsEligible (env : Inventory) (request : PlacementRequest) (target : Target)
    (hosts : List HostIdentity) (pools : List Pool) (p : Placement) : Type 0 where
  pub on_pool : Pool
  pub on_host : HostIdentity
  pub pool_answer : PoolProps
  pub host_answer : HostProps
  pub from_pools : In on_pool pools
  pub from_hosts : In on_host hosts
  pub fits : IsFit env request target on_pool on_host pool_answer host_answer
  pub described : p ≡ placement_of target on_pool pool_answer host_answer on_host

module _ (env : Inventory) (request : PlacementRequest) (target : Target)
    (hosts : List HostIdentity) (pools : List Pool) where
  candidate_iff :
      (p : Placement)
      → In p (scan_pools env request target hosts pools no_scan).candidates
        ↔ IsEligible env request target hosts pools p
  candidate_iff p =
      let split = scan_pools-In p env request target hosts pools no_scan in
      (
        λ m. elim (split.0 m) [
          | inl x ↦ absurd x
          | inr (pool, a, (pool_props, identity, b, (props, h))) ↦ record {
            on_pool = pool;
            on_host = identity;
            pool_answer = pool_props;
            host_answer = props;
            from_pools = a;
            from_hosts = b;
            fits = Passes-IsFit env request target pool identity p pool_props props h;
            described = h.placed;
          }
        ],
        λ e. split.1 (
            inr (
              e.on_pool,
              e.from_pools,
              (
                e.pool_answer,
                e.on_host,
                e.from_hosts,
                (
                  e.host_answer,
                  rw e.described (
                      IsFit-Passes env request target e.on_pool e.on_host e.pool_answer
                        e.host_answer e.fits),
                ),
              ),
            )),
      )

-- `p` stands in front of `q`, or they tie: more memory is left in its pool; or as much there and more
-- on its host, less what is planned for it; or as much of both, and then the name of the host and the
-- path of the pool decide, in the order of texts.
pub data IsAhead (request : PlacementRequest) (p q : Placement) : Type 0 where
  roomier_pool : int_ltb q.free_pool_mb p.free_pool_mb ≡ true → IsAhead request p q
  roomier_host :
      p.free_pool_mb ≡ q.free_pool_mb
      → int_ltb
          (q.free_host_mb -ℤ request.planned_memory_mb_by_host q.identity.moref)
          (p.free_host_mb -ℤ request.planned_memory_mb_by_host p.identity.moref)
        ≡ true
      → IsAhead request p q
  smaller_name :
      p.free_pool_mb ≡ q.free_pool_mb
      → p.free_host_mb -ℤ request.planned_memory_mb_by_host p.identity.moref
        ≡ q.free_host_mb -ℤ request.planned_memory_mb_by_host q.identity.moref
      → text_ltb p.identity.name q.identity.name ≡ true
      → IsAhead request p q
  no_greater_path :
      p.free_pool_mb ≡ q.free_pool_mb
      → p.free_host_mb -ℤ request.planned_memory_mb_by_host p.identity.moref
        ≡ q.free_host_mb -ℤ request.planned_memory_mb_by_host q.identity.moref
      → p.identity.name ≡ q.identity.name
      → text_ltb q.pool_path p.pool_path ≡ false
      → IsAhead request p q

comes_before-IsAhead :
    (request : PlacementRequest) (p q : Placement)
    → comes_before request q p ≡ false
    → IsAhead request p q
unfolding comes_before
comes_before-IsAhead request p q h =
    let by_path = λ (x y : Placement). text_ltb x.pool_path y.pool_path in
    let by_name = first_by str_eq text_ltb (λ (x : Placement). x.identity.name) by_path in
    let by_host = first_by int_eq (descending int_ltb) (host_available_mb request) by_name in
    let greater = descending-IsTotal int-IsTotal in
    elim (first_by-before (λ (x : Placement). x.free_pool_mb) by_host greater p q h) [
      | inl a ↦ roomier_pool a
      | inr (a, h) ↦ elim (first_by-before (host_available_mb request) by_name greater p q h) [
        | inl b ↦ roomier_host a b
        | inr (b, h) ↦
            elim (first_by-before (λ (x : Placement). x.identity.name) by_path text-IsTotal p q h) [
              | inl n ↦ smaller_name a b n
              | inr (n, h) ↦ no_greater_path a b n h
            ]
      ]
    ]

abbrev HasChosen : PlacementRequest → List Placement → Result PlacementError Placement → Type 0
HasChosen request candidates (ok p) =
    In p candidates × ((q : Placement) → In q candidates → comes_before request q p ≡ false)
HasChosen request candidates (err e) =
    (candidates ≡ [])
    × ((headroom : Bool) × (diagnostics : List (String × String × List Reason)) × (e
          ≡ no_candidate headroom diagnostics))

choose-HasChosen :
    (request : PlacementRequest) (candidates : List Placement)
    (diagnostics : List (String × String × List Reason)) (headroom : Bool)
    → HasChosen request candidates (
        choose request (record {
          candidates = candidates;
          diagnostics = diagnostics;
          headroom_rejected = headroom;
        }))
unfolding choose
choose-HasChosen request [] diagnostics headroom =
    rw (HasChosen, sort_stable-nil (comes_before request)) (refl, (headroom, diagnostics, refl))
choose-HasChosen request (p ∷ ps) diagnostics headroom =
    let (rest, e) = sort_stable-head (comes_before request) p ps in
    rw (HasChosen, e)
      (
        best_from-In (comes_before request) p ps,
        best_from-le (comes_before request) (comes_before-IsWeak request) p ps,
      )

-- `p` passes every check, and is ahead of every placement that does.
pub record IsBest (c : Client) (env : Inventory) (request : PlacementRequest) (p : Placement)
    : Type 0 where
  pub target : Target
  pub pools : List Pool
  pub guarded : IsGuarded c env request target pools
  pub eligible : IsEligible env request target c.allowed_hosts pools p
  pub first :
      (q : Placement) → IsEligible env request target c.allowed_hosts pools q → IsAhead request p q

-- A placement that ResolvePlacement returns is on an allowed host and in a configured pool, passes
-- the checks on the request, the datastore, the source and the host. Of all the pairs of an allowed
-- host and a configured pool that pass them (of pools with the reference that the request pins, one)
-- it has the most memory left in the pool, then on the host less what is planned for it, then the
-- smallest host name and pool path.
pub resolve_placement-IsBest :
    (c : Client) (env : Inventory) (request : PlacementRequest) {p : Placement}
    → resolve_placement c env request ≡ ok p
    → IsBest c env request p
unfolding resolve_placement
resolve_placement-IsBest c env request {p} e =
    let ((hosts, target, pools), a, b) = >>=-eq-ok (prepare c env request) _ e in
    let (same, guarded) = prepare-IsGuarded c env request a in
    let scan = scan_pools env request target hosts pools no_scan in
    let (m, f) =
      subst (HasChosen request scan.candidates) b
        (choose-HasChosen request scan.candidates scan.diagnostics scan.headroom_rejected) in
    let iff = candidate_iff env request target hosts pools in
    record {
      target = target;
      pools = pools;
      guarded = guarded;
      eligible = subst (λ hs. IsEligible env request target hs pools p) same ((iff p).0 m);
      first = λ q h. comes_before-IsAhead request p q (f q ((iff q).1 (rw same h)));
    }

abbrev pub IsRefusal : Result PlacementError Placement → Type 0
IsRefusal out =
    (headroom : Bool) × (diagnostics : List (String × String × List Reason)) × (out
      ≡ err (no_candidate headroom diagnostics))

HasChosen-IsRefusal :
    (request : PlacementRequest) (candidates : List Placement)
    (out : Result PlacementError Placement)
    → HasChosen request candidates out
    → IsRefusal out ↔ ((p : Placement) → In p candidates → ⊥)
HasChosen-IsRefusal request candidates (ok p) h = (λ (a, b, e). cc, λ n. absurd (n p h.0))
HasChosen-IsRefusal request candidates (err e) h = (
  λ r p m. subst (In p) h.0 m,
  λ n. let (headroom, diagnostics, q) = h.1 in (headroom, diagnostics, ap err q),
)

-- Past its checks, ResolvePlacement finds no candidate exactly if no pool and allowed host fit.
pub resolve_placement-no_candidate :
    (c : Client) (env : Inventory) (request : PlacementRequest) {hosts : List HostIdentity}
    {target : Target} {pools : List Pool}
    → prepare c env request ≡ ok (hosts, target, pools)
    → IsRefusal (resolve_placement c env request)
      ↔ ((p : Placement) → IsEligible env request target c.allowed_hosts pools p → ⊥)
unfolding resolve_placement
resolve_placement-no_candidate c env request {hosts} {target} {pools} e =
    let (same, guarded) = prepare-IsGuarded c env request e in
    let scan = scan_pools env request target hosts pools no_scan in
    let chosen = choose-HasChosen request scan.candidates scan.diagnostics scan.headroom_rejected in
    let split = HasChosen-IsRefusal request scan.candidates (choose request scan) chosen in
    let iff = candidate_iff env request target hosts pools in
    rw e (
      λ r p h.
          split.0 r p
            ((iff p).1 (subst (λ hs. IsEligible env request target hs pools p) (sym same) h)),
      λ n.
          split.1 (λ p m.
            n p (subst (λ hs. IsEligible env request target hs pools p) same ((iff p).0 m))),
    )
