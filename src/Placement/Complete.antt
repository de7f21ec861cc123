-- ===== src/Placement/Complete.antt =====
-- internal/vcenter/placement.go: configuredPools leaves out no pool that is configured.
use mathlib.Core.Path.{subst}
use selfservice_api.Base.{
  ◌≡◌, refl, sym, ap, ◌∙◌, inl, inr, List, [], ◌∷◌, Option, none, some, true, arith, In, String,
  str_eq, str_eq_iff, Bool-cases, ok, ok_inj,
}
use selfservice_api.Placement.{Client, PlacementRequest, Pool, Inventory}
use selfservice_api.Placement.Pairs.{is_set}
use selfservice_api.Placement.Fit.{Asks}
use selfservice_api.Placement.Resolve.{
  add_found, resolve_pools, pinned_pool, pool_paths, pools_from, pools_at,
}
use selfservice_api.Placement.Checks.{IsConfigured}

-- The pool is tried, or another of the same reference is where a pool is pinned.
pub record IsTried (pinned : String) (pools : List Pool) (pool : Pool) : Type 0 where
  pub tried : Pool
  pub is_tried : In tried pools
  pub same_reference : tried.reference ≡ pool.reference
  pub or_itself : pinned ≡ "" → tried ≡ pool

In-add_found :
    (o : Option Pool) (pools : List Pool) (pool : Pool)
    → In pool pools
    → In pool (add_found o pools)
In-add_found none pools pool m = m
In-add_found (some p) pools pool m = inr m

In-resolve_pools :
    (find : String → Option Pool) (paths : List String) (pool : Pool) (path : String)
    → In path paths
    → find path ≡ some pool
    → In pool (resolve_pools find paths)
unfolding resolve_pools
In-resolve_pools find [] pool path m e = absurd m
In-resolve_pools find (x ∷ paths) pool path (inl q) e =
    subst (λ o. In pool (add_found o (resolve_pools find paths))) (sym (ap find q ∙ e)) (inl refl)
In-resolve_pools find (x ∷ paths) pool path (inr m) e =
    In-add_found (find x) (resolve_pools find paths) pool
      (In-resolve_pools find paths pool path m e)

pinned_pool-tried :
    (moref : String) (pools : List Pool) {out : List Pool}
    → pinned_pool moref pools ≡ ok out
    → (tried : Pool) × In tried out × (tried.reference ≡ moref)
unfolding pinned_pool
pinned_pool-tried moref [] e = cc
pinned_pool-tried moref (p ∷ pools) e = elim (Bool-cases (str_eq p.reference moref)) [
  | inl t ↦
      let same = ok_inj {a = p ∷ []} (sym (rw t refl) ∙ e) in
      (p, subst (In p) same (inl refl), (str_eq_iff _ _).0 t)
  | inr f ↦ pinned_pool-tried moref pools (sym (rw f refl) ∙ e)
]

pools_from-IsTried :
    (pinned : String) (pools : List Pool) {out : List Pool} (pool : Pool)
    → pools_from pinned pools ≡ ok out
    → In pool pools
    → Asks pinned pool.reference
    → IsTried pinned out pool
pools_from-IsTried pinned [] pool e m a = absurd m
pools_from-IsTried pinned (p ∷ pools) pool e m a = elim (Bool-cases (is_set pinned)) [
  | inl t ↦
      let (tried, n, r) = pinned_pool-tried pinned (p ∷ pools) (sym (rw t refl) ∙ e) in
      record {
        tried = tried;
        is_tried = n;
        same_reference = elim a [ inl q ↦ absurd (set_empty t q) | inr q ↦ r ∙ sym q ];
        or_itself = λ q. absurd (set_empty t q);
      }
  | inr f ↦
      let same = ok_inj {a = p ∷ pools} (sym (rw f refl) ∙ e) in
      record {
        tried = pool;
        is_tried = subst (In pool) same m;
        same_reference = refl;
        or_itself = λ q. refl;
      }
]
  where
    set_empty : is_set pinned ≡ true → pinned ≡ "" → ⊥
    set_empty t q = ground (arith, str_eq_iff pinned "", t, q)

pub pools_at-IsTried :
    (c : Client) (env : Inventory) (request : PlacementRequest) (paths : List String)
    {pools : List Pool} (pool : Pool)
    → paths ≡ pool_paths c request.resource_pool_path
    → pools_at env request.pinned_pool_moref paths ≡ ok pools
    → IsConfigured c env request pool
    → IsTried request.pinned_pool_moref pools pool
unfolding pools_at
pools_at-IsTried c env request [] pool p e h = cc
pools_at-IsTried c env request (x ∷ paths) pool p e ((path, m, found), a) =
    pools_from-IsTried request.pinned_pool_moref (resolve_pools env.find_pool (x ∷ paths)) pool e
      (In-resolve_pools env.find_pool (x ∷ paths) pool path (subst (In path) (sym p) m) found) a
