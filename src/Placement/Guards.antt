-- ===== src/Placement/Guards.antt =====
-- internal/vcenter/placement.go: what holds once ResolvePlacement has passed its checks and reaches
-- its loops.
use mathlib.Core.Option.{some_inj}
use mathlib.Core.Path.{subst}
use selfservice_api.Base.{
  ◌≡◌, ◌≢◌, refl, sym, ap, ◌∙◌, ◌⊎◌, inl, inr, List, [], ◌∷◌, Option, none, some, Bool, true, false,
  not, arith, In, String, str_eq, str_eq_iff, Bool-cases, ok, unless, >>=-eq-ok, ok_inj,
}
use selfservice_api.Placement.{
  Ref, HostIdentity, Client, PlacementRequest, Pool, DatastoreProps, Inventory, not_connected,
  no_datastore, datastore_not_found, datastore_unreadable, datastore_inaccessible, no_source_host,
  source_not_allowed, source_unreadable, source_mismatch,
}
use selfservice_api.Placement.Hosts.{resolved_hosts, allowed_host_by_moref}
use selfservice_api.Placement.Pairs.{Target, is_set}
use selfservice_api.Placement.Fit.{Asks, is_set_iff}
use selfservice_api.Placement.Resolve.{
  resolve_pools, or_fail, or_else, pool_paths, pools_from, pools_at, configured_pools,
  check_targets, read_datastore, source_from, source_parent, is_mismatch, datastore_of, prepare,
}
use selfservice_api.Placement.Complete.{IsTried, pools_at-IsTried}
use selfservice_api.Placement.Checks.{
  IsAllowed, unless_empty-eq, unless-ok, or_fail-ok, or_else-ok, allowed_host_by_moref-IsAllowed,
  check_targets-IsAllowed, IsConfigured, resolve_pools-In, pinned_pool-In,
}

pub record IsGuarded (c : Client) (env : Inventory) (request : PlacementRequest) (target : Target)
    (pools : List Pool) : Type 0 where
  pub is_connected : env.connected ≡ true
  pub targets_allowed : (moref : String) → In moref request.target_host_morefs → IsAllowed c moref
  pub name : String
  -- The name in the request, or else the configured one; it is not empty.
  pub named :
      (name ≢ "")
      × (((request.datastore_name ≡ "") × (name ≡ c.datastore))
          ⊎ ((request.datastore_name ≢ "") × (name ≡ request.datastore_name)))
  pub datastore_found : env.find_datastore name ≡ some target.datastore_ref
  pub props : DatastoreProps
  pub datastore_read : env.datastore_props target.datastore_ref ≡ some props
  pub datastore_usable : props.datastore_accessible ≡ true
  pub mounts_are : target.target_mounts ≡ props.mounts
  pub source :
      (host : Ref)
      → request.source_host ≡ some host
      → IsAllowed c host.value
        × (env.host_parent host.value
            ≡ some (
                some (record {
                  ref_type = target.source_compute_type;
                  value = target.source_compute;
                })))
  pub has_source :
      request.require_source_host ≡ true → (host : Ref) × (request.source_host ≡ some host)
  pub expected :
      Asks request.expected_compute_moref target.source_compute
      × ((request.expected_compute_moref ≡ "")
          ⊎ Asks request.expected_compute_type target.source_compute_type)
  pub no_source :
      request.source_host ≡ none → (target.source_compute ≡ "") × (target.source_compute_type ≡ "")
  pub configured : (pool : Pool) → In pool pools → IsConfigured c env request pool
  pub complete :
      (pool : Pool) → IsConfigured c env request pool → IsTried request.pinned_pool_moref pools pool

pools_from-In :
    (pinned : String) (pools : List Pool) {out : List Pool}
    → pools_from pinned pools ≡ ok out
    → (pool : Pool) → In pool out
    → In pool pools × Asks pinned pool.reference
pools_from-In pinned [] e pool m = cc
pools_from-In pinned (p ∷ pools) e pool m = elim (Bool-cases (is_set pinned)) [
  | inl t ↦
      let (a, b) = pinned_pool-In pinned (p ∷ pools) (sym (rw t refl) ∙ e) pool m in (a, inr b)
  | inr f ↦
      let same = ok_inj {a = p ∷ pools} (sym (rw f refl) ∙ e) in
      (subst (In pool) (sym same) m, inl ((is_set_iff pinned).0 f))
]

pools_at-IsConfigured :
    (c : Client) (env : Inventory) (request : PlacementRequest) (paths : List String)
    {pools : List Pool}
    → paths ≡ pool_paths c request.resource_pool_path
    → pools_at env request.pinned_pool_moref paths ≡ ok pools
    → (pool : Pool) → In pool pools
    → IsConfigured c env request pool
unfolding pools_at
pools_at-IsConfigured c env request [] p e pool m = cc
pools_at-IsConfigured c env request (path ∷ paths) p e pool m =
    let (a, b) =
      pools_from-In request.pinned_pool_moref (resolve_pools env.find_pool (path ∷ paths)) e pool
        m in
    let (other, x, y) = resolve_pools-In env.find_pool (path ∷ paths) pool a in
    ((other, subst (In other) p x, y), b)

read_datastore-ok :
    (env : Inventory) (name : String) {d : String × DatastoreProps}
    → read_datastore env name ≡ ok d
    → (env.find_datastore name ≡ some d.0)
      × (env.datastore_props d.0 ≡ some d.1)
      × (d.1.datastore_accessible ≡ true)
unfolding read_datastore
read_datastore-ok env name e =
    let (reference, a, b) =
      >>=-eq-ok (or_else (env.find_datastore name) (datastore_not_found name)) _ e in
    let (props, x, y) =
      >>=-eq-ok (or_else (env.datastore_props reference) (datastore_unreadable name)) _ b in
    let (u, v, w) =
      >>=-eq-ok (unless (not props.datastore_accessible) (datastore_inaccessible name)) _ y in
    subst
      (λ d.
        (env.find_datastore name ≡ some d.0)
        × (env.datastore_props d.0 ≡ some d.1)
        × (d.1.datastore_accessible ≡ true))
      (ok_inj w) (or_else-ok _ _ a, or_else-ok _ _ x, ground (arith, unless-ok _ _ v))

abbrev IsSource : Client → Inventory → Bool → Option Ref → Ref → Type 0
IsSource c env require_source_host source_host source =
    ((host : Ref)
      → source_host ≡ some host
      → IsAllowed c host.value × (env.host_parent host.value ≡ some (some source)))
    × (require_source_host ≡ true → (host : Ref) × (source_host ≡ some host))
    × (source_host ≡ none → (source.value ≡ "") × (source.ref_type ≡ ""))

source_from-IsSource :
    (c : Client) (env : Inventory) (require_source_host : Bool) (source_host : Option Ref)
    {source : Ref}
    → source_from c env require_source_host source_host ≡ ok source
    → IsSource c env require_source_host source_host source
unfolding source_from
source_from-IsSource c env require_source_host none e =
    let (u, a, b) = >>=-eq-ok (unless require_source_host no_source_host) _ e in
    (
      λ host h. cc,
      λ t. absurd (clash (sym t ∙ unless-ok _ _ a)),
      λ _. (
        ap (λ (r : Ref). r.value) (sym (ok_inj b)),
        ap (λ (r : Ref). r.ref_type) (sym (ok_inj b)),
      ),
    )
  where
    clash : true ≡ false → ⊥
    clash h = cc
source_from-IsSource c env require_source_host (some s) {source} e =
    let (u, a, b) =
      >>=-eq-ok (or_fail (allowed_host_by_moref c s.value) (source_not_allowed s.value)) _ e in
    let (read, x, y) =
      >>=-eq-ok (or_else (env.host_parent s.value) (source_unreadable s.value)) _ b in
    (
      λ host h. rw (← some_inj.0 h) (
        allowed_host_by_moref-IsAllowed c s.value (or_fail-ok _ _ a).1,
        or_else-ok _ _ x ∙ ap some (or_else-ok read _ y),
      ),
      λ _. (s, refl),
      λ h. cc,
    )

mismatch_iff :
    (request : PlacementRequest) (source : Ref)
    → is_mismatch request source ≡ false
    → Asks request.expected_compute_moref source.value
      × ((request.expected_compute_moref ≡ "") ⊎ Asks request.expected_compute_type source.ref_type)
unfolding is_mismatch
mismatch_iff request source h = ground (
  arith,
  str_eq_iff request.expected_compute_moref "",
  str_eq_iff source.value request.expected_compute_moref,
  str_eq_iff request.expected_compute_type "",
  str_eq_iff source.ref_type request.expected_compute_type,
)

-- Which datastore is tried.
abbrev IsNamed : Client → PlacementRequest → String → Type 0
IsNamed c request name =
    (name ≢ "")
    × (((request.datastore_name ≡ "") × (name ≡ c.datastore))
        ⊎ ((request.datastore_name ≢ "") × (name ≡ request.datastore_name)))

datastore_of-IsNamed :
    (c : Client) (request : PlacementRequest)
    → str_eq (datastore_of c request) "" ≡ false
    → IsNamed c request (datastore_of c request)
datastore_of-IsNamed c request set = (
  ground (arith, str_eq_iff (datastore_of c request) "", set),
  elim (Bool-cases (str_eq request.datastore_name "")) [
    | inl e ↦ inl ((str_eq_iff _ _).0 e, rw e refl)
    | inr e ↦ inr (ground (arith, str_eq_iff request.datastore_name "", e), rw e refl)
  ],
)

-- Past its checks ResolvePlacement tries exactly the allowed hosts, and what it tries them with is
-- guarded.
pub prepare-IsGuarded :
    (c : Client) (env : Inventory) (request : PlacementRequest) {hosts : List HostIdentity}
    {target : Target} {pools : List Pool}
    → prepare c env request ≡ ok (hosts, target, pools)
    → (hosts ≡ c.allowed_hosts) × IsGuarded c env request target pools
unfolding prepare resolved_hosts
prepare-IsGuarded c env request e =
    let (u1, a1, b1) = >>=-eq-ok (unless (not env.connected) not_connected) _ e in
    let (hs, a2, b2) = >>=-eq-ok (resolved_hosts c) _ b1 in
    let (u3, a3, b3) = >>=-eq-ok (check_targets c request.target_host_morefs) _ b2 in
    let (u4, a4, b4) = >>=-eq-ok (unless (str_eq (datastore_of c request) "") no_datastore) _ b3 in
    let (d, a5, b5) = >>=-eq-ok (read_datastore env (datastore_of c request)) _ b4 in
    let (source, a6, b6) = >>=-eq-ok (source_parent c env request) _ b5 in
    let (u7, a7, b7) = >>=-eq-ok (unless (is_mismatch request source) source_mismatch) _ b6 in
    let (ps, a8, b8) =
      >>=-eq-ok (configured_pools c env request.resource_pool_path request.pinned_pool_moref) _
        b7 in
    let (found, read, usable) = read_datastore-ok env (datastore_of c request) a5 in
    let (parent, has, lacking) =
      source_from-IsSource c env request.require_source_host request.source_host a6 in
    subst (λ t. (t.0 ≡ c.allowed_hosts) × IsGuarded c env request t.1 t.2) (ok_inj b8)
      (
        unless_empty-eq c.allowed_hosts a2,
        record {
          is_connected = ground (arith, unless-ok _ _ a1);
          targets_allowed = check_targets-IsAllowed c request.target_host_morefs a3;
          name = datastore_of c request;
          named = datastore_of-IsNamed c request (unless-ok _ _ a4);
          datastore_found = found;
          props = d.1;
          datastore_read = read;
          datastore_usable = usable;
          mounts_are = refl;
          source = parent;
          has_source = has;
          no_source = lacking;
          expected = mismatch_iff request source (unless-ok _ _ a7);
          configured =
              pools_at-IsConfigured c env request (pool_paths c request.resource_pool_path) refl a8;
          complete = λ pool h.
              pools_at-IsTried c env request (pool_paths c request.resource_pool_path) pool refl a8
                h;
        },
      )
