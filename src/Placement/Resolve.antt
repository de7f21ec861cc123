-- ===== src/Placement/Resolve.antt =====
-- internal/vcenter/placement.go: configuredPools and ResolvePlacement.
use selfservice_api.Base.{
  List, [], ◌∷◌, ◌++◌, Option, none, some, Bool, false, not, ◌&&◌, ◌||◌, String, str_eq, ℤ, int_eq,
  int_ltb, ◌-ℤ◌, if◌then◌else◌, Result, ok, err, ◌>>=◌, ◌>>◌, unless,
}
use selfservice_api.Base.Orders.{first_by, descending, text_ltb, sort_stable}
use selfservice_api.Placement.{
  Ref, HostIdentity, Client, PlacementRequest, Pool, Placement, DatastoreProps, PoolProps,
  Inventory, PlacementError, not_connected, target_not_allowed, no_datastore, datastore_not_found,
  datastore_unreadable, datastore_inaccessible, no_source_host, source_not_allowed,
  source_unreadable, source_without_parent, source_mismatch, no_pools, no_pool_resolves,
  pool_outside, no_candidate,
}
use selfservice_api.Placement.Hosts.{resolved_hosts, allowed_host_by_moref}
use selfservice_api.Placement.Pairs.{
  Target, is_set, is_other_source, Scan, judge, planned_memory_mb,
}

-- `if err != nil` with an error of its own, the value dropped.
abbrev pub or_fail :
    {A : Type 0} → Result PlacementError A → PlacementError → Result PlacementError (Unit {0})
or_fail (ok a) e = ok tt
or_fail (err e') e = err e

abbrev pub or_else : {A : Type 0} → Option A → PlacementError → Result PlacementError A
or_else none e = err e
or_else (some a) e = ok a

-- A path that does not resolve is passed over.
abbrev pub add_found : Option Pool → List Pool → List Pool
add_found none pools = pools
add_found (some pool) pools = pool ∷ pools

unfoldable pub resolve_pools : (String → Option Pool) → List String → List Pool
resolve_pools find [] = []
resolve_pools find (path ∷ paths) = add_found (find path) (resolve_pools find paths)

unfoldable pub pinned_pool : String → List Pool → Result PlacementError (List Pool)
pinned_pool moref [] = err (pool_outside moref)
pinned_pool moref (pool ∷ pools) =
    if str_eq pool.reference moref then ok (pool ∷ []) else pinned_pool moref pools

abbrev pub pools_from : String → List Pool → Result PlacementError (List Pool)
pools_from pinned [] = err no_pool_resolves
pools_from pinned (pool ∷ pools) =
    if is_set pinned then pinned_pool pinned (pool ∷ pools) else ok (pool ∷ pools)

abbrev pub pool_paths : Client → String → List String
pool_paths c explicit_path = if is_set explicit_path then explicit_path ∷ [] else c.resource_pools

unfoldable pub pools_at : Inventory → String → List String → Result PlacementError (List Pool)
pools_at env pinned [] = err no_pools
pools_at env pinned (path ∷ paths) = pools_from pinned (resolve_pools env.find_pool (path ∷ paths))

abbrev pub configured_pools :
    Client → Inventory → String → String → Result PlacementError (List Pool)
configured_pools c env explicit_path pinned = pools_at env pinned (pool_paths c explicit_path)

-- Every requested target host is allowed.
unfoldable pub check_targets : Client → List String → Result PlacementError (Unit {0})
check_targets c [] = ok tt
check_targets c (moref ∷ morefs) = do
  or_fail (allowed_host_by_moref c moref) (target_not_allowed moref)
  check_targets c morefs

unfoldable pub read_datastore : Inventory → String → Result PlacementError (String × DatastoreProps)
read_datastore env name = do
  reference ← or_else (env.find_datastore name) (datastore_not_found name)
  props ← or_else (env.datastore_props reference) (datastore_unreadable name)
  unless (not props.datastore_accessible) (datastore_inaccessible name)
  ok (reference, props)

-- sourceCompute and sourceComputeType, as a reference.
unfoldable pub source_from : Client → Inventory → Bool → Option Ref → Result PlacementError Ref
source_from c env require_source_host none = do
  unless require_source_host no_source_host
  ok (record { ref_type = ""; value = "" })
source_from c env require_source_host (some source) = do
  or_fail (allowed_host_by_moref c source.value) (source_not_allowed source.value)
  read ← or_else (env.host_parent source.value) (source_unreadable source.value)
  or_else read (source_without_parent source.value)

abbrev pub source_parent : Client → Inventory → PlacementRequest → Result PlacementError Ref
source_parent c env request = source_from c env request.require_source_host request.source_host

unfoldable pub is_mismatch : PlacementRequest → Ref → Bool
is_mismatch request source =
    is_set request.expected_compute_moref
    && (not (str_eq source.value request.expected_compute_moref)
        || (is_set request.expected_compute_type
            && not (str_eq source.ref_type request.expected_compute_type)))

abbrev pub datastore_of : Client → PlacementRequest → String
datastore_of c request =
    if str_eq request.datastore_name "" then c.datastore else request.datastore_name

abbrev pub target_of : String → DatastoreProps → Ref → Target
target_of reference props source = record {
  datastore_ref = reference;
  target_mounts = props.mounts;
  target_accessible = props.datastore_accessible;
  source_compute = source.value;
  source_compute_type = source.ref_type;
}

-- Everything before the loops: the allowed hosts, the target and the pools.
unfoldable pub prepare :
    Client
    → Inventory
    → PlacementRequest
    → Result PlacementError (List HostIdentity × Target × List Pool)
prepare c env request = do
  unless (not env.connected) not_connected
  hosts ← resolved_hosts c
  check_targets c request.target_host_morefs
  unless (str_eq (datastore_of c request) "") no_datastore
  (reference, props) ← read_datastore env (datastore_of c request)
  source ← source_parent c env request
  unless (is_mismatch request source) source_mismatch
  pools ← configured_pools c env request.resource_pool_path request.pinned_pool_moref
  ok (hosts, target_of reference props source, pools)

module _ (env : Inventory) (request : PlacementRequest) (target : Target) where
  unfoldable pub scan_hosts : Pool → PoolProps → List HostIdentity → Scan → Scan
  scan_hosts pool props [] scan = scan
  scan_hosts pool props (host ∷ hosts) scan =
      scan_hosts pool props hosts (judge env request target pool props host scan)

  -- A pool that cannot be read or that belongs to another compute resource is passed over.
  unfoldable pub scan_read : List HostIdentity → Pool → Option PoolProps → Scan → Scan
  scan_read hosts pool none scan = record scan {
    diagnostics = scan.diagnostics ++ ("", pool.pool_inventory_path, []) ∷ [];
  }
  scan_read hosts pool (some props) scan =
      if is_other_source target props
      then record scan { diagnostics = scan.diagnostics ++ ("", pool.pool_inventory_path, []) ∷ [] }
      else scan_hosts pool props hosts scan

  unfoldable pub scan_pool : List HostIdentity → Pool → Scan → Scan
  scan_pool hosts pool scan = scan_read hosts pool (env.pool_props pool) scan

  unfoldable pub scan_pools : List HostIdentity → List Pool → Scan → Scan
  scan_pools hosts [] scan = scan
  scan_pools hosts (pool ∷ pools) scan = scan_pools hosts pools (scan_pool hosts pool scan)

-- The order of the candidates: more free memory in the pool, then on the host, then by name.
abbrev pub host_available_mb : PlacementRequest → Placement → ℤ
host_available_mb request p = p.free_host_mb -ℤ planned_memory_mb request p.identity

unfoldable pub comes_before : PlacementRequest → Placement → Placement → Bool
comes_before request =
    first_by int_eq (descending int_ltb) (λ p. p.free_pool_mb)
      (first_by int_eq (descending int_ltb) (host_available_mb request)
        (first_by str_eq text_ltb (λ p. p.identity.name) λ p q. text_ltb p.pool_path q.pool_path))

-- candidates[0], or an error if there is none.
abbrev pub first_of : PlacementError → List Placement → Result PlacementError Placement
first_of e [] = err e
first_of e (selected ∷ others) = ok selected

unfoldable pub choose : PlacementRequest → Scan → Result PlacementError Placement
choose request scan =
    first_of (no_candidate scan.headroom_rejected scan.diagnostics)
      (sort_stable (comes_before request) scan.candidates)

abbrev pub no_scan : Scan
no_scan = record { candidates = []; diagnostics = []; headroom_rejected = false }

unfoldable pub resolve_placement :
    Client → Inventory → PlacementRequest → Result PlacementError Placement
resolve_placement c env request = do
  (hosts, target, pools) ← prepare c env request
  choose request (scan_pools env request target hosts pools no_scan)
