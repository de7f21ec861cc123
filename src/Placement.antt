-- ===== src/Placement.antt =====
-- internal/vcenter/placement.go: the allowlist of hosts, and which host and pool a VM is put on.
-- vCenter's answers are the fields of an environment; a text of an error is what it shows. A host or
-- a pool is its reference and its path, a Go map from texts is a function or a list of pairs.
pub mod Hosts
pub mod Pairs
pub mod Resolve
pub mod Fit
pub mod Passing
pub mod Candidates
pub mod Checks
pub mod Guards
pub mod Best
pub mod Allowlist
pub mod Frozen
pub mod Clones
pub mod Placed
pub mod Complete
pub mod Destination
pub mod Pinned
pub mod Headroom
pub mod Validation
mod Tests
mod HostTests
use selfservice_api.Base.{ℕ, List, Option, Bool, String, ℤ}

-- types.ManagedObjectReference
pub record Ref : Type 0 where
  pub ref_type : String
  pub value : String

pub record HostIdentity : Type 0 where
  pub name : String
  pub inventory_path : String
  pub moref : String
  pub compute_type : String
  pub compute_moref : String
  pub reserved_memory_mb : ℤ

-- The configuration that placement reads, and the allowlist, empty until it is resolved.
pub record Client : Type 0 where
  pub hosts : List String
  pub host_reserved_memory_mb : String → ℤ
  pub resource_pools : List String
  pub datastore : String
  pub allowed_hosts : List HostIdentity

pub record PlacementRequest : Type 0 where
  pub source_host : Option Ref
  pub require_source_host : Bool
  pub resource_pool_path : String
  pub datastore_name : String
  pub network_name : String
  pub vcpus : ℤ
  pub ram_mb : ℤ
  pub pinned_host_moref : String
  pub pinned_pool_moref : String
  pub expected_compute_type : String
  pub expected_compute_moref : String
  pub allow_missing_network : Bool
  pub skip_capacity_checks : Bool
  pub planned_memory_mb_by_host : String → ℤ
  pub target_host_morefs : List String

-- object.ResourcePool
pub record Pool : Type 0 where
  pub reference : String
  pub pool_inventory_path : String

pub record Placement : Type 0 where
  pub host : String
  pub pool : Pool
  pub placed_datastore : String
  pub identity : HostIdentity
  pub pool_moref : String
  pub pool_path : String
  pub placed_compute_type : String
  pub placed_compute_moref : String
  pub free_host_mb : ℤ
  pub free_pool_mb : ℤ
  pub placed_reserved_memory_mb : ℤ

-- types.HostMountInfo
pub record Mount : Type 0 where
  pub mounted : Option Bool
  pub accessible : Option Bool

pub record DatastoreProps : Type 0 where
  pub datastore_accessible : Bool
  pub mounts : List (String × Mount)

pub record PoolProps : Type 0 where
  pub owner : Ref
  pub max_usage : ℤ
  pub overall_usage : ℤ

-- types.HostHardwareSummary
pub record Hardware : Type 0 where
  pub num_cpu_cores : ℤ
  pub memory_size : ℤ

-- `port_groups` is none where the configuration or its network is nil.
pub record HostProps : Type 0 where
  pub connection_state : String
  pub in_maintenance_mode : Bool
  pub port_groups : Option (List String)
  pub hardware : Option Hardware
  pub overall_memory_usage : ℤ

-- What vCenter answers; none is an error. The properties of a host are read again for each pool.
pub record Inventory : Type 0 where
  pub connected : Bool
  pub find_datastore : String → Option String
  pub datastore_props : String → Option DatastoreProps
  pub host_parent : String → Option (Option Ref)
  pub find_pool : String → Option Pool
  pub pool_props : Pool → Option PoolProps
  pub host_props : Pool → String → Option HostProps

-- Why a host is not a candidate for a pool.
pub data Reason : Type 0 where
  other_compute : String → Reason
  not_mounted : Reason
  host_unreadable : Reason
  connection : String → Reason
  maintenance : Reason
  no_port_group : String → Reason
  few_cores : ℤ → ℤ → Reason
  low_memory : ℤ → ℤ → ℤ → ℤ → Reason

pub data PlacementError : Type 0 where
  not_connected hosts_not_resolved : PlacementError
  host_not_allowed : String → PlacementError
  target_not_allowed : String → PlacementError
  no_datastore : PlacementError
  datastore_not_found datastore_unreadable datastore_inaccessible : String → PlacementError
  no_source_host : PlacementError
  source_not_allowed source_unreadable source_without_parent : String → PlacementError
  source_mismatch : PlacementError
  no_pools no_pool_resolves : PlacementError
  pool_outside : String → PlacementError
  -- No candidate, with whether a host was turned down for its memory.
  no_candidate : Bool → List (String × String × List Reason) → PlacementError
