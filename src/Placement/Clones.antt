-- ===== src/Placement/Clones.antt =====
-- internal/vcenter/placement.go: the destination of a clone.
use selfservice_api.Base.{
  List, [], ◌∷◌, ◌++◌, Option, none, some, Bool, true, false, not, ◌||◌, String, str_eq, ℤ, int_eq,
  int_ltb, if◌then◌else◌, Result, ok, err, ◌>>=◌, ◌>>◌, unless,
}
use selfservice_api.Base.Orders.{first_by, descending, text_ltb, sort_stable}
use selfservice_api.Placement.{
  Ref, Client, PlacementRequest, Placement, Inventory, PlacementError, no_candidate,
}
use selfservice_api.Placement.Resolve.{resolve_placement}

pub record CloneSource : Type 0 where
  pub replica_id : String
  pub source_ref : String
  pub source_compute_type : String
  pub source_compute_moref : String

pub record CloneParams : Type 0 where
  pub template_name : String
  pub logical_template_id : String
  pub source_replica_id : String
  pub compute_resource_type : String
  pub compute_resource_moref : String
  pub vm_name : String
  pub clone_vcpus : ℤ
  pub clone_ram_mb : ℤ
  pub network : String
  pub os_type : String
  pub password : String
  pub operation_id : String
  pub pod_vm_id : String
  pub host_moref : String
  pub host_name : String
  pub resource_pool_moref : String
  pub drs_control : String
  pub observed_free_memory_mb : ℤ
  pub reserved_mb : ℤ
  pub missing_network_allowed : Bool
  pub planned_mb_by_host : String → ℤ
  pub target_morefs : List String
  pub source_candidates : List CloneSource

pub record VmProps : Type 0 where
  pub runtime_host : Option Ref
  pub resource_pool : Option Ref

-- What vCenter answers of VMs: resolveSourceVM, and the properties of a VM by its reference.
pub record Vms : Type 0 where
  pub resolve_source_vm : String → Option String
  pub vm_props : String → Option VmProps

-- Why a source is not taken.
pub data SourceFailure : Type 0 where
  source_unresolved source_host_unreadable : String → SourceFailure
  source_refused : String → PlacementError → SourceFailure

pub data CloneError : Type 0 where
  clone_not_connected : CloneError
  vm_unreadable vm_incomplete : String → CloneError
  no_source : Bool → List SourceFailure → CloneError

-- A source with the placement found for it, or why there is none.
abbrev pub Tried : Type 0
Tried = Result SourceFailure (CloneParams × Placement)

-- errors.Is(err, ErrReservedHeadroom)
abbrev pub is_reserved_headroom : PlacementError → Bool
is_reserved_headroom (no_candidate headroom diagnostics) = headroom
is_reserved_headroom _ = false

abbrev pub sources_of : CloneParams → List CloneSource
sources_of params = elim params.source_candidates [
  | [] ↦
      (record {
        replica_id = params.source_replica_id;
        source_ref = params.template_name;
        source_compute_type = params.compute_resource_type;
        source_compute_moref = params.compute_resource_moref;
      })
      ∷ []
  | source ∷ sources ↦ source ∷ sources
]

abbrev pub request_of : Client → CloneParams → Bool → CloneSource → Option Ref → PlacementRequest
request_of c params skip source host = record {
  source_host = host;
  require_source_host = true;
  resource_pool_path = "";
  datastore_name = c.datastore;
  network_name = params.network;
  vcpus = params.clone_vcpus;
  ram_mb = params.clone_ram_mb;
  pinned_host_moref = params.host_moref;
  pinned_pool_moref = params.resource_pool_moref;
  expected_compute_type = source.source_compute_type;
  expected_compute_moref = source.source_compute_moref;
  allow_missing_network = params.missing_network_allowed;
  skip_capacity_checks = skip;
  planned_memory_mb_by_host = params.planned_mb_by_host;
  target_host_morefs = params.target_morefs;
}

-- The parameters with the destination filled in.
unfoldable pub pinned_to : CloneParams → CloneSource → Placement → CloneParams
pinned_to params source placement = record params {
  template_name = source.source_ref;
  source_replica_id = source.replica_id;
  compute_resource_type = placement.placed_compute_type;
  compute_resource_moref = placement.placed_compute_moref;
  host_moref = placement.identity.moref;
  host_name = placement.identity.name;
  resource_pool_moref = placement.pool_moref;
  drs_control =
      if str_eq placement.placed_compute_type "ClusterComputeResource"
      then "disabled"
      else "standalone";
  observed_free_memory_mb = placement.free_host_mb;
  reserved_mb = placement.placed_reserved_memory_mb;
  planned_mb_by_host = λ _. ℤ.pos 0;
  target_morefs = [];
  source_candidates = [];
}

abbrev pub source_or : Option String → SourceFailure → Result SourceFailure String
source_or none e = err e
source_or (some vm) e = ok vm

abbrev pub host_or : Option VmProps → SourceFailure → Result SourceFailure (Option Ref)
host_or none e = err e
host_or (some props) e = ok props.runtime_host

abbrev pub placement_or : String → Result PlacementError Placement → Result SourceFailure Placement
placement_or ref (ok placement) = ok placement
placement_or ref (err e) = err (source_refused ref e)

module _ (c : Client) (env : Inventory) (vms : Vms) (params : CloneParams) (skip : Bool) where
  -- One round of the loop over the sources.
  unfoldable pub try_source : CloneSource → Tried
  try_source source = do
    vm ← source_or (vms.resolve_source_vm source.source_ref) (source_unresolved source.source_ref)
    host ← host_or (vms.vm_props vm) (source_host_unreadable source.source_ref)
    placement ←
        placement_or source.source_ref
          (resolve_placement c env (request_of c params skip source host))
    ok (pinned_to params source placement, placement)

-- resolved, diagnostics and headroomRejected
pub record Trial : Type 0 where
  pub resolved : List (CloneParams × Placement)
  pub failures : List SourceFailure
  pub any_headroom : Bool

abbrev pub is_headroom_failure : SourceFailure → Bool
is_headroom_failure (source_refused ref e) = is_reserved_headroom e
is_headroom_failure _ = false

unfoldable pub note_tried : Tried → Trial → Trial
note_tried (ok found) trial = record trial { resolved = trial.resolved ++ found ∷ [] }
note_tried (err failure) trial = record trial {
  failures = trial.failures ++ failure ∷ [];
  any_headroom = trial.any_headroom || is_headroom_failure failure;
}

unfoldable pub try_sources : (CloneSource → Tried) → List CloneSource → Trial → Trial
try_sources try [] trial = trial
try_sources try (source ∷ sources) trial = try_sources try sources (note_tried (try source) trial)

unfoldable pub clone_before : CloneParams × Placement → CloneParams × Placement → Bool
clone_before =
    first_by int_eq (descending int_ltb) (λ r. r.1.free_pool_mb)
      (first_by int_eq (descending int_ltb) (λ r. r.1.free_host_mb)
        (first_by str_eq text_ltb (λ r. r.0.host_name)
          λ r s. text_ltb r.0.template_name s.0.template_name))

abbrev pub no_trial : Trial
no_trial = record { resolved = []; failures = []; any_headroom = false }

abbrev pub first_params :
    CloneError → List (CloneParams × Placement) → Result CloneError CloneParams
first_params e [] = err e
first_params e (found ∷ others) = ok found.0

unfoldable pub pick_clone : Trial → Result CloneError CloneParams
pick_clone trial =
    first_params (no_source trial.any_headroom trial.failures)
      (sort_stable clone_before trial.resolved)

unfoldable pub resolve_clone :
    Client → Inventory → Vms → CloneParams → Bool → Result CloneError CloneParams
resolve_clone c env vms params skip =
    pick_clone (try_sources (try_source c env vms params skip) (sources_of params) no_trial)

unfoldable pub resolve_clone_placement :
    Client → Inventory → Vms → CloneParams → Result CloneError CloneParams
resolve_clone_placement c env vms params = resolve_clone c env vms params false

unfoldable pub observed_placement : String → Option VmProps → Result CloneError (String × String)
observed_placement vm_moref none = err (vm_unreadable vm_moref)
observed_placement vm_moref (some props) = elim props.runtime_host [
  | none ↦ err (vm_incomplete vm_moref)
  | some host ↦ elim props.resource_pool [
    | none ↦ err (vm_incomplete vm_moref)
    | some pool ↦ do
      unless (str_eq host.value "") (vm_incomplete vm_moref)
      ok (host.value, pool.value)
  ]
]

-- The capacity of a VM that is already there is not charged again.
unfoldable pub resolve_existing_clone_placement :
    Client → Inventory → Vms → String → CloneParams → Result CloneError CloneParams
resolve_existing_clone_placement c env vms vm_moref params = do
  unless (not env.connected) clone_not_connected
  (host, pool) ← observed_placement vm_moref (vms.vm_props vm_moref)
  resolve_clone c env vms (record params { host_moref = host; resource_pool_moref = pool }) true
