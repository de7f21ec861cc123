-- ===== src/Placement/Pairs.antt =====
-- internal/vcenter/placement.go: the body of ResolvePlacement's loops, for one pool and one host.
use selfservice_api.Base.{
  ℕ, ◌*◌, List, [], ◌∷◌, ◌++◌, Option, none, some, Bool, true, false, not, ◌&&◌, ◌||◌, String,
  str_eq, ℤ, pos, int_ltb, ◌+ℤ◌, ◌-ℤ◌, quotient, if◌then◌else◌,
}
use selfservice_api.Placement.{
  HostIdentity, PlacementRequest, Pool, Placement, Mount, PoolProps, HostProps, Inventory, Reason,
  other_compute, not_mounted, host_unreadable, connection, maintenance, no_port_group, few_cores,
  low_memory,
}

unfoldable pub mount_accessible : Mount → Bool → Bool
mount_accessible mount datastore_accessible = elim mount.mounted [
  | some false ↦ false
  | _ ↦ elim mount.accessible [ some b ↦ b | none ↦ datastore_accessible ]
]

unfoldable pub has_text : String → List String → Bool
has_text s [] = false
has_text s (t ∷ ts) = str_eq t s || has_text s ts

unfoldable pub has_group : String → Option (List String) → Bool
has_group name none = false
has_group name (some groups) = has_text name groups

unfoldable pub has_standard_port_group : HostProps → String → Bool
has_standard_port_group props name =
    if str_eq name "" then true else has_group name props.port_groups

abbrev pub bytes_per_mb : ℕ
bytes_per_mb = 1024 * 1024

unfoldable pub host_free_memory_mb : HostProps → ℤ
host_free_memory_mb props = elim props.hardware [
  | none ↦ pos 0
  | some hardware ↦
      if int_ltb (pos 0) hardware.memory_size
      then quotient hardware.memory_size bytes_per_mb -ℤ props.overall_memory_usage
      else pos 0
]

unfoldable pub free_pool_mb_of : PoolProps → ℤ
free_pool_mb_of props = quotient (props.max_usage -ℤ props.overall_usage) bytes_per_mb

-- datastoreHosts: a later entry for a host replaces an earlier one.
unfoldable pub find_mount : String → List (String × Mount) → Option Mount
find_mount moref [] = none
find_mount moref ((k, mount) ∷ mounts) = elim (find_mount moref mounts) [
  | some later ↦ some later
  | none ↦ if str_eq k moref then some mount else none
]

-- What is known of the datastore and of the source's compute resource when the loops start; an
-- empty text is none.
pub record Target : Type 0 where
  pub datastore_ref : String
  pub target_mounts : List (String × Mount)
  pub target_accessible : Bool
  pub source_compute : String
  pub source_compute_type : String

-- A reason if the test holds.
abbrev pub when : Bool → Reason → List Reason
when true r = r ∷ []
when false r = []

abbrev pub is_set : String → Bool
is_set s = not (str_eq s "")

unfoldable pub is_other_source : Target → PoolProps → Bool
is_other_source target props =
    is_set target.source_compute
    && (not (str_eq props.owner.value target.source_compute)
        || (is_set target.source_compute_type
            && not (str_eq props.owner.ref_type target.source_compute_type)))

-- Target hosts are requested and this is none of them.
unfoldable pub is_untargeted : String → List String → Bool
is_untargeted moref [] = false
is_untargeted moref (target ∷ targets) = not (has_text moref (target ∷ targets))

-- The two `continue`s at the head of the inner loop.
unfoldable pub is_passed_over : PlacementRequest → HostIdentity → Bool
is_passed_over request identity =
    (is_set request.pinned_host_moref && not (str_eq identity.moref request.pinned_host_moref))
    || is_untargeted identity.moref request.target_host_morefs

unfoldable pub is_outside_pool : HostIdentity → PoolProps → Bool
is_outside_pool identity props =
    not (str_eq identity.compute_moref props.owner.value)
    || (is_set identity.compute_type && not (str_eq identity.compute_type props.owner.ref_type))

unfoldable pub is_mounted : Target → HostIdentity → Bool
is_mounted target identity = elim (find_mount identity.moref target.target_mounts) [
  | none ↦ false
  | some mount ↦ mount_accessible mount target.target_accessible
]

unfoldable pub lacks_cores : PlacementRequest → HostProps → Bool
lacks_cores request props = elim props.hardware [
  | none ↦ false
  | some hardware ↦
      int_ltb (pos 0) request.vcpus
      && int_ltb (pos 0) hardware.num_cpu_cores
      && int_ltb hardware.num_cpu_cores request.vcpus
]

abbrev pub planned_memory_mb : PlacementRequest → HostIdentity → ℤ
planned_memory_mb request identity = request.planned_memory_mb_by_host identity.moref

abbrev pub required_free_mb : PlacementRequest → HostIdentity → ℤ
required_free_mb request identity =
    request.ram_mb +ℤ identity.reserved_memory_mb +ℤ planned_memory_mb request identity

unfoldable pub lacks_memory : PlacementRequest → HostIdentity → HostProps → Bool
lacks_memory request identity props =
    not request.skip_capacity_checks
    && int_ltb (pos 0) (required_free_mb request identity)
    && int_ltb (host_free_memory_mb props) (required_free_mb request identity)

abbrev pub cores_of : HostProps → ℤ
cores_of props = elim props.hardware [ none ↦ pos 0 | some hardware ↦ hardware.num_cpu_cores ]

-- The reasons that the host's properties give.
unfoldable pub host_reasons : PlacementRequest → HostIdentity → HostProps → List Reason
host_reasons request identity props =
    when (not (str_eq props.connection_state "connected")) (connection props.connection_state)
    ++ (when props.in_maintenance_mode maintenance
        ++ (when
              (not request.allow_missing_network
                && not (has_standard_port_group props request.network_name))
              (no_port_group request.network_name)
            ++ (when (not request.skip_capacity_checks && lacks_cores request props)
                  (few_cores (cores_of props) request.vcpus)
                ++ when (lacks_memory request identity props) (
                    low_memory (host_free_memory_mb props) request.ram_mb
                      (planned_memory_mb request identity) identity.reserved_memory_mb))))

unfoldable pub pair_reasons :
    PlacementRequest → Target → PoolProps → Option HostProps → HostIdentity → List Reason
pair_reasons request target pool_props read identity =
    when (is_outside_pool identity pool_props) (other_compute pool_props.owner.value)
    ++ (when (not (is_mounted target identity)) not_mounted ++ elim read [
      | none ↦ host_unreadable ∷ []
      | some props ↦ host_reasons request identity props
    ])

unfoldable pub placement_of : Target → Pool → PoolProps → HostProps → HostIdentity → Placement
placement_of target pool pool_props props identity = record {
  host = identity.moref;
  pool = pool;
  placed_datastore = target.datastore_ref;
  identity = identity;
  pool_moref = pool.reference;
  pool_path = pool.pool_inventory_path;
  placed_compute_type = pool_props.owner.ref_type;
  placed_compute_moref = pool_props.owner.value;
  free_host_mb = host_free_memory_mb props;
  free_pool_mb = free_pool_mb_of pool_props;
  placed_reserved_memory_mb = identity.reserved_memory_mb;
}

-- candidates, diagnostics and headroomRejected
pub record Scan : Type 0 where
  pub candidates : List Placement
  pub diagnostics : List (String × String × List Reason)
  pub headroom_rejected : Bool

unfoldable pub turn_down : Pool → HostIdentity → List Reason → Scan → Scan
turn_down pool identity reasons scan = record scan {
  diagnostics = scan.diagnostics ++ (identity.name, pool.pool_inventory_path, reasons) ∷ [];
}

unfoldable pub take : Placement → Scan → Scan
take placement scan = record scan { candidates = scan.candidates ++ placement ∷ [] }

-- A pair without reasons is a candidate.
unfoldable pub conclude : Placement → Pool → HostIdentity → List Reason → Scan → Scan
conclude placement pool identity [] scan = take placement scan
conclude placement pool identity (reason ∷ reasons) scan =
    turn_down pool identity (reason ∷ reasons) scan

unfoldable pub note_headroom : Bool → Scan → Scan
note_headroom rejected scan = record scan { headroom_rejected = scan.headroom_rejected || rejected }

-- The end of the inner loop's body, once the host's properties are read.
unfoldable pub judge_read :
    PlacementRequest → Target → Pool → PoolProps → HostIdentity → Option HostProps → Scan → Scan
judge_read request target pool pool_props identity none scan =
    turn_down pool identity (pair_reasons request target pool_props none identity) scan
judge_read request target pool pool_props identity (some props) scan =
    conclude (placement_of target pool pool_props props identity) pool identity
      (pair_reasons request target pool_props (some props) identity)
      (note_headroom (lacks_memory request identity props) scan)

unfoldable pub judge :
    Inventory → PlacementRequest → Target → Pool → PoolProps → HostIdentity → Scan → Scan
judge env request target pool pool_props identity scan =
    if is_passed_over request identity
    then scan
    else judge_read request target pool pool_props identity (env.host_props pool identity.moref)
        scan
