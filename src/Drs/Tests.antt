-- ===== src/Drs/Tests.antt =====
-- A VM in a cluster that has no override for it yet.
use selfservice_api.Base.{
  ◌≡◌, ◌≢◌, refl, ◌↔◌, List, [], ◌∷◌, Option, none, some, Bool, true, false, pos, ok,
}
use selfservice_api.Placement.{HostIdentity, Client}
use selfservice_api.Placement.Hosts.{allowed_host_by_moref, resolved_hosts, find_host}
use selfservice_api.Placement.Placed.{validate_vm_placement, check_vm, check_host}
use selfservice_api.Drs.{
  disabled, cluster_resource, Override, View, Pin, validate_compute_resource, needs_override,
  find_override, validate_vm_placement_control, Operation, add_override, edit_override,
  Reconfigured, applied, ensure_vm_placement_control, validate_vm_placement_cleanup_control,
}
use selfservice_api.Drs.Pinned.{IsPinned, validate_vm_placement_control-IsPinned}
use selfservice_api.Drs.Ensure.{
  IsApt, Settles, ensure_vm_placement_control-Settles, validate_vm_placement_cleanup_control-writes,
}

abbrev host : HostIdentity
host = record {
  name = "esx-a";
  inventory_path = "/dc/host/c1/esx-a";
  moref = "host-1";
  compute_type = "ClusterComputeResource";
  compute_moref = "domain-c1";
  reserved_memory_mb = pos 2048;
}

abbrev client : Client
client = record {
  hosts = "esx-a" ∷ [];
  host_reserved_memory_mb = λ _. pos 2048;
  resource_pools = "pool-path" ∷ [];
  datastore = "ds";
  allowed_hosts = host ∷ [];
}

abbrev pin : Pin
pin = record {
  vm_moref = "vm-1";
  expected_host = "host-1";
  compute_type = cluster_resource;
  compute_moref = "domain-c1";
  control = disabled;
}

abbrev view_of : List Override → View
view_of overrides = record {
  connected = true;
  vms = record {
    resolve_source_vm = λ ref. some ref;
    vm_props = λ _. some (record {
      runtime_host = some (record { ref_type = "HostSystem"; value = "host-1" });
      resource_pool = none;
    });
  };
  host_parent =
      λ _. some (some (record { ref_type = "ClusterComputeResource"; value = "domain-c1" }));
  overrides = λ _. some overrides;
}

abbrev with_switch : Option Bool → Override
with_switch enabled = record {
  key = record { ref_type = "VirtualMachine"; value = "vm-1" };
  enabled = enabled;
}

abbrev bare_view : View
bare_view = view_of []

abbrev held_view : View
held_view = view_of (with_switch (some false) ∷ [])

abbrev reconfigure : Operation → Reconfigured
reconfigure _ = applied held_view

accepted : validate_vm_placement_control client held_view pin ≡ ok tt
unfolding validate_vm_placement_control validate_vm_placement check_vm check_host
    allowed_host_by_moref resolved_hosts find_host validate_compute_resource needs_override
    find_override
accepted = refl

validate_vm_placement_control-IsPinned_example :
    (validate_vm_placement_control client held_view pin ≡ ok tt) ↔ IsPinned client held_view pin
validate_vm_placement_control-IsPinned_example =
    validate_vm_placement_control-IsPinned client held_view pin

ensured : ensure_vm_placement_control client bare_view pin reconfigure ≡ (ok tt, add_override ∷ [])
unfolding ensure_vm_placement_control validate_vm_placement_control validate_vm_placement check_vm
    check_host allowed_host_by_moref resolved_hosts find_host validate_compute_resource
    needs_override find_override
ensured = refl

ensure_vm_placement_control-Settles_example :
    Settles client pin reconfigure bare_view (add_override ∷ [])
ensure_vm_placement_control-Settles_example =
    ensure_vm_placement_control-Settles client pin reconfigure bare_view ensured

-- The override was switched on between the two reads: it is edited.
raced :
    validate_vm_placement_cleanup_control client bare_view
      (view_of (with_switch (some true) ∷ []))
      pin
      reconfigure
    ≡ (ok tt, edit_override ∷ [])
unfolding validate_vm_placement_cleanup_control ensure_vm_placement_control
    validate_vm_placement_control validate_vm_placement check_vm check_host allowed_host_by_moref
    resolved_hosts find_host validate_compute_resource needs_override find_override
raced = refl

cleaned :
    validate_vm_placement_cleanup_control client bare_view bare_view pin reconfigure
    ≡ (ok tt, add_override ∷ [])
unfolding validate_vm_placement_cleanup_control ensure_vm_placement_control
    validate_vm_placement_control validate_vm_placement check_vm check_host allowed_host_by_moref
    resolved_hosts find_host validate_compute_resource needs_override find_override
cleaned = refl

cleanup_wrote :
    (validate_vm_placement_cleanup_control client bare_view bare_view pin reconfigure).1 ≢ []
cleanup_wrote = rw cleaned λ e. cc

validate_vm_placement_cleanup_control-writes_example :
    ((overrides : List Override) × (bare_view.overrides "domain-c1" ≡ some overrides)
      × (find_override "vm-1" overrides ≡ none))
    × IsApt client pin reconfigure bare_view
        (validate_vm_placement_cleanup_control client bare_view bare_view pin reconfigure).1
validate_vm_placement_cleanup_control-writes_example =
    validate_vm_placement_cleanup_control-writes client pin reconfigure bare_view bare_view
      cleanup_wrote
