-- ===== src/Placement/HostTests.antt =====
-- The allowlist of two hosts, a clone that is put on one of them, and a VM that is where it should be.
use selfservice_api.Base.{
  ℕ, ◌≡◌, ◌≢◌, refl, ◌↔◌, ◌⊎◌, List, [], ◌∷◌, Option, none, some, Bool, true, false, String, pos,
  In, ok, err,
}
use selfservice_api.Base.Orders.{sort_stable, sort_onto, insert_stable}
use selfservice_api.Placement.{HostIdentity, Client}
use selfservice_api.Placement.Hosts.{
  ListedHost, matches_of, equal_fold, seen_ref, resolve_entries, resolve_host_identities,
  read_inventory, with_reserves, freeze_onto, freeze, resolve_configured,
  resolve_provisioning_hosts, resolved_hosts, find_host, allowed_host_by_moref,
}
use selfservice_api.Placement.Pairs.{
  mount_accessible, has_text, has_group, has_standard_port_group, host_free_memory_mb,
  free_pool_mb_of, find_mount, is_other_source, is_untargeted, is_passed_over, is_outside_pool,
  is_mounted, lacks_cores, lacks_memory, host_reasons, pair_reasons, placement_of, turn_down, take,
  conclude, note_headroom, judge_read, judge,
}
use selfservice_api.Placement.Resolve.{
  resolve_pools, pinned_pool, pools_at, check_targets, read_datastore, source_from, is_mismatch,
  prepare, scan_hosts, scan_read, scan_pool, scan_pools, comes_before, choose, resolve_placement,
}
use selfservice_api.Placement.Tests.{host_a, host_b, client, cluster, inventory}
use selfservice_api.Placement.Fit.{Asks}
use selfservice_api.Placement.Checks.{IsAllowed}
use selfservice_api.Placement.Allowlist.{Resolved, resolve_host_identities-Resolved}
use selfservice_api.Placement.Frozen.{Call, after_calls, resolve_provisioning_hosts-frozen}
use selfservice_api.Placement.Clones.{
  CloneParams, Vms, VmProps, pinned_to, try_source, note_tried, try_sources, clone_before,
  pick_clone, resolve_clone,
}
use selfservice_api.Placement.Placed.{validate_vm_placement, validation_unavailable}
use selfservice_api.Placement.Pinned.{
  IsBestClone, resolve_clone-IsBestClone, resolve_clone-IsPinned,
}
use selfservice_api.Placement.Validation.{IsInPlace, validate_vm_placement-IsInPlace}

-- No letter is folded.
abbrev plain_fold : ℕ → ℕ
plain_fold c = c

abbrev bare : HostIdentity → HostIdentity
bare host = record host { reserved_memory_mb = pos 0 }

abbrev entries : List String
entries = "esx-b" ∷ []

resolve_host_identities-Resolved_example :
    (resolve_host_identities plain_fold entries (bare host_a ∷ bare host_b ∷ [])
      ≡ ok (bare host_b ∷ []))
    ↔ ((entries ≢ [])
        × Resolved plain_fold (bare host_a ∷ bare host_b ∷ []) entries (bare host_b ∷ []))
resolve_host_identities-Resolved_example =
    resolve_host_identities-Resolved plain_fold (bare host_a ∷ bare host_b ∷ []) entries
      (bare host_b ∷ [])

abbrev listed : List ListedHost
listed =
    (record {
      listed_path = "/dc/host/c1/esx-a";
      listed_reference = "host-1";
      listed_props = some ("esx-a", some cluster);
    })
    ∷ (record {
      listed_path = "/dc/host/c1/esx-b";
      listed_reference = "host-2";
      listed_props = some ("esx-b", some cluster);
    })
    ∷ []

abbrev fresh : Client
fresh = record client { allowed_hosts = [] }

first_call :
    (resolve_provisioning_hosts plain_fold fresh true (some listed)).1 ≡ ok (host_a ∷ host_b ∷ [])
unfolding resolve_provisioning_hosts resolve_configured read_inventory resolve_host_identities
    resolve_entries matches_of equal_fold seen_ref with_reserves freeze freeze_onto
first_call = refl

-- Later the inventory answers otherwise, or not at all.
abbrev later_calls : List Call
later_calls = (true, some []) ∷ (false, none) ∷ (true, none) ∷ []

resolve_provisioning_hosts-frozen_example :
    let later =
      after_calls plain_fold
        (resolve_provisioning_hosts plain_fold fresh true (some listed)).0
        later_calls in
    (later.allowed_hosts ≡ host_a ∷ host_b ∷ [])
    × ((connected' : Bool) (listed' : Option (List ListedHost)) (hosts' : List HostIdentity)
        → (resolve_provisioning_hosts plain_fold later connected' listed').1 ≡ ok hosts'
        → hosts' ≡ host_a ∷ host_b ∷ [])
resolve_provisioning_hosts-frozen_example =
    resolve_provisioning_hosts-frozen plain_fold fresh true (some listed) first_call later_calls

abbrev vms : Vms
vms = record {
  resolve_source_vm = λ ref. some ref;
  vm_props = λ _. some (record {
    runtime_host = some (record { ref_type = "HostSystem"; value = "host-1" });
    resource_pool = none;
  });
}

-- A resumed clone, pinned to the second host.
abbrev params : CloneParams
params = record {
  template_name = "vm-8942";
  logical_template_id = "t1";
  source_replica_id = "r1";
  compute_resource_type = "";
  compute_resource_moref = "";
  vm_name = "pod-vm";
  clone_vcpus = pos 4;
  clone_ram_mb = pos 8192;
  network = "student-1";
  os_type = "linux";
  password = "secret";
  operation_id = "op";
  pod_vm_id = "pv";
  host_moref = "host-2";
  host_name = "";
  resource_pool_moref = "resgroup-1";
  drs_control = "";
  observed_free_memory_mb = pos 0;
  reserved_mb = pos 0;
  missing_network_allowed = false;
  planned_mb_by_host = λ _. pos 0;
  target_morefs = [];
  source_candidates = [];
}

abbrev cloned : CloneParams
cloned = record params {
  compute_resource_type = "ClusterComputeResource";
  compute_resource_moref = "domain-c1";
  host_name = "esx-b";
  drs_control = "disabled";
  observed_free_memory_mb = pos 32768;
  reserved_mb = pos 2048;
}

clones : resolve_clone client inventory vms params false ≡ ok cloned
unfolding resolve_clone pick_clone try_sources note_tried try_source pinned_to clone_before
    resolve_placement prepare resolved_hosts check_targets read_datastore source_from is_mismatch
    pools_at resolve_pools pinned_pool scan_pools scan_pool scan_read scan_hosts judge judge_read
    conclude take turn_down note_headroom lacks_memory host_free_memory_mb pair_reasons host_reasons
    is_outside_pool is_mounted find_mount mount_accessible has_standard_port_group has_group
    has_text is_passed_over is_untargeted is_other_source lacks_cores placement_of free_pool_mb_of
    choose sort_stable sort_onto insert_stable comes_before allowed_host_by_moref find_host
clones = refl

resolve_clone-IsBestClone_example : IsBestClone client inventory vms params false cloned
resolve_clone-IsBestClone_example =
    resolve_clone-IsBestClone client inventory vms params false clones

resolve_clone-IsPinned_example :
    IsAllowed client "host-2"
    × Asks "host-2" "host-2"
    × Asks "resgroup-1" "resgroup-1"
    × ((params.target_morefs ≡ []) ⊎ In cloned.host_moref params.target_morefs)
resolve_clone-IsPinned_example = resolve_clone-IsPinned client inventory vms params false clones

-- The VM runs on the first host, where the second is expected.
validate_vm_placement-IsInPlace_example :
    ((validate_vm_placement client true vms "vm-1" "host-2" ≡ ok tt) ↔ (
      (true ≡ true)
      × ((props : VmProps) × (vms.vm_props "vm-1" ≡ some props)
          × IsInPlace client "host-2" props.runtime_host)))
    × ((validate_vm_placement client true vms "vm-1" "host-2" ≡ err validation_unavailable)
        ↔ ((true ≡ false) ⊎ (vms.vm_props "vm-1" ≡ none)))
validate_vm_placement-IsInPlace_example =
    validate_vm_placement-IsInPlace client true vms "vm-1" "host-2"
