-- ===== src/Placement/Tests.antt =====
-- Two allowed hosts of one cluster, of which the first has too little memory free.
use selfservice_api.Base.{
  ℕ, ◌+◌, ◌*◌, ◌≤◌, ◌≡◌, refl, ◌↔◌, [], ◌∷◌, none, some, true, false, str_eq, arith, if◌then◌else◌,
  pos, ok,
}
use selfservice_api.Base.Orders.{sort_stable, sort_onto, insert_stable}
use selfservice_api.Placement.{
  Ref, HostIdentity, Client, PlacementRequest, Pool, Placement, HostProps, Inventory,
}
use selfservice_api.Placement.Hosts.{resolved_hosts, find_host, allowed_host_by_moref}
use selfservice_api.Placement.Pairs.{
  Target, mount_accessible, has_text, has_group, has_standard_port_group, host_free_memory_mb,
  free_pool_mb_of, find_mount, is_other_source, is_untargeted, is_passed_over, is_outside_pool,
  is_mounted, lacks_cores, lacks_memory, host_reasons, pair_reasons, placement_of, turn_down, take,
  conclude, note_headroom, judge_read, judge,
}
use selfservice_api.Placement.Resolve.{
  resolve_pools, pools_at, check_targets, read_datastore, source_from, is_mismatch, target_of,
  prepare, scan_hosts, scan_read, scan_pool, scan_pools, comes_before, choose, resolve_placement,
}
use selfservice_api.Placement.Best.{
  IsBest, IsEligible, IsRefusal, resolve_placement-IsBest, resolve_placement-no_candidate,
}
use selfservice_api.Placement.Headroom.{resolve_placement-headroom}

abbrev gb : ℕ
gb = 1024 * 1024 * 1024

abbrev pub host_a : HostIdentity
host_a = record {
  name = "esx-a";
  inventory_path = "/dc/host/c1/esx-a";
  moref = "host-1";
  compute_type = "ClusterComputeResource";
  compute_moref = "domain-c1";
  reserved_memory_mb = pos 2048;
}

abbrev pub host_b : HostIdentity
host_b = record host_a { name = "esx-b"; inventory_path = "/dc/host/c1/esx-b"; moref = "host-2" }

abbrev pub client : Client
client = record {
  hosts = "esx-a" ∷ "esx-b" ∷ [];
  host_reserved_memory_mb = λ _. pos 2048;
  resource_pools = "pool-path" ∷ [];
  datastore = "ds";
  allowed_hosts = host_a ∷ host_b ∷ [];
}

abbrev pool : Pool
pool = record { reference = "resgroup-1"; pool_inventory_path = "pool-path" }

abbrev pub cluster : Ref
cluster = record { ref_type = "ClusterComputeResource"; value = "domain-c1" }

-- A host with 64 GB.
abbrev with_usage : ℕ → HostProps
with_usage used = record {
  connection_state = "connected";
  in_maintenance_mode = false;
  port_groups = some ("student-1" ∷ []);
  hardware = some (record { num_cpu_cores = pos 16; memory_size = pos (64 * gb) });
  overall_memory_usage = pos used;
}

abbrev pub inventory : Inventory
inventory = record {
  connected = true;
  find_datastore = λ _. some "datastore-1";
  datastore_props = λ _. some (record {
    datastore_accessible = true;
    mounts =
        ("host-1", record { mounted = none; accessible = some true })
        ∷ ("host-2", record { mounted = some true; accessible = none })
        ∷ [];
  });
  host_parent = λ _. some (some cluster);
  find_pool = λ _. some pool;
  pool_props = λ _.
      some (record { owner = cluster; max_usage = pos (128 * gb); overall_usage = pos (100 * gb) });
  host_props = λ _ moref. some (with_usage (if str_eq moref "host-1" then 60000 else 32768));
}

abbrev request : PlacementRequest
request = record {
  source_host = some (record { ref_type = "HostSystem"; value = "host-1" });
  require_source_host = true;
  resource_pool_path = "";
  datastore_name = "";
  network_name = "student-1";
  vcpus = pos 4;
  ram_mb = pos 8192;
  pinned_host_moref = "";
  pinned_pool_moref = "";
  expected_compute_type = "";
  expected_compute_moref = "domain-c1";
  allow_missing_network = false;
  skip_capacity_checks = false;
  planned_memory_mb_by_host = λ _. pos 4096;
  target_host_morefs = [];
}

abbrev chosen : Placement
chosen = record {
  host = "host-2";
  pool = pool;
  placed_datastore = "datastore-1";
  identity = host_b;
  pool_moref = "resgroup-1";
  pool_path = "pool-path";
  placed_compute_type = "ClusterComputeResource";
  placed_compute_moref = "domain-c1";
  free_host_mb = pos 32768;
  free_pool_mb = pos 28672;
  placed_reserved_memory_mb = pos 2048;
}

resolves : resolve_placement client inventory request ≡ ok chosen
unfolding resolve_placement prepare resolved_hosts check_targets read_datastore source_from
    is_mismatch pools_at resolve_pools scan_pools scan_pool scan_read scan_hosts judge judge_read
    conclude take turn_down note_headroom lacks_memory host_free_memory_mb pair_reasons host_reasons
    is_outside_pool is_mounted find_mount mount_accessible has_standard_port_group has_group
    has_text is_passed_over is_untargeted is_other_source lacks_cores placement_of free_pool_mb_of
    choose sort_stable sort_onto insert_stable comes_before allowed_host_by_moref find_host
resolves = refl

resolve_placement-IsBest_example : IsBest client inventory request chosen
resolve_placement-IsBest_example = resolve_placement-IsBest client inventory request resolves

resolve_placement-headroom_example :
    (free : ℕ) × (chosen.free_host_mb ≡ pos free) × (8192 + 2048 + 4096 ≤ free)
resolve_placement-headroom_example =
    resolve_placement-headroom client inventory request resolves refl 8192 2048 4096 refl refl refl
      (omega arith) (omega arith)

abbrev target : Target
target =
    target_of "datastore-1"
      (record {
        datastore_accessible = true;
        mounts =
            ("host-1", record { mounted = none; accessible = some true })
            ∷ ("host-2", record { mounted = some true; accessible = none })
            ∷ [];
      })
      cluster

prepared : prepare client inventory request ≡ ok (host_a ∷ host_b ∷ [], target, pool ∷ [])
unfolding prepare resolved_hosts check_targets read_datastore source_from is_mismatch pools_at
    resolve_pools allowed_host_by_moref find_host
prepared = refl

resolve_placement-no_candidate_example : IsRefusal (resolve_placement client inventory request) ↔ (
    (p : Placement) → IsEligible inventory request target (host_a ∷ host_b ∷ []) (pool ∷ []) p → ⊥)
resolve_placement-no_candidate_example =
    resolve_placement-no_candidate client inventory request prepared
