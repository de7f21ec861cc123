-- ===== src/Placement/Destination.antt =====
-- internal/vcenter/placement.go: the parameters that resolveClonePlacement returns for a placement, and
-- which of two resolved sources it prefers.
use selfservice_api.Base.{
  ◌≡◌, ◌≢◌, refl, ◌⊎◌, inl, inr, [], true, false, String, str_eq, str_eq_iff, arith, pos, int_eq,
  int_ltb, Bool-cases,
}
use selfservice_api.Base.Orders.{
  int-IsTotal, text-IsTotal, descending-IsTotal, first_by, descending, first_by-before, text_ltb,
}
use selfservice_api.Placement.{Placement}
use selfservice_api.Placement.Clones.{CloneSource, CloneParams, pinned_to, clone_before}

-- `out` is `params` with the source and the destination filled in, and with nothing left to choose.
pub record IsPut (params : CloneParams) (source : CloneSource) (placement : Placement)
    (out : CloneParams) : Type 0 where
  pub from_ref : out.template_name ≡ source.source_ref
  pub from_replica : out.source_replica_id ≡ source.replica_id
  pub on_type : out.compute_resource_type ≡ placement.placed_compute_type
  pub on_compute : out.compute_resource_moref ≡ placement.placed_compute_moref
  pub on_host : out.host_moref ≡ placement.identity.moref
  pub on_name : out.host_name ≡ placement.identity.name
  pub in_pool : out.resource_pool_moref ≡ placement.pool_moref
  pub controlled :
      ((placement.placed_compute_type ≡ "ClusterComputeResource") × (out.drs_control ≡ "disabled"))
      ⊎ ((placement.placed_compute_type ≢ "ClusterComputeResource")
          × (out.drs_control ≡ "standalone"))
  pub observed : out.observed_free_memory_mb ≡ placement.free_host_mb
  pub reserved : out.reserved_mb ≡ placement.placed_reserved_memory_mb
  pub unplanned : (host : String) → out.planned_mb_by_host host ≡ pos 0
  pub no_targets : out.target_morefs ≡ []
  pub no_sources : out.source_candidates ≡ []
  pub same_template : out.logical_template_id ≡ params.logical_template_id
  pub same_name : out.vm_name ≡ params.vm_name
  pub same_vcpus : out.clone_vcpus ≡ params.clone_vcpus
  pub same_ram : out.clone_ram_mb ≡ params.clone_ram_mb
  pub same_network : out.network ≡ params.network
  pub same_os : out.os_type ≡ params.os_type
  pub same_password : out.password ≡ params.password
  pub same_operation : out.operation_id ≡ params.operation_id
  pub same_pod_vm : out.pod_vm_id ≡ params.pod_vm_id
  pub same_missing : out.missing_network_allowed ≡ params.missing_network_allowed

pub pinned_to-IsPut :
    (params : CloneParams) (source : CloneSource) (placement : Placement)
    → IsPut params source placement (pinned_to params source placement)
unfolding pinned_to
pinned_to-IsPut params source placement = record {
  from_ref = refl;
  from_replica = refl;
  on_type = refl;
  on_compute = refl;
  on_host = refl;
  on_name = refl;
  in_pool = refl;
  controlled = elim (Bool-cases (str_eq placement.placed_compute_type "ClusterComputeResource")) [
    | inl e ↦ inl ((str_eq_iff _ _).0 e, rw e refl)
    | inr e ↦ inr (
      ground (arith, str_eq_iff placement.placed_compute_type "ClusterComputeResource", e),
      rw e refl,
    )
  ];
  observed = refl;
  reserved = refl;
  unplanned = λ host. refl;
  no_targets = refl;
  no_sources = refl;
  same_template = refl;
  same_name = refl;
  same_vcpus = refl;
  same_ram = refl;
  same_network = refl;
  same_os = refl;
  same_password = refl;
  same_operation = refl;
  same_pod_vm = refl;
  same_missing = refl;
}

-- A source with its placement stands in front of another, or they tie: more memory is left in the
-- pool, or as much there and more on the host; or as much of both, and then the names of the hosts and
-- the references of the sources decide, in the order of texts.
pub data IsPreferred (source : CloneSource) (p : Placement) (other : CloneSource) (q : Placement)
    : Type 0 where
  roomier_pool : int_ltb q.free_pool_mb p.free_pool_mb ≡ true → IsPreferred source p other q
  roomier_host :
      p.free_pool_mb ≡ q.free_pool_mb
      → int_ltb q.free_host_mb p.free_host_mb ≡ true
      → IsPreferred source p other q
  smaller_name :
      p.free_pool_mb ≡ q.free_pool_mb
      → p.free_host_mb ≡ q.free_host_mb
      → text_ltb p.identity.name q.identity.name ≡ true
      → IsPreferred source p other q
  no_greater_ref :
      p.free_pool_mb ≡ q.free_pool_mb
      → p.free_host_mb ≡ q.free_host_mb
      → p.identity.name ≡ q.identity.name
      → text_ltb other.source_ref source.source_ref ≡ false
      → IsPreferred source p other q

pub clone_before-IsPreferred :
    (params : CloneParams) (source : CloneSource) (p : Placement) (other : CloneSource)
    (q : Placement)
    → clone_before (pinned_to params other q, q) (pinned_to params source p, p) ≡ false
    → IsPreferred source p other q
unfolding clone_before pinned_to
clone_before-IsPreferred params source p other q h =
    let x : CloneParams × Placement = (pinned_to params source p, p) in
    let y : CloneParams × Placement = (pinned_to params other q, q) in
    let by_ref = λ (r s : CloneParams × Placement). text_ltb r.0.template_name s.0.template_name in
    let by_name =
      first_by str_eq text_ltb (λ (r : CloneParams × Placement). r.0.host_name) by_ref in
    let by_host =
      first_by int_eq (descending int_ltb) (λ (r : CloneParams × Placement). r.1.free_host_mb)
        by_name in
    let greater = descending-IsTotal int-IsTotal in
    elim (first_by-before (λ (r : CloneParams × Placement). r.1.free_pool_mb) by_host greater x y
      h) [
        | inl a ↦ roomier_pool a
        | inr (a, h) ↦
            elim (first_by-before (λ (r : CloneParams × Placement). r.1.free_host_mb) by_name
              greater x y h) [
                | inl b ↦ roomier_host a b
                | inr (b, h) ↦
                    elim (first_by-before (λ (r : CloneParams × Placement). r.0.host_name) by_ref
                      text-IsTotal x y h) [
                        | inl n ↦ smaller_name a b n
                        | inr (n, h) ↦ no_greater_ref a b n h
                      ]
              ]
      ]
