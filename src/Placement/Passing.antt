-- ===== src/Placement/Passing.antt =====
-- internal/vcenter/placement.go: a pair passes the tests of the loops exactly if it fits.
use selfservice_api.Base.{
  ◌≡◌, refl, ◌↔◌, ◌⊎◌, inl, inr, [], ◌++◌, Bool, true, false, not, ◌&&◌, str_eq, str_eq_iff, arith,
}
use selfservice_api.Placement.{
  HostIdentity, PlacementRequest, Pool, Placement, PoolProps, HostProps, Inventory, Reason,
}
use selfservice_api.Placement.Pairs.{
  Target, when, has_standard_port_group, is_outside_pool, is_mounted, lacks_cores, lacks_memory,
  host_reasons, pair_reasons, placement_of,
}
use selfservice_api.Placement.Fit.{
  IsFit, Passes, when-nil, when-nil_last, network_iff, memory_iff, source_iff, member_iff,
  passed_iff,
}

record NoHostReason (request : PlacementRequest) (identity : HostIdentity) (props : HostProps)
    : Type 0 where
  pub state : str_eq props.connection_state "connected" ≡ true
  pub service : props.in_maintenance_mode ≡ false
  pub port_group :
      (request.allow_missing_network ≡ true)
      ⊎ (has_standard_port_group props request.network_name ≡ true)
  pub cpu : (request.skip_capacity_checks ≡ true) ⊎ (lacks_cores request props ≡ false)
  pub ram : lacks_memory request identity props ≡ false

whens-nil :
    (a b c d e : Bool) (q r s t u : Reason)
    → (when a q ++ (when b r ++ (when c s ++ (when d t ++ when e u))) ≡ [])
      ↔ ((a ≡ false) × (b ≡ false) × (c ≡ false) × (d ≡ false) × (e ≡ false))
whens-nil a b c d e q r s t u = (
  λ h.
      let ha = (when-nil a q _).0 h in
      let hb = (when-nil b r _).0 ha.1 in
      let hc = (when-nil c s _).0 hb.1 in
      let hd = (when-nil d t _).0 hc.1 in (ha.0, hb.0, hc.0, hd.0, (when-nil_last e u).0 hd.1),
  λ (ha, hb, hc, hd, he). rw (ha, hb, hc, hd, he) refl,
)

host_reasons-nil :
    (request : PlacementRequest) (identity : HostIdentity) (props : HostProps)
    → (host_reasons request identity props ≡ []) ↔ NoHostReason request identity props
unfolding host_reasons
host_reasons-nil request identity props =
    let split =
      whens-nil (not (str_eq props.connection_state "connected")) props.in_maintenance_mode
        (not request.allow_missing_network
          && not (has_standard_port_group props request.network_name))
        (not request.skip_capacity_checks && lacks_cores request props)
        (lacks_memory request identity props) _ _ _ _ _ in
    (
      λ h.
          let (a, b, c, d, e) = split.0 h in
          record {
            state = ground (arith, a);
            service = b;
            port_group = ground (arith, c);
            cpu = ground (arith, d);
            ram = e;
          },
      λ n. split.1 (
        ground (arith, n.state),
        n.service,
        ground (arith, n.port_group),
        ground (arith, n.cpu),
        n.ram,
      ),
    )

module _ (env : Inventory) (request : PlacementRequest) (target : Target) (pool : Pool)
    (identity : HostIdentity) where
  -- A pair passes the code's tests exactly if it fits.
  pub Passes-IsFit :
      (p : Placement) (pool_props : PoolProps) (props : HostProps)
      → Passes env request target pool identity p pool_props props
      → IsFit env request target pool identity pool_props props
  unfolding pair_reasons
  Passes-IsFit p pool_props props h =
      let outside = (when-nil (is_outside_pool identity pool_props) _ _).0 h.no_reasons in
      let mount = (when-nil (not (is_mounted target identity)) _ _).0 outside.1 in
      let host = (host_reasons-nil request identity props).0 mount.1 in
      let passed = (passed_iff request identity).0 h.not_passed_over in
      record {
        pool_read = h.pool_found;
        host_read = h.host_found;
        source = (source_iff target pool_props).0 h.source_passes;
        member = (member_iff identity pool_props).0 outside.0;
        pinned = passed.0;
        wanted = passed.1;
        mounted = ground (arith, mount.0);
        connected = (str_eq_iff _ _).0 host.state;
        in_service = host.service;
        network = elim host.port_group [
          | inl e ↦ inl e
          | inr e ↦ inr ((network_iff props request.network_name).0 e)
        ];
        cores = host.cpu;
        memory = (memory_iff request identity props).0 host.ram;
      }

  pub IsFit-Passes :
      (pool_props : PoolProps) (props : HostProps)
      → IsFit env request target pool identity pool_props props
      → Passes env request target pool identity
          (placement_of target pool pool_props props identity)
          pool_props
          props
  unfolding pair_reasons
  IsFit-Passes pool_props props h = record {
    pool_found = h.pool_read;
    host_found = h.host_read;
    source_passes = (source_iff target pool_props).1 h.source;
    not_passed_over = (passed_iff request identity).1 (h.pinned, h.wanted);
    no_reasons = (when-nil (is_outside_pool identity pool_props) _ _).1 (
      (member_iff identity pool_props).1 h.member,
      (when-nil (not (is_mounted target identity)) _ _).1 (
        ground (arith, h.mounted),
        (host_reasons-nil request identity props).1 (record {
          state = (str_eq_iff _ _).1 h.connected;
          service = h.in_service;
          port_group = elim h.network [
            | inl e ↦ inl e
            | inr e ↦ inr ((network_iff props request.network_name).1 e)
          ];
          cpu = h.cores;
          ram = (memory_iff request identity props).1 h.memory;
        }),
      ),
    );
    placed = refl;
  }
