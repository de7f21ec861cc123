-- ===== src/Placement/Fit.antt =====
-- internal/vcenter/placement.go: which pairs of a pool and a host ResolvePlacement may choose, stated
-- apart from the code's tests, and the tests one by one.
use mathlib.Core.Option.{some_inj}
use selfservice_api.Base.{
  ◌≡◌, refl, ◌↔◌, ◌⊎◌, inl, inr, List, [], ◌∷◌, ◌++◌, Option, none, some, Bool, true, false, String,
  str_eq, str_eq_iff, pos, int_ltb, arith, In, Bool-cases,
}
use selfservice_api.Placement.{
  HostIdentity, PlacementRequest, Pool, Placement, PoolProps, HostProps, Inventory, Reason,
}
use selfservice_api.Placement.Pairs.{
  Target, when, is_set, has_text, has_standard_port_group, has_group, is_untargeted,
  host_free_memory_mb, is_other_source, is_passed_over, is_outside_pool, is_mounted, lacks_cores,
  required_free_mb, lacks_memory, pair_reasons, placement_of,
}

-- An empty text asks for nothing.
abbrev pub Asks : String → String → Type 0
Asks wanted found = (wanted ≡ "") ⊎ (found ≡ wanted)

module _ (env : Inventory) (request : PlacementRequest) (target : Target) (pool : Pool)
    (identity : HostIdentity) where
  pub record IsFit (pool_props : PoolProps) (props : HostProps) : Type 0 where
    pub pool_read : env.pool_props pool ≡ some pool_props
    pub host_read : env.host_props pool identity.moref ≡ some props
    -- The pool is the source's compute resource's, the host is the pool's.
    pub source :
        (target.source_compute ≡ "")
        ⊎ ((pool_props.owner.value ≡ target.source_compute)
            × Asks target.source_compute_type pool_props.owner.ref_type)
    pub member :
        (identity.compute_moref ≡ pool_props.owner.value)
        × ((identity.compute_type ≡ "") ⊎ (identity.compute_type ≡ pool_props.owner.ref_type))
    -- What the request asks for.
    pub pinned : Asks request.pinned_host_moref identity.moref
    pub wanted : (request.target_host_morefs ≡ []) ⊎ In identity.moref request.target_host_morefs
    pub mounted : is_mounted target identity ≡ true
    pub connected : props.connection_state ≡ "connected"
    pub in_service : props.in_maintenance_mode ≡ false
    pub network :
        (request.allow_missing_network ≡ true)
        ⊎ ((request.network_name ≡ "")
            ⊎ ((groups : List String) × (props.port_groups ≡ some groups)
                × In request.network_name groups))
    pub cores : (request.skip_capacity_checks ≡ true) ⊎ (lacks_cores request props ≡ false)
    pub memory :
        (request.skip_capacity_checks ≡ true)
        ⊎ ((int_ltb (pos 0) (required_free_mb request identity) ≡ false)
            ⊎ (int_ltb (host_free_memory_mb props) (required_free_mb request identity) ≡ false))

  -- What the code finds of the pair on the way to a candidate.
  pub record Passes (p : Placement) (pool_props : PoolProps) (props : HostProps) : Type 0 where
    pub pool_found : env.pool_props pool ≡ some pool_props
    pub host_found : env.host_props pool identity.moref ≡ some props
    pub source_passes : is_other_source target pool_props ≡ false
    pub not_passed_over : is_passed_over request identity ≡ false
    pub no_reasons : pair_reasons request target pool_props (some props) identity ≡ []
    pub placed : p ≡ placement_of target pool pool_props props identity

pub when-nil :
    (b : Bool) (r : Reason) (rest : List Reason)
    → (when b r ++ rest ≡ []) ↔ ((b ≡ false) × (rest ≡ []))
when-nil true r rest = (λ h. cc, λ h. cc)
when-nil false r rest = (λ h. (refl, h), λ h. h.1)

pub when-nil_last : (b : Bool) (r : Reason) → (when b r ≡ []) ↔ (b ≡ false)
when-nil_last true r = (λ h. cc, λ h. cc)
when-nil_last false r = (λ h. refl, λ h. refl)

pub has_text-In : (s : String) (ts : List String) → (has_text s ts ≡ true) ↔ In s ts
unfolding has_text
has_text-In s [] = (λ h. cc, λ h. absurd h)
has_text-In s (t ∷ ts) = (
  λ h. elim (Bool-cases (str_eq t s)) [
    | inl e ↦ inl ((str_eq_iff t s).0 e)
    | inr e ↦ inr ((has_text-In s ts).0 (ground (arith, e, h)))
  ],
  λ m. elim m [
    | inl e ↦ ground (arith, (str_eq_iff t s).1 e)
    | inr m ↦ ground (arith, (has_text-In s ts).1 m)
  ],
)

pub is_set_iff : (s : String) → (is_set s ≡ false) ↔ (s ≡ "")
is_set_iff s = ground (arith, str_eq_iff s "")

pub has_group_iff :
    (name : String) (o : Option (List String))
    → (has_group name o ≡ true) ↔ ((groups : List String) × (o ≡ some groups) × In name groups)
unfolding has_group
has_group_iff name none = (λ h. cc, λ (g, e, m). cc)
has_group_iff name (some groups) = (
  λ h. (groups, refl, (has_text-In name groups).0 h),
  λ (g, e, m). (has_text-In name groups).1 (rw (some_inj.0 e) m),
)

pub network_iff :
    (props : HostProps) (name : String)
    → (has_standard_port_group props name ≡ true) ↔ (
        (name ≡ "") ⊎ ((groups : List String) × (props.port_groups ≡ some groups) × In name groups))
unfolding has_standard_port_group
network_iff props name = ground (arith, str_eq_iff name "", has_group_iff name props.port_groups)

pub memory_iff :
    (request : PlacementRequest) (identity : HostIdentity) (props : HostProps)
    → (lacks_memory request identity props ≡ false) ↔ (
        (request.skip_capacity_checks ≡ true)
        ⊎ ((int_ltb (pos 0) (required_free_mb request identity) ≡ false)
            ⊎ (int_ltb (host_free_memory_mb props) (required_free_mb request identity) ≡ false)))
unfolding lacks_memory
memory_iff request identity props = ground arith

pub source_iff :
    (target : Target) (props : PoolProps)
    → (is_other_source target props ≡ false) ↔ (
        (target.source_compute ≡ "")
        ⊎ ((props.owner.value ≡ target.source_compute)
            × Asks target.source_compute_type props.owner.ref_type))
unfolding is_other_source
source_iff target props = ground (
  arith,
  str_eq_iff target.source_compute "",
  str_eq_iff target.source_compute_type "",
  str_eq_iff props.owner.value target.source_compute,
  str_eq_iff props.owner.ref_type target.source_compute_type,
)

pub member_iff :
    (identity : HostIdentity) (props : PoolProps)
    → (is_outside_pool identity props ≡ false) ↔ (
        (identity.compute_moref ≡ props.owner.value)
        × ((identity.compute_type ≡ "") ⊎ (identity.compute_type ≡ props.owner.ref_type)))
unfolding is_outside_pool
member_iff identity props = ground (
  arith,
  str_eq_iff identity.compute_moref props.owner.value,
  str_eq_iff identity.compute_type "",
  str_eq_iff identity.compute_type props.owner.ref_type,
)

pub untargeted_iff :
    (moref : String) (ts : List String)
    → (is_untargeted moref ts ≡ false) ↔ ((ts ≡ []) ⊎ In moref ts)
unfolding is_untargeted
untargeted_iff moref [] = (λ _. inl refl, λ _. refl)
untargeted_iff moref (t ∷ ts) = (
  λ h. inr ((has_text-In moref (t ∷ ts)).0 (ground (arith, h))),
  λ s. elim s [ inl e ↦ cc | inr m ↦ ground (arith, (has_text-In moref (t ∷ ts)).1 m) ],
)

pub passed_iff :
    (request : PlacementRequest) (identity : HostIdentity)
    → (is_passed_over request identity ≡ false) ↔ (
        Asks request.pinned_host_moref identity.moref
        × ((request.target_host_morefs ≡ []) ⊎ In identity.moref request.target_host_morefs))
unfolding is_passed_over
passed_iff request identity = ground (
  arith,
  str_eq_iff request.pinned_host_moref "",
  str_eq_iff identity.moref request.pinned_host_moref,
  untargeted_iff identity.moref request.target_host_morefs,
)
