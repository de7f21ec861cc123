-- ===== src/Drs/Pinned.antt =====
-- internal/vcenter/drs.go: what ValidateVMPlacementControl accepts.
use selfservice_api.Base.{
  ◌≡◌, ◌≢◌, refl, sym, ◌∙◌, ◌↔◌, inl, inr, List, Option, none, some, Bool, true, false, ◌||◌, arith,
  String, str_eq, str_eq_iff, Bool-cases, Result, ok, err, >>=-eq-ok, ok_inj, unless,
}
use mathlib.Core.Path.{subst}
use selfservice_api.Placement.{Ref, Client}
use selfservice_api.Placement.Validation.{IsInPlace, validate_vm_placement-IsInPlace}
use selfservice_api.Placement.Clones.{VmProps}
use selfservice_api.Placement.Placed.{ValidationError}
use selfservice_api.Drs.{
  standalone, disabled, compute_resource, cluster_resource, Override, View, Pin, ControlError,
  compute_incomplete, wrong_compute_type, unknown_control, placed, some_host, host_of, parent_of,
  is_other_parent, validate_compute_resource, needs_override, find_override, is_off, check_override,
  if_needed, in_place, validate_vm_placement_control,
}

-- The VM runs on a host whose parent is the compute resource of the pin, which is complete.
pub record IsOnCompute (view : View) (a : Pin) : Type 0 where
  pub has_type : a.compute_type ≢ ""
  pub has_moref : a.compute_moref ≢ ""
  pub props : VmProps
  pub vm_read : view.vms.vm_props a.vm_moref ≡ some props
  pub host : Ref
  pub runs_on : props.runtime_host ≡ some host
  pub parent : Ref
  pub host_read : view.host_parent host.value ≡ some (some parent)
  pub same_type : parent.ref_type ≡ a.compute_type
  pub same_moref : parent.value ≡ a.compute_moref

-- The compute resource moves nothing, or it is a cluster whose first entry of the VM is switched off.
pub data IsHeld (view : View) (a : Pin) : Type 0 where
  alone : a.control ≡ standalone → a.compute_type ≡ compute_resource → IsHeld view a
  overridden :
      a.control ≡ disabled
      → a.compute_type ≡ cluster_resource
      → (overrides : List Override) → view.overrides a.compute_moref ≡ some overrides
      → find_override a.vm_moref overrides ≡ some (some false)
      → IsHeld view a

placed-ok : (r : Result ValidationError (Unit {0})) {u : Unit {0}} → placed r ≡ ok u → r ≡ ok tt
placed-ok (ok done) e = refl
placed-ok (err x) e = cc

unless-ok : {E : Type 0} (b : Bool) (e : E) {u : Unit {0}} → unless b e ≡ ok u → b ≡ false
unless-ok true e h = cc
unless-ok false e h = refl

host_of-ok :
    (o : Option VmProps) {host : Ref}
    → host_of o ≡ ok host
    → (props : VmProps) × (o ≡ some props) × (props.runtime_host ≡ some host)
host_of-ok none e = cc
host_of-ok (some props) {host} e = (props, refl, runs props.runtime_host e)
  where
    runs : (o : Option Ref) → some_host o ≡ ok host → o ≡ some host
    runs none h = cc
    runs (some r) h = cc

parent_of-ok : (o : Option (Option Ref)) {p : Option Ref} → parent_of o ≡ ok p → o ≡ some p
parent_of-ok none e = cc
parent_of-ok (some p) e = cc

same_parent :
    (a : Pin) (o : Option Ref)
    → is_other_parent a o ≡ false
    → (parent : Ref) × (o ≡ some parent)
      × (parent.ref_type ≡ a.compute_type)
      × (parent.value ≡ a.compute_moref)
same_parent a none e = cc
same_parent a (some p) e = (
  p,
  refl,
  ground (arith, str_eq_iff p.ref_type a.compute_type, e),
  ground (arith, str_eq_iff p.value a.compute_moref, e),
)

is_other_parent-same :
    (a : Pin) (p : Ref)
    → p.ref_type ≡ a.compute_type
    → p.value ≡ a.compute_moref
    → is_other_parent a (some p) ≡ false
is_other_parent-same a p t m =
    ground (arith, str_eq_iff p.ref_type a.compute_type, str_eq_iff p.value a.compute_moref, t, m)

incomplete_iff :
    (a : Pin)
    → ((str_eq a.compute_type "" || str_eq a.compute_moref "") ≡ false)
      ↔ ((a.compute_type ≢ "") × (a.compute_moref ≢ ""))
incomplete_iff a = ground (arith, str_eq_iff a.compute_type "", str_eq_iff a.compute_moref "")

pub validate_compute_resource-IsOnCompute :
    (view : View) (a : Pin) → validate_compute_resource view a ≡ ok tt → IsOnCompute view a
unfolding validate_compute_resource
validate_compute_resource-IsOnCompute view a e =
    let (u, a1, b1) =
      >>=-eq-ok (unless (str_eq a.compute_type "" || str_eq a.compute_moref "") compute_incomplete)
        _ e in
    let (host, a2, b2) = >>=-eq-ok (host_of (view.vms.vm_props a.vm_moref)) _ b1 in
    let (parent, a3, b3) = >>=-eq-ok (parent_of (view.host_parent host.value)) _ b2 in
    let complete = (incomplete_iff a).0 (unless-ok _ _ a1) in
    let (props, read, runs) = host_of-ok _ a2 in
    let (p, is_some, t, m) = same_parent a parent (unless-ok _ _ b3) in
    record {
      has_type = complete.0;
      has_moref = complete.1;
      props = props;
      vm_read = read;
      host = host;
      runs_on = runs;
      parent = p;
      host_read = rw (← is_some) (parent_of-ok _ a3);
      same_type = t;
      same_moref = m;
    }

pub IsOnCompute-validate_compute_resource :
    (view : View) (a : Pin) → IsOnCompute view a → validate_compute_resource view a ≡ ok tt
unfolding validate_compute_resource
IsOnCompute-validate_compute_resource view a on =
    rw
      (
        (incomplete_iff a).1 (on.has_type, on.has_moref),
        on.vm_read,
        on.runs_on,
        on.host_read,
        is_other_parent-same a on.parent on.same_type on.same_moref,
      )
      refl

-- The switch and the check of the overrides together.
abbrev pub HeldBy : View → Pin → Bool → Type 0
HeldBy view a needed =
    if_needed needed (check_override a.vm_moref (view.overrides a.compute_moref)) ≡ ok tt

is_off-ok : (o : Option (Option Bool)) → is_off o ≡ ok tt → o ≡ some (some false)
is_off-ok none e = cc
is_off-ok (some none) e = cc
is_off-ok (some (some true)) e = cc
is_off-ok (some (some false)) e = refl

check_override-ok :
    (vm : String) (o : Option (List Override))
    → check_override vm o ≡ ok tt
    → (os : List Override) × (o ≡ some os) × (find_override vm os ≡ some (some false))
check_override-ok vm none e = cc
check_override-ok vm (some os) e = (os, refl, is_off-ok _ e)

pub data NeedsOverride (a : Pin) : Bool → Type 0 where
  none_needed : a.control ≡ standalone → a.compute_type ≡ compute_resource → NeedsOverride a false
  one_needed : a.control ≡ disabled → a.compute_type ≡ cluster_resource → NeedsOverride a true

pub needs_override-NeedsOverride :
    (a : Pin) (b : Bool) → needs_override a ≡ ok b → NeedsOverride a b
unfolding needs_override
needs_override-NeedsOverride a b e = elim (Bool-cases (str_eq a.control standalone)) [
  | inl s ↦ elim (Bool-cases (str_eq a.compute_type compute_resource)) [
    | inl t ↦
        subst (NeedsOverride a) (ok_inj (sym (rw (s, t) refl) ∙ e))
          (none_needed ((str_eq_iff _ _).0 s) ((str_eq_iff _ _).0 t))
    | inr t ↦ absurd (clash {x = wrong_compute_type a.compute_type} (sym (rw (s, t) refl) ∙ e))
  ]
  | inr s ↦ elim (Bool-cases (str_eq a.control disabled)) [
    | inl d ↦ elim (Bool-cases (str_eq a.compute_type cluster_resource)) [
      | inl t ↦
          subst (NeedsOverride a) (ok_inj (sym (rw (s, d, t) refl) ∙ e))
            (one_needed ((str_eq_iff _ _).0 d) ((str_eq_iff _ _).0 t))
      | inr t ↦ absurd (clash {x = wrong_compute_type a.compute_type} (sym (rw (s, d, t) refl) ∙ e))
    ]
    | inr d ↦ absurd (clash {x = unknown_control a.control} (sym (rw (s, d) refl) ∙ e))
  ]
]
  where
    clash : {x : ControlError} → err x ≡ ok b → ⊥
    clash h = cc

pub NeedsOverride-needs_override :
    (a : Pin) (b : Bool) → NeedsOverride a b → needs_override a ≡ ok b
unfolding needs_override
NeedsOverride-needs_override a b (none_needed s t) = rw (s, t) refl
NeedsOverride-needs_override a b (one_needed d t) = rw (d, t) refl

pub HeldBy-IsHeld :
    (view : View) (a : Pin) (b : Bool) → NeedsOverride a b → HeldBy view a b → IsHeld view a
HeldBy-IsHeld view a b (none_needed s t) h = alone s t
HeldBy-IsHeld view a b (one_needed d t) h =
    let (os, read, off) = check_override-ok a.vm_moref (view.overrides a.compute_moref) h in
    overridden d t os read off

pub IsHeld-HeldBy :
    (view : View) (a : Pin) → IsHeld view a → (b : Bool) × NeedsOverride a b × HeldBy view a b
IsHeld-HeldBy view a (alone s t) = (false, none_needed s t, refl)
IsHeld-HeldBy view a (overridden d t os read off) = (true, one_needed d t, rw (read, off) refl)

module _ (c : Client) where
  -- The VM is where it should be, on its compute resource, and held there.
  pub record IsPinned (view : View) (a : Pin) : Type 0 where
    pub is_connected : view.connected ≡ true
    pub props : VmProps
    pub vm_read : view.vms.vm_props a.vm_moref ≡ some props
    pub is_placed : IsInPlace c a.expected_host props.runtime_host
    pub on_compute : IsOnCompute view a
    pub is_held : IsHeld view a

  pub validated_place :
      (view : View) (a : Pin)
      → in_place c view a ≡ ok tt
      → (view.connected ≡ true)
        × ((props : VmProps) × (view.vms.vm_props a.vm_moref ≡ some props)
            × IsInPlace c a.expected_host props.runtime_host)
  validated_place view a e =
      (validate_vm_placement-IsInPlace c view.connected view.vms a.vm_moref a.expected_host).0.0
        (placed-ok _ e)

  pub IsPinned-in_place : (view : View) (a : Pin) → IsPinned view a → in_place c view a ≡ ok tt
  IsPinned-in_place view a pinned =
      rw
        ((validate_vm_placement-IsInPlace c view.connected view.vms a.vm_moref a.expected_host).0.1
          (pinned.is_connected, (pinned.props, pinned.vm_read, pinned.is_placed)))
        refl

  -- ValidateVMPlacementControl accepts a VM exactly if vCenter is connected, the VM runs on an allowed
  -- host, the expected one if there is one, the parent of that host is the compute resource that was
  -- persisted, and that resource is a standalone one or has switched DRS off for the VM.
  pub validate_vm_placement_control-IsPinned :
      (view : View) (a : Pin) → (validate_vm_placement_control c view a ≡ ok tt) ↔ IsPinned view a
  unfolding validate_vm_placement_control
  validate_vm_placement_control-IsPinned view a = (
    λ e.
        let (u1, a1, b1) = >>=-eq-ok (in_place c view a) _ e in
        let (u2, a2, b2) = >>=-eq-ok (validate_compute_resource view a) _ b1 in
        let (needed, a3, b3) = >>=-eq-ok (needs_override a) _ b2 in
        let (is_connected, (props, read, is_placed)) = validated_place view a a1 in
        record {
          is_connected = is_connected;
          props = props;
          vm_read = read;
          is_placed = is_placed;
          on_compute = validate_compute_resource-IsOnCompute view a a2;
          is_held = HeldBy-IsHeld view a needed (needs_override-NeedsOverride a needed a3) b3;
        },
    λ pinned.
        let (needed, needs, held) = IsHeld-HeldBy view a pinned.is_held in
        rw
          (
            IsPinned-in_place view a pinned,
            IsOnCompute-validate_compute_resource view a pinned.on_compute,
            NeedsOverride-needs_override a needed needs,
          )
          held,
  )
