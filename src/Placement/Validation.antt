-- ===== src/Placement/Validation.antt =====
-- internal/vcenter/placement.go: what ValidateVMPlacement accepts, and which of its errors is one of
-- vCenter's answer alone.
use mathlib.Core.Option.{some_inj}
use selfservice_api.Base.{
  ◌≡◌, ◌≢◌, refl, sym, ap, ◌∙◌, ◌↔◌, ◌⊎◌, inl, inr, List, [], ◌∷◌, Option, none, some, Bool, true,
  false, not, ◌&&◌, arith, In, String, str_eq, str_eq_iff, Bool-cases, Result, ok, err, >>=-eq-ok,
  ◌>>◌, unless,
}
use selfservice_api.Placement.{Ref, HostIdentity, Client, PlacementError}
use selfservice_api.Placement.Hosts.{find_host, unless_empty, resolved_hosts, allowed_host_by_moref}
use selfservice_api.Placement.Pairs.{is_set}
use selfservice_api.Placement.Fit.{Asks}
use selfservice_api.Placement.Checks.{IsAllowed, allowed_host_by_moref-IsAllowed}
use selfservice_api.Placement.Clones.{Vms, VmProps}
use selfservice_api.Placement.Placed.{
  validation_unavailable, no_runtime_host, drifted_from, drift_or, check_host, check_vm,
  validate_vm_placement,
}

find_host-found :
    (moref : String) (hosts : List HostIdentity) (host : HostIdentity)
    → In host hosts
    → host.moref ≡ moref
    → (found : HostIdentity) × (find_host moref hosts ≡ some found)
unfolding find_host
find_host-found moref [] host m e = absurd m
find_host-found moref (h ∷ hosts) host m e = elim (Bool-cases (str_eq h.moref moref)) [
  | inl t ↦ (h, rw t refl)
  | inr f ↦ elim m [
    | inl q ↦
        absurd (clash (sym ((str_eq_iff _ _).1 (ap (λ (x : HostIdentity). x.moref) q ∙ e)) ∙ f))
    | inr m ↦ let (found, r) = find_host-found moref hosts host m e in (found, rw (f, r) refl)
  ]
]
  where
    clash : true ≡ false → ⊥
    clash x = cc

unless_empty-In :
    (hosts : List HostIdentity) (host : HostIdentity)
    → In host hosts
    → unless_empty hosts ≡ ok hosts
unless_empty-In [] host m = absurd m
unless_empty-In (h ∷ hosts) host m = refl

IsAllowed-allowed_host_by_moref :
    (c : Client) (moref : String)
    → IsAllowed c moref
    → (found : HostIdentity) × (allowed_host_by_moref c moref ≡ ok found)
unfolding allowed_host_by_moref resolved_hosts
IsAllowed-allowed_host_by_moref c moref (host, m, e) =
    let (found, r) = find_host-found moref c.allowed_hosts host m e in
    (found, rw (unless_empty-In c.allowed_hosts host m, r) refl)

-- Where the VM stands, when all is well.
abbrev pub IsInPlace : Client → String → Option Ref → Type 0
IsInPlace c expected host =
    (ref : Ref) × (host ≡ some ref)
    × (ref.value ≢ "")
    × IsAllowed c ref.value
    × Asks expected ref.value

unless-ok : {E : Type 0} (b : Bool) (e : E) {u : Unit {0}} → unless b e ≡ ok u → b ≡ false
unless-ok true e h = cc
unless-ok false e h = refl

drift_or-ok :
    (host : String) (r : Result PlacementError HostIdentity) {u : Unit {0}}
    → drift_or host r ≡ ok u
    → (identity : HostIdentity) × (r ≡ ok identity)
drift_or-ok host (ok identity) h = (identity, refl)
drift_or-ok host (err e) h = cc

expected_iff :
    (expected host : String)
    → ((is_set expected && not (str_eq host expected)) ≡ false) ↔ Asks expected host
expected_iff expected host = ground (arith, str_eq_iff expected "", str_eq_iff host expected)

not_empty_of : {s : String} → s ≢ "" → str_eq s "" ≡ false
not_empty_of {s} n = ground (arith, str_eq_iff s "")

check_host-IsInPlace :
    (c : Client) (expected : String) (host : Option Ref)
    → (check_host c expected host ≡ ok tt) ↔ IsInPlace c expected host
unfolding check_host
check_host-IsInPlace c expected none = (λ h. cc, λ (ref, e, set, allowed, asks). cc)
check_host-IsInPlace c expected (some ref) = (
  λ h.
      let (u1, a1, b1) = >>=-eq-ok (unless (str_eq ref.value "") no_runtime_host) _ h in
      let (u2, a2, b2) = >>=-eq-ok (drift_or ref.value (allowed_host_by_moref c ref.value)) _ b1 in
      (
        ref,
        refl,
        ground (arith, str_eq_iff ref.value "", unless-ok _ _ a1),
        allowed_host_by_moref-IsAllowed c ref.value (drift_or-ok _ _ a2).1,
        (expected_iff expected ref.value).0 (unless-ok _ _ b2),
      ),
  λ (other, e, set, allowed, asks).
      let is_it = some_inj.0 e in
      let (found, r) = IsAllowed-allowed_host_by_moref c ref.value (rw is_it allowed) in
      let not_empty : str_eq ref.value "" ≡ false = not_empty_of (rw is_it set) in
      rw (not_empty, r, (expected_iff expected ref.value).1 (rw is_it asks)) refl,
)

-- The three errors of a VM that was read are drifts.
three_drifts :
    (empty other : Bool) (host expected : String) (r : Result PlacementError HostIdentity)
    → (unless empty no_runtime_host
        >> (drift_or host r >> unless other (drifted_from host expected)))
      ≡ err validation_unavailable
    → ⊥
three_drifts true other host expected r h = cc
three_drifts false other host expected (err e) h = cc
three_drifts false true host expected (ok identity) h = cc
three_drifts false false host expected (ok identity) h = cc

check_host-answered :
    (c : Client) (expected : String) (host : Option Ref)
    → check_host c expected host ≡ err validation_unavailable
    → ⊥
unfolding check_host
check_host-answered c expected none h = cc
check_host-answered c expected (some ref) h =
    three_drifts (str_eq ref.value "") (is_set expected && not (str_eq ref.value expected))
      ref.value expected (allowed_host_by_moref c ref.value) h

check_vm-unavailable :
    (c : Client) (expected : String) (read : Option VmProps)
    → (check_vm c expected read ≡ err validation_unavailable) ↔ (read ≡ none)
unfolding check_vm
check_vm-unavailable c expected none = (λ _. refl, λ _. refl)
check_vm-unavailable c expected (some props) =
    (λ h. absurd (check_host-answered c expected props.runtime_host h), λ h. cc)

check_vm-IsInPlace :
    (c : Client) (expected : String) (read : Option VmProps)
    → (check_vm c expected read ≡ ok tt)
      ↔ ((props : VmProps) × (read ≡ some props) × IsInPlace c expected props.runtime_host)
unfolding check_vm
check_vm-IsInPlace c expected none = (λ h. cc, λ (props, e, rest). cc)
check_vm-IsInPlace c expected (some props) =
    let split = check_host-IsInPlace c expected props.runtime_host in
    (λ h. (props, refl, split.0 h), λ (other, e, rest). split.1 (rw (some_inj.0 e) rest))

-- ValidateVMPlacement accepts a VM exactly if vCenter is connected and answers that it runs on an
-- allowed host, the expected one if there is one; and its error is one to try again, and not a drift,
-- exactly if vCenter is not connected or does not answer.
pub validate_vm_placement-IsInPlace :
    (c : Client) (connected : Bool) (vms : Vms) (vm_moref expected : String)
    → ((validate_vm_placement c connected vms vm_moref expected ≡ ok tt) ↔ (
        (connected ≡ true)
        × ((props : VmProps) × (vms.vm_props vm_moref ≡ some props)
            × IsInPlace c expected props.runtime_host)))
      × ((validate_vm_placement c connected vms vm_moref expected ≡ err validation_unavailable)
          ↔ ((connected ≡ false) ⊎ (vms.vm_props vm_moref ≡ none)))
unfolding validate_vm_placement
validate_vm_placement-IsInPlace c false vms vm_moref expected =
    ((λ h. cc, λ h. cc), (λ _. inl refl, λ _. refl))
validate_vm_placement-IsInPlace c true vms vm_moref expected =
    let place = check_vm-IsInPlace c expected (vms.vm_props vm_moref) in
    let lost = check_vm-unavailable c expected (vms.vm_props vm_moref) in
    (
      (λ h. (refl, place.0 h), λ h. place.1 h.1),
      (λ h. inr (lost.0 h), λ s. elim s [ inl e ↦ cc | inr e ↦ lost.1 e ]),
    )
