-- ===== src/Placement/Placed.antt =====
-- internal/vcenter/placement.go: whether a VM is where it should be.
use selfservice_api.Base.{
  Option, none, some, Bool, not, ◌&&◌, String, str_eq, Result, ok, err, ◌>>◌, unless,
}
use selfservice_api.Placement.{Ref, HostIdentity, Client, PlacementError}
use selfservice_api.Placement.Hosts.{allowed_host_by_moref}
use selfservice_api.Placement.Pairs.{is_set}
use selfservice_api.Placement.Clones.{Vms, VmProps}

-- What ValidateVMPlacement returns: ErrPlacementValidationUnavailable or a drift of the host.
pub data ValidationError : Type 0 where
  validation_unavailable : ValidationError
  -- The drift and its cause.
  no_runtime_host : ValidationError
  drifted_outside : String → PlacementError → ValidationError
  drifted_from : String → String → ValidationError

abbrev pub drift_or :
    String → Result PlacementError HostIdentity → Result ValidationError (Unit {0})
drift_or host (ok identity) = ok tt
drift_or host (err e) = err (drifted_outside host e)

unfoldable pub check_host : Client → String → Option Ref → Result ValidationError (Unit {0})
check_host c expected none = err no_runtime_host
check_host c expected (some host) = do
  unless (str_eq host.value "") no_runtime_host
  drift_or host.value (allowed_host_by_moref c host.value)
  unless (is_set expected && not (str_eq host.value expected)) (drifted_from host.value expected)

unfoldable pub check_vm : Client → String → Option VmProps → Result ValidationError (Unit {0})
check_vm c expected none = err validation_unavailable
check_vm c expected (some props) = check_host c expected props.runtime_host

unfoldable pub validate_vm_placement :
    Client → Bool → Vms → String → String → Result ValidationError (Unit {0})
validate_vm_placement c connected vms vm_moref expected = do
  unless (not connected) validation_unavailable
  check_vm c expected (vms.vm_props vm_moref)
