-- ===== src/Drs.antt =====
-- internal/vcenter/drs.go: the DRS override that keeps a VM on its host. A view is what vCenter answers
-- to the reads of one validation; a list of operations is what was sent to Reconfigure.
pub mod Pinned
pub mod Ensure
mod Tests
use selfservice_api.Base.{
  List, [], ◌∷◌, Option, none, some, Bool, true, false, not, ◌&&◌, ◌||◌, String, str_eq,
  if◌then◌else◌, Result, ok, err, ◌>>=◌, ◌>>◌, unless,
}
use selfservice_api.Placement.{Ref, Client}
use selfservice_api.Placement.Clones.{Vms, VmProps}
use selfservice_api.Placement.Placed.{ValidationError, validate_vm_placement}

abbrev pub standalone : String
standalone = "standalone"

abbrev pub disabled : String
disabled = "disabled"

abbrev pub compute_resource : String
compute_resource = "ComputeResource"

abbrev pub cluster_resource : String
cluster_resource = "ClusterComputeResource"

-- An entry of a cluster's DrsVmConfig.
pub record Override : Type 0 where
  pub key : Ref
  pub enabled : Option Bool

-- The parent of a host, and the overrides of a cluster; `none` is an error of the read.
pub record View : Type 0 where
  pub connected : Bool
  pub vms : Vms
  pub host_parent : String → Option (Option Ref)
  pub overrides : String → Option (List Override)

-- The arguments that the functions share.
pub record Pin : Type 0 where
  pub vm_moref : String
  pub expected_host : String
  pub compute_type : String
  pub compute_moref : String
  pub control : String

pub data ControlError : Type 0 where
  misplaced : ValidationError → ControlError
  compute_incomplete compute_unreadable no_host : ControlError
  compute_differs : Option Ref → ControlError
  wrong_compute_type unknown_control : String → ControlError
  overrides_unreadable override_enabled override_missing : ControlError
  configuration_unreadable override_refused override_unfinished : ControlError

abbrev pub placed : Result ValidationError (Unit {0}) → Result ControlError (Unit {0})
placed (ok done) = ok tt
placed (err e) = err (misplaced e)

abbrev pub some_host : Option Ref → Result ControlError Ref
some_host none = err no_host
some_host (some host) = ok host

abbrev pub host_of : Option VmProps → Result ControlError Ref
host_of none = err compute_unreadable
host_of (some props) = some_host props.runtime_host

abbrev pub parent_of : Option (Option Ref) → Result ControlError (Option Ref)
parent_of none = err compute_unreadable
parent_of (some parent) = ok parent

abbrev pub is_other_parent : Pin → Option Ref → Bool
is_other_parent a none = true
is_other_parent a (some parent) =
    not (str_eq parent.ref_type a.compute_type) || not (str_eq parent.value a.compute_moref)

unfoldable pub validate_compute_resource : View → Pin → Result ControlError (Unit {0})
validate_compute_resource view a = do
  unless (str_eq a.compute_type "" || str_eq a.compute_moref "") compute_incomplete
  host ← host_of (view.vms.vm_props a.vm_moref)
  parent ← parent_of (view.host_parent host.value)
  unless (is_other_parent a parent) (compute_differs parent)

-- The switch over the control: whether the cluster's overrides count.
unfoldable pub needs_override : Pin → Result ControlError Bool
needs_override a =
    if str_eq a.control standalone
    then if str_eq a.compute_type compute_resource
      then ok false
      else err (wrong_compute_type a.compute_type)
    else if str_eq a.control disabled
    then if str_eq a.compute_type cluster_resource
      then ok true
      else err (wrong_compute_type a.compute_type)
    else err (unknown_control a.control)

abbrev pub is_for : String → Override → Bool
is_for vm o = str_eq o.key.ref_type "VirtualMachine" && str_eq o.key.value vm

-- The first entry of the VM, with its switch.
unfoldable pub find_override : String → List Override → Option (Option Bool)
find_override vm [] = none
find_override vm (o ∷ os) = if is_for vm o then some o.enabled else find_override vm os

abbrev pub is_off : Option (Option Bool) → Result ControlError (Unit {0})
is_off none = err override_missing
is_off (some none) = err override_enabled
is_off (some (some true)) = err override_enabled
is_off (some (some false)) = ok tt

abbrev pub check_override : String → Option (List Override) → Result ControlError (Unit {0})
check_override vm none = err overrides_unreadable
check_override vm (some overrides) = is_off (find_override vm overrides)

abbrev pub if_needed : Bool → Result ControlError (Unit {0}) → Result ControlError (Unit {0})
if_needed false check = ok tt
if_needed true check = check

-- What is sent to Reconfigure: the VM's override, switched off, as a new entry or in place of one.
pub data Operation : Type 0 where
  add_override edit_override : Operation

-- The answers of Reconfigure and of the task's Wait, with the view that follows a success.
pub data Reconfigured : Type 0 where
  refused unfinished : Reconfigured
  applied : View → Reconfigured

abbrev pub operation_of : Option (Option Bool) → Option Operation
operation_of none = some add_override
operation_of (some none) = some edit_override
operation_of (some (some true)) = some edit_override
operation_of (some (some false)) = none

-- A result and the writes that it took.
abbrev pub Written : Type 0
Written = Result ControlError (Unit {0}) × List Operation

module _ (c : Client) where
  abbrev pub in_place : View → Pin → Result ControlError (Unit {0})
  in_place view a =
      placed (validate_vm_placement c view.connected view.vms a.vm_moref a.expected_host)

  unfoldable pub validate_vm_placement_control : View → Pin → Result ControlError (Unit {0})
  validate_vm_placement_control view a = do
    in_place view a
    validate_compute_resource view a
    needed ← needs_override a
    if_needed needed (check_override a.vm_moref (view.overrides a.compute_moref))

  abbrev pub after_write : Pin → Reconfigured → Result ControlError (Unit {0})
  after_write a refused = err override_refused
  after_write a unfinished = err override_unfinished
  after_write a (applied view) = validate_vm_placement_control view a

  abbrev pub write : Pin → (Operation → Reconfigured) → Option Operation → Written
  write a reconfigure none = (ok tt, [])
  write a reconfigure (some op) = (after_write a (reconfigure op), op ∷ [])

  abbrev pub install : Pin → (Operation → Reconfigured) → Option (List Override) → Written
  install a reconfigure none = (err configuration_unreadable, [])
  install a reconfigure (some overrides) =
      write a reconfigure (operation_of (find_override a.vm_moref overrides))

  -- The checks of EnsureVMPlacementControl before it reads the cluster's configuration.
  abbrev pub ensure_checks : View → Pin → Result ControlError Bool
  ensure_checks view a = do
    in_place view a
    needed ← needs_override a
    validate_compute_resource view a
    ok needed

  abbrev pub after_checks :
      View → Pin → (Operation → Reconfigured) → Result ControlError Bool → Written
  after_checks view a reconfigure (err e) = (err e, [])
  after_checks view a reconfigure (ok false) = (ok tt, [])
  after_checks view a reconfigure (ok true) = install a reconfigure (view.overrides a.compute_moref)

  unfoldable pub ensure_vm_placement_control : View → Pin → (Operation → Reconfigured) → Written
  ensure_vm_placement_control view a reconfigure =
      after_checks view a reconfigure (ensure_checks view a)

  abbrev pub after_validation : Written → Result ControlError (Unit {0}) → Written
  after_validation ensured (err override_missing) = ensured
  after_validation ensured result = (result, [])

  -- The two calls each see a view of their own.
  unfoldable pub validate_vm_placement_cleanup_control :
      View → View → Pin → (Operation → Reconfigured) → Written
  validate_vm_placement_cleanup_control seen view a reconfigure =
      after_validation (ensure_vm_placement_control view a reconfigure)
        (validate_vm_placement_control seen a)
