-- ===== src/Lifecycle/Diagram.antt =====
-- The lifecycle as a diagram, apart from the code's table.
use selfservice_api.Base.{String}
use selfservice_api.Lifecycle

pub data State : Type 0 where
  draft provisioning configuring generalizing ready verifying active error : State

abbrev pub name : State → String
name draft = Lifecycle.draft
name provisioning = Lifecycle.provisioning
name configuring = Lifecycle.configuring
name generalizing = Lifecycle.generalizing
name ready = Lifecycle.ready
name verifying = Lifecycle.verifying
name active = Lifecycle.active
name error = Lifecycle.error

infix 40 ◌⟶◌
pub data ◌⟶◌ : State → State → Type 0 where
  start : draft ⟶ provisioning
  built : provisioning ⟶ configuring
  build_failed : provisioning ⟶ error
  generalize : configuring ⟶ generalizing
  cancel : configuring ⟶ draft
  generalized : generalizing ⟶ ready
  generalize_failed : generalizing ⟶ error
  publish : ready ⟶ verifying
  reconfigure : ready ⟶ configuring
  discard : ready ⟶ draft
  smoke_passed : verifying ⟶ active
  smoke_failed : verifying ⟶ ready
  verify_failed : verifying ⟶ error
  unpublish : active ⟶ ready
  recover : error ⟶ draft
