-- ===== src/Lib.antt =====
-- selfservice-api gives students pods of virtual machines. An API gateway stores pods, templates and
-- jobs in Postgres; provision workers claim the jobs and carry them out on vCenter and OPNsense, and
-- run periodic passes. Every job and every pass is done under a lease in the database.
--
-- The parts modelled here are those that decide what the workers do:
--   * Rollback (internal/rollback/engine.go): the journal of undo steps a pod's creation keeps. An
--     engine is a record; a persister and the undo functions are functions of a world that the
--     theorems leave open. Record is record_step, Rollback is rollback, LoadSteps is load_steps.
--     Rollback/Journal is what a crash leaves; a write that returns an error may have been made.
--   * IdleEval (internal/provisioner/idle_eval.go): the pass that suspends idle VMs. The answers of
--     vCenter and the database are fields of an environment, and the writes are a list of effects.
--     IdleEval/Parse has the dry-run switch, IdleEval/Step one candidate, IdleEval/Pass the pass.
--   * Retry (internal/provisioner/retryable.go, create.go): which failed job is tried again, and
--     when. An error is its text and the answers of errors.Is and errors.As. Retry/Classify is
--     ClassifyError, Retry/Backoff has RetryBackoff and cleanupRescheduleBackoff.
--   * Jobs (internal/provisioner/create.go, placement_plan.go, retryable.go): how the worker ends a
--     job. Jobs/Verdict decides on a retry, Jobs/Process is processJobLifecycle and
--     persistCleanupRetry, Jobs/Failure is what a failed template job stores of its errors. A run
--     ends in the returned error and the list of its calls; the answers of the calls are its argument.
--     Jobs/Budget follows a job over several runs, RecoverStaleJobs between them.
--   * Leases (internal/worklease/lease.go, internal/provisioner/job_lease.go, the work-lease queries of
--     internal/database/queries.go): a lease as a row, its queries as functions of the row, the
--     heartbeat as a loop over what its select sees. Leases/Fencing and Leases/Takeover are about
--     several workers, Leases/Exclusive about RunExclusive and TryRun.
--   * Lifecycle (internal/templates/lifecycle.go): the states of a template. Lifecycle/Diagram is
--     the diagram of the documentation, apart from the table in the code.
--   * Stripes (internal/models/shared_stripes.go): the nine shared networks and the choice of one.
--   * Leader (internal/leader/leader.go): the election of a leading worker, which leases have replaced
--     in the binaries. Leader/Attempt is one attempt, Leader/Lease any order of gains and losses,
--     Leader/Fleet many workers around one advisory lock, as a step relation.
--   * Placement (internal/vcenter/placement.go): which host, pool and datastore a VM gets. What vCenter
--     answers is a record of functions, Inventory, and Vms for what is asked of a VM.
--     Placement/Hosts is resolveHostIdentities and ResolveProvisioningHosts, Placement/Pairs the
--     body of ResolvePlacement's loops, Placement/Resolve the loops and the choice, Placement/Clones
--     ResolveClonePlacement with its candidate sources, Placement/Placed ValidateVMPlacement.
--     Unicode's simple case folding, behind strings.EqualFold, is a parameter.
--   * Drs (internal/vcenter/drs.go): the override that keeps DRS from moving a VM. What vCenter answers
--     during one validation is a View, so that its two reads of the VM's host agree; what is written to
--     the cluster is a list of operations.
--   * Orphans (internal/provisioner/orphan_scheduler.go): when the orphan reconciler runs. A region
--     under the lock is one function, Orphans/Steps the step relation of callers and runs.
--   * Millis (internal/runner/millis.go): durations as milliseconds in JSON, with the digits that
--     strconv writes and reads.
--   * Slugs (internal/actionlibrary/validate.go, names.go): slugs and the shell names made of them.
--   * Limits (internal/models/limits.go): lifetimes, extensions and quotas by role.
--   * Synthetic (internal/synthetic/runner.go, retry.go): the retries of a synthetic check and
--     the time budgets derived from them. The runs and the pauses are arguments.
-- Base passes on the library's names and has the lemmas on tests and lists that the parts share.
--
-- The parts meet in the worker: a job that creates a pod records its undo steps in the journal, a
-- stripe places a shared pod, a failed job asks ClassifyError and RetryBackoff, a template's job
-- moves its state along the lifecycle, a heartbeat renews the lease of each job, and the idle
-- evaluator is one of the passes that run under a lease.
--
-- Times and durations are natural numbers of nanoseconds, map lookups are functions or lists of
-- pairs, and a call of an outside service takes its answer from an argument. Logging is left out, and
-- metrics but for the counters of the idle evaluator and the events of a job. JSON around a result is
-- left out. An IPv4 address is its number.
--
-- Three loops run on fuel. The hand-over loop of Record gets nine rounds: its pauses double from one
-- second to sixteen, so that the ninth passes its deadline of ninety seconds. The loop of
-- RunnerAddresses gets one round more than there are addresses in its range. The writer of a number
-- gets twenty digits, which 64 bits never exceed; each of the three has its lemma. The loops of the
-- backoffs recur on their count, persistCleanupRetry on the rounds it is given, the heartbeats on
-- their beats, and a synthetic check on the attempts it has left.
--
-- A signed number is one of Base/Integers, whose sums and products wrap as those of int64 do.
--
-- Not modelled: HTTP handlers, SQL but for the work leases and the retry of a job, and the clients of
-- vCenter, OPNsense, NATS and the object store, which are input and output; the bodies of the jobs;
-- the runner and the engine's calls of Kubernetes; authentication, which its libraries do; unattended
-- installation media, configuration and the documentation bundle. Of placement.go the resolution of
-- a template's source and the listing for the admin pages, of drs.go the checks of privileges and of a
-- clone's markers, of the action library the check of a body by a shell parser, and of the synthetic
-- checks the pushing of metrics are left out, and of errors their texts.
pub mod Base
pub mod Rollback
pub mod IdleEval
pub mod Lifecycle
pub mod Stripes
pub mod Leader
pub mod Retry
pub mod Jobs
pub mod Leases
pub mod Placement
pub mod Orphans
pub mod Millis
pub mod Slugs
pub mod Limits
pub mod Synthetic
pub mod Drs
