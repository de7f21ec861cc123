-- ===== src/IdleEval/Pass.antt =====
-- internal/provisioner/idle_eval.go, evaluateIdleVMs: one pass over all candidates.
use selfservice_api.Base.{
  ℕ, suc, ◌+◌, List, [], ◌∷◌, ◌++◌, Option, none, some, Bool, true, false, String, str_eq,
  if◌then◌else◌, length,
}
use selfservice_api.IdleEval.{
  Candidate, VmIdleState, VmPerfSample, Answers, Config, Counts, Effect, set_suspended_gauge,
  set_last_run,
}
use selfservice_api.IdleEval.Step.{Outcome, evaluate_candidate}

-- What the calls before the loop return, and `answers i` for the candidate at index i. A batched
-- query is asked for the morefs, and a Go map is a function into Option.
pub record Environment : Type 0 where
  pub list_running : Option (List Candidate)
  pub vm_idle_states : List String → Option (String → Option VmIdleState)
  pub perf_samples : List String → Option (String → Option VmPerfSample)
  pub now : ℕ
  pub answers : ℕ → Answers

pub record PassResult : Type 0 where
  pub counts : Counts
  -- Whether the pass returned an error.
  pub failed : Bool
  pub effects : List Effect

unfoldable pub no_counts : Counts
no_counts = record {
  candidates = 0;
  skipped = 0;
  tools_missing = 0;
  perf_missing = 0;
  activity_fresh = 0;
  activity_unknown = 0;
  refused_job = 0;
  refused_pod = 0;
  refused_run = 0;
  suspended = 0;
  power_synced = 0;
  errors = 0;
}

-- The morefs to ask for.
unfoldable pub morefs_of : List Candidate → List String
morefs_of [] = []
morefs_of (c ∷ cs) =
    let rest = morefs_of cs in if str_eq c.vcenter_vm_id "" then rest else c.vcenter_vm_id ∷ rest

-- The candidates with no moref.
unfoldable pub without_moref : List Candidate → ℕ
without_moref [] = 0
without_moref (c ∷ cs) =
    let rest = without_moref cs in if str_eq c.vcenter_vm_id "" then suc rest else rest

-- The loop, from index i on.
unfoldable pub evaluate_from :
    Config
    → ℕ
    → (String → Option VmIdleState)
    → (String → Option VmPerfSample)
    → (ℕ → Answers)
    → ℕ
    → List Candidate
    → Counts
    → Outcome
evaluate_from cfg now states perf answers i [] n = (n, [])
evaluate_from cfg now states perf answers i (c ∷ cs) n =
    let (n', effects) =
      evaluate_candidate cfg now (states c.vcenter_vm_id) (perf c.vcenter_vm_id) c (answers i) n in
    let (n'', more) = evaluate_from cfg now states perf answers (i + 1) cs n' in
    (n'', effects ++ more)

-- The two gauges at the end of a pass.
abbrev pub gauges : Config → Counts → ℕ → List Effect
gauges cfg n now =
    if cfg.pusher then set_suspended_gauge n.suspended ∷ set_last_run now ∷ [] else []

unfoldable pub evaluate_all :
    Config
    → Environment
    → (String → Option VmIdleState)
    → (String → Option VmPerfSample)
    → List Candidate
    → Counts
    → PassResult
evaluate_all cfg env states perf cs n =
    let (n', effects) = evaluate_from cfg env.now states perf env.answers 0 cs n in
    record { counts = n'; failed = false; effects = effects ++ gauges cfg n' env.now }

-- The two batched queries; a failure of either skips every VM that has a moref.
unfoldable pub evaluate_batch : Config → Environment → List Candidate → Counts → PassResult
evaluate_batch cfg env cs n =
    let morefs = morefs_of cs in
    let stopped : PassResult = record {
      counts = record n { skipped = n.skipped + length morefs };
      failed = true;
      effects = [];
    } in
    elim (env.vm_idle_states morefs) [
      | none ↦ stopped
      | some states ↦ elim (env.perf_samples morefs) [
        | none ↦ stopped
        | some perf ↦ evaluate_all cfg env states perf cs n
      ]
    ]

unfoldable pub evaluate_idle_vms : Config → Environment → PassResult
evaluate_idle_vms cfg env = elim env.list_running [
  | none ↦ record { counts = no_counts; failed = true; effects = [] }
  | some cs ↦
      (let n = record no_counts { candidates = length cs; skipped = without_moref cs } in
        elim (morefs_of cs) [
          | [] ↦ record { counts = n; failed = false; effects = [] }
          | _ ∷ _ ↦ evaluate_batch cfg env cs n
        ])
]
