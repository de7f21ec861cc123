-- ===== src/Rollback/Tests.antt =====
-- Runs of the rollback engine on small journals.
use selfservice_api.Base.{
  ℕ, ◌≡◌, refl, ap, ◌≢◌, ◌↔◌, ◌⊎◌, ◌++◌, List, [], ◌∷◌, Option, none, some, String, arith, Bool,
  true, false, str_eq, str_eq_iff, if◌then◌else◌,
}
use mathlib.Core.Option.{some_inj}
use mathlib.Core.Path.{subst}
use selfservice_api.Rollback.{
  Step, Persister, UndoFunc, Engine, out_of_fuel, is_recorded, find_undo, new_engine, register_undo,
  load_steps,
}
use selfservice_api.Rollback.Journal.{IsFenced, Journal, saved, undid, durable, IsJournaled}
use selfservice_api.Rollback.Record.{append_step, record_step}
use selfservice_api.Rollback.Record.Handoff.{record_step-fuel}
use selfservice_api.Rollback.Record.Receipt.{record_step-durable}
use selfservice_api.Rollback.Undo.{undo_round, rollback}
use selfservice_api.Rollback.Undo.Order.{rollback-undo_each}
use selfservice_api.Rollback.Undo.Remaining.{rollback_leaves}
use selfservice_api.Rollback.Undo.Durable.{rollback-IsFenced}

abbrev vlan : Step
vlan = record { name = "vlan_create"; payload = 3 ∷ 4 ∷ [] }

abbrev port_group : Step
port_group = record { name = "portgroup_create"; payload = 7 ∷ [] }

-- A world that is its own journal. Once it holds three entries, a write returns an error, although it
-- is made.
abbrev full : Journal → Option ℕ
full (_ ∷ _ ∷ _ ∷ _) = some 1
full _ = none

abbrev write : List Step → Option ℕ → Journal → Option ℕ × Journal
write steps none w = (none, saved steps ∷ w)
write steps (some err) w = (some err, saved steps ∷ w)

abbrev disk : Persister Journal ℕ
disk = record { save = λ job steps w. write steps (full w) w; handoff = none }

abbrev undo_as : String → List ℕ → Journal → Option ℕ × Journal
undo_as name payload w = (none, undid (record { name = name; payload = payload }) ∷ w)

abbrev fresh : Option (Persister Journal ℕ) → Engine Journal ℕ
fresh p = record {
  job_id = 5;
  steps = vlan ∷ port_group ∷ [];
  undo_funcs =
      ("vlan_create", undo_as "vlan_create")
      ∷ ("portgroup_create", undo_as "portgroup_create")
      ∷ [];
  persister = p;
}

-- The library's way to build that engine.
built : Engine Journal ℕ
built = load_steps (vlan ∷ port_group ∷ []) (
    register_undo "portgroup_create" (undo_as "portgroup_create")
      (register_undo "vlan_create" (undo_as "vlan_create") (new_engine 5 (some disk))))

built-eq : built ≡ fresh (some disk)
unfolding built load_steps register_undo new_engine
built-eq = refl

rollback_runs :
    rollback (fresh none) []
    ≡ ([], record (fresh none) { steps = [] }, undid vlan ∷ undid port_group ∷ [])
unfolding rollback undo_round find_undo
rollback_runs = refl

rollback_leaves_example :
    ((rollback (fresh none) []).0 ≡ []) ↔ ((rollback (fresh none) []).1.steps ≡ [])
rollback_leaves_example = (rollback_leaves (fresh none) []).0

rollback-undo_each_example : (rollback (fresh none) []).2 ≡ undid vlan ∷ undid port_group ∷ []
unfolding find_undo
rollback-undo_each_example =
    (rollback-undo_each (fresh none) (undid vlan ∷ undid port_group ∷ []) refl [] refl).0

save_ok_disk :
    (steps : List Step) (w : Journal)
    → (write steps (full w) w).0 ≡ none
    → (write steps (full w) w).1 ≡ saved steps ∷ w
save_ok_disk steps w h = ground arith

save_failed_disk :
    (steps : List Step) (w : Journal) (err : ℕ)
    → (write steps (full w) w).0 ≡ some err
    → ((write steps (full w) w).1 ≡ w) ⊎ ((write steps (full w) w).1 ≡ saved steps ∷ w)
save_failed_disk steps w err h = ground arith

undo_noted_disk :
    (step : Step) (undo : UndoFunc Journal ℕ) (w : Journal)
    → find_undo step.name (fresh (some disk)).undo_funcs ≡ some undo
    → (undo step.payload w).1 ≡ undid step ∷ w
unfolding find_undo
undo_noted_disk step undo w h =
    go (str_eq "vlan_create" step.name) (str_eq "portgroup_create" step.name) refl refl h
  where
    named :
        {g : UndoFunc Journal ℕ} (f : UndoFunc Journal ℕ)
        → g ≡ f
        → (g step.payload w).1 ≡ undid step ∷ w
        → (f step.payload w).1 ≡ undid step ∷ w
    named f e h = subst (λ u. (u step.payload w).1 ≡ undid step ∷ w) e h

    go :
        (a b : Bool)
        → str_eq "vlan_create" step.name ≡ a
        → str_eq "portgroup_create" step.name ≡ b
        → (if a
            then some (undo_as "vlan_create")
            else if b
            then some (undo_as "portgroup_create")
            else none)
          ≡ some undo
        → (undo step.payload w).1 ≡ undid step ∷ w
    go true b p q f = named undo (some_inj.0 f) (
        ap (λ n. undid (record { name = n; payload = step.payload }) ∷ w)
          ((str_eq_iff "vlan_create" step.name).0 p))
    go false true p q f = named undo (some_inj.0 f) (
        ap (λ n. undid (record { name = n; payload = step.payload }) ∷ w)
          ((str_eq_iff "portgroup_create" step.name).0 q))
    go false false p q f = cc

disk-IsJournaled : IsJournaled (λ (w : Journal). w) (fresh (some disk)) disk
disk-IsJournaled = record {
  stored = refl;
  save_ok = save_ok_disk;
  save_failed = save_failed_disk;
  undo_noted = undo_noted_disk;
}

rollback-IsFenced_example : IsFenced (rollback (fresh (some disk)) []).2
rollback-IsFenced_example =
    rollback-IsFenced (λ (w : Journal). w) (fresh (some disk)) disk disk-IsJournaled [] tt

abbrev bytes : ℕ → Option (List ℕ)
bytes n = some (n ∷ [])

record_step-fuel_example : (record_step bytes (fresh (some disk)) "dhcp" 9 []).0 ≢ some out_of_fuel
record_step-fuel_example = record_step-fuel bytes (fresh (some disk)) "dhcp" 9 []

record_step-durable_example :
    let (_, e', w') = record_step bytes (fresh (some disk)) "dhcp" 9 [] in
    let step : Step = record { name = "dhcp"; payload = 9 ∷ [] } in
    ((is_recorded step (fresh (some disk)).steps ≡ true) × (e' ≡ fresh (some disk)) × (w' ≡ []))
    ⊎ ((e'.steps ≡ (fresh (some disk)).steps ++ step ∷ []) × (durable w' ≡ e'.steps))
unfolding record_step append_step is_recorded
record_step-durable_example =
    record_step-durable (λ (w : Journal). w) (fresh (some disk)) disk disk-IsJournaled bytes
      (9 ∷ []) "dhcp" 9 [] refl refl
