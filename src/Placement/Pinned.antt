-- ===== src/Placement/Pinned.antt =====
-- internal/vcenter/placement.go: the clone parameters that come back name an allowed, best and pinned
-- destination, and which VMs pass validation.
use mathlib.Core.Path.{subst}
use selfservice_api.Base.{
  ◌≡◌, refl, sym, ap, ◌∙◌, ◌↔◌, ◌⊎◌, inl, inr, List, [], ◌∷◌, Option, none, some, Bool, false, In,
  In-append_left, In-append_right, In-append_cases, String, Result, ok, err, >>=-eq-ok, ok_inj,
}
use selfservice_api.Base.Orders.{
  IsWeak, int-IsTotal, text-IsTotal, descending-IsTotal, first_by-IsWeak, key-IsWeak,
  sort_stable-nil, best_from, sort_stable-head, best_from-In, best_from-le,
}
use selfservice_api.Placement.{Ref, Client, Placement, Inventory, PlacementError}
use selfservice_api.Placement.Pairs.{placement_of}
use selfservice_api.Placement.Resolve.{resolve_placement}
use selfservice_api.Placement.Fit.{Asks}
use selfservice_api.Placement.Checks.{IsAllowed}
use selfservice_api.Placement.Best.{IsBest, resolve_placement-IsBest}
use selfservice_api.Placement.Destination.{
  IsPut, pinned_to-IsPut, IsPreferred, clone_before-IsPreferred,
}
use selfservice_api.Placement.Clones.{
  CloneSource, CloneParams, Vms, VmProps, SourceFailure, source_unresolved, source_host_unreadable,
  CloneError, Tried, sources_of, request_of, pinned_to, source_or, host_or, placement_or,
  try_source, Trial, note_tried, try_sources, clone_before, no_trial, pick_clone, resolve_clone,
}

clone_before-IsWeak : IsWeak clone_before
unfolding clone_before
clone_before-IsWeak =
    first_by-IsWeak (λ r. r.1.free_pool_mb) (descending-IsTotal int-IsTotal)
      (first_by-IsWeak (λ r. r.1.free_host_mb) (descending-IsTotal int-IsTotal)
        (first_by-IsWeak (λ r. r.0.host_name) text-IsTotal
          (key-IsWeak (λ r. r.0.template_name) text-IsTotal)))

module _ (found : CloneParams × Placement) where
  note_tried-In :
      (tried : Tried) (trial : Trial)
      → In found (note_tried tried trial).resolved ↔ (In found trial.resolved ⊎ (tried ≡ ok found))
  unfolding note_tried
  note_tried-In (ok other) trial = (
    λ m. elim (In-append_cases found trial.resolved _ m) [
      | inl l ↦ inl l
      | inr (inl e) ↦ inr (ap ok e)
      | inr (inr x) ↦ absurd x
    ],
    λ s. elim s [
      | inl l ↦ In-append_left found trial.resolved _ l
      | inr e ↦ In-append_right found trial.resolved _ (inl (ok_inj e))
    ],
  )
  note_tried-In (err failure) trial = (λ m. inl m, λ s. elim s [ inl l ↦ l | inr e ↦ cc ])

  try_sources-In :
      (try : CloneSource → Tried) (sources : List CloneSource) (trial : Trial)
      → In found (try_sources try sources trial).resolved ↔ (
          In found trial.resolved
          ⊎ ((source : CloneSource) × In source sources × (try source ≡ ok found)))
  unfolding try_sources
  try_sources-In try [] trial =
      (λ m. inl m, λ s. elim s [ inl l ↦ l | inr (source, m, e) ↦ absurd m ])
  try_sources-In try (source ∷ sources) trial =
      let one = note_tried-In (try source) trial in
      let rest = try_sources-In try sources (note_tried (try source) trial) in
      (
        λ m. elim (rest.0 m) [
          | inl l ↦ elim (one.0 l) [ inl l ↦ inl l | inr e ↦ inr (source, inl refl, e) ]
          | inr (other, m, e) ↦ inr (other, inr m, e)
        ],
        λ s. elim s [
          | inl l ↦ rest.1 (inl (one.1 (inl l)))
          | inr (other, inl q, e) ↦ rest.1 (inl (one.1 (inr (ap try q ∙ e))))
          | inr (other, inr m, e) ↦ rest.1 (inr (other, m, e))
        ],
      )

abbrev HasPicked : List (CloneParams × Placement) → Result CloneError CloneParams → Type 0
HasPicked resolved (ok out) =
    (placement : Placement) × In (out, placement) resolved
    × ((r : CloneParams × Placement) → In r resolved → clone_before r (out, placement) ≡ false)
HasPicked resolved (err e) = resolved ≡ []

pick_clone-HasPicked :
    (resolved : List (CloneParams × Placement)) (failures : List SourceFailure) (headroom : Bool)
    → HasPicked resolved
        (pick_clone (record { resolved = resolved; failures = failures; any_headroom = headroom }))
unfolding pick_clone
pick_clone-HasPicked [] failures headroom = rw (HasPicked, sort_stable-nil clone_before) refl
pick_clone-HasPicked (r ∷ rs) failures headroom =
    let (rest, e) = sort_stable-head clone_before r rs in
    rw (HasPicked, e)
      (
        (best_from clone_before r rs).1,
        best_from-In clone_before r rs,
        best_from-le clone_before clone_before-IsWeak r rs,
      )

-- `out` is `params` put on the best placement of one of the sources, which is preferred to the
-- placement of every source that has one.
pub record IsBestClone (c : Client) (env : Inventory) (vms : Vms) (params : CloneParams)
    (skip : Bool) (out : CloneParams) : Type 0 where
  pub source : CloneSource
  pub from_sources : In source (sources_of params)
  pub placement : Placement
  pub vm : String
  pub source_found : vms.resolve_source_vm source.source_ref ≡ some vm
  pub vm_answer : VmProps
  pub vm_read : vms.vm_props vm ≡ some vm_answer
  pub best : IsBest c env (request_of c params skip source vm_answer.runtime_host) placement
  pub put : IsPut params source placement out
  pub first :
      (other : CloneSource) (other_vm : String) (other_answer : VmProps) (q : Placement)
      → In other (sources_of params)
      → vms.resolve_source_vm other.source_ref ≡ some other_vm
      → vms.vm_props other_vm ≡ some other_answer
      → resolve_placement c env (request_of c params skip other other_answer.runtime_host) ≡ ok q
      → IsPreferred source placement other q

source_or-ok :
    (o : Option String) (e : SourceFailure) {vm : String} → source_or o e ≡ ok vm → o ≡ some vm
source_or-ok none e h = cc
source_or-ok (some vm) e h = cc

host_or-ok :
    (o : Option VmProps) (e : SourceFailure) {host : Option Ref}
    → host_or o e ≡ ok host
    → (props : VmProps) × (o ≡ some props) × (props.runtime_host ≡ host)
host_or-ok none e h = cc
host_or-ok (some props) e h = (props, refl, ok_inj h)

placement_or-ok :
    (ref : String) (r : Result PlacementError Placement) {p : Placement}
    → placement_or ref r ≡ ok p
    → r ≡ ok p
placement_or-ok ref (ok p) h = ap ok (ok_inj h)
placement_or-ok ref (err e) h = cc

-- The parameters that are returned for a clone name one of its sources, with the best placement of it,
-- and leave the rest as it was; no source that has a placement has more memory left in its pool, or
-- as much there and more on its host, or as much of both and a smaller host name or reference.
pub resolve_clone-IsBestClone :
    (c : Client) (env : Inventory) (vms : Vms) (params : CloneParams) (skip : Bool)
    {out : CloneParams}
    → resolve_clone c env vms params skip ≡ ok out
    → IsBestClone c env vms params skip out
unfolding resolve_clone try_source
resolve_clone-IsBestClone c env vms params skip {out} e =
    let try = try_source c env vms params skip in
    let trial = try_sources try (sources_of params) no_trial in
    let (placement, m, first) =
      subst (HasPicked trial.resolved) e
        (pick_clone-HasPicked trial.resolved trial.failures trial.any_headroom) in
    elim ((try_sources-In (out, placement) try (sources_of params) no_trial).0 m) [
      | inl x ↦ absurd x
      | inr (source, from, tried) ↦
          let (vm, a1, b1) =
            >>=-eq-ok
              (source_or (vms.resolve_source_vm source.source_ref)
                (source_unresolved source.source_ref))
              _ tried in
          let (host, a2, b2) =
            >>=-eq-ok (host_or (vms.vm_props vm) (source_host_unreadable source.source_ref)) _ b1 in
          let (p, a3, b3) =
            >>=-eq-ok
              (placement_or source.source_ref
                (resolve_placement c env (request_of c params skip source host)))
              _ b2 in
          let (props, read, same) = host_or-ok (vms.vm_props vm) _ a2 in
          let is_p : p ≡ placement = ap (λ (r : CloneParams × Placement). r.1) (ok_inj b3) in
          let put_as : pinned_to params source placement ≡ out =
            sym (ap (pinned_to params source) is_p)
            ∙ ap (λ (r : CloneParams × Placement). r.0) (ok_inj b3) in
          record {
            source = source;
            from_sources = from;
            placement = placement;
            vm = vm;
            source_found = source_or-ok _ _ a1;
            vm_answer = props;
            vm_read = read;
            best =
                rw (same, ← is_p)
                  (resolve_placement-IsBest c env (request_of c params skip source host)
                    (placement_or-ok _ _ a3));
            put =
                subst (IsPut params source placement) put_as
                  (pinned_to-IsPut params source placement);
            first = λ other other_vm other_answer q m' f r t.
                clone_before-IsPreferred params source placement other q (
                  subst (λ o. clone_before (pinned_to params other q, q) (o, placement) ≡ false)
                    (sym put_as)
                    (first (pinned_to params other q, q)
                      ((try_sources-In (pinned_to params other q, q) try (sources_of params)
                          no_trial).1
                        (inr (other, m', rw (f, r, t) refl)))));
          }
    ]

-- A clone that is resolved is put on an allowed host; where the parameters name a host or a pool, as
-- those of a resumed clone do, on that host and in that pool; and on a requested target host, if any.
pub resolve_clone-IsPinned :
    (c : Client) (env : Inventory) (vms : Vms) (params : CloneParams) (skip : Bool)
    {out : CloneParams}
    → resolve_clone c env vms params skip ≡ ok out
    → IsAllowed c out.host_moref
      × Asks params.host_moref out.host_moref
      × Asks params.resource_pool_moref out.resource_pool_moref
      × ((params.target_morefs ≡ []) ⊎ In out.host_moref params.target_morefs)
unfolding placement_of
resolve_clone-IsPinned c env vms params skip e =
    let clone = resolve_clone-IsBestClone c env vms params skip e in
    let chosen = clone.best.eligible in
    let on_host = clone.put.on_host ∙ ap (λ (p : Placement). p.identity.moref) chosen.described in
    let in_pool = clone.put.in_pool ∙ ap (λ (p : Placement). p.pool_moref) chosen.described in
    (
      (chosen.on_host, chosen.from_hosts, sym on_host),
      subst (Asks params.host_moref) (sym on_host) chosen.fits.pinned,
      subst (Asks params.resource_pool_moref) (sym in_pool)
          (clone.best.guarded.configured chosen.on_pool chosen.from_pools).1,
      subst (λ h. (params.target_morefs ≡ []) ⊎ In h params.target_morefs) (sym on_host)
          chosen.fits.wanted,
    )
