-- ===== src/Drs/Ensure.antt =====
-- internal/vcenter/drs.go: what EnsureVMPlacementControl and the check before a cleanup write.
use selfservice_api.Base.{
  ◌≡◌, ◌≢◌, refl, ap, ◌↔◌, ◌⊎◌, inl, inr, List, [], ◌∷◌, Option, none, some, Bool, true, false,
  ◌||◌, arith, str_eq, Result, ok, err, >>=-eq-ok, >>=-eq-err, ok_inj, unless,
}
use mathlib.Core.Path.{subst}
use selfservice_api.Placement.{Ref, Client}
use selfservice_api.Placement.Clones.{VmProps}
use selfservice_api.Placement.Placed.{ValidationError}
use selfservice_api.Drs.{
  Override, View, Pin, ControlError, compute_incomplete, override_missing, compute_differs, placed,
  some_host, host_of, parent_of, is_other_parent, validate_compute_resource, needs_override,
  find_override, is_off, check_override, if_needed, Operation, add_override, edit_override,
  Reconfigured, refused, unfinished, applied, operation_of, Written, in_place,
  validate_vm_placement_control, after_write, write, install, ensure_checks, after_checks,
  ensure_vm_placement_control, after_validation, validate_vm_placement_cleanup_control,
}
use selfservice_api.Drs.Pinned.{
  NeedsOverride, none_needed, one_needed, needs_override-NeedsOverride,
  NeedsOverride-needs_override, IsHeld, alone, overridden, IsPinned, validated_place,
  IsPinned-in_place, validate_compute_resource-IsOnCompute, IsOnCompute-validate_compute_resource,
  validate_vm_placement_control-IsPinned,
}

module _ (c : Client) (a : Pin) (reconfigure : Operation → Reconfigured) where
  -- How an EnsureVMPlacementControl that succeeds leaves the VM: it was pinned before and nothing was
  -- written, or it is after the one write, which adds an entry if there was none and edits one else.
  pub data Settles (view : View) : List Operation → Type 0 where
    left_alone : IsPinned c view a → Settles view []
    overrode :
        {op : Operation} (overrides : List Override)
        → view.overrides a.compute_moref ≡ some overrides
        → (op ≡ add_override) ↔ (find_override a.vm_moref overrides ≡ none)
        → (after : View) → reconfigure op ≡ applied after
        → IsPinned c after a
        → Settles view (op ∷ [])

  after_write-ok :
      (r : Reconfigured)
      → after_write c a r ≡ ok tt
      → (after : View) × (r ≡ applied after) × IsPinned c after a
  after_write-ok refused e = cc
  after_write-ok unfinished e = cc
  after_write-ok (applied view) e =
      (view, refl, (validate_vm_placement_control-IsPinned c view a).0 e)

  -- The write that an entry calls for.
  write-Settles :
      (view : View) (overrides : List Override)
      → view.overrides a.compute_moref ≡ some overrides
      → (found : Option (Option Bool)) → find_override a.vm_moref overrides ≡ found
      → (found ≡ some (some false) → IsPinned c view a)
      → (write c a reconfigure (operation_of found)).0 ≡ ok tt
      → Settles view (write c a reconfigure (operation_of found)).1
  write-Settles view os read none f pinned e =
      let (after, r, p) = after_write-ok (reconfigure add_override) e in
      overrode os read (λ _. f, λ _. refl) after r p
  write-Settles view os read (some none) f pinned e =
      let (after, r, p) = after_write-ok (reconfigure edit_override) e in
      overrode os read (λ h. cc, λ h. cc) after r p
  write-Settles view os read (some (some true)) f pinned e =
      let (after, r, p) = after_write-ok (reconfigure edit_override) e in
      overrode os read (λ h. cc, λ h. cc) after r p
  write-Settles view os read (some (some false)) f pinned e = left_alone (pinned refl)

  install-Settles :
      (view : View) (o : Option (List Override))
      → view.overrides a.compute_moref ≡ o
      → ((os : List Override)
          → o ≡ some os
          → find_override a.vm_moref os ≡ some (some false)
          → IsPinned c view a)
      → (install c a reconfigure o).0 ≡ ok tt
      → Settles view (install c a reconfigure o).1
  install-Settles view none read pinned e = cc
  install-Settles view (some os) read pinned e =
      write-Settles view os read (find_override a.vm_moref os) refl (pinned os refl) e

  checked :
      (view : View) (needed : Bool)
      → ensure_checks c view a ≡ ok needed
      → NeedsOverride a needed
        × ((needed ≡ false)
              ⊎ ((os : List Override) × (view.overrides a.compute_moref ≡ some os)
                  × (find_override a.vm_moref os ≡ some (some false)))
            → IsPinned c view a)
  checked view needed e =
      let (u1, a1, b1) = >>=-eq-ok (in_place c view a) _ e in
      let (n, a2, b2) = >>=-eq-ok (needs_override a) _ b1 in
      let (u3, a3, b3) = >>=-eq-ok (validate_compute_resource view a) _ b2 in
      let needs = subst (NeedsOverride a) (ok_inj b3) (needs_override-NeedsOverride a n a2) in
      let (is_connected, (props, read, is_placed)) = validated_place c view a a1 in
      (
        needs,
        λ held. record {
          is_connected = is_connected;
          props = props;
          vm_read = read;
          is_placed = is_placed;
          on_compute = validate_compute_resource-IsOnCompute view a a3;
          is_held = held_as needs held;
        },
      )
    where
      held_as :
          {b : Bool}
          → NeedsOverride a b
          → ((b ≡ false)
              ⊎ ((os : List Override) × (view.overrides a.compute_moref ≡ some os)
                  × (find_override a.vm_moref os ≡ some (some false))))
          → IsHeld view a
      held_as (none_needed s t) held = alone s t
      held_as (one_needed d t) (inl e) = cc
      held_as (one_needed d t) (inr (os, read, off)) = overridden d t os read off

  after_checks-Settles :
      (view : View) (r : Result ControlError Bool)
      → ensure_checks c view a ≡ r
      → (after_checks c view a reconfigure r).0 ≡ ok tt
      → Settles view (after_checks c view a reconfigure r).1
  after_checks-Settles view (err x) h e = cc
  after_checks-Settles view (ok false) h e = left_alone ((checked view false h).1 (inl refl))
  after_checks-Settles view (ok true) h e =
      install-Settles view (view.overrides a.compute_moref) refl
        (λ os read off. (checked view true h).1 (inr (os, read, off))) e

  pinned_held :
      (view : View)
      → IsHeld view a
      → (b : Bool) × (needs_override a ≡ ok b)
        × (after_checks c view a reconfigure (ok b) ≡ (ok tt, []))
  pinned_held view (alone s t) =
      (false, NeedsOverride-needs_override a false (none_needed s t), refl)
  pinned_held view (overridden d t os read off) =
      (true, NeedsOverride-needs_override a true (one_needed d t), rw (read, off) refl)

  -- EnsureVMPlacementControl writes nothing for a VM that is pinned, and accepts it.
  pub pinned-ensure_vm_placement_control :
      (view : View)
      → IsPinned c view a
      → ensure_vm_placement_control c view a reconfigure ≡ (ok tt, [])
  unfolding ensure_vm_placement_control
  pinned-ensure_vm_placement_control view pinned =
      let (b, needs, quiet) = pinned_held view pinned.is_held in
      rw
        (
          IsPinned-in_place c view a pinned,
          needs,
          IsOnCompute-validate_compute_resource view a pinned.on_compute,
        )
        quiet

  -- Whenever EnsureVMPlacementControl succeeds, the VM was pinned and nothing was written, or the VM
  -- is pinned after one write, which adds an entry for it exactly if the cluster had none.
  pub ensure_vm_placement_control-Settles :
      (view : View) {calls : List Operation}
      → ensure_vm_placement_control c view a reconfigure ≡ (ok tt, calls)
      → Settles view calls
  unfolding ensure_vm_placement_control
  ensure_vm_placement_control-Settles view e =
      subst (Settles view) (ap (λ (w : Written). w.1) e)
        (after_checks-Settles view (ensure_checks c view a) refl (ap (λ (w : Written). w.0) e))

  -- The error that lets a cleanup write comes from the check of the overrides alone.
  abbrev IsMissing : View → Type 0
  IsMissing view =
      (overrides : List Override) × (view.overrides a.compute_moref ≡ some overrides)
      × (find_override a.vm_moref overrides ≡ none)

  placed_apart : (r : Result ValidationError (Unit {0})) → placed r ≡ err override_missing → ⊥
  placed_apart (ok done) e = cc
  placed_apart (err x) e = cc

  unless_apart :
      (b : Bool) (x : ControlError) → x ≢ override_missing → unless b x ≡ err override_missing → ⊥
  unless_apart true x n e = n cc
  unless_apart false x n e = cc

  some_host_apart : (o : Option Ref) → some_host o ≡ err override_missing → ⊥
  some_host_apart none e = cc
  some_host_apart (some host) e = cc

  host_apart : (o : Option VmProps) → host_of o ≡ err override_missing → ⊥
  host_apart none e = cc
  host_apart (some props) e = some_host_apart props.runtime_host e

  parent_apart : (o : Option (Option Ref)) → parent_of o ≡ err override_missing → ⊥
  parent_apart none e = cc
  parent_apart (some p) e = cc

  compute_apart : (view : View) → validate_compute_resource view a ≡ err override_missing → ⊥
  unfolding validate_compute_resource
  compute_apart view e =
      elim (>>=-eq-err
        (unless (str_eq a.compute_type "" || str_eq a.compute_moref "") compute_incomplete) _ e) [
          | inl x ↦ unless_apart _ compute_incomplete (λ q. cc) x
          | inr (u, r, e) ↦ elim (>>=-eq-err (host_of (view.vms.vm_props a.vm_moref)) _ e) [
            | inl x ↦ host_apart _ x
            | inr (host, r, e) ↦ elim (>>=-eq-err (parent_of (view.host_parent host.value)) _ e) [
              | inl x ↦ parent_apart _ x
              | inr (p, r, e) ↦ unless_apart (is_other_parent a p) (compute_differs p) (λ q. cc) e
            ]
          ]
        ]

  needs_apart : needs_override a ≡ err override_missing → ⊥
  unfolding needs_override
  needs_apart e = ground arith

  is_off-missing : (o : Option (Option Bool)) → is_off o ≡ err override_missing → o ≡ none
  is_off-missing none e = refl
  is_off-missing (some none) e = cc
  is_off-missing (some (some true)) e = cc
  is_off-missing (some (some false)) e = cc

  check-missing :
      (needed : Bool) (o : Option (List Override))
      → if_needed needed (check_override a.vm_moref o) ≡ err override_missing
      → (os : List Override) × (o ≡ some os) × (find_override a.vm_moref os ≡ none)
  check-missing false o e = cc
  check-missing true none e = cc
  check-missing true (some os) e = (os, refl, is_off-missing _ e)

  validate-IsMissing :
      (view : View) → validate_vm_placement_control c view a ≡ err override_missing → IsMissing view
  unfolding validate_vm_placement_control
  validate-IsMissing view e = elim (>>=-eq-err (in_place c view a) _ e) [
    | inl x ↦ absurd (placed_apart _ x)
    | inr (u, r, e) ↦ elim (>>=-eq-err (validate_compute_resource view a) _ e) [
      | inl x ↦ absurd (compute_apart view x)
      | inr (u, r, e) ↦ elim (>>=-eq-err (needs_override a) _ e) [
        | inl x ↦ absurd (needs_apart x)
        | inr (needed, r, e) ↦ check-missing needed (view.overrides a.compute_moref) e
      ]
    ]
  ]

  after_validation-writes :
      (ensured : Written) (r : Result ControlError (Unit {0}))
      → (after_validation c ensured r).1 ≢ []
      → (r ≡ err override_missing) × (after_validation c ensured r ≡ ensured)
  after_validation-writes ensured (ok u) n = absurd (n refl)
  after_validation-writes ensured (err override_missing) n = (refl, refl)
  after_validation-writes ensured (err _) n = absurd (n refl)

  -- One write, which adds an entry where the view has none, and edits one that is not off.
  pub record IsApt (view : View) (calls : List Operation) : Type 0 where
    pub op : Operation
    pub alone_written : calls ≡ op ∷ []
    pub overrides : List Override
    pub overrides_read : view.overrides a.compute_moref ≡ some overrides
    pub adds : (op ≡ add_override) ↔ (find_override a.vm_moref overrides ≡ none)
    pub not_off : find_override a.vm_moref overrides ≢ some (some false)

  write-IsApt :
      (view : View) (os : List Override)
      → view.overrides a.compute_moref ≡ some os
      → (found : Option (Option Bool)) → find_override a.vm_moref os ≡ found
      → (write c a reconfigure (operation_of found)).1 ≢ []
      → IsApt view (write c a reconfigure (operation_of found)).1
  write-IsApt view os read none f n = record {
    op = add_override;
    alone_written = refl;
    overrides = os;
    overrides_read = read;
    adds = (λ _. f, λ _. refl);
    not_off = λ h. cc;
  }
  write-IsApt view os read (some none) f n = record {
    op = edit_override;
    alone_written = refl;
    overrides = os;
    overrides_read = read;
    adds = (λ h. cc, λ h. cc);
    not_off = λ h. cc;
  }
  write-IsApt view os read (some (some true)) f n = record {
    op = edit_override;
    alone_written = refl;
    overrides = os;
    overrides_read = read;
    adds = (λ h. cc, λ h. cc);
    not_off = λ h. cc;
  }
  write-IsApt view os read (some (some false)) f n = absurd (n refl)

  install-IsApt :
      (view : View) (o : Option (List Override))
      → view.overrides a.compute_moref ≡ o
      → (install c a reconfigure o).1 ≢ []
      → IsApt view (install c a reconfigure o).1
  install-IsApt view none read n = absurd (n refl)
  install-IsApt view (some os) read n =
      write-IsApt view os read (find_override a.vm_moref os) refl n

  after_checks-IsApt :
      (view : View) (r : Result ControlError Bool)
      → (after_checks c view a reconfigure r).1 ≢ []
      → IsApt view (after_checks c view a reconfigure r).1
  after_checks-IsApt view (err x) n = absurd (n refl)
  after_checks-IsApt view (ok false) n = absurd (n refl)
  after_checks-IsApt view (ok true) n = install-IsApt view (view.overrides a.compute_moref) refl n

  ensure-IsApt :
      (view : View)
      → (ensure_vm_placement_control c view a reconfigure).1 ≢ []
      → IsApt view (ensure_vm_placement_control c view a reconfigure).1
  unfolding ensure_vm_placement_control
  ensure-IsApt view n = after_checks-IsApt view (ensure_checks c view a) n

  -- The check before a cleanup writes to the cluster only if its validation found no entry for the VM;
  -- an override that the validation finds, on or off, is left. It writes once, by what it reads of the
  -- cluster next: an entry is added if there still is none, and one that came in between is edited if
  -- it is not off.
  pub validate_vm_placement_cleanup_control-writes :
      (seen view : View)
      → (validate_vm_placement_cleanup_control c seen view a reconfigure).1 ≢ []
      → ((overrides : List Override) × (seen.overrides a.compute_moref ≡ some overrides)
          × (find_override a.vm_moref overrides ≡ none))
        × IsApt view (validate_vm_placement_cleanup_control c seen view a reconfigure).1
  unfolding validate_vm_placement_cleanup_control
  validate_vm_placement_cleanup_control-writes seen view n =
      let ensured = ensure_vm_placement_control c view a reconfigure in
      let (missing, same) =
        after_validation-writes ensured (validate_vm_placement_control c seen a) n in
      (
        validate-IsMissing seen missing,
        rw same (ensure-IsApt view (subst (λ (w : Written). w.1 ≢ []) same n)),
      )
