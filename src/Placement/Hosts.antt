-- ===== src/Placement/Hosts.antt =====
-- internal/vcenter/placement.go: resolveHostIdentities, ResolveProvisioningHosts and the allowlist.
-- strings.EqualFold compares the code points after `simple_fold`, Unicode's table of simple case
-- foldings, which is a parameter.
use Prim.Native.Char.{code}
use selfservice_api.Base.{
  ℕ, List, [], ◌∷◌, map, length, Option, none, some, Bool, true, false, ◌&&◌, ◌||◌, String, str_eq,
  ℤ, int_eq, ◌==◌, if◌then◌else◌, Result, ok, err, ◌>>=◌, ◌>>◌, unless,
}
use selfservice_api.Placement.{
  Ref, HostIdentity, Client, PlacementError, hosts_not_resolved, host_not_allowed,
}

pub data HostsError : Type 0 where
  no_hosts_configured hosts_not_connected hosts_unlisted : HostsError
  host_identity_unreadable : String → HostsError
  host_without_parent : String → String → HostsError
  entry_unresolved : String → HostsError
  entry_ambiguous : String → ℕ → HostsError
  -- Two entries and the reference that both resolve to.
  entries_same : String → String → String → HostsError
  entry_incomplete : String → HostsError
  identity_changed : HostsError

-- What HostSystemList and the properties of one host answer; the inner none is a nil parent.
pub record ListedHost : Type 0 where
  pub listed_path : String
  pub listed_reference : String
  pub listed_props : Option (String × Option Ref)

-- seenRefs[moref]
unfoldable pub seen_ref : String → List (String × String) → Option String
seen_ref moref [] = none
seen_ref moref ((k, entry) ∷ seen) = if str_eq k moref then some entry else seen_ref moref seen

abbrev pub is_incomplete : HostIdentity → Bool
is_incomplete host = str_eq host.moref "" || str_eq host.compute_moref ""

abbrev pub only_match : String → List HostIdentity → Result HostsError HostIdentity
only_match entry [] = err (entry_unresolved entry)
only_match entry (host ∷ []) = ok host
only_match entry (host ∷ host' ∷ more) = err (entry_ambiguous entry (length (host ∷ host' ∷ more)))

abbrev pub check_unseen : String → String → Option String → Result HostsError (Unit {0})
check_unseen entry moref none = ok tt
check_unseen entry moref (some previous) = err (entries_same previous entry moref)

module _ (simple_fold : ℕ → ℕ) where
  unfoldable pub equal_fold : String → String → Bool
  equal_fold String.[] String.[] = true
  equal_fold (String.◌∷◌ c s) (String.◌∷◌ d t) =
      simple_fold (code c) == simple_fold (code d) && equal_fold s t
  equal_fold _ _ = false

  abbrev pub is_match : String → HostIdentity → Bool
  is_match configured_name candidate =
      equal_fold candidate.name configured_name
      || equal_fold candidate.inventory_path configured_name

  unfoldable pub matches_of : String → List HostIdentity → List HostIdentity
  matches_of configured_name [] = []
  matches_of configured_name (candidate ∷ inventory) =
      if is_match configured_name candidate
      then candidate ∷ matches_of configured_name inventory
      else matches_of configured_name inventory

  unfoldable pub resolve_entries :
      List String
      → List HostIdentity
      → List (String × String)
      → Result HostsError (List HostIdentity)
  resolve_entries [] inventory seen = ok []
  resolve_entries (entry ∷ entries) inventory seen = do
    host ← only_match entry (matches_of entry inventory)
    check_unseen entry host.moref (seen_ref host.moref seen)
    unless (is_incomplete host) (entry_incomplete entry)
    resolved ← resolve_entries entries inventory ((host.moref, entry) ∷ seen)
    ok (host ∷ resolved)

  unfoldable pub resolve_host_identities :
      List String → List HostIdentity → Result HostsError (List HostIdentity)
  resolve_host_identities [] inventory = err no_hosts_configured
  resolve_host_identities (entry ∷ entries) inventory =
      resolve_entries (entry ∷ entries) inventory []

abbrev pub read_host : ListedHost → Result HostsError HostIdentity
read_host host = elim host.listed_props [
  | none ↦ err (host_identity_unreadable host.listed_reference)
  | some (name, none) ↦ err (host_without_parent name host.listed_reference)
  | some (name, some parent) ↦ ok (record {
    name = name;
    inventory_path = host.listed_path;
    moref = host.listed_reference;
    compute_type = parent.ref_type;
    compute_moref = parent.value;
    reserved_memory_mb = ℤ.pos 0;
  })
]

unfoldable pub read_inventory : List ListedHost → Result HostsError (List HostIdentity)
read_inventory [] = ok []
read_inventory (host ∷ hosts) = do
  identity ← read_host host
  inventory ← read_inventory hosts
  ok (identity ∷ inventory)

-- resolved[i].ReservedMemoryMB = c.config.HostReservedMemoryMB[c.config.Hosts[i]]
unfoldable pub with_reserves : (String → ℤ) → List String → List HostIdentity → List HostIdentity
with_reserves reserved (entry ∷ entries) (host ∷ hosts) =
    record host { reserved_memory_mb = reserved entry } ∷ with_reserves reserved entries hosts
with_reserves reserved _ hosts = hosts

abbrev pub same_host : HostIdentity → HostIdentity → Bool
same_host a b =
    str_eq a.name b.name
    && str_eq a.inventory_path b.inventory_path
    && str_eq a.moref b.moref
    && str_eq a.compute_type b.compute_type
    && str_eq a.compute_moref b.compute_moref
    && int_eq a.reserved_memory_mb b.reserved_memory_mb

unfoldable pub same_hosts : List HostIdentity → List HostIdentity → Bool
same_hosts [] [] = true
same_hosts (a ∷ xs) (b ∷ ys) = same_host a b && same_hosts xs ys
same_hosts _ _ = false

-- The part under the lock: the first result is kept for good.
unfoldable pub freeze_onto :
    Client → List HostIdentity → List HostIdentity → Client × Result HostsError (List HostIdentity)
freeze_onto c [] resolved = (record c { allowed_hosts = resolved }, ok resolved)
freeze_onto c (host ∷ hosts) resolved =
    if same_hosts (host ∷ hosts) resolved then (c, ok (host ∷ hosts)) else (c, err identity_changed)

unfoldable pub freeze :
    Client → Result HostsError (List HostIdentity) → Client × Result HostsError (List HostIdentity)
freeze c (err e) = (c, err e)
freeze c (ok resolved) = freeze_onto c c.allowed_hosts resolved

module _ (simple_fold : ℕ → ℕ) where
  unfoldable pub resolve_configured :
      Client → Option (List ListedHost) → Result HostsError (List HostIdentity)
  resolve_configured c none = err hosts_unlisted
  resolve_configured c (some listed) = do
    inventory ← read_inventory listed
    resolved ← resolve_host_identities simple_fold c.hosts inventory
    ok (with_reserves c.host_reserved_memory_mb c.hosts resolved)

  unfoldable pub resolve_provisioning_hosts :
      Client → Bool → Option (List ListedHost) → Client × Result HostsError (List HostIdentity)
  resolve_provisioning_hosts c false listed = (c, err hosts_not_connected)
  resolve_provisioning_hosts c true listed = freeze c (resolve_configured c listed)

unfoldable pub allowed_host_morefs : Client → List String
allowed_host_morefs c = map (λ host. host.moref) c.allowed_hosts

abbrev pub unless_empty : List HostIdentity → Result PlacementError (List HostIdentity)
unless_empty [] = err hosts_not_resolved
unless_empty (host ∷ hosts) = ok (host ∷ hosts)

unfoldable pub resolved_hosts : Client → Result PlacementError (List HostIdentity)
resolved_hosts c = unless_empty c.allowed_hosts

unfoldable pub find_host : String → List HostIdentity → Option HostIdentity
find_host moref [] = none
find_host moref (host ∷ hosts) =
    if str_eq host.moref moref then some host else find_host moref hosts

abbrev pub found_or : String → Option HostIdentity → Result PlacementError HostIdentity
found_or moref none = err (host_not_allowed moref)
found_or moref (some host) = ok host

unfoldable pub allowed_host_by_moref : Client → String → Result PlacementError HostIdentity
allowed_host_by_moref c moref = do hosts ← resolved_hosts c; found_or moref (find_host moref hosts)
