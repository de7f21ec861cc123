-- ===== src/Stripes.antt =====
-- internal/models/shared_stripes.go: the nine Single VM networks and the choice between them.
-- An IPv4 address is the number that addHosts computes with; its dotted text, which net/netip
-- prints and parses, is left out. `none` as an address is the zero netip.Addr.
pub mod Layout
pub mod Choice
mod Tests
use selfservice_api.Base.{
  ℕ, zero, suc, ◌+◌, ◌-◌, ◌*◌, ◌%◌, ◌^◌, List, [], ◌∷◌, Option, none, some, Bool, true, false, not,
  String, ltb, leb, ◌==◌, str_eq, if◌then◌else◌,
}

abbrev pub shared_vlan_tag_first : ℕ
shared_vlan_tag_first = 347

abbrev pub shared_vlan_tag_last : ℕ
shared_vlan_tag_last = 355

abbrev pub shared_stripe_count : ℕ
shared_stripe_count = 9

abbrev pub shared_stripe_slots : ℕ
shared_stripe_slots = 16

abbrev pub shared_runner_slots : ℕ
shared_runner_slots = 14

-- 10.110.0.0
abbrev pub shared_base : ℕ
shared_base = 10 * 2 ^ 24 + 110 * 2 ^ 16

-- The name of a port group, `Shared-VLAN%d` or `Pod-VLAN%d`.
pub data PortGroup : Type 0 where
  shared_vlan : ℕ → PortGroup
  pod_vlan : ℕ → PortGroup

-- CIDR and Gateway both have the prefix length 26.
pub record Stripe : Type 0 where
  pub vlan_tag : ℕ
  pub cidr : ℕ
  pub gateway : ℕ
  pub port_group : PortGroup
  pub dhcp_start : ℕ
  pub dhcp_end : ℕ
  pub runner_first : ℕ
  pub runner_last : ℕ

-- Addition on uint32.
unfoldable pub add_hosts : ℕ → ℕ → ℕ
add_hosts addr n = (addr + n) % 2 ^ 32

unfoldable pub stripe_for_tag : ℕ → Stripe
stripe_for_tag tag =
    let base = add_hosts shared_base ((tag - shared_vlan_tag_first) * 64) in
    record {
      vlan_tag = tag;
      cidr = base;
      gateway = add_hosts base 1;
      port_group = shared_vlan tag;
      dhcp_start = add_hosts base 16;
      dhcp_end = add_hosts base 47;
      runner_first = add_hosts base 2;
      runner_last = add_hosts base 15;
    }

-- The loop of SharedStripes, with `n` rounds to go.
unfoldable pub stripes_from : ℕ → ℕ → List Stripe
stripes_from zero tag = []
stripes_from (suc n) tag = stripe_for_tag tag ∷ stripes_from n (tag + 1)

unfoldable pub shared_stripes : List Stripe
shared_stripes =
    stripes_from (shared_vlan_tag_last + 1 - shared_vlan_tag_first) shared_vlan_tag_first

-- Addr.Next: the zero Addr after the last address.
unfoldable pub next_addr : ℕ → Option ℕ
next_addr ip = if ltb (ip + 1) (2 ^ 32) then some (ip + 1) else none

-- The loop of RunnerAddresses on fuel. The zero Addr compares below every address and is its own
-- successor, so from there the loop does not end.
unfoldable pub runner_loop : ℕ → Option ℕ → ℕ → Option (List ℕ)
runner_loop zero ip last = none
runner_loop (suc fuel) none last = none
runner_loop (suc fuel) (some ip) last =
    let rest = runner_loop fuel (next_addr ip) last in
    if leb ip last then (elim rest [ none ↦ none | some out ↦ some (ip ∷ out) ]) else some []

unfoldable pub runner_addresses : Stripe → Option (List ℕ)
runner_addresses s =
    runner_loop (s.runner_last + 2 - s.runner_first) (some s.runner_first) s.runner_last

-- PodCreateNetwork: the port group, and whether the job may change the network.
unfoldable pub pod_create_network : String → ℕ → PortGroup × Bool
pod_create_network mode vlan_tag =
    if str_eq mode "shared" then (shared_vlan vlan_tag, false) else (pod_vlan vlan_tag, true)

unfoldable pub all_active : (ℕ → Bool) → List Stripe → Bool
all_active active [] = true
all_active active (s ∷ ss) =
    let rest = all_active active ss in if not (active s.vlan_tag) then false else rest

-- The largest int, from which the search for the least count starts.
abbrev pub max_int : ℕ
max_int = 2 ^ 63 - 1

-- The second loop of PickStripe: the stripe at the index `best`, if that is not -1, and its count.
unfoldable pub pick_loop : (ℕ → ℕ) → Option Stripe → ℕ → List Stripe → Option Stripe
pick_loop occupancy best best_count [] = best
pick_loop occupancy best best_count (s ∷ ss) =
    let n = occupancy s.vlan_tag in
    let skip = pick_loop occupancy best best_count ss in
    let take = pick_loop occupancy (some s) n ss in
    if leb shared_stripe_slots n then skip else if ltb n best_count then take else skip

pub data Pick : Type 0 where
  picked : Stripe → Pick
  not_ready : Pick
  full : Pick

-- The three results of PickStripe: (stripe, true, false), (Stripe{}, false, false) and
-- (Stripe{}, false, true). A Go map with a default is a function.
unfoldable pub pick_stripe : (ℕ → ℕ) → (ℕ → Bool) → Pick
pick_stripe occupancy active =
    if all_active active shared_stripes
    then (elim (pick_loop occupancy none max_int shared_stripes) [
      | none ↦ full
      | some s ↦ picked s
    ])
    else not_ready
