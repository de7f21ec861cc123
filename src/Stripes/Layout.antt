-- ===== src/Stripes/Layout.antt =====
-- Where the nine stripes lie in 10.110.0.0/16.
use selfservice_api.Base.{
  ℕ, zero, suc, ◌+◌, ◌-◌, ◌*◌, ◌^◌, ◌<◌, ◌≤◌, ◌≡◌, refl, ◌≢◌, ◌⊎◌, inl, inr, ◌↔◌, List, [], ◌∷◌,
  some, arith, length, In,
}
use selfservice_api.Stripes.{
  Stripe, shared_vlan, shared_base, shared_vlan_tag_first, shared_vlan_tag_last,
  shared_stripe_count, shared_runner_slots, add_hosts, stripe_for_tag, stripes_from, shared_stripes,
  next_addr, runner_loop, runner_addresses,
}

-- A stripe: its /26 by its tag, and in it the gateway, the runners and the students' leases.
pub record IsLaidOut (s : Stripe) : Type 0 where
  pub tag_first : shared_vlan_tag_first ≤ s.vlan_tag
  pub tag_last : s.vlan_tag ≤ shared_vlan_tag_last
  pub network : s.cidr ≡ shared_base + (s.vlan_tag - shared_vlan_tag_first) * 64
  pub gateway_first : s.gateway ≡ s.cidr + 1
  pub runners_start : s.runner_first ≡ s.cidr + 2
  pub runners_end : s.runner_last ≡ s.cidr + 15
  pub leases_start : s.dhcp_start ≡ s.cidr + 16
  pub leases_end : s.dhcp_end ≡ s.cidr + 47
  pub named : s.port_group ≡ shared_vlan s.vlan_tag

stripe_for_tag-IsLaidOut :
    (tag : ℕ)
    → shared_vlan_tag_first ≤ tag
    → tag ≤ shared_vlan_tag_last
    → IsLaidOut (stripe_for_tag tag)
unfolding stripe_for_tag add_hosts
stripe_for_tag-IsLaidOut tag f l = ground arith

stripes_from-IsLaidOut :
    (n tag : ℕ) (s : Stripe)
    → shared_vlan_tag_first ≤ tag
    → tag + n ≤ shared_vlan_tag_last + 1
    → In s (stripes_from n tag)
    → IsLaidOut s
unfolding stripes_from
stripes_from-IsLaidOut zero tag s f l h = elim h [ ]
stripes_from-IsLaidOut (suc n) tag s f l (inl e) =
    rw (← e) (stripe_for_tag-IsLaidOut tag f (omega arith))
stripes_from-IsLaidOut (suc n) tag s f l (inr h) =
    stripes_from-IsLaidOut n (tag + 1) s (omega arith) (omega arith) h

pub shared_stripes-IsLaidOut : (s : Stripe) → In s shared_stripes → IsLaidOut s
unfolding shared_stripes
shared_stripes-IsLaidOut s h = stripes_from-IsLaidOut 9 347 s (omega arith) (omega arith) h

-- SharedStripes has nine stripes. Each lies in 10.110.0.0/16, at the /26 of its tag, with the
-- gateway, the runner addresses and the DHCP range apart inside it; the networks of two stripes
-- with different tags do not meet.
pub shared_stripes_apart :
    (length shared_stripes ≡ shared_stripe_count)
    × ((s : Stripe)
        → In s shared_stripes
        → (shared_base ≤ s.cidr)
          × (s.cidr + 64 ≤ shared_base + 2 ^ 16)
          × (s.cidr < s.gateway)
          × (s.gateway < s.runner_first)
          × (s.runner_first ≤ s.runner_last)
          × (s.runner_last < s.dhcp_start)
          × (s.dhcp_start ≤ s.dhcp_end)
          × (s.dhcp_end < s.cidr + 64))
    × ((s t : Stripe)
        → In s shared_stripes
        → In t shared_stripes
        → s.vlan_tag ≢ t.vlan_tag
        → (s.cidr + 64 ≤ t.cidr) ⊎ (t.cidr + 64 ≤ s.cidr))
unfolding shared_stripes stripes_from
shared_stripes_apart = (
  refl,
  λ s h. omega (arith, shared_stripes-IsLaidOut s h),
  λ s t h k ne. grind (arith, shared_stripes-IsLaidOut s h, shared_stripes-IsLaidOut t k),
)

-- The `n` addresses from `ip` on.
abbrev pub addresses : ℕ → ℕ → List ℕ
addresses zero ip = []
addresses (suc n) ip = ip ∷ addresses n (ip + 1)

runner_loop-addresses :
    (n fuel ip last : ℕ)
    → n < fuel
    → ip + n ≡ last + 1
    → last + 1 < 2 ^ 32
    → runner_loop fuel (some ip) last ≡ some (addresses n ip)
unfolding runner_loop next_addr
runner_loop-addresses zero (suc fuel) ip last f e b = ground arith
runner_loop-addresses (suc n) (suc fuel) ip last f e b =
    ground (arith, runner_loop-addresses n fuel (ip + 1) last)
runner_loop-addresses n zero ip last f e b = absurd (omega arith)

length-addresses : (n ip : ℕ) → length (addresses n ip) ≡ n
length-addresses zero ip = refl
length-addresses (suc n) ip = omega (arith, length-addresses n (ip + 1))

In-addresses : (n ip a : ℕ) → In a (addresses n ip) ↔ ((ip ≤ a) × (a < ip + n))
In-addresses zero ip a = (λ h. elim h [ ], λ (l, u). absurd (omega arith))
In-addresses (suc n) ip a =
    let ih = In-addresses n (ip + 1) a in
    (
      λ h. elim h [ inl e ↦ omega arith | inr r ↦ let q = ih.0 r in omega arith ],
      λ (l, u). ground (arith, ih.1),
    )

-- On each of the nine stripes RunnerAddresses ends, and lists fourteen addresses: exactly those
-- between the gateway and the first DHCP lease.
pub runner_addresses_between :
    (s : Stripe)
    → In s shared_stripes
    → (out : List ℕ) × (runner_addresses s ≡ some out)
      × (length out ≡ shared_runner_slots)
      × ((a : ℕ) → In a out ↔ ((s.gateway < a) × (a < s.dhcp_start)))
unfolding runner_addresses
runner_addresses_between s h =
    let lay = shared_stripes-IsLaidOut s h in
    (
      addresses 14 s.runner_first,
      runner_loop-addresses 14 (s.runner_last + 2 - s.runner_first) s.runner_first s.runner_last
          (omega (arith, lay)) (omega (arith, lay)) (omega (arith, lay)),
      length-addresses 14 s.runner_first,
      λ a.
          let q = In-addresses 14 s.runner_first a in
          (λ i. let r = q.0 i in omega (arith, lay), λ (l, u). q.1 (omega (arith, lay))),
    )
