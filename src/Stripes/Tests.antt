-- ===== src/Stripes/Tests.antt =====
-- A choice among the nine stripes, and the runners of the second.
use selfservice_api.Base.{ℕ, ◌≡◌, refl, true, false, In, inl, inr, if◌then◌else◌, ◌==◌}
use selfservice_api.Stripes.{
  Stripe, picked, full, shared_vlan, add_hosts, stripe_for_tag, stripes_from, shared_stripes,
  all_active, pick_loop, pick_stripe, pod_create_network,
}
use selfservice_api.Stripes.Choice.{Means, pick_stripe-Means}

abbrev pods : ℕ → ℕ
pods tag = if tag == 347 then 16 else if tag == 350 then 2 else if tag == 352 then 2 else 5

picks_lowest : pick_stripe pods (λ t. true) ≡ picked (stripe_for_tag 350)
unfolding pick_stripe all_active pick_loop shared_stripes stripes_from stripe_for_tag
picks_lowest = refl

picks_none : pick_stripe (λ t. 16) (λ t. true) ≡ full
unfolding pick_stripe all_active pick_loop shared_stripes stripes_from stripe_for_tag
picks_none = refl

shared_network : pod_create_network "shared" 350 ≡ (shared_vlan 350, false)
unfolding pod_create_network
shared_network = refl

abbrev second_stripe : Stripe
second_stripe = record {
  vlan_tag = 348;
  cidr = 174981184;
  gateway = 174981185;
  port_group = shared_vlan 348;
  dhcp_start = 174981200;
  dhcp_end = 174981231;
  runner_first = 174981186;
  runner_last = 174981199;
}

second_stripe-In : In second_stripe shared_stripes
unfolding shared_stripes stripes_from stripe_for_tag add_hosts
second_stripe-In = inr (inl refl)

pick_stripe-Means_example : Means pods (λ t. true) (pick_stripe pods (λ t. true))
pick_stripe-Means_example = pick_stripe-Means pods (λ t. true)
