-- ===== src/Stripes/Choice.antt =====
-- Which stripe PickStripe takes.
use selfservice_api.Base.{
  ℕ, ◌<◌, ◌≤◌, ◌≡◌, refl, sym, ◌⊎◌, inl, inr, List, [], ◌∷◌, Option, none, some, Bool, true, false,
  arith, In, All, Bool-cases, leb, ltb,
}
use selfservice_api.Stripes.{
  Stripe, Pick, picked, not_ready, full, shared_stripe_slots, max_int, all_active, pick_loop,
  pick_stripe, shared_stripes, stripes_from, stripe_for_tag,
}

module _ (occupancy : ℕ → ℕ) where
  -- `r` goes before `t`: fewer pods, or as many and a lower tag.
  abbrev pub Before : Stripe → Stripe → Type 0
  Before r t =
      (occupancy r.vlan_tag ≤ occupancy t.vlan_tag)
      × (occupancy t.vlan_tag ≡ occupancy r.vlan_tag → r.vlan_tag ≤ t.vlan_tag)

  abbrev HasRoom : Stripe → Type 0
  HasRoom r = occupancy r.vlan_tag < shared_stripe_slots

  abbrev Ascends : List Stripe → Type 0
  Ascends [] = Unit
  Ascends (s ∷ ss) = All (λ t. s.vlan_tag < t.vlan_tag) ss × Ascends ss

  -- The search from a stripe `b` that has room.
  abbrev Improves : Stripe → List Stripe → Option Stripe → Type 0
  Improves b ss none = ⊥
  Improves b ss (some r) = ((r ≡ b) ⊎ In r ss) × HasRoom r × Before r b × All (Before r) ss

  widen :
      (b s : Stripe) (ss : List Stripe) (o : Option Stripe)
      → occupancy b.vlan_tag ≤ occupancy s.vlan_tag
      → b.vlan_tag < s.vlan_tag
      → Improves b ss o
      → Improves b (s ∷ ss) o
  widen b s ss none n a h = h
  widen b s ss (some r) n a (i, room, first, rest) = (
    elim i [ inl e ↦ inl e | inr m ↦ inr (inr m) ],
    room,
    first,
    ((omega arith, λ e. omega arith), rest),
  )

  take_over :
      (b s : Stripe) (ss : List Stripe) (o : Option Stripe)
      → occupancy s.vlan_tag < occupancy b.vlan_tag
      → Improves s ss o
      → Improves b (s ∷ ss) o
  take_over b s ss none n h = h
  take_over b s ss (some r) n (i, room, first, rest) = (
    inr (elim i [ inl e ↦ inl (sym e) | inr m ↦ inr m ]),
    room,
    (omega arith, λ e. omega arith),
    (first, rest),
  )

  improve :
      (b : Stripe) (ss : List Stripe)
      → HasRoom b
      → All (λ t. b.vlan_tag < t.vlan_tag) ss
      → Ascends ss
      → Improves b ss (pick_loop occupancy (some b) (occupancy b.vlan_tag) ss)
  unfolding pick_loop
  improve b [] h a c = (inl refl, h, (omega arith, λ e. omega arith), tt)
  improve b (s ∷ ss) h a c =
      let kept = improve b ss h a.1 c.1 in
      elim (Bool-cases (leb shared_stripe_slots (occupancy s.vlan_tag))) [
        | inl e ↦ rw e (widen b s ss _ (ground arith) a.0 kept)
        | inr e ↦ elim (Bool-cases (ltb (occupancy s.vlan_tag) (occupancy b.vlan_tag))) [
          | inl f ↦
              rw (e, f) (take_over b s ss _ (ground arith) (improve s ss (ground arith) c.0 c.1))
          | inr f ↦ rw (e, f) (widen b s ss _ (ground arith) a.0 kept)
        ]
      ]

  -- The search from none.
  abbrev Finds : List Stripe → Option Stripe → Type 0
  Finds ss none = All (λ t. shared_stripe_slots ≤ occupancy t.vlan_tag) ss
  Finds ss (some r) = In r ss × HasRoom r × All (Before r) ss

  pass_over :
      (s : Stripe) (ss : List Stripe) (o : Option Stripe)
      → shared_stripe_slots ≤ occupancy s.vlan_tag
      → Finds ss o
      → Finds (s ∷ ss) o
  pass_over s ss none n h = (n, h)
  pass_over s ss (some r) n (m, room, rest) = (inr m, room, ((omega arith, λ e. omega arith), rest))

  found_first :
      (s : Stripe) (ss : List Stripe) (o : Option Stripe) → Improves s ss o → Finds (s ∷ ss) o
  found_first s ss none h = absurd h
  found_first s ss (some r) (i, room, first, rest) =
      (elim i [ inl e ↦ inl (sym e) | inr m ↦ inr m ], room, (first, rest))

  find : (ss : List Stripe) → Ascends ss → Finds ss (pick_loop occupancy none max_int ss)
  unfolding pick_loop
  find [] c = tt
  find (s ∷ ss) c = elim (Bool-cases (leb shared_stripe_slots (occupancy s.vlan_tag))) [
    | inl e ↦ rw e (pass_over s ss _ (ground arith) (find ss c.1))
    | inr e ↦
        let room : HasRoom s = ground arith in
        let below : ltb (occupancy s.vlan_tag) max_int ≡ true = ground arith in
        rw (e, below) (found_first s ss _ (improve s ss room c.0 c.1))
  ]

  stripes_ascend : Ascends shared_stripes
  unfolding shared_stripes stripes_from stripe_for_tag
  stripes_ascend = omega arith

  -- What each result of PickStripe says of the stripes.
  abbrev pub Means : (ℕ → Bool) → Pick → Type 0
  Means active (picked r) =
      In r shared_stripes
      × All (λ t. active t.vlan_tag ≡ true) shared_stripes
      × (occupancy r.vlan_tag < shared_stripe_slots)
      × All (Before r) shared_stripes
  Means active full =
      All (λ t. active t.vlan_tag ≡ true) shared_stripes
      × All (λ t. shared_stripe_slots ≤ occupancy t.vlan_tag) shared_stripes
  Means active not_ready = (t : Stripe) × In t shared_stripes × (active t.vlan_tag ≡ false)

  all_active_cases :
      (active : ℕ → Bool) (ss : List Stripe)
      → ((all_active active ss ≡ true) × All (λ t. active t.vlan_tag ≡ true) ss)
        ⊎ ((all_active active ss ≡ false) × ((t : Stripe) × In t ss × (active t.vlan_tag ≡ false)))
  unfolding all_active
  all_active_cases active [] = inl (refl, tt)
  all_active_cases active (s ∷ ss) = elim (Bool-cases (active s.vlan_tag)) [
    | inr e ↦ inr (rw (all_active, e), (s, inl refl, e))
    | inl e ↦ elim (all_active_cases active ss) [
      | inl (p, q) ↦ inl (rw (all_active, e) p, (e, q))
      | inr (p, (t, i, q)) ↦ inr (rw (all_active, e) p, (t, inr i, q))
    ]
  ]

  found-Means :
      (active : ℕ → Bool) (o : Option Stripe)
      → All (λ t. active t.vlan_tag ≡ true) shared_stripes
      → Finds shared_stripes o
      → Means active (elim o [ none ↦ full | some s ↦ picked s ])
  found-Means active none a f = (a, f)
  found-Means active (some r) a (i, room, rest) = (i, a, room, rest)

  -- PickStripe picks an active stripe with room that has the fewest pods of all, and of those with
  -- as many the one with the lowest tag. It says that the set is full only if every stripe is
  -- active and has sixteen pods or more, and refuses otherwise only if a stripe is not active.
  pub pick_stripe-Means : (active : ℕ → Bool) → Means active (pick_stripe occupancy active)
  unfolding pick_stripe
  pick_stripe-Means active = elim (all_active_cases active shared_stripes) [
    | inl (p, q) ↦ rw (pick_stripe, p) (found-Means active _ q (find shared_stripes stripes_ascend))
    | inr (p, q) ↦ rw (pick_stripe, p) q
  ]
