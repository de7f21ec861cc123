-- ===== src/Leader/Lease.antt =====
-- The lease that an elector hands out.
use selfservice_api.Base.{
  ℕ, ◌+◌, ◌*◌, ◌-◌, ◌<◌, ◌≡◌, refl, ◌↔◌, List, [], ◌∷◌, none, some, Bool, true, false, arith, In,
  if◌then◌else◌,
}
use selfservice_api.Leader.{
  Elector, new_elector, current_leadership, become_leader, lose_leadership, receive_change,
  run_always,
}

abbrev pub lead : Bool → ℕ
lead true = 1
lead false = 0

pub record IsSound (e : Elector) : Type 0 where
  -- Two transitions for each lease, one less while it is held.
  pub counted : e.transitions + lead e.is_leader ≡ 2 * e.generation
  pub one_context_each : e.made ≡ e.generation
  pub has_led : e.is_leader ≡ true → 0 < e.generation
  pub held : e.leader_context ≡ (if e.is_leader then some (e.generation - 1) else none)
  pub cancellable : e.cancel_leadership ≡ e.leader_context
  -- Of the contexts made, all are cancelled but the one of the lease that is held.
  pub cancelled_iff : (c : ℕ) → In c e.cancelled ↔ (c + lead e.is_leader < e.made)

-- What may happen to the state, in any order.
pub data Op : Type 0 where
  become lose receive signal : Op

unfoldable pub apply : Op → Elector → Elector
apply become e = become_leader e
apply lose e = lose_leadership e
apply receive e = (receive_change e).1
apply signal e = run_always e

unfoldable pub apply_all : List Op → Elector → Elector
apply_all [] e = e
apply_all (o ∷ os) e = apply_all os (apply o e)

new_elector-IsSound : IsSound new_elector
unfolding new_elector
new_elector-IsSound = record {
  counted = omega arith;
  one_context_each = refl;
  has_led = λ h. cc;
  held = refl;
  cancellable = refl;
  cancelled_iff = λ c. (λ h. elim h [ ], λ h. absurd (omega arith));
}

become_leader-IsSound : (e : Elector) → IsSound e → IsSound (become_leader e)
unfolding become_leader
become_leader-IsSound e s = record {
  counted = ground (arith, s.counted);
  one_context_each = ground (arith, s.one_context_each);
  has_led = ground (arith, s.has_led);
  held = ground (arith, s.one_context_each, s.held);
  cancellable = ground (arith, s.cancellable);
  cancelled_iff = λ c. ground (arith, s.cancelled_iff c);
}

lose_leadership-IsSound : (e : Elector) → IsSound e → IsSound (lose_leadership e)
unfolding lose_leadership
lose_leadership-IsSound e s = record {
  counted = ground (arith, s.counted);
  one_context_each = ground (arith, s.one_context_each);
  has_led = ground (arith, s.has_led);
  held = ground (arith, s.held);
  cancellable = ground (arith, s.cancellable);
  cancelled_iff =
      λ c. ground (arith, s.cancelled_iff c, s.cancellable, s.held, s.one_context_each, s.has_led);
}

apply-IsSound : (o : Op) (e : Elector) → IsSound e → IsSound (apply o e)
unfolding apply receive_change run_always
apply-IsSound become e s = become_leader-IsSound e s
apply-IsSound lose e s = lose_leadership-IsSound e s
apply-IsSound receive e s = record {
  counted = s.counted;
  one_context_each = s.one_context_each;
  has_led = s.has_led;
  held = s.held;
  cancellable = s.cancellable;
  cancelled_iff = s.cancelled_iff;
}
apply-IsSound signal e s = record {
  counted = s.counted;
  one_context_each = s.one_context_each;
  has_led = s.has_led;
  held = s.held;
  cancellable = s.cancellable;
  cancelled_iff = s.cancelled_iff;
}

pub apply_all-IsSound : (os : List Op) (e : Elector) → IsSound e → IsSound (apply_all os e)
unfolding apply_all
apply_all-IsSound [] e s = s
apply_all-IsSound (o ∷ os) e s = apply_all-IsSound os (apply o e) (apply-IsSound o e s)

-- After any sequence of acquisitions, losses, receives and signals, what CurrentLeadership returns
-- is consistent: a leader has the context of its generation, and that context is not cancelled,
-- while those of all earlier generations are; a follower has none, and all that it ever handed out
-- are cancelled. The transitions are two for each generation, less one for a lease that is held.
pub lease_consistent :
    (os : List Op)
    → let e = apply_all os new_elector in
      let s = current_leadership e in
      (s.context ≡ (if s.is_leader then some (s.generation - 1) else none))
      × ((c : ℕ) → In c e.cancelled ↔ (c + lead s.is_leader < s.generation))
      × (e.transitions + lead s.is_leader ≡ 2 * s.generation)
unfolding current_leadership
lease_consistent os =
    let s = apply_all-IsSound os new_elector new_elector-IsSound in
    (s.held, λ c. rw (← s.one_context_each) (s.cancelled_iff c), s.counted)
