-- ===== src/Placement/Headroom.antt =====
-- internal/vcenter/placement.go: the memory that is left free on the host of a placement.
use mathlib.Core.Path.{subst}
use selfservice_api.Base.{
  ℕ, ◌+◌, ◌^◌, ◌≤◌, ◌<◌, ◌≡◌, refl, sym, ap, ◌∙◌, inl, inr, true, false, arith, ℤ, pos, negsuc,
  int_ltb, ◌+ℤ◌, sum-small, ok,
}
use selfservice_api.Placement.{Client, PlacementRequest, Placement, Inventory}
use selfservice_api.Placement.Pairs.{
  placement_of, required_free_mb, planned_memory_mb, host_free_memory_mb,
}
use selfservice_api.Placement.Resolve.{resolve_placement}
use selfservice_api.Placement.Best.{resolve_placement-IsBest}

at_least : (n : ℕ) (free : ℤ) → int_ltb free (pos n) ≡ false → (m : ℕ) × (free ≡ pos m) × (n ≤ m)
at_least n (pos m) h = (m, refl, ground arith)
at_least n (negsuc m) h = cc

-- What int64 sums come to when they do not wrap.
sum_of :
    (x y z : ℤ) (a b d : ℕ)
    → x ≡ pos a
    → y ≡ pos b
    → z ≡ pos d
    → a + b + d < 2 ^ 63
    → (x +ℤ y +ℤ z) ≡ pos (a + b + d)
sum_of x y z a b d p q r h =
    let small : a + b < 2 ^ 63 = omega (arith, h) in
    rw (p, q, r, sum-small a b small, sum-small (a + b) d h) refl

-- With capacity checks on, and numbers of megabytes whose sum fits an int64, the host of a placement
-- has the memory of the VM free, and that planned for it and reserved on it besides.
pub resolve_placement-headroom :
    (c : Client) (env : Inventory) (request : PlacementRequest) {p : Placement}
    → resolve_placement c env request ≡ ok p
    → request.skip_capacity_checks ≡ false
    → (ram reserved planned : ℕ) → request.ram_mb ≡ pos ram
    → p.identity.reserved_memory_mb ≡ pos reserved
    → planned_memory_mb request p.identity ≡ pos planned
    → 0 < ram + reserved + planned
    → ram + reserved + planned < 2 ^ 63
    → (free : ℕ) × (p.free_host_mb ≡ pos free) × (ram + reserved + planned ≤ free)
unfolding placement_of
resolve_placement-headroom c env request {p} e checks ram reserved planned a b d some_mb small =
    let best = resolve_placement-IsBest c env request e in
    let chosen = best.eligible in
    let is_host : p.identity ≡ chosen.on_host =
      ap (λ (q : Placement). q.identity) chosen.described in
    let free : p.free_host_mb ≡ host_free_memory_mb chosen.host_answer =
      ap (λ (q : Placement). q.free_host_mb) chosen.described in
    let total : required_free_mb request chosen.on_host ≡ pos (ram + reserved + planned) =
      subst (λ h. required_free_mb request h ≡ pos (ram + reserved + planned)) is_host
        (sum_of _ _ _ ram reserved planned a b d small) in
    elim chosen.fits.memory [
      | inl skip ↦ absurd (clash (sym skip ∙ checks))
      | inr (inl none_needed) ↦ absurd (
          needed (ram + reserved + planned) some_mb
            (ap (int_ltb (pos 0)) (sym total) ∙ none_needed))
      | inr (inr enough) ↦
          let (m, q, le) =
            at_least (ram + reserved + planned) (host_free_memory_mb chosen.host_answer)
              (ap (int_ltb (host_free_memory_mb chosen.host_answer)) (sym total) ∙ enough) in
          (m, free ∙ q, le)
    ]
  where
    clash : true ≡ false → ⊥
    clash h = cc

    needed : (n : ℕ) → 0 < n → int_ltb (pos 0) (pos n) ≡ false → ⊥
    needed n h k = ground arith
