-- ===== src/Placement/Checks.antt =====
-- internal/vcenter/placement.go: the checks of ResolvePlacement one by one: hosts on the allowlist, target
-- hosts and pools.
use mathlib.Core.Option.{some_inj}
use mathlib.Core.Path.{subst}
use selfservice_api.Base.{
  ◌≡◌, refl, sym, ap, ◌∙◌, ◌⊎◌, inl, inr, List, [], ◌∷◌, Option, none, some, Bool, true, false, In,
  String, str_eq, str_eq_iff, Bool-cases, Result, ok, err, unless, >>=-eq-ok, ok_inj,
}
use selfservice_api.Placement.{
  HostIdentity, Client, PlacementRequest, Pool, Inventory, PlacementError,
}
use selfservice_api.Placement.Hosts.{
  unless_empty, resolved_hosts, found_or, find_host, allowed_host_by_moref,
}
use selfservice_api.Placement.Fit.{Asks}
use selfservice_api.Placement.Resolve.{
  resolve_pools, pinned_pool, or_fail, or_else, pool_paths, check_targets, add_found,
}

-- A reference of a host on the allowlist.
abbrev pub IsAllowed : Client → String → Type 0
IsAllowed c moref = (host : HostIdentity) × In host c.allowed_hosts × (host.moref ≡ moref)

pub find_host-In :
    (moref : String) (hosts : List HostIdentity) {host : HostIdentity}
    → find_host moref hosts ≡ some host
    → In host hosts × (host.moref ≡ moref)
unfolding find_host
find_host-In moref [] e = cc
find_host-In moref (h ∷ hosts) e = elim (Bool-cases (str_eq h.moref moref)) [
  | inl t ↦
      let same = some_inj.0 (sym (rw t refl) ∙ e) in
      (inl same, ap (λ (x : HostIdentity). x.moref) (sym same) ∙ (str_eq_iff _ _).0 t)
  | inr f ↦ let (m, q) = find_host-In moref hosts (sym (rw f refl) ∙ e) in (inr m, q)
]

pub unless_empty-eq :
    (hosts : List HostIdentity) {out : List HostIdentity}
    → unless_empty hosts ≡ ok out
    → out ≡ hosts
unless_empty-eq [] e = cc
unless_empty-eq (h ∷ hosts) e = cc

pub found_or-eq :
    (moref : String) (o : Option HostIdentity) {host : HostIdentity}
    → found_or moref o ≡ ok host
    → o ≡ some host
found_or-eq moref none e = cc
found_or-eq moref (some h) e = cc

pub unless-ok : {E : Type 0} (b : Bool) (e : E) {u : Unit {0}} → unless b e ≡ ok u → b ≡ false
unless-ok true e h = cc
unless-ok false e h = refl

pub or_fail-ok :
    {A : Type 0} (r : Result PlacementError A) (e : PlacementError) {u : Unit {0}}
    → or_fail r e ≡ ok u
    → (a : A) × (r ≡ ok a)
or_fail-ok (ok a) e h = (a, refl)
or_fail-ok (err x) e h = cc

pub or_else-ok :
    {A : Type 0} (o : Option A) (e : PlacementError) {a : A} → or_else o e ≡ ok a → o ≡ some a
or_else-ok none e h = cc
or_else-ok (some a) e h = cc

pub allowed_host_by_moref-IsAllowed :
    (c : Client) (moref : String) {host : HostIdentity}
    → allowed_host_by_moref c moref ≡ ok host
    → IsAllowed c moref
unfolding allowed_host_by_moref resolved_hosts
allowed_host_by_moref-IsAllowed c moref {host} e =
    let (hosts, a, b) = >>=-eq-ok (resolved_hosts c) _ e in
    let (m, q) = find_host-In moref hosts (found_or-eq moref (find_host moref hosts) b) in
    (host, rw (← unless_empty-eq c.allowed_hosts a) m, q)

pub check_targets-IsAllowed :
    (c : Client) (morefs : List String)
    → check_targets c morefs ≡ ok tt
    → (moref : String) → In moref morefs
    → IsAllowed c moref
unfolding check_targets
check_targets-IsAllowed c [] e moref m = absurd m
check_targets-IsAllowed c (target ∷ morefs) e moref m =
    let (u, a, b) = >>=-eq-ok (or_fail (allowed_host_by_moref c target) _) _ e in
    let allowed = allowed_host_by_moref-IsAllowed c target (or_fail-ok _ _ a).1 in
    elim m [ inl q ↦ rw (← q) allowed | inr m ↦ check_targets-IsAllowed c morefs b moref m ]

-- Where the pools come from.
abbrev pub IsConfigured : Client → Inventory → PlacementRequest → Pool → Type 0
IsConfigured c env request pool =
    ((path : String) × In path (pool_paths c request.resource_pool_path)
      × (env.find_pool path ≡ some pool))
    × Asks request.pinned_pool_moref pool.reference

pub add_found-In :
    (o : Option Pool) (pools : List Pool) (pool : Pool)
    → In pool (add_found o pools)
    → (o ≡ some pool) ⊎ In pool pools
add_found-In none pools pool m = inr m
add_found-In (some p) pools pool (inl e) = inl (ap some e)
add_found-In (some p) pools pool (inr m) = inr m

pub resolve_pools-In :
    (find : String → Option Pool) (paths : List String) (pool : Pool)
    → In pool (resolve_pools find paths)
    → (path : String) × In path paths × (find path ≡ some pool)
unfolding resolve_pools
resolve_pools-In find [] pool m = absurd m
resolve_pools-In find (path ∷ paths) pool m = elim (add_found-In (find path) _ pool m) [
  | inl e ↦ (path, inl refl, e)
  | inr m ↦ let (other, a, b) = resolve_pools-In find paths pool m in (other, inr a, b)
]

pub only :
    {p pool : Pool} (pools : List Pool) {out : List Pool} {moref : String}
    → (p ∷ []) ≡ out
    → moref ≡ p.reference
    → In pool out
    → In pool (p ∷ pools) × (pool.reference ≡ moref)
only {p} {pool} pools e r m = elim (subst (In pool) (sym e) m) [
  | inl q ↦ (inl q, ap (λ (x : Pool). x.reference) (sym q) ∙ sym r)
  | inr x ↦ absurd x
]

pub pinned_pool-In :
    (moref : String) (pools : List Pool) {out : List Pool}
    → pinned_pool moref pools ≡ ok out
    → (pool : Pool) → In pool out
    → In pool pools × (pool.reference ≡ moref)
unfolding pinned_pool
pinned_pool-In moref [] e pool m = cc
pinned_pool-In moref (p ∷ pools) {out} e pool m = elim (Bool-cases (str_eq p.reference moref)) [
  | inl t ↦
      let same = ok_inj (sym (rw t refl) ∙ e) in only pools same (sym ((str_eq_iff _ _).0 t)) m
  | inr f ↦ let (a, b) = pinned_pool-In moref pools (sym (rw f refl) ∙ e) pool m in (inr a, b)
]
