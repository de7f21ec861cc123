-- ===== src/Placement/Frozen.antt =====
-- internal/vcenter/placement.go: ResolveProvisioningHosts keeps its first result for good.
use selfservice_api.Base.{
  ℕ, ◌≡◌, refl, sym, ap, ◌∙◌, ◌≢◌, inl, inr, List, [], ◌∷◌, ℤ, Option, none, some, Bool, true,
  false, String, Bool-cases, Result, ok, err, >>=-eq-ok, ok_inj,
}
use selfservice_api.Placement.{HostIdentity, Client}
use selfservice_api.Placement.Hosts.{
  HostsError, ListedHost, read_inventory, resolve_host_identities, with_reserves, same_hosts,
  freeze_onto, freeze, resolve_configured, resolve_provisioning_hosts,
}
use selfservice_api.Placement.Allowlist.{
  Resolved, resolved_one, all_resolved, resolve_host_identities-Resolved,
}

-- One call of ResolveProvisioningHosts: whether the client is connected, and the listing.
abbrev pub Call : Type 0
Call = Bool × Option (List ListedHost)

-- A client whose allowlist is set keeps it, and answers with it or an error.
abbrev Keeps : Client → List HostIdentity → Client × Result HostsError (List HostIdentity) → Type 0
Keeps c allowed r = (r.0 ≡ c) × ((hosts : List HostIdentity) → r.1 ≡ ok hosts → hosts ≡ allowed)

freeze_onto-Keeps :
    (c : Client) (allowed resolved : List HostIdentity)
    → allowed ≢ []
    → Keeps c allowed (freeze_onto c allowed resolved)
unfolding freeze_onto
freeze_onto-Keeps c [] resolved n = absurd (n refl)
freeze_onto-Keeps c (host ∷ hosts) resolved n =
    elim (Bool-cases (same_hosts (host ∷ hosts) resolved)) [
      | inl t ↦ rw t (refl, λ out e. sym (ok_inj e))
      | inr f ↦ rw f (refl, λ out e. cc)
    ]

freeze-Keeps :
    (c : Client) (r : Result HostsError (List HostIdentity))
    → c.allowed_hosts ≢ []
    → Keeps c c.allowed_hosts (freeze c r)
unfolding freeze
freeze-Keeps c (err e) n = (refl, λ out h. cc)
freeze-Keeps c (ok resolved) n = freeze_onto-Keeps c c.allowed_hosts resolved n

module _ (simple_fold : ℕ → ℕ) where
  unfoldable pub after_calls : Client → List Call → Client
  after_calls c [] = c
  after_calls c ((connected, listed) ∷ calls) =
      after_calls (resolve_provisioning_hosts simple_fold c connected listed).0 calls

  call-Keeps :
      (c : Client) (connected : Bool) (listed : Option (List ListedHost))
      → c.allowed_hosts ≢ []
      → Keeps c c.allowed_hosts (resolve_provisioning_hosts simple_fold c connected listed)
  unfolding resolve_provisioning_hosts
  call-Keeps c false listed n = (refl, λ out h. cc)
  call-Keeps c true listed n = freeze-Keeps c (resolve_configured simple_fold c listed) n

  after_calls-eq : (c : Client) (calls : List Call) → c.allowed_hosts ≢ [] → after_calls c calls ≡ c
  unfolding after_calls
  after_calls-eq c [] n = refl
  after_calls-eq c ((connected, listed) ∷ calls) n =
      rw (call-Keeps c connected listed n).0 (after_calls-eq c calls n)

  with_reserves-nonempty :
      (reserved : String → ℤ) (entries : List String) (hosts : List HostIdentity)
      → hosts ≢ []
      → with_reserves reserved entries hosts ≢ []
  unfolding with_reserves
  with_reserves-nonempty reserved [] hosts n e = n e
  with_reserves-nonempty reserved (entry ∷ entries) [] n e = n e
  with_reserves-nonempty reserved (entry ∷ entries) (host ∷ hosts) n e = cc

  Resolved-nonempty :
      (inventory : List HostIdentity) {entries : List String} {hosts : List HostIdentity}
      → Resolved simple_fold inventory entries hosts
      → entries ≢ []
      → hosts ≢ []
  Resolved-nonempty inventory all_resolved n e = n refl
  Resolved-nonempty inventory (resolved_one a b c d r) n e = cc

  resolve_configured-nonempty :
      (c : Client) (listed : Option (List ListedHost)) {hosts : List HostIdentity}
      → resolve_configured simple_fold c listed ≡ ok hosts
      → hosts ≢ []
  unfolding resolve_configured
  resolve_configured-nonempty c none e n = cc
  resolve_configured-nonempty c (some listed) e n =
      let (inventory, a, b) = >>=-eq-ok (read_inventory listed) _ e in
      let (resolved, x, y) =
        >>=-eq-ok (resolve_host_identities simple_fold c.hosts inventory) _ b in
      let r = (resolve_host_identities-Resolved simple_fold inventory c.hosts resolved).0 x in
      with_reserves-nonempty c.host_reserved_memory_mb c.hosts resolved
        (Resolved-nonempty inventory r.1 r.0) (ok_inj y ∙ n)

  -- The first success is stored.
  freeze_onto-stored :
      (c : Client) (allowed resolved : List HostIdentity) {hosts : List HostIdentity}
      → c.allowed_hosts ≡ allowed
      → resolved ≢ []
      → (freeze_onto c allowed resolved).1 ≡ ok hosts
      → ((freeze_onto c allowed resolved).0.allowed_hosts ≡ hosts) × (hosts ≢ [])
  unfolding freeze_onto
  freeze_onto-stored c [] resolved s n e = (ok_inj e, λ q. n (ok_inj e ∙ q))
  freeze_onto-stored c (host ∷ allowed) resolved s n e =
      let (kept, same) = keeps in
      let is_it = same _ e in
      (ap (λ (d : Client). d.allowed_hosts) kept ∙ s ∙ sym is_it, λ q. nonempty (sym is_it ∙ q))
    where
      nonempty : host ∷ allowed ≡ [] → ⊥
      nonempty q = cc

      keeps : Keeps c (host ∷ allowed) (freeze_onto c (host ∷ allowed) resolved)
      keeps = freeze_onto-Keeps c (host ∷ allowed) resolved nonempty

  freeze-stored :
      (c : Client) (r : Result HostsError (List HostIdentity)) {hosts : List HostIdentity}
      → ((out : List HostIdentity) → r ≡ ok out → out ≢ [])
      → (freeze c r).1 ≡ ok hosts
      → ((freeze c r).0.allowed_hosts ≡ hosts) × (hosts ≢ [])
  unfolding freeze
  freeze-stored c (err x) n e = cc
  freeze-stored c (ok resolved) n e =
      freeze_onto-stored c c.allowed_hosts resolved refl (n resolved refl) e

  call-stored :
      (c : Client) (connected : Bool) (listed : Option (List ListedHost))
      {hosts : List HostIdentity}
      → (resolve_provisioning_hosts simple_fold c connected listed).1 ≡ ok hosts
      → ((resolve_provisioning_hosts simple_fold c connected listed).0.allowed_hosts ≡ hosts)
        × (hosts ≢ [])
  unfolding resolve_provisioning_hosts
  call-stored c false listed e = cc
  call-stored c true listed e =
      freeze-stored c (resolve_configured simple_fold c listed)
        (λ out h. resolve_configured-nonempty c listed h) e

  -- Once a call of ResolveProvisioningHosts has succeeded, whatever calls follow and whatever the
  -- inventory answers them, the allowlist stays what it returned, and a later success returns it.
  pub resolve_provisioning_hosts-frozen :
      (c : Client) (connected : Bool) (listed : Option (List ListedHost))
      {hosts : List HostIdentity}
      → (resolve_provisioning_hosts simple_fold c connected listed).1 ≡ ok hosts
      → (calls : List Call)
      → let later =
          after_calls (resolve_provisioning_hosts simple_fold c connected listed).0 calls in
        (later.allowed_hosts ≡ hosts)
        × ((connected' : Bool) (listed' : Option (List ListedHost)) (hosts' : List HostIdentity)
            → (resolve_provisioning_hosts simple_fold later connected' listed').1 ≡ ok hosts'
            → hosts' ≡ hosts)
  resolve_provisioning_hosts-frozen c connected listed e calls =
      let (stored, nonempty) = call-stored c connected listed e in
      let next = (resolve_provisioning_hosts simple_fold c connected listed).0 in
      let n : next.allowed_hosts ≢ [] = λ q. nonempty (sym stored ∙ q) in
      rw (after_calls-eq next calls n) (
        stored,
        λ connected' listed' hosts' h. (call-Keeps next connected' listed' n).1 hosts' h ∙ stored,
      )
