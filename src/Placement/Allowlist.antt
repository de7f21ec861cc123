-- ===== src/Placement/Allowlist.antt =====
-- internal/vcenter/placement.go: what resolveHostIdentities accepts.
use mathlib.Core.Path.{subst}
use selfservice_api.Base.{
  ℕ, ◌≡◌, refl, sym, ◌↔◌, ◌≢◌, inl, inr, List, [], ◌∷◌, Option, none, some, Bool, true, false,
  arith, In, String, str_eq, str_eq_iff, Bool-cases, ok, unless, >>=-eq-ok, ok_inj,
}
use selfservice_api.Placement.{HostIdentity}
use selfservice_api.Placement.Hosts.{
  entry_incomplete, seen_ref, is_incomplete, matches_of, only_match, check_unseen, resolve_entries,
  resolve_host_identities,
}

module _ (simple_fold : ℕ → ℕ) (inventory : List HostIdentity) where
  -- Each entry matches one host of the inventory, which has a complete identity and is not the host
  -- of another entry.
  pub data Resolved : List String → List HostIdentity → Type 0 where
    all_resolved : Resolved [] []
    resolved_one :
        {entry : String} {entries : List String} {host : HostIdentity} {hosts : List HostIdentity}
        → matches_of simple_fold entry inventory ≡ host ∷ []
        → host.moref ≢ ""
        → host.compute_moref ≢ ""
        → ((other : HostIdentity) → In other hosts → other.moref ≢ host.moref)
        → Resolved entries hosts
        → Resolved (entry ∷ entries) (host ∷ hosts)

  abbrev pub AreNew : List (String × String) → List HostIdentity → Type 0
  AreNew seen hosts = (host : HostIdentity) → In host hosts → seen_ref host.moref seen ≡ none

  pub complete_iff :
      (host : HostIdentity)
      → (is_incomplete host ≡ false) ↔ ((host.moref ≢ "") × (host.compute_moref ≢ ""))
  complete_iff host = ground (arith, str_eq_iff host.moref "", str_eq_iff host.compute_moref "")

  pub new_later :
      (entry moref : String) (seen : List (String × String)) (other : String)
      → (seen_ref other ((moref, entry) ∷ seen) ≡ none)
        ↔ ((other ≢ moref) × (seen_ref other seen ≡ none))
  unfolding seen_ref
  new_later entry moref seen other = elim (Bool-cases (str_eq moref other)) [
    | inl t ↦ rw t (λ h. cc, λ h. absurd (h.0 (sym ((str_eq_iff moref other).0 t))))
    | inr f ↦ rw f (λ h. (λ e. ground (arith, f, (str_eq_iff moref other).1 (sym e)), h), λ h. h.1)
  ]

  pub only_match-eq :
      (entry : String) (found : List HostIdentity) {host : HostIdentity}
      → only_match entry found ≡ ok host
      → found ≡ host ∷ []
  only_match-eq entry [] e = cc
  only_match-eq entry (h ∷ []) e = cc
  only_match-eq entry (h ∷ h' ∷ more) e = cc

  pub check_unseen-eq :
      (entry moref : String) (o : Option String) {u : Unit {0}}
      → check_unseen entry moref o ≡ ok u
      → o ≡ none
  check_unseen-eq entry moref none e = refl
  check_unseen-eq entry moref (some p) e = cc

  pub unless-ok : {E : Type 0} (b : Bool) (e : E) {u : Unit {0}} → unless b e ≡ ok u → b ≡ false
  unless-ok true e h = cc
  unless-ok false e h = refl

  pub resolve_entries-Resolved :
      (entries : List String) (seen : List (String × String)) {hosts : List HostIdentity}
      → resolve_entries simple_fold entries inventory seen ≡ ok hosts
      → Resolved entries hosts × AreNew seen hosts
  unfolding resolve_entries
  resolve_entries-Resolved [] seen e =
      subst (λ hs. Resolved [] hs × AreNew seen hs) (ok_inj e) (all_resolved, λ host m. absurd m)
  resolve_entries-Resolved (entry ∷ entries) seen e =
      let (host, a1, b1) =
        >>=-eq-ok (only_match entry (matches_of simple_fold entry inventory)) _ e in
      let (u2, a2, b2) =
        >>=-eq-ok (check_unseen entry host.moref (seen_ref host.moref seen)) _ b1 in
      let (u3, a3, b3) = >>=-eq-ok (unless (is_incomplete host) (entry_incomplete entry)) _ b2 in
      let (hosts, a4, b4) =
        >>=-eq-ok (resolve_entries simple_fold entries inventory ((host.moref, entry) ∷ seen)) _
          b3 in
      let (rest, fresh) = resolve_entries-Resolved entries ((host.moref, entry) ∷ seen) a4 in
      let (has_ref, has_compute) = (complete_iff host).0 (unless-ok _ _ a3) in
      subst (λ hs. Resolved (entry ∷ entries) hs × AreNew seen hs) (ok_inj b4)
        (
          resolved_one (only_match-eq entry _ a1) has_ref has_compute
              (λ other m. ((new_later entry host.moref seen other.moref).0 (fresh other m)).0) rest,
          λ other m. elim m [
            | inl q ↦
                subst (λ (h : HostIdentity). seen_ref h.moref seen ≡ none) q
                  (check_unseen-eq entry host.moref _ a2)
            | inr m ↦ ((new_later entry host.moref seen other.moref).0 (fresh other m)).1
          ],
        )

  pub Resolved-resolve_entries :
      {entries : List String} {hosts : List HostIdentity} (seen : List (String × String))
      → Resolved entries hosts
      → AreNew seen hosts
      → resolve_entries simple_fold entries inventory seen ≡ ok hosts
  unfolding resolve_entries
  Resolved-resolve_entries seen all_resolved n = refl
  Resolved-resolve_entries seen
        (resolved_one {entry} {entries} {host} {hosts} found has_ref has_compute apart rest) n =
      rw
        (
          found,
          n host (inl refl),
          (complete_iff host).1 (has_ref, has_compute),
          Resolved-resolve_entries ((host.moref, entry) ∷ seen) rest λ other m.
              (new_later entry host.moref seen other.moref).1 (apart other m, n other (inr m)),
        )
        refl

  pub nothing_seen : (moref : String) → seen_ref moref [] ≡ none
  unfolding seen_ref
  nothing_seen moref = refl

  -- resolveHostIdentities accepts the configured entries with these hosts exactly if there is one
  -- entry at least, and every entry matches one host of the inventory, complete and its own.
  pub resolve_host_identities-Resolved :
      (entries : List String) (hosts : List HostIdentity)
      → (resolve_host_identities simple_fold entries inventory ≡ ok hosts)
        ↔ ((entries ≢ []) × Resolved entries hosts)
  unfolding resolve_host_identities
  resolve_host_identities-Resolved [] hosts = (λ h. cc, λ h. absurd (h.0 refl))
  resolve_host_identities-Resolved (entry ∷ entries) hosts = (
    λ h. (λ e. cc, (resolve_entries-Resolved (entry ∷ entries) [] h).0),
    λ h. Resolved-resolve_entries [] h.1 λ host m. nothing_seen host.moref,
  )
