-- ===== src/Limits/Roles.antt =====
-- internal/models/limits.go: unknown roles fail, and the limits shown are the ones applied.
use mathlib.Core.Path.{subst}
use mathlib.Core.Option.{some_inj}
use selfservice_api.Base.{
  ℕ, ◌+◌, ◌*◌, ◌≡◌, ◌≢◌, refl, sym, ◌∙◌, ◌↔◌, ◌⊎◌, inl, inr, none, some, false, arith, String,
  str_eq, str_eq_iff, Bool-cases,
}
use selfservice_api.Limits.{
  role_student, role_instructor, role_admin, hour, pod_ttl, pod_extend, new_expires_at,
  extend_expires_at, find_quota, RoleLimits, limits_for_role, limits_from,
}

-- The roles there are.
pub data Role : Type 0 where
  student instructor admin : Role

abbrev pub name_of : Role → String
name_of student = role_student
name_of instructor = role_instructor
name_of admin = role_admin

-- A text names a role or passes none of the code's tests.
record IsUnnamed (role : String) : Type 0 where
  pub no_student : str_eq role role_student ≡ false
  pub no_instructor : str_eq role role_instructor ≡ false
  pub no_admin : str_eq role role_admin ≡ false

role_cases : (role : String) → ((r : Role) × (role ≡ name_of r)) ⊎ IsUnnamed role
role_cases role = elim (Bool-cases (str_eq role role_student)) [
  | inl e ↦ inl (student, (str_eq_iff _ _).0 e)
  | inr a ↦ elim (Bool-cases (str_eq role role_instructor)) [
    | inl e ↦ inl (instructor, (str_eq_iff _ _).0 e)
    | inr b ↦ elim (Bool-cases (str_eq role role_admin)) [
      | inl e ↦ inl (admin, (str_eq_iff _ _).0 e)
      | inr c ↦ inr (record { no_student = a; no_instructor = b; no_admin = c })
    ]
  ]
]

IsUnnamed-ne : {role : String} → IsUnnamed role → (r : Role) → role ≢ name_of r
IsUnnamed-ne {role} u student e = ground (arith, (str_eq_iff role role_student).1 e, u.no_student)
IsUnnamed-ne {role} u instructor e =
    ground (arith, (str_eq_iff role role_instructor).1 e, u.no_instructor)
IsUnnamed-ne {role} u admin e = ground (arith, (str_eq_iff role role_admin).1 e, u.no_admin)

abbrev pub IsUnknown : String → Type 0
IsUnknown role = (r : Role) → role ≢ name_of r

abbrev FailsClosed : String → ℕ → Type 0
FailsClosed role now =
    ((new_expires_at role now ≡ none) ↔ IsUnknown role)
    × ((extend_expires_at role now ≡ none) ↔ IsUnknown role)
    × ((limits_for_role role ≡ none) ↔ IsUnknown role)

known-FailsClosed : (r : Role) (now : ℕ) → FailsClosed (name_of r) now
unfolding new_expires_at extend_expires_at limits_for_role pod_ttl pod_extend find_quota limits_from
known-FailsClosed student now = (
  (λ h. cc, λ u. absurd (u student refl)),
  (λ h. cc, λ u. absurd (u student refl)),
  (λ h. cc, λ u. absurd (u student refl)),
)
known-FailsClosed instructor now = (
  (λ h. cc, λ u. absurd (u instructor refl)),
  (λ h. cc, λ u. absurd (u instructor refl)),
  (λ h. cc, λ u. absurd (u instructor refl)),
)
known-FailsClosed admin now = (
  (λ h. cc, λ u. absurd (u admin refl)),
  (λ h. cc, λ u. absurd (u admin refl)),
  (λ h. cc, λ u. absurd (u admin refl)),
)

-- An unknown role gets no lifetime, no extension and no limits: each of the three is an error exactly
-- for the texts that name no role.
pub limits_fail_closed :
    (role : String) (now : ℕ)
    → ((new_expires_at role now ≡ none) ↔ IsUnknown role)
      × ((extend_expires_at role now ≡ none) ↔ IsUnknown role)
      × ((limits_for_role role ≡ none) ↔ IsUnknown role)
unfolding new_expires_at extend_expires_at limits_for_role pod_ttl pod_extend find_quota limits_from
limits_fail_closed role now = elim (role_cases role) [
  | inl (r, e) ↦ subst (λ t. FailsClosed t now) (sym e) (known-FailsClosed r now)
  | inr u ↦
      let unknown = IsUnnamed-ne u in
      rw (u.no_student, u.no_instructor, u.no_admin)
        ((λ _. unknown, λ _. refl), (λ _. unknown, λ _. refl), (λ _. unknown, λ _. refl))
]

abbrev IsApplied : String → ℕ → RoleLimits → Type 0
IsApplied role now limits =
    (new_expires_at role now ≡ some (now + limits.pod_ttl_days * (24 * hour)))
    × (extend_expires_at role now
        ≡ some (now + limits.extend_days * (24 * hour), limits.extend_days * (24 * hour)))

known-IsApplied :
    (r : Role) (now : ℕ) {limits : RoleLimits}
    → limits_for_role (name_of r) ≡ some limits
    → IsApplied (name_of r) now limits
unfolding new_expires_at extend_expires_at limits_for_role pod_ttl pod_extend find_quota limits_from
known-IsApplied student now e = subst (IsApplied (name_of student) now) (some_inj.0 e) (refl, refl)
known-IsApplied instructor now e =
    subst (IsApplied (name_of instructor) now) (some_inj.0 e) (refl, refl)
known-IsApplied admin now e = subst (IsApplied (name_of admin) now) (some_inj.0 e) (refl, refl)

-- The days that a role's limits show are the ones that creating and extending a pod add.
pub limits-IsApplied :
    (role : String) (now : ℕ) {limits : RoleLimits}
    → limits_for_role role ≡ some limits
    → (new_expires_at role now ≡ some (now + limits.pod_ttl_days * (24 * hour)))
      × (extend_expires_at role now
          ≡ some (now + limits.extend_days * (24 * hour), limits.extend_days * (24 * hour)))
unfolding new_expires_at extend_expires_at limits_for_role pod_ttl pod_extend find_quota limits_from
limits-IsApplied role now {limits} e = elim (role_cases role) [
  | inl (r, q) ↦
      subst (λ t. IsApplied t now limits) (sym q)
        (known-IsApplied r now (subst (λ t. limits_for_role t ≡ some limits) q e))
  | inr u ↦ absurd (never (sym (rw (u.no_student, u.no_instructor, u.no_admin) refl) ∙ e))
]
  where
    never : {l : RoleLimits} → none ≡ some l → ⊥
    never h = cc
