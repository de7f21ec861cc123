-- ===== src/Limits.antt =====
-- internal/models/limits.go: what a role may do, and for how long. A time is in nanoseconds; `none` is
-- an error.
pub mod Roles
mod Tests
use selfservice_api.Base.{
  ℕ, ◌+◌, ◌*◌, ◌/◌, Option, none, some, Bool, true, false, ◌||◌, String, str_eq, if◌then◌else◌,
  List, [], ◌∷◌,
}

abbrev pub role_student : String
role_student = "student"

abbrev pub role_instructor : String
role_instructor = "instructor"

abbrev pub role_admin : String
role_admin = "admin"

abbrev pub hour : ℕ
hour = 3600 * 1000000000

abbrev pub max_pod_extensions : ℕ
max_pod_extensions = 2

abbrev pub max_user_snapshots : ℕ
max_user_snapshots = 1

abbrev pub default_idle_timeout : ℕ
default_idle_timeout = 7200

abbrev pub suspended_destroy_after : ℕ
suspended_destroy_after = 5 * 24 * hour

abbrev pub template_orphan_inactive_age : ℕ
template_orphan_inactive_age = 72 * hour

unfoldable pub pod_ttl : String → Option ℕ
pod_ttl role =
    if str_eq role role_student
    then some (5 * 24 * hour)
    else if str_eq role role_instructor || str_eq role role_admin
    then some (14 * 24 * hour)
    else none

unfoldable pub pod_extend : String → Option ℕ
pod_extend role =
    if str_eq role role_student
    then some (5 * 24 * hour)
    else if str_eq role role_instructor || str_eq role role_admin
    then some (7 * 24 * hour)
    else none

unfoldable pub idle_suspend_applies : String → Bool
idle_suspend_applies role = true

abbrev pub after : ℕ → Option ℕ → Option ℕ
after now none = none
after now (some span) = some (now + span)

unfoldable pub new_expires_at : String → ℕ → Option ℕ
new_expires_at role now = after now (pod_ttl role)

abbrev pub extended : ℕ → Option ℕ → Option (ℕ × ℕ)
extended now none = none
extended now (some extension) = some (now + extension, extension)

unfoldable pub extend_expires_at : String → ℕ → Option (ℕ × ℕ)
extend_expires_at role now = extended now (pod_extend role)

pub record Quota : Type 0 where
  pub max_vcpus : ℕ
  pub max_ram_mb : ℕ
  pub max_pods : ℕ

-- models.DefaultQuotas
abbrev pub default_quotas : List (String × Quota)
default_quotas =
    (role_student, record { max_vcpus = 4; max_ram_mb = 4096; max_pods = 2 })
    ∷ (role_instructor, record { max_vcpus = 8; max_ram_mb = 16384; max_pods = 3 })
    ∷ (role_admin, record { max_vcpus = 999; max_ram_mb = 999999; max_pods = 999 })
    ∷ []

unfoldable pub find_quota : String → List (String × Quota) → Option Quota
find_quota role [] = none
find_quota role ((name, quota) ∷ quotas) =
    if str_eq role name then some quota else find_quota role quotas

pub record RoleLimits : Type 0 where
  pub pod_ttl_days : ℕ
  pub extend_days : ℕ
  pub max_extensions : ℕ
  pub idle_suspend_hours : Option ℕ
  pub idle_applies : Bool
  pub suspended_delete_days : ℕ
  pub max_snapshots : ℕ
  pub quota : Quota
  pub template_orphan_days : ℕ

-- `int(d.Hours() / 24)`, for spans of whole hours.
abbrev pub days_of : ℕ → ℕ
days_of span = span / hour / 24

unfoldable pub limits_from : Bool → Option ℕ → Option ℕ → Option Quota → Option RoleLimits
limits_from idle (some ttl) (some extension) (some quota) = some (record {
  pod_ttl_days = days_of ttl;
  extend_days = days_of extension;
  max_extensions = max_pod_extensions;
  idle_suspend_hours = if idle then some (default_idle_timeout / 3600) else none;
  idle_applies = idle;
  suspended_delete_days = days_of suspended_destroy_after;
  max_snapshots = max_user_snapshots;
  quota = quota;
  template_orphan_days = days_of template_orphan_inactive_age;
})
limits_from idle _ _ _ = none

unfoldable pub limits_for_role : String → Option RoleLimits
limits_for_role role =
    limits_from (idle_suspend_applies role) (pod_ttl role) (pod_extend role)
      (find_quota role default_quotas)
