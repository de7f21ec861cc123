-- ===== src/Limits/Tests.antt =====
-- A role that does not exist.
use selfservice_api.Base.{◌≡◌, ◌↔◌, none}
use selfservice_api.Limits.{new_expires_at, extend_expires_at, limits_for_role}
use selfservice_api.Limits.Roles.{IsUnknown, limits_fail_closed}

limits_fail_closed_example :
    ((new_expires_at "root" 1000 ≡ none) ↔ IsUnknown "root")
    × ((extend_expires_at "root" 1000 ≡ none) ↔ IsUnknown "root")
    × ((limits_for_role "root" ≡ none) ↔ IsUnknown "root")
limits_fail_closed_example = limits_fail_closed "root" 1000
