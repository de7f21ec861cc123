-- ===== src/Slugs/Tests.antt =====
-- A slug and its shell function.
use selfservice_api.Base.{ℕ, ◌≡◌, refl, List, some, true, false}
use selfservice_api.Retry.{codes}
use selfservice_api.Slugs.{
  in_slug, validate_slug, all_callable, is_callable, is_space, trim_left, trim_space,
  replace_hyphens, callable_name,
}
use selfservice_api.Slugs.Callable.{callable_name-injective}

abbrev slug : List ℕ
slug = codes "ufw-rule-exists"

accepted : validate_slug slug ≡ true
unfolding validate_slug in_slug
accepted = refl

named : callable_name slug ≡ some (codes "ufw_rule_exists")
unfolding callable_name is_callable all_callable replace_hyphens trim_space trim_left is_space
named = refl

-- A slug that is refused would share the function.
refused :
    (validate_slug (codes "ufw_rule-exists") ≡ false)
    × (callable_name (codes "ufw_rule-exists") ≡ callable_name slug)
unfolding validate_slug in_slug callable_name is_callable all_callable replace_hyphens trim_space
    trim_left is_space
refused = (refl, refl)

callable_name-injective_example : slug ≡ slug
callable_name-injective_example = callable_name-injective slug slug accepted accepted refl
