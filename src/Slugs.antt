-- ===== src/Slugs.antt =====
-- internal/actionlibrary/validate.go and names.go: the slug of a library action and the shell function
-- that it is called by. A text is its code points; a regular expression is the automaton it stands for.
pub mod Callable
mod Tests
use selfservice_api.Base.{
  ℕ, List, [], ◌∷◌, map, reverse, Option, none, some, Bool, true, false, ◌&&◌, ◌||◌, leb, ◌==◌,
  if◌then◌else◌,
}

abbrev pub is_lower : ℕ → Bool
is_lower c = leb b'a' c && leb c b'z'

abbrev pub is_word : ℕ → Bool
is_word c = is_lower c || (leb b'0' c && leb c b'9')

abbrev pub hyphen : ℕ
hyphen = b'-'

abbrev pub underscore : ℕ
underscore = b'_'

-- `[a-z0-9]*(-[a-z0-9]+)*$`, behind a letter or a digit (true) or behind a hyphen (false).
unfoldable pub in_slug : Bool → List ℕ → Bool
in_slug after_word [] = after_word
in_slug after_word (c ∷ s) =
    if is_word c then in_slug true s else after_word && c == hyphen && in_slug false s

-- slugPattern; ValidateSlug returns an error where it does not match.
unfoldable pub validate_slug : List ℕ → Bool
validate_slug [] = false
validate_slug (c ∷ s) = is_lower c && in_slug true s

unfoldable pub all_callable : List ℕ → Bool
all_callable [] = true
all_callable (c ∷ s) = (is_word c || c == underscore) && all_callable s

-- callableNamePattern
unfoldable pub is_callable : List ℕ → Bool
is_callable [] = false
is_callable (c ∷ s) = (is_lower c || c == underscore) && all_callable s

-- unicode.IsSpace
unfoldable pub is_space : ℕ → Bool
is_space c =
    (leb 9 c && leb c 13)
    || c == 0x20
    || c == 0x85
    || c == 0xa0
    || c == 0x1680
    || (leb 0x2000 c && leb c 0x200a)
    || c == 0x2028
    || c == 0x2029
    || c == 0x202f
    || c == 0x205f
    || c == 0x3000

unfoldable pub trim_left : List ℕ → List ℕ
trim_left [] = []
trim_left (c ∷ s) = if is_space c then trim_left s else c ∷ s

unfoldable pub trim_space : List ℕ → List ℕ
trim_space s = reverse (trim_left (reverse (trim_left s)))

abbrev pub no_hyphen : ℕ → ℕ
no_hyphen c = if c == hyphen then underscore else c

-- strings.ReplaceAll(s, "-", "_")
unfoldable pub replace_hyphens : List ℕ → List ℕ
replace_hyphens s = map no_hyphen s

abbrev pub if_callable : List ℕ → Option (List ℕ)
if_callable name = if is_callable name then some name else none

-- CallableName; `none` is its error.
unfoldable pub callable_name : List ℕ → Option (List ℕ)
callable_name slug = if_callable (replace_hyphens (trim_space slug))
