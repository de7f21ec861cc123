-- ===== src/Slugs/Callable.antt =====
-- internal/actionlibrary: a valid slug has a shell function, and no two valid slugs share one.
use mathlib.Core.Option.{some_inj}
use mathlib.Core.List.{reverse-reverse}
use selfservice_api.Base.{
  ℕ, ◌≡◌, refl, sym, ◌∙◌, ◌⊎◌, inl, inr, List, [], ◌∷◌, ◌++◌, reverse, reverse-cons, some, Bool,
  true, false, ◌||◌, arith, ◌==◌, All,
}
use selfservice_api.Slugs.{
  is_lower, is_word, hyphen, underscore, in_slug, validate_slug, all_callable, is_callable,
  is_space, trim_left, trim_space, no_hyphen, replace_hyphens, callable_name,
}

-- The characters of a slug.
abbrev IsSlugChar : ℕ → Type 0
IsSlugChar c = (is_word c || c == hyphen) ≡ true

in_slug-cases :
    (after : Bool) (c : ℕ) (s : List ℕ)
    → in_slug after (c ∷ s) ≡ true
    → ((is_word c ≡ true) × (in_slug true s ≡ true))
      ⊎ ((is_word c ≡ false) × (c ≡ hyphen) × (in_slug false s ≡ true))
unfolding in_slug
in_slug-cases after c s h = ground arith

in_slug-All : (after : Bool) (s : List ℕ) → in_slug after s ≡ true → All IsSlugChar s
in_slug-All after [] h = tt
in_slug-All after (c ∷ s) h = elim (in_slug-cases after c s h) [
  | inl (t, rest) ↦ (ground (arith, t), in_slug-All true s rest)
  | inr (f, e, rest) ↦ (ground (arith, e), in_slug-All false s rest)
]

validate_slug-All : (s : List ℕ) → validate_slug s ≡ true → All IsSlugChar s
unfolding validate_slug
validate_slug-All [] h = cc
validate_slug-All (c ∷ s) h = (ground arith, in_slug-All true s (ground arith))

not_space : (c : ℕ) → IsSlugChar c → is_space c ≡ false
unfolding is_space
not_space c h = ground arith

All-append : (xs ys : List ℕ) → All IsSlugChar xs → All IsSlugChar ys → All IsSlugChar (xs ++ ys)
All-append [] ys a b = b
All-append (x ∷ xs) ys (h, a) b = (h, All-append xs ys a b)

All-reverse : (xs : List ℕ) → All IsSlugChar xs → All IsSlugChar (reverse xs)
All-reverse [] h = tt
All-reverse (x ∷ xs) (h, t) =
    rw (reverse-cons x xs) (All-append (reverse xs) (x ∷ []) (All-reverse xs t) (h, tt))

trim_left-eq : (s : List ℕ) → All IsSlugChar s → trim_left s ≡ s
unfolding trim_left
trim_left-eq [] h = refl
trim_left-eq (c ∷ s) (h, t) = rw (not_space c h) refl

trim_space-eq : (s : List ℕ) → All IsSlugChar s → trim_space s ≡ s
unfolding trim_space
trim_space-eq s h =
    rw (trim_left-eq s h, trim_left-eq (reverse s) (All-reverse s h)) (reverse-reverse s)

-- Replacing hyphens makes callable characters, and is undone by the character.
replaced_callable : (s : List ℕ) → All IsSlugChar s → all_callable (replace_hyphens s) ≡ true
unfolding all_callable replace_hyphens
replaced_callable [] h = refl
replaced_callable (c ∷ s) (h, t) =
    let rest = replaced_callable s t in
    let first : (is_word (no_hyphen c) || no_hyphen c == underscore) ≡ true = ground (arith, h) in
    rw (first, rest) refl

replaced_name : (s : List ℕ) → validate_slug s ≡ true → is_callable (replace_hyphens s) ≡ true
unfolding is_callable replace_hyphens validate_slug
replaced_name [] h = cc
replaced_name (c ∷ s) h =
    let lower : is_lower c ≡ true = ground arith in
    let rest = in_slug-All true s (ground arith) in
    let first : (is_lower (no_hyphen c) || no_hyphen c == underscore) ≡ true =
      ground (arith, lower) in
    rw (first, replaced_callable s rest) refl

-- Every slug that ValidateSlug accepts has a shell function: its text with the hyphens replaced.
pub callable_name-valid :
    (s : List ℕ) → validate_slug s ≡ true → callable_name s ≡ some (replace_hyphens s)
unfolding callable_name
callable_name-valid s h = rw (trim_space-eq s (validate_slug-All s h), replaced_name s h) refl

no_hyphen-injective : (c d : ℕ) → IsSlugChar c → IsSlugChar d → no_hyphen c ≡ no_hyphen d → c ≡ d
no_hyphen-injective c d h k e = ground arith

head_of : {a b : ℕ} {s t : List ℕ} → a ∷ s ≡ b ∷ t → a ≡ b
head_of e = cc

tail_of : {a b : ℕ} {s t : List ℕ} → a ∷ s ≡ b ∷ t → s ≡ t
tail_of e = cc

replace-injective :
    (s t : List ℕ)
    → All IsSlugChar s
    → All IsSlugChar t
    → replace_hyphens s ≡ replace_hyphens t
    → s ≡ t
unfolding replace_hyphens
replace-injective [] [] h k e = refl
replace-injective [] (d ∷ t) h k e = cc
replace-injective (c ∷ s) [] h k e = cc
replace-injective (c ∷ s) (d ∷ t) (h, hs) (k, kt) e =
    let same : c ≡ d = no_hyphen-injective c d h k (head_of e) in
    let rest : s ≡ t = replace-injective s t hs kt (tail_of e) in λ i. same i ∷ rest i

-- Two slugs that ValidateSlug accepts never name the same shell function.
pub callable_name-injective :
    (s t : List ℕ)
    → validate_slug s ≡ true
    → validate_slug t ≡ true
    → callable_name s ≡ callable_name t
    → s ≡ t
callable_name-injective s t h k e =
    replace-injective s t (validate_slug-All s h) (validate_slug-All t k)
      (some_inj.0 (sym (callable_name-valid s h) ∙ e ∙ callable_name-valid t k))
