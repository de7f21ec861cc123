-- ===== src/Retry/Mentions.antt =====
-- internal/provisioner/retryable.go: what it means that a text holds a phrase, apart from the search.
use selfservice_api.Base.{
  ℕ, ◌≡◌, refl, ap, ◌↔◌, inl, inr, List, [], ◌∷◌, ◌++◌, true, String, In, arith, Bool-cases,
}
use selfservice_api.Retry.{codes, to_lower, has_prefix, contains, contains_any, contains_any_folded}
use selfservice_api.Retry.Search.{contains-append}

-- `p` stands somewhere in `s`.
abbrev pub Holds : List ℕ → List ℕ → Type 0
Holds s p = (u : List ℕ) × (v : List ℕ) × (s ≡ u ++ (p ++ v))

abbrev pub Mentions : List ℕ → String → Type 0
Mentions s p = Holds s (codes p)

abbrev pub MentionsAny : List ℕ → List String → Type 0
MentionsAny s ps = (p : String) × In p ps × Mentions s p

-- The same, where small and large letters are not told apart.
abbrev pub MentionsAnyFolded : List ℕ → List String → Type 0
MentionsAnyFolded s ps = (p : String) × In p ps × Holds (to_lower s) (to_lower (codes p))

has_prefix-split : (s p : List ℕ) → has_prefix s p ≡ true → (v : List ℕ) × (s ≡ p ++ v)
unfolding has_prefix
has_prefix-split s [] h = (s, refl)
has_prefix-split [] (x ∷ p) h = cc
has_prefix-split (c ∷ s) (x ∷ p) h =
    let (v, e) = has_prefix-split s p (ground (arith, h)) in
    let same : c ≡ x = ground (arith, h) in (v, rw (same, e) refl)

contains-split : (s p : List ℕ) → contains s p ≡ true → Holds s p
unfolding contains
contains-split [] p h = let (v, e) = has_prefix-split [] p h in ([], v, e)
contains-split (c ∷ s) p h = elim (Bool-cases (has_prefix (c ∷ s) p)) [
  | inl t ↦ let (v, e) = has_prefix-split (c ∷ s) p t in ([], v, e)
  | inr f ↦
      let (u, v, e) = contains-split s p (ground (arith, h, f)) in (c ∷ u, v, ap (λ t. c ∷ t) e)
]

pub contains_iff : (s p : List ℕ) → (contains s p ≡ true) ↔ Holds s p
contains_iff s p = (contains-split s p, λ (u, v, e). rw e (contains-append u p v))

pub contains_any_iff :
    (s : List ℕ) (ps : List String) → (contains_any s ps ≡ true) ↔ MentionsAny s ps
unfolding contains_any
contains_any_iff s [] = (λ h. cc, λ (p, m, h). absurd m)
contains_any_iff s (p ∷ ps) =
    let one = contains_iff s (codes p) in
    let rest = contains_any_iff s ps in
    (
      λ h. elim (Bool-cases (contains s (codes p))) [
        | inl t ↦ (p, inl refl, one.0 t)
        | inr f ↦ let (q, m, x) = rest.0 (ground (arith, h, f)) in (q, inr m, x)
      ],
      λ (q, m, x). elim m [
        | inl e ↦ ground (arith, one.1 (rw e x))
        | inr m ↦ ground (arith, rest.1 (q, m, x))
      ],
    )

pub contains_any_folded_iff :
    (s : List ℕ) (ps : List String) → (contains_any_folded s ps ≡ true) ↔ MentionsAnyFolded s ps
unfolding contains_any_folded
contains_any_folded_iff s [] = (λ h. cc, λ (p, m, h). absurd m)
contains_any_folded_iff s (p ∷ ps) =
    let one = contains_iff (to_lower s) (to_lower (codes p)) in
    let rest = contains_any_folded_iff s ps in
    (
      λ h. elim (Bool-cases (contains (to_lower s) (to_lower (codes p)))) [
        | inl t ↦ (p, inl refl, one.0 t)
        | inr f ↦ let (q, m, x) = rest.0 (ground (arith, h, f)) in (q, inr m, x)
      ],
      λ (q, m, x). elim m [
        | inl e ↦ ground (arith, one.1 (rw e x))
        | inr m ↦ ground (arith, rest.1 (q, m, x))
      ],
    )
