-- ===== src/Base/Orders.antt =====
-- The orders of int64 and of texts, orders by several keys, and what sort.SliceStable puts first.
use Prim.Native.Nat.{compare, Ordering}
use Prim.Native.Char.{code}
use Prim.Native.String.{String}
use text.Mathlib.TextEquality.{codes_equal}
use selfservice_api.Base.{
  ◌≡◌, refl, sym, ap, ◌∙◌, ◌↔◌, ◌⊎◌, inl, inr, Bool, true, false, List, [], ◌∷◌, arith,
  if◌then◌else◌, Bool-cases, In, ℤ, pos, negsuc, int_ltb, int_eq, str_eq, str_eq_iff,
}

-- A total order by its tests.
pub record IsTotal {K : Type 0} (eq : K → K → Bool) (lt : K → K → Bool) : Type 0 where
  pub eq_iff : (x y : K) → (eq x y ≡ true) ↔ (x ≡ y)
  pub asym : (x y : K) → lt x y ≡ true → lt y x ≡ false
  pub weak : (x y z : K) → lt y x ≡ false → lt z y ≡ false → lt z x ≡ false
  pub total : (x y : K) → lt x y ≡ false → lt y x ≡ false → x ≡ y

-- An order in which two elements may tie.
pub record IsWeak {A : Type 0} (less : A → A → Bool) : Type 0 where
  pub asym : (x y : A) → less x y ≡ true → less y x ≡ false
  pub weak : (x y z : A) → less y x ≡ false → less z y ≡ false → less z x ≡ false

int_eq_iff : (x y : ℤ) → (int_eq x y ≡ true) ↔ (x ≡ y)
int_eq_iff (pos a) (pos b) = (λ h. ap pos (ground arith), λ h. ground arith)
int_eq_iff (negsuc a) (negsuc b) = (λ h. ap negsuc (ground arith), λ h. ground arith)
int_eq_iff (pos a) (negsuc b) = (λ h. cc, λ h. cc)
int_eq_iff (negsuc a) (pos b) = (λ h. cc, λ h. cc)

int_asym : (x y : ℤ) → int_ltb x y ≡ true → int_ltb y x ≡ false
int_asym (pos a) (pos b) h = ground arith
int_asym (negsuc a) (negsuc b) h = ground arith
int_asym (pos a) (negsuc b) h = cc
int_asym (negsuc a) (pos b) h = refl

int_weak : (x y z : ℤ) → int_ltb y x ≡ false → int_ltb z y ≡ false → int_ltb z x ≡ false
int_weak (pos a) (pos b) (pos c) h k = ground arith
int_weak (pos a) (pos b) (negsuc c) h k = cc
int_weak (pos a) (negsuc b) z h k = cc
int_weak (negsuc a) (pos b) (pos c) h k = refl
int_weak (negsuc a) (pos b) (negsuc c) h k = cc
int_weak (negsuc a) (negsuc b) (pos c) h k = refl
int_weak (negsuc a) (negsuc b) (negsuc c) h k = ground arith

int_total : (x y : ℤ) → int_ltb x y ≡ false → int_ltb y x ≡ false → x ≡ y
int_total (pos a) (pos b) h k = ap pos (ground arith)
int_total (negsuc a) (negsuc b) h k = ap negsuc (ground arith)
int_total (pos a) (negsuc b) h k = cc
int_total (negsuc a) (pos b) h k = cc

pub int-IsTotal : IsTotal int_eq int_ltb
int-IsTotal = record { eq_iff = int_eq_iff; asym = int_asym; weak = int_weak; total = int_total }

-- `s < t` on Go strings: UTF-8 keeps the order of the code points.
abbrev pub text_ltb : String → String → Bool
text_ltb String.[] String.[] = false
text_ltb String.[] (String.◌∷◌ d t) = true
text_ltb (String.◌∷◌ c s) String.[] = false
text_ltb (String.◌∷◌ c s) (String.◌∷◌ d t) = elim (compare (code c) (code d)) [
  | Ordering.lt ↦ true
  | Ordering.gt ↦ false
  | Ordering.eq ↦ text_ltb s t
]

text_asym : (s t : String) → text_ltb s t ≡ true → text_ltb t s ≡ false
text_asym String.[] String.[] h = refl
text_asym String.[] (String.◌∷◌ d t) h = refl
text_asym (String.◌∷◌ c s) String.[] h = cc
text_asym (String.◌∷◌ c s) (String.◌∷◌ d t) h = ground (arith, text_asym s t)

text_weak : (s t u : String) → text_ltb t s ≡ false → text_ltb u t ≡ false → text_ltb u s ≡ false
text_weak String.[] String.[] u h k = k
text_weak String.[] (String.◌∷◌ d t) String.[] h k = cc
text_weak String.[] (String.◌∷◌ d t) (String.◌∷◌ e u) h k = refl
text_weak (String.◌∷◌ c s) String.[] u h k = cc
text_weak (String.◌∷◌ c s) (String.◌∷◌ d t) String.[] h k = cc
text_weak (String.◌∷◌ c s) (String.◌∷◌ d t) (String.◌∷◌ e u) h k = ground (arith, text_weak s t u)

text_total : (s t : String) → text_ltb s t ≡ false → text_ltb t s ≡ false → s ≡ t
text_total String.[] String.[] h k = refl
text_total String.[] (String.◌∷◌ d t) h k = cc
text_total (String.◌∷◌ c s) String.[] h k = cc
text_total (String.◌∷◌ c s) (String.◌∷◌ d t) h k =
    let same : compare (code c) (code d) ≡ Ordering.eq = ground arith in
    let rest : s ≡ t = text_total s t (ground arith) (ground arith) in
    λ i. String.◌∷◌ (codes_equal c d same i) (rest i)

pub text-IsTotal : IsTotal str_eq text_ltb
text-IsTotal = record {
  eq_iff = str_eq_iff;
  asym = text_asym;
  weak = text_weak;
  total = text_total;
}

module _ {K : Type 0} where
  -- A sort that puts the greater key first.
  abbrev pub descending : (K → K → Bool) → K → K → Bool
  descending lt x y = lt y x

  pub descending-IsTotal : {eq lt : K → K → Bool} → IsTotal eq lt → IsTotal eq (descending lt)
  descending-IsTotal t = record {
    eq_iff = t.eq_iff;
    asym = λ x y. t.asym y x;
    weak = λ x y z h k. t.weak z y x k h;
    total = λ x y h k. t.total x y k h;
  }

module _ {A : Type 0} {K : Type 0} where
  -- `if key(x) != key(y) { return key(x) < key(y) }`, then the other keys.
  abbrev pub first_by : (K → K → Bool) → (K → K → Bool) → (A → K) → (A → A → Bool) → A → A → Bool
  first_by eq lt key rest x y = if eq (key x) (key y) then rest x y else lt (key x) (key y)

  pub first_by-IsWeak :
      {eq lt : K → K → Bool} {rest : A → A → Bool} (key : A → K)
      → IsTotal eq lt
      → IsWeak rest
      → IsWeak (first_by eq lt key rest)
  first_by-IsWeak {eq} {lt} {rest} key t w = record { asym = asym; weak = weak }
    where
      asym : (x y : A) → first_by eq lt key rest x y ≡ true → first_by eq lt key rest y x ≡ false
      asym x y h = ground (
        arith,
        t.eq_iff (key x) (key y),
        t.eq_iff (key y) (key x),
        t.asym (key x) (key y),
        w.asym x y,
      )

      weak :
          (x y z : A)
          → first_by eq lt key rest y x ≡ false
          → first_by eq lt key rest z y ≡ false
          → first_by eq lt key rest z x ≡ false
      weak x y z h k = ground (
        arith,
        t.eq_iff (key y) (key x),
        t.eq_iff (key z) (key y),
        t.eq_iff (key z) (key x),
        t.weak (key x) (key y) (key z),
        t.total (key y) (key x),
        w.weak x y z,
      )

  -- What it says of two elements that the second is not put in front of the first: the first's key
  -- is the smaller, or the keys are equal and the other keys decide.
  pub first_by-before :
      {eq lt : K → K → Bool} (key : A → K) (rest : A → A → Bool)
      → IsTotal eq lt
      → (x y : A) → first_by eq lt key rest y x ≡ false
      → (lt (key x) (key y) ≡ true) ⊎ ((key x ≡ key y) × (rest y x ≡ false))
  first_by-before {eq} {lt} key rest t x y h = elim (Bool-cases (eq (key y) (key x))) [
    | inl e ↦ inr (sym ((t.eq_iff (key y) (key x)).0 e), sym (rw e refl) ∙ h)
    | inr e ↦ elim (Bool-cases (lt (key x) (key y))) [
      | inl l ↦ inl l
      | inr l ↦ absurd (
          clash (
            sym e ∙ (t.eq_iff (key y) (key x)).1 (t.total (key y) (key x) (sym (rw e refl) ∙ h) l)))
    ]
  ]
    where
      clash : false ≡ true → ⊥
      clash c = cc

pub key-IsWeak :
    {A K : Type 0} {eq lt : K → K → Bool} (key : A → K)
    → IsTotal eq lt
    → IsWeak (λ x y. lt (key x) (key y))
key-IsWeak key t = record {
  asym = λ x y. t.asym (key x) (key y);
  weak = λ x y z. t.weak (key x) (key y) (key z);
}

module _ {A : Type 0} (less : A → A → Bool) where
  -- sort.SliceStable: each element in turn goes behind those that are not greater.
  unfoldable pub insert_stable : A → List A → List A
  insert_stable x [] = x ∷ []
  insert_stable x (y ∷ ys) = if less x y then x ∷ y ∷ ys else y ∷ insert_stable x ys

  unfoldable pub sort_onto : List A → List A → List A
  sort_onto sorted [] = sorted
  sort_onto sorted (x ∷ xs) = sort_onto (insert_stable x sorted) xs

  unfoldable pub sort_stable : List A → List A
  sort_stable xs = sort_onto [] xs

  -- The first of two, the earlier one if they tie.
  abbrev better_of : A → A → A
  better_of x h = if less x h then x else h

  unfoldable pub best_from : A → List A → A
  best_from h [] = h
  best_from h (x ∷ xs) = best_from (better_of x h) xs

  sort_onto-head :
      (h : A) (t xs : List A) → (t' : List A) × (sort_onto (h ∷ t) xs ≡ best_from h xs ∷ t')
  unfolding sort_onto insert_stable best_from
  sort_onto-head h t [] = (t, refl)
  sort_onto-head h t (x ∷ xs) = elim (Bool-cases (less x h)) [
    | inl e ↦ rw e (sort_onto-head x (h ∷ t) xs)
    | inr e ↦ rw e (sort_onto-head h (insert_stable x t) xs)
  ]

  pub sort_stable-nil : sort_stable [] ≡ []
  unfolding sort_stable sort_onto
  sort_stable-nil = refl

  -- What a stable sort puts first is the best of a run through the list.
  pub sort_stable-head :
      (x : A) (xs : List A) → (t : List A) × (sort_stable (x ∷ xs) ≡ best_from x xs ∷ t)
  unfolding sort_stable sort_onto insert_stable
  sort_stable-head x xs = sort_onto-head x [] xs

  better_cases : (x h : A) → (better_of x h ≡ x) ⊎ (better_of x h ≡ h)
  better_cases x h = elim (Bool-cases (less x h)) [
    | inl e ↦ inl (rw e refl)
    | inr e ↦ inr (rw e refl)
  ]

  pub best_from-In : (h : A) (xs : List A) → In (best_from h xs) (h ∷ xs)
  unfolding best_from
  best_from-In h [] = inl refl
  best_from-In h (x ∷ xs) = elim (best_from-In (better_of x h) xs) [
    | inl p ↦ elim (better_cases x h) [ inl e ↦ inr (inl (sym e ∙ p)) | inr e ↦ inl (sym e ∙ p) ]
    | inr p ↦ inr (inr p)
  ]

  -- Nothing in the list comes before it.
  pub best_from-le :
      IsWeak less → (h : A) (xs : List A) (a : A) → In a (h ∷ xs) → less a (best_from h xs) ≡ false
  unfolding best_from
  best_from-le w h [] a (inl e) = ground (arith, w.asym h h)
  best_from-le w h [] a (inr e) = absurd e
  best_from-le w h (x ∷ xs) a m = elim (Bool-cases (less x h)) [
    | inl e ↦ rw e (elim m [
      | inl p ↦
          w.weak (best_from x xs) x a (best_from-le w x xs x (inl refl)) (rw (← p) (w.asym x h e))
      | inr p ↦ best_from-le w x xs a p
    ])
    | inr e ↦ rw e (elim m [
      | inl p ↦ best_from-le w h xs a (inl p)
      | inr (inl p) ↦ w.weak (best_from h xs) h a (best_from-le w h xs h (inl refl)) (rw (← p) e)
      | inr (inr p) ↦ best_from-le w h xs a (inr p)
    ])
  ]
