-- ===== src/Retry/Search.antt =====
-- internal/provisioner/retryable.go: what the text searches of ClassifyError find.
use selfservice_api.Base.{ℕ, ◌≡◌, refl, List, [], ◌∷◌, ◌++◌, Bool, true, false, ◌||◌, arith}
use selfservice_api.Retry.{has_prefix, contains}

pub has_prefix-append : (p : List ℕ) → (s : List ℕ) → has_prefix (p ++ s) p ≡ true
unfolding has_prefix
has_prefix-append [] s = refl
has_prefix-append (c ∷ p) s = ground (arith, has_prefix-append p s)

or_true : (b : Bool) → (b || true) ≡ true
or_true true = refl
or_true false = refl

pub contains-append : (u p v : List ℕ) → contains (u ++ (p ++ v)) p ≡ true
unfolding contains has_prefix
contains-append [] [] [] = refl
contains-append [] [] (c ∷ v) = refl
contains-append [] (c ∷ p) v = ground (arith, has_prefix-append p v)
contains-append (c ∷ u) p v = rw (contains-append u p v) (or_true _)
