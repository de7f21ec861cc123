-- ===== src/Millis/RoundTrip.antt =====
-- internal/runner/millis.go: what is written is read back.
use Prim.Native.Nat.pow.{suc as pow_suc}
use selfservice_api.Base.{
  ℕ, zero, suc, ◌+◌, ◌-◌, ◌*◌, ◌/◌, ◌%◌, ◌^◌, ◌≤◌, ◌<◌, ◌≡◌, refl, ap, ◌∙◌, inl, inr, List, [], ◌∷◌,
  some, true, arith, ltb, Bool-cases, ℤ, pos, negsuc, wrap, negated,
}
use selfservice_api.Millis.{
  millisecond, digits, max_digits, format_int, parse_digits, parse_uint, positive, parse_int,
  marshal, scaled, unmarshal,
}

-- The values of an int64.
abbrev pub IsWord : ℤ → Type 0
IsWord (pos n) = n < 2 ^ 63
IsWord (negsuc n) = n < 2 ^ 63

-- Reading the last digit of a number after the digits before it gives the number.
parse_last :
    (n : ℕ) (out : List ℕ)
    → n < 2 ^ 64
    → parse_digits ((b'0' + n % 10) ∷ out) (n / 10) ≡ parse_digits out n
unfolding parse_digits
parse_last n out h =
    let exact : n / 10 * 10 + (b'0' + n % 10 - b'0') ≡ n = omega arith in ground (arith, exact)

parse_first :
    (n : ℕ) (out : List ℕ) → n < 10 → parse_digits ((b'0' + n) ∷ out) 0 ≡ parse_digits out n
unfolding parse_digits
parse_first n out h =
    let exact : 0 * 10 + (b'0' + n - b'0') ≡ n = omega arith in ground (arith, exact)

parse_digits-digits :
    (left n : ℕ) (out : List ℕ)
    → n < 10 ^ suc left
    → n < 2 ^ 64
    → parse_digits (digits (suc left) n out) 0 ≡ parse_digits out n
unfolding digits
parse_digits-digits zero n out h fits =
    let small : n < 10 = omega (arith, pow_suc 10 0) in
    let test : ltb n 10 ≡ true = ground (arith, small) in rw test (parse_first n out small)
parse_digits-digits (suc left) n out h fits = elim (Bool-cases (ltb n 10)) [
  | inl t ↦ rw t (parse_first n out (ground (arith, t)))
  | inr f ↦ rw f (
      parse_digits-digits left (n / 10) _ (omega (arith, pow_suc 10 (suc left), h))
        (omega (arith, fits))
      ∙ parse_last n out fits)
]

-- A digit comes first, so no sign is read.
digits-first :
    (left n : ℕ) (out : List ℕ)
    → (c : ℕ) × (s : List ℕ) × (digits (suc left) n out ≡ c ∷ s) × (b'0' ≤ c)
unfolding digits
digits-first zero n out = elim (Bool-cases (ltb n 10)) [
  | inl t ↦ (b'0' + n, out, rw t refl, omega arith)
  | inr f ↦ (b'0' + n % 10, out, rw f refl, omega arith)
]
digits-first (suc left) n out = elim (Bool-cases (ltb n 10)) [
  | inl t ↦ (b'0' + n, out, rw t refl, omega arith)
  | inr f ↦
      let (c, s, e, g) = digits-first left (n / 10) ((b'0' + n % 10) ∷ out) in (c, s, rw f e, g)
]

unsigned : (c : ℕ) (s : List ℕ) → b'0' ≤ c → parse_int (c ∷ s) ≡ positive (parse_digits (c ∷ s) 0)
unfolding parse_int
unsigned c s h = ground arith

-- 64 bits have at most twenty digits.
read_back : (n : ℕ) → n < 2 ^ 64 → parse_digits (digits max_digits n []) 0 ≡ some n
unfolding parse_digits
read_back n h = parse_digits-digits 19 n [] (omega (arith, h)) h

parse_int-digits : (n : ℕ) → n < 2 ^ 63 → parse_int (digits max_digits n []) ≡ some (pos n)
parse_int-digits n h =
    let (c, s, e, g) = digits-first 19 n [] in
    rw (e, unsigned c s g, ← e, read_back n (omega (arith, h))) (ground (arith, h))

parse_uint-digits : (n : ℕ) → n < 2 ^ 64 → parse_uint (digits max_digits n []) ≡ some n
parse_uint-digits n h = let (c, s, e, g) = digits-first 19 n [] in rw (e, ← e) (read_back n h)

-- What FormatInt writes, ParseInt reads, for every int64.
parse_int-format_int : (z : ℤ) → IsWord z → parse_int (format_int z) ≡ some z
unfolding parse_int format_int
parse_int-format_int (pos n) h = parse_int-digits n h
parse_int-format_int (negsuc n) h =
    rw (parse_uint-digits (suc n) (omega (arith, h))) (ground (arith, h))

-- The whole milliseconds of a duration, cut towards 0.
abbrev pub whole : ℤ → ℤ
whole (pos n) = pos (n - n % millisecond)
whole (negsuc n) = negated (pos (suc n - suc n % millisecond))

wrap-negated : (n : ℕ) → n ≤ 2 ^ 63 → wrap (negated (pos n)) ≡ negated (pos n)
wrap-negated zero h = refl
wrap-negated (suc n) h = ground (arith, h)

negated-IsWord : (q : ℕ) → q ≤ 2 ^ 63 → IsWord (negated (pos q))
negated-IsWord zero h = omega arith
negated-IsWord (suc q) h = omega (arith, h)

scaled-negated :
    (q : ℕ) → q * millisecond ≤ 2 ^ 63 → scaled (negated (pos q)) ≡ negated (pos (q * millisecond))
scaled-negated zero h = refl
scaled-negated (suc q) h = wrap-negated (suc q * millisecond) h

-- Every duration that an int64 holds is read back as it was written, in whole milliseconds.
pub unmarshal-marshal : (m : ℤ) → IsWord m → unmarshal (marshal m) ≡ some (whole m)
unfolding unmarshal marshal
unmarshal-marshal (pos n) h =
    let same : n / millisecond * millisecond ≡ n - n % millisecond = omega arith in
    rw (parse_int-format_int (pos (n / millisecond)) (omega (arith, h)), same) (ground (arith, h))
unmarshal-marshal (negsuc n) h =
    let q = suc n / millisecond in
    let same : q * millisecond ≡ suc n - suc n % millisecond = omega arith in
    let fits : q * millisecond ≤ 2 ^ 63 = omega (arith, h) in
    rw (parse_int-format_int (negated (pos q)) (negated-IsWord q (omega (arith, h))))
      (ap some (scaled-negated q fits ∙ ap (λ k. negated (pos k)) same))
