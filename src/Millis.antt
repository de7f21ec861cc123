-- ===== src/Millis.antt =====
-- internal/runner/millis.go: a duration as whole milliseconds on the wire. Bytes are numbers, a
-- duration is an int64 of nanoseconds.
pub mod RoundTrip
mod Tests
use selfservice_api.Base.{
  ℕ, zero, suc, ◌+◌, ◌-◌, ◌*◌, ◌/◌, ◌%◌, ◌^◌, List, [], ◌∷◌, Option, none, some, Bool, true, false,
  ◌||◌, ◌&&◌, ltb, leb, ◌==◌, if◌then◌else◌, ℤ, pos, negsuc, wrap, negated, quotient,
}

abbrev pub millisecond : ℕ
millisecond = 1000000

-- strconv.FormatInt writes the last digit first; twenty digits are enough for 64 bits.
unfoldable pub digits : ℕ → ℕ → List ℕ → List ℕ
digits zero n out = out
digits (suc left) n out =
    let rest = digits left (n / 10) ((b'0' + n % 10) ∷ out) in
    if ltb n 10 then (b'0' + n) ∷ out else rest

abbrev pub max_digits : ℕ
max_digits = 20

unfoldable pub format_int : ℤ → List ℕ
format_int (pos n) = digits max_digits n []
format_int (negsuc n) = b'-' ∷ digits max_digits (suc n) []

abbrev pub is_digit : ℕ → Bool
is_digit c = leb b'0' c && leb c b'9'

-- strconv.ParseUint in base 10: a text that is no number, or one past 64 bits, is an error.
unfoldable pub parse_digits : List ℕ → ℕ → Option ℕ
parse_digits [] n = some n
parse_digits (c ∷ s) n =
    let next = n * 10 + (c - b'0') in
    let rest = parse_digits s next in if is_digit c && ltb next (2 ^ 64) then rest else none

abbrev pub parse_uint : List ℕ → Option ℕ
parse_uint [] = none
parse_uint (c ∷ s) = parse_digits (c ∷ s) 0

abbrev pub positive : Option ℕ → Option ℤ
positive none = none
positive (some n) = if ltb n (2 ^ 63) then some (pos n) else none

abbrev pub negative : Option ℕ → Option ℤ
negative none = none
negative (some n) = if leb n (2 ^ 63) then some (negated (pos n)) else none

-- strconv.ParseInt in base 10.
unfoldable pub parse_int : List ℕ → Option ℤ
parse_int [] = none
parse_int (c ∷ s) =
    if c == b'-'
    then negative (parse_uint s)
    else if c == b'+'
    then positive (parse_uint s)
    else positive (parse_uint (c ∷ s))

-- MarshalJSON
unfoldable pub marshal : ℤ → List ℕ
marshal m = format_int (quotient m millisecond)

-- ms * time.Millisecond, in int64.
abbrev pub scaled : ℤ → ℤ
scaled (pos n) = wrap (pos (n * millisecond))
scaled (negsuc n) = wrap (negated (pos (suc n * millisecond)))

abbrev pub from_millis : Option ℤ → Option ℤ
from_millis none = none
from_millis (some ms) = some (scaled ms)

-- UnmarshalJSON; `none` is its error.
unfoldable pub unmarshal : List ℕ → Option ℤ
unmarshal b = from_millis (parse_int b)
