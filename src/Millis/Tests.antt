-- ===== src/Millis/Tests.antt =====
-- Thirty milliseconds and a part, there and back.
use selfservice_api.Base.{◌≡◌, refl, [], ◌∷◌, some, pos, negsuc, arith}
use selfservice_api.Millis.{digits, format_int, parse_digits, parse_int, marshal, unmarshal}
use selfservice_api.Millis.RoundTrip.{whole, unmarshal-marshal}

unmarshal-marshal_example : unmarshal (marshal (negsuc 30000999)) ≡ some (whole (negsuc 30000999))
unmarshal-marshal_example = unmarshal-marshal (negsuc 30000999) (omega arith)

shown : marshal (pos 30000999) ≡ b'3' ∷ b'0' ∷ []
unfolding marshal format_int digits
shown = refl

-- A count of milliseconds that does not fit is taken, and wraps.
wrapped : unmarshal (format_int (pos 9223372036855)) ≡ some (negsuc 9223372036854551615)
unfolding unmarshal format_int digits parse_digits parse_int
wrapped = refl
