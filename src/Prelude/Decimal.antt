-- ===== src/Prelude/Decimal.antt =====
-- `ToString` and `FromStr` of unsigned integers.
use Prim.Native.Nat.{◌<◌, ℕ, zero, suc, ◌+◌, ◌-◌, ◌*◌, ◌/◌, ◌%◌}
use mathlib.Core.Bool.{Bool, true, false, ◌&&◌, ◌||◌}
use mathlib.Core.List.{[], ◌∷◌, ◌++◌}
use mathlib.Core.Option.{Option, none, some}
use mathlib.Core.Path.{◌≡◌}
use mathlib.Core.Logic.{inl, inr}
use native.Mathlib.Omega.{arith}
use caroba_guard.Prelude.Tests.{Bool-cases, Option-cases, ltb, leb, ◌==◌, if◌then◌else◌}
use caroba_guard.Prelude.Text.{Bytes}

-- A number has fewer digits than its successor, which is the fuel.
digits_of : ℕ → ℕ → Bytes
digits_of zero n = []
digits_of (suc fuel) n =
    let more = digits_of fuel (n / 10) ++ (b'0' + n % 10) ∷ [] in
    if ltb n 10 then (b'0' + n) ∷ [] else more

unfoldable pub to_string : ℕ → Bytes
unfolding digits_of
to_string n = digits_of (n + 1) n

-- `none` past the largest value of the type, as on a byte that is no digit.
abbrev add_digit : ℕ → ℕ → ℕ → Option ℕ
add_digit limit b acc =
    if leb b'0' b && leb b b'9' && ltb (acc * 10 + (b - b'0')) limit
    then some (acc * 10 + (b - b'0'))
    else none

parse_digits : ℕ → ℕ → Bytes → Option ℕ
parse_digits limit acc [] = some acc
parse_digits limit acc (b ∷ bs) = elim (add_digit limit b acc) [
  | none ↦ none
  | some acc' ↦ parse_digits limit acc' bs
]

-- A single leading `+` is accepted, the empty text is not.
unfoldable pub parse_unsigned : ℕ → Bytes → Option ℕ
unfolding parse_digits
parse_unsigned limit [] = none
parse_unsigned limit (b ∷ []) = parse_digits limit 0 (b ∷ [])
parse_unsigned limit (b ∷ c ∷ bs) =
    if b == b'+' then parse_digits limit 0 (c ∷ bs) else parse_digits limit 0 (b ∷ c ∷ bs)

-- A signed integer: whether it has a minus, and its magnitude.
pub record Signed : Type 0 where
  pub minus : Bool
  pub magnitude : ℕ

abbrev signed : Bool → Option ℕ → Option Signed
signed minus none = none
signed minus (some n) = some (record { minus = minus; magnitude = n })

-- `limit` is the magnitude of the least value. A sign alone is refused.
unfoldable pub parse_signed : ℕ → Bytes → Option Signed
unfolding parse_unsigned parse_digits
parse_signed limit (b ∷ c ∷ bs) =
    if b == b'-'
    then signed true (parse_digits (limit + 1) 0 (c ∷ bs))
    else signed false (parse_unsigned limit (b ∷ c ∷ bs))
parse_signed limit bs = signed false (parse_unsigned limit bs)

-- Whether it is below a positive bound.
abbrev pub is_less : Signed → ℕ → Bool
is_less n bound = n.minus || ltb n.magnitude bound

parse_digits-lt :
    (limit acc : ℕ) (s : Bytes) {n : ℕ}
    → acc < limit
    → parse_digits limit acc s ≡ some n
    → n < limit
unfolding parse_digits
parse_digits-lt limit acc [] h e = ground arith
parse_digits-lt limit acc (b ∷ bs) h e = elim (Option-cases (add_digit limit b acc)) [
  | inl f ↦ cc (rw (f, parse_digits) at e)
  | inr (acc', f) ↦ parse_digits-lt limit acc' bs (ground arith) (rw (f, parse_digits) at e)
]

-- What is parsed is a value of the type.
pub parse_unsigned-lt :
    (limit : ℕ) (s : Bytes) {n : ℕ} → 0 < limit → parse_unsigned limit s ≡ some n → n < limit
unfolding parse_unsigned
parse_unsigned-lt limit [] h e = cc
parse_unsigned-lt limit (b ∷ []) h e = parse_digits-lt limit 0 (b ∷ []) h e
parse_unsigned-lt limit (b ∷ c ∷ bs) h e = elim (Bool-cases (b == b'+')) [
  | inl p ↦ parse_digits-lt limit 0 (c ∷ bs) h (rw (p, parse_unsigned) at e)
  | inr q ↦ parse_digits-lt limit 0 (b ∷ c ∷ bs) h (rw (q, parse_unsigned) at e)
]
