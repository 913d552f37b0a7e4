-- ===== src/Decimal.antt =====
-- Numbers as text: what the program uses of `fmt.Sprint`, `fmt.Sscanf` and `strconv`.
pub mod RoundTrip
use ipdr.Prelude.{
  ℕ, zero, suc, ◌+◌, ◌-◌, ◌*◌, ◌/◌, ◌%◌, ◌^◌, Bool, true, false, not, ◌&&◌, ◌||◌, Option, none,
  some, List, [], ◌∷◌, Bytes, codes, eqb, ltb, leb, if◌then◌else◌,
}

-- The fuel is the number itself, and each round divides it by ten.
digits : ℕ → ℕ → Bytes → Bytes
digits zero n out = out
digits (suc f) n out =
    let more = digits f (n / 10) ((b'0' + n % 10) ∷ out) in
    if ltb n 10 then (b'0' + n) ∷ out else more

-- fmt.Sprint(n)
unfoldable pub print : ℕ → Bytes
unfolding digits
print n = digits (suc n) n []

-- fmt.Sprint(n - 1) for a number of bytes
unfoldable pub print_pred : ℕ → Bytes
unfolding print
print_pred zero = codes "-1"
print_pred (suc n) = print n

-- An int as `%d` reads it.
pub record ScannedInt : Type 0 where
  pub negative : Bool
  pub magnitude : ℕ

abbrev pub equals_nat : ScannedInt → ℕ → Bool
equals_nat i n = eqb i.magnitude n && (not i.negative || eqb i.magnitude 0)

abbrev pub is_digit : ℕ → Bool
is_digit c = leb b'0' c && leb c b'9'

abbrev is_blank : ℕ → Bool
is_blank c = eqb c 32 || eqb c 9 || eqb c 11 || eqb c 12 || eqb c 13

skip_blanks : Bytes → Bytes
skip_blanks [] = []
skip_blanks (c ∷ s) = let rest = skip_blanks s in if is_blank c then rest else c ∷ s

-- The digits from here on, and what follows them.
unfoldable pub span_digits : ℕ → Bytes → ℕ × Bytes
span_digits n [] = (n, [])
span_digits n (c ∷ s) =
    let more = span_digits (n * 10 + (c - b'0')) s in if is_digit c then more else (n, c ∷ s)

-- At least one digit, and a value that an int64 holds.
scan_magnitude : Bool → Bytes → Option (ScannedInt × Bytes)
unfolding span_digits
scan_magnitude neg [] = none
scan_magnitude neg (c ∷ s) =
    let (n, rest) = span_digits 0 (c ∷ s) in
    let limit : ℕ = if neg then 2 ^ 63 else 2 ^ 63 - 1 in
    if is_digit c && leb n limit
    then some (record { negative = neg; magnitude = n }, rest)
    else none

scan_sign : Bytes → Option (ScannedInt × Bytes)
unfolding scan_magnitude
scan_sign [] = none
scan_sign (c ∷ s) =
    if eqb c b'-'
    then scan_magnitude true s
    else if eqb c b'+'
    then scan_magnitude false s
    else scan_magnitude false (c ∷ s)

-- One `%d`.
unfoldable pub scan_int : Bytes → Option (ScannedInt × Bytes)
unfolding skip_blanks scan_sign
scan_int s = scan_sign (skip_blanks s)

-- The literal `-` and the second `%d`.
scan_end : ScannedInt × Bytes → Option ScannedInt
scan_end (start, []) = none
scan_end (start, c ∷ s) =
    if eqb c b'-' then (elim (scan_int s) [ none ↦ none | some e ↦ some start ]) else none

-- fmt.Sscanf(s, "%d-%d", &start, &end): the start, if both numbers were read
unfoldable pub scan_range : Bytes → Option ScannedInt
unfolding scan_end
scan_range s = elim (scan_int s) [ none ↦ none | some r ↦ scan_end r ]
