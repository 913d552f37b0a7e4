-- ===== src/Netutil/Port.antt =====
-- netutil.ExtractPort
use ipdr.Prelude.{
  ℕ, ◌-◌, ◌^◌, ◌≤◌, ◌<◌, ◌≡◌, refl, Bool, false, ◌&&◌, Option, none, some, [], ◌∷◌, ◌++◌, Bytes,
  arith, All, eqb, leb, if◌then◌else◌, List-cases, inl, inr,
}
use ipdr.Strings.Laws.{Lacks}
use ipdr.Decimal.RoundTrip.{print-All, print-ne-nil, span_digits-print, span_digits-print-append}
use ipdr.Decimal.{is_digit, span_digits, print}

starts_digit : Bytes → Bool
starts_digit [] = false
starts_digit (x ∷ s) = is_digit x

-- What follows the last colon of the line that a digit follows: the greedy `(.*:)`
last_colon : Bytes → Option Bytes
unfolding starts_digit
last_colon [] = none
last_colon (x ∷ s) =
    let later = last_colon s in
    if eqb x 10 then none else elim later [
      | some r ↦ some r
      | none ↦ if eqb x b':' && starts_digit s then some s else none
    ]

-- The start of the digits that `(.*:)?(\d+)` matches, at the first place where it matches.
unfoldable pub find_port : Bytes → Option Bytes
unfolding last_colon
find_port [] = none
find_port (x ∷ s) =
    let later = find_port s in
    elim (last_colon (x ∷ s)) [
      | some r ↦ some r
      | none ↦ if is_digit x then some (x ∷ s) else later
    ]

-- strconv.ParseUint, which gives the largest number where the text says a larger one
abbrev clamp : ℕ → ℕ
clamp n = if leb n (2 ^ 64 - 1) then n else 2 ^ 64 - 1

unfoldable pub extract_port : Bytes → ℕ
extract_port host = elim (find_port host) [ none ↦ 0 | some s ↦ clamp (span_digits 0 s).0 ]

-- The text has digits only.
abbrev AllDigits : Bytes → Type 0
AllDigits = All (λ x. (b'0' ≤ x) × (x ≤ b'9'))

last_colon-AllDigits : (s : Bytes) → AllDigits s → last_colon s ≡ none
unfolding last_colon
last_colon-AllDigits [] h = refl
last_colon-AllDigits (x ∷ s) (h, hs) = ground (arith, last_colon-AllDigits s hs)

last_colon-append :
    (host s : Bytes) (x : ℕ)
    → Lacks 10 host
    → AllDigits (x ∷ s)
    → last_colon (host ++ b':' ∷ x ∷ s) ≡ some (x ∷ s)
unfolding last_colon starts_digit
last_colon-append [] s x h d = ground (arith, last_colon-AllDigits (x ∷ s) d)
last_colon-append (y ∷ host) s x (h, hs) d = ground (arith, last_colon-append host s x hs d)

find_port-append :
    (host s : Bytes) (x : ℕ)
    → Lacks 10 host
    → AllDigits (x ∷ s)
    → find_port (host ++ b':' ∷ x ∷ s) ≡ some (x ∷ s)
unfolding find_port
find_port-append [] s x h d = ground (arith, last_colon-append [] s x h d)
find_port-append (y ∷ host) s x h d = ground (arith, last_colon-append (y ∷ host) s x h d)

-- The port of 64 bits is read off the end of a host with a port, whatever colons the
-- host holds, if it is one line.
pub extract_port-append :
    (host : Bytes) (n : ℕ) → Lacks 10 host → n < 2 ^ 64 → extract_port (host ++ b':' ∷ print n) ≡ n
unfolding extract_port
extract_port-append host n h fits = elim (List-cases (print n)) [
  | inl e ↦ absurd (print-ne-nil n e)
  | inr (x, s, e) ↦
      let found : find_port (host ++ b':' ∷ print n) ≡ some (print n) =
        rw e (find_port-append host s x h (rw e at (print-All n))) in
      rw (extract_port, found, span_digits-print n) (ground arith)
]

last_colon-Lacks : (s : Bytes) → Lacks b':' s → last_colon s ≡ none
unfolding last_colon
last_colon-Lacks [] h = refl
last_colon-Lacks (x ∷ s) (h, hs) = ground (arith, last_colon-Lacks s hs)

Lacks-digits : (s rest : Bytes) → AllDigits s → Lacks b':' rest → Lacks b':' (s ++ rest)
Lacks-digits [] rest h k = k
Lacks-digits (x ∷ s) rest (h, hs) k = (omega arith, Lacks-digits s rest hs k)

find_port-digit :
    (x : ℕ) (s : Bytes)
    → (b'0' ≤ x) × (x ≤ b'9')
    → Lacks b':' (x ∷ s)
    → find_port (x ∷ s) ≡ some (x ∷ s)
unfolding find_port
find_port-digit x s d h = ground (arith, last_colon-Lacks (x ∷ s) h)

-- An address without a port, whose first part is taken for one.
pub extract_port-print :
    (n : ℕ) (rest : Bytes)
    → Lacks b':' rest
    → n < 2 ^ 64
    → extract_port (print n ++ b'.' ∷ rest) ≡ n
unfolding extract_port
extract_port-print n rest h fits = elim (List-cases (print n)) [
  | inl e ↦ absurd (print-ne-nil n e)
  | inr (x, s, e) ↦
      let ds : AllDigits (x ∷ s) = rw e at (print-All n) in
      let found : find_port (print n ++ b'.' ∷ rest) ≡ some (print n ++ b'.' ∷ rest) = rw e (
        find_port-digit x (s ++ b'.' ∷ rest) ds.0
          (Lacks-digits (x ∷ s) (b'.' ∷ rest) ds (omega arith, h))) in
      rw (extract_port, found, span_digits-print-append n (b'.' ∷ rest) refl) (ground arith)
]
