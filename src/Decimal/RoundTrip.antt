-- ===== src/Decimal/RoundTrip.antt =====
-- A range that is printed is scanned back.
use ipdr.Prelude.{
  ℕ, zero, suc, ◌+◌, ◌/◌, ◌%◌, ◌^◌, ◌≤◌, ◌<◌, ◌≡◌, refl, ◌∙◌, false, some, [], ◌∷◌, ◌++◌, Bytes,
  arith, append-nil, All, ◌≢◌,
}
use ipdr.Decimal.{digits, print, ScannedInt, is_digit, span_digits, scan_int, scan_end, scan_range}

digits-append : (f n : ℕ) (out rest : Bytes) → digits f n out ++ rest ≡ digits f n (out ++ rest)
unfolding digits
digits-append zero n out rest = refl
digits-append (suc f) n out rest =
    ground (arith, digits-append f (n / 10) ((b'0' + n % 10) ∷ out) rest)

-- The text starts with a digit.
abbrev DigitFirst : Bytes → Type 0
DigitFirst [] = ⊥
DigitFirst (c ∷ s) = (b'0' ≤ c) × (c ≤ b'9')

digits-DigitFirst : (f n : ℕ) (out : Bytes) → n < f → DigitFirst (digits f n out)
unfolding digits
digits-DigitFirst zero n out h = absurd (omega arith)
digits-DigitFirst (suc f) n out h =
    ground (arith, digits-DigitFirst f (n / 10) ((b'0' + n % 10) ∷ out))

span_digits-digits :
    (f n : ℕ) (out : Bytes) → n < f → span_digits 0 (digits f n out) ≡ span_digits n out
unfolding digits span_digits
span_digits-digits zero n out h = absurd (omega arith)
span_digits-digits (suc f) n out h =
    ground (arith, span_digits-digits f (n / 10) ((b'0' + n % 10) ∷ out))

-- What follows the number is no digit.
abbrev Stops : Bytes → Type 0
Stops [] = Unit
Stops (c ∷ s) = is_digit c ≡ false

span_digits-Stops : (n : ℕ) (s : Bytes) → Stops s → span_digits n s ≡ (n, s)
unfolding span_digits
span_digits-Stops n [] h = refl
span_digits-Stops n (c ∷ s) h = ground arith

abbrev natural : ℕ → ScannedInt
natural n = record { negative = false; magnitude = n }

scan_int-DigitFirst :
    (s rest : Bytes) (n : ℕ)
    → DigitFirst s
    → span_digits 0 s ≡ (n, rest)
    → n < 2 ^ 63
    → scan_int s ≡ some (natural n, rest)
unfolding scan_int
scan_int-DigitFirst [] rest n h e fits = elim h [ ]
scan_int-DigitFirst (c ∷ s) rest n h e fits = ground arith

scan_int-print :
    (n : ℕ) (rest : Bytes)
    → n < 2 ^ 63
    → Stops rest
    → scan_int (print n ++ rest) ≡ some (natural n, rest)
unfolding print
scan_int-print n rest fits stops =
    scan_int-DigitFirst (digits (suc n) n [] ++ rest) rest n
      (rw digits-append (digits-DigitFirst (suc n) n rest (omega arith)))
      (rw digits-append
        (span_digits-digits (suc n) n rest (omega arith) ∙ span_digits-Stops n rest stops))
      fits

scan_int-print_all : (n : ℕ) → n < 2 ^ 63 → scan_int (print n) ≡ some (natural n, [])
scan_int-print_all n fits = rw (← append-nil (print n)) (scan_int-print n [] fits tt)

-- fmt.Sprintf("%d-%d", start, end) read back by fmt.Sscanf gives the start, for numbers below
-- 2^63.
pub scan_range-print :
    (start end : ℕ)
    → start < 2 ^ 63
    → end < 2 ^ 63
    → scan_range (print start ++ b'-' ∷ print end) ≡ some (natural start)
unfolding scan_range scan_end
scan_range-print start end h k =
    ground (arith, scan_int-print start (b'-' ∷ print end) h refl, scan_int-print_all end k)

digits-ge : (f n : ℕ) (out : Bytes) → All (λ c. b'0' ≤ c) out → All (λ c. b'0' ≤ c) (digits f n out)
unfolding digits
digits-ge zero n out h = h
digits-ge (suc f) n out h =
    ground (arith, digits-ge f (n / 10) ((b'0' + n % 10) ∷ out) (omega arith, h))

-- No byte of a printed number lies below the digits, and there is one at least.
pub print-ge : (n : ℕ) → All (λ c. b'0' ≤ c) (print n)
unfolding print
print-ge n = digits-ge (suc n) n [] tt

pub print-ne-nil : (n : ℕ) → print n ≢ []
unfolding print
print-ne-nil n e = rw e at (digits-DigitFirst (suc n) n [] (omega arith))

-- A printed number is made of digits, and read as itself.
digits-All :
    (f n : ℕ) (out : Bytes)
    → n < f
    → All (λ c. (b'0' ≤ c) × (c ≤ b'9')) out
    → All (λ c. (b'0' ≤ c) × (c ≤ b'9')) (digits f n out)
unfolding digits
digits-All zero n out h k = absurd (omega arith)
digits-All (suc f) n out h k = ground (arith, digits-All f (n / 10) ((b'0' + n % 10) ∷ out))

pub print-All : (n : ℕ) → All (λ c. (b'0' ≤ c) × (c ≤ b'9')) (print n)
unfolding print
print-All n = digits-All (suc n) n [] (omega arith) tt

pub span_digits-print-append :
    (n : ℕ) (rest : Bytes) → Stops rest → span_digits 0 (print n ++ rest) ≡ (n, rest)
unfolding print
span_digits-print-append n rest stops =
    rw digits-append
      (span_digits-digits (suc n) n rest (omega arith) ∙ span_digits-Stops n rest stops)

pub span_digits-print : (n : ℕ) → span_digits 0 (print n) ≡ (n, [])
span_digits-print n = rw (← append-nil (print n)) (span_digits-print-append n [] tt)
