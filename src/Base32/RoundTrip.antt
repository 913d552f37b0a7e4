-- ===== src/Base32/RoundTrip.antt =====
-- What is encoded is decoded.
use ipdr.Prelude.{
  ℕ, suc, ◌+◌, ◌*◌, ◌/◌, ◌%◌, ◌<◌, ◌≤◌, ◌⊎◌, ◌≡◌, refl, ap, false, some, ok, List, [], ◌∷◌, ◌++◌,
  Bytes, eqb, arith, All,
}
use ipdr.Base32.{
  letter, encode, value, unpack, all_pads, finish, decode_from, strip_newlines, decode_string,
}

value-letter : (q : ℕ) → q < 32 → value (letter q) ≡ some q
unfolding value letter
value-letter q h = ground arith

letter-ne-pad : (q : ℕ) → q < 32 → eqb (letter q) b'=' ≡ false
unfolding letter
letter-ne-pad q h = ground arith

-- One letter that does not fill the group.
decode_from-letter :
    (j q : ℕ) (group : List ℕ) (s : Bytes)
    → q < 32
    → eqb j 7 ≡ false
    → decode_from j group (letter q ∷ s) ≡ decode_from (suc j) (group ++ q ∷ []) s
unfolding decode_from
decode_from-letter j q group s h k = rw (letter-ne-pad q h, value-letter q h, k) refl

-- The letter that does.
decode_from-last :
    (q : ℕ) (group : List ℕ) (s b : Bytes)
    → q < 32
    → decode_from 0 [] s ≡ some b
    → decode_from 7 group (letter q ∷ s) ≡ some (unpack (group ++ q ∷ []) ++ b)
unfolding decode_from
decode_from-last q group s b h e = rw (letter-ne-pad q h, value-letter q h, e) refl

abbrev pub IsByte : ℕ → Type 0
IsByte x = x < 256

first_byte : (a b : ℕ) → a < 256 → b < 256 → (a / 8) * 8 % 256 + (a % 8 * 4 + b / 64) / 4 ≡ a
first_byte a b h k = omega arith

second_byte :
    (a b c : ℕ)
    → a < 256
    → b < 256
    → c < 256
    → (a % 8 * 4 + b / 64) * 64 % 256 + b / 2 % 32 * 2 + (b % 2 * 16 + c / 16) / 16 ≡ b
second_byte a b c h k l = omega arith

third_byte :
    (b c d : ℕ)
    → b < 256
    → c < 256
    → d < 256
    → (b % 2 * 16 + c / 16) * 16 % 256 + (c % 16 * 2 + d / 128) / 2 ≡ c
third_byte b c d h k l = omega arith

fourth_byte :
    (c d e : ℕ)
    → c < 256
    → d < 256
    → e < 256
    → (c % 16 * 2 + d / 128) * 128 % 256 + d / 4 % 32 * 4 + (d % 4 * 8 + e / 32) / 8 ≡ d
fourth_byte c d e h k l = omega arith

fifth_byte : (d e : ℕ) → d < 256 → e < 256 → (d % 4 * 8 + e / 32) * 32 % 256 + e % 32 ≡ e
fifth_byte d e h k = omega arith

-- The bits of the bytes, in order.
abbrev quintets : ℕ → ℕ → ℕ → ℕ → ℕ → List ℕ
quintets a b c d e =
    (a / 8)
    ∷ (a % 8 * 4 + b / 64)
    ∷ (b / 2 % 32)
    ∷ (b % 2 * 16 + c / 16)
    ∷ (c % 16 * 2 + d / 128)
    ∷ (d / 4 % 32)
    ∷ (d % 4 * 8 + e / 32)
    ∷ (e % 32)
    ∷ []

unpack-quintets :
    (a b c d e : ℕ)
    → IsByte a
    → IsByte b
    → IsByte c
    → IsByte d
    → IsByte e
    → unpack (quintets a b c d e) ≡ a ∷ b ∷ c ∷ d ∷ e ∷ []
unfolding unpack
unpack-quintets a b c d e ha hb hc hd he =
    rw
      (
        first_byte a b ha hb,
        second_byte a b c ha hb hc,
        third_byte b c d hb hc hd,
        fourth_byte c d e hc hd he,
        fifth_byte d e hd he,
      )
      refl

decode_from-encode : (b : Bytes) → All IsByte b → decode_from 0 [] (encode b) ≡ some b
unfolding encode
decode_from-encode [] h = unfold decode_from in refl
decode_from-encode (a ∷ []) (ha, _) =
    rw
      (
        decode_from-letter 0 (a / 8) [] _ (omega arith) refl,
        decode_from-letter 1 (a % 8 * 4) _ _ (omega arith) refl,
      )
      (unfold decode_from finish all_pads unpack in ground arith)
decode_from-encode (a ∷ b ∷ []) (ha, (hb, _)) =
    rw
      (
        decode_from-letter 0 (a / 8) [] _ (omega arith) refl,
        decode_from-letter 1 (a % 8 * 4 + b / 64) _ _ (omega arith) refl,
        decode_from-letter 2 (b / 2 % 32) _ _ (omega arith) refl,
        decode_from-letter 3 (b % 2 * 16) _ _ (omega arith) refl,
      )
      (unfold decode_from finish all_pads unpack in ground arith)
decode_from-encode (a ∷ b ∷ c ∷ []) (ha, (hb, (hc, _))) =
    rw
      (
        decode_from-letter 0 (a / 8) [] _ (omega arith) refl,
        decode_from-letter 1 (a % 8 * 4 + b / 64) _ _ (omega arith) refl,
        decode_from-letter 2 (b / 2 % 32) _ _ (omega arith) refl,
        decode_from-letter 3 (b % 2 * 16 + c / 16) _ _ (omega arith) refl,
        decode_from-letter 4 (c % 16 * 2) _ _ (omega arith) refl,
      )
      (unfold decode_from finish all_pads unpack in ground arith)
decode_from-encode (a ∷ b ∷ c ∷ d ∷ []) (ha, (hb, (hc, (hd, _)))) =
    rw
      (
        decode_from-letter 0 (a / 8) [] _ (omega arith) refl,
        decode_from-letter 1 (a % 8 * 4 + b / 64) _ _ (omega arith) refl,
        decode_from-letter 2 (b / 2 % 32) _ _ (omega arith) refl,
        decode_from-letter 3 (b % 2 * 16 + c / 16) _ _ (omega arith) refl,
        decode_from-letter 4 (c % 16 * 2 + d / 128) _ _ (omega arith) refl,
        decode_from-letter 5 (d / 4 % 32) _ _ (omega arith) refl,
        decode_from-letter 6 (d % 4 * 8) _ _ (omega arith) refl,
      )
      (unfold decode_from finish all_pads unpack in ground arith)
decode_from-encode (a ∷ b ∷ c ∷ d ∷ e ∷ s) (ha, (hb, (hc, (hd, (he, hs))))) =
    rw
      (
        decode_from-letter 0 (a / 8) [] _ (omega arith) refl,
        decode_from-letter 1 (a % 8 * 4 + b / 64) _ _ (omega arith) refl,
        decode_from-letter 2 (b / 2 % 32) _ _ (omega arith) refl,
        decode_from-letter 3 (b % 2 * 16 + c / 16) _ _ (omega arith) refl,
        decode_from-letter 4 (c % 16 * 2 + d / 128) _ _ (omega arith) refl,
        decode_from-letter 5 (d / 4 % 32) _ _ (omega arith) refl,
        decode_from-letter 6 (d % 4 * 8 + e / 32) _ _ (omega arith) refl,
        decode_from-last (e % 32) _ _ s (omega arith) (decode_from-encode s hs),
      )
      (ap (λ (x : Bytes). some (x ++ s)) (unpack-quintets a b c d e ha hb hc hd he))

-- What a text in base32 is made of.
abbrev pub IsLetter : ℕ → Type 0
IsLetter x = (x ≡ b'=') ⊎ (((b'2' ≤ x) × (x ≤ b'7')) ⊎ ((b'A' ≤ x) × (x ≤ b'Z')))

letter-IsLetter : (q : ℕ) → q < 32 → IsLetter (letter q)
unfolding letter
letter-IsLetter q h = ground arith

pub encode-IsLetter : (b : Bytes) → All IsByte b → All IsLetter (encode b)
unfolding encode
encode-IsLetter [] h = tt
encode-IsLetter (a ∷ []) h = grind (arith, letter-IsLetter)
encode-IsLetter (a ∷ b ∷ []) h = grind (arith, letter-IsLetter)
encode-IsLetter (a ∷ b ∷ c ∷ []) h = grind (arith, letter-IsLetter)
encode-IsLetter (a ∷ b ∷ c ∷ d ∷ []) h = grind (arith, letter-IsLetter)
encode-IsLetter (a ∷ b ∷ c ∷ d ∷ e ∷ s) h = grind (arith, letter-IsLetter, encode-IsLetter s)

strip_newlines-IsLetter : (s : Bytes) → All IsLetter s → strip_newlines s ≡ s
unfolding strip_newlines
strip_newlines-IsLetter [] h = refl
strip_newlines-IsLetter (x ∷ s) (h, hs) = ground (arith, strip_newlines-IsLetter s hs)

-- Bytes that are encoded are decoded to themselves.
pub decode_string-encode : (b : Bytes) → All IsByte b → decode_string (encode b) ≡ ok b
unfolding decode_string
decode_string-encode b h =
    rw
      (
        decode_string,
        strip_newlines-IsLetter (encode b) (encode-IsLetter b h),
        decode_from-encode b h,
      )
      refl
