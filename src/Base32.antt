-- ===== src/Base32.antt =====
-- base32.StdEncoding of the package encoding/base32: eight letters of five bits for five bytes, and
-- `=` behind the letters of a last group that is not full.
pub mod RoundTrip
use ipdr.Prelude.{
  ℕ, zero, suc, ◌+◌, ◌-◌, ◌*◌, ◌/◌, ◌%◌, ◌^◌, Bool, true, false, ◌&&◌, ◌||◌, Option, none, some,
  Result, ok, err, List, [], ◌∷◌, ◌++◌, Bytes, codes, eqb, ltb, leb, if◌then◌else◌, length, take,
}

-- The letter of five bits.
unfoldable pub letter : ℕ → ℕ
letter q = if ltb q 26 then b'A' + q else b'2' + (q - 26)

-- EncodeToString
unfoldable pub encode : Bytes → Bytes
encode [] = []
encode (a ∷ []) = letter (a / 8) ∷ letter (a % 8 * 4) ∷ codes "======"
encode (a ∷ b ∷ []) =
    letter (a / 8)
    ∷ letter (a % 8 * 4 + b / 64)
    ∷ letter (b / 2 % 32)
    ∷ letter (b % 2 * 16)
    ∷ codes "===="
encode (a ∷ b ∷ c ∷ []) =
    letter (a / 8)
    ∷ letter (a % 8 * 4 + b / 64)
    ∷ letter (b / 2 % 32)
    ∷ letter (b % 2 * 16 + c / 16)
    ∷ letter (c % 16 * 2)
    ∷ codes "==="
encode (a ∷ b ∷ c ∷ d ∷ []) =
    letter (a / 8)
    ∷ letter (a % 8 * 4 + b / 64)
    ∷ letter (b / 2 % 32)
    ∷ letter (b % 2 * 16 + c / 16)
    ∷ letter (c % 16 * 2 + d / 128)
    ∷ letter (d / 4 % 32)
    ∷ letter (d % 4 * 8)
    ∷ codes "="
encode (a ∷ b ∷ c ∷ d ∷ e ∷ s) =
    letter (a / 8)
    ∷ letter (a % 8 * 4 + b / 64)
    ∷ letter (b / 2 % 32)
    ∷ letter (b % 2 * 16 + c / 16)
    ∷ letter (c % 16 * 2 + d / 128)
    ∷ letter (d / 4 % 32)
    ∷ letter (d % 4 * 8 + e / 32)
    ∷ letter (e % 32)
    ∷ encode s

-- The five bits of a letter.
unfoldable pub value : ℕ → Option ℕ
value x =
    if leb b'A' x && leb x b'Z'
    then some (x - b'A')
    else if leb b'2' x && leb x b'7'
    then some (26 + (x - b'2'))
    else none

-- The bytes of a group of two, four, five, seven or eight letters.
unfoldable pub unpack : List ℕ → Bytes
unpack (p ∷ q ∷ []) = (p * 8 % 256 + q / 4) ∷ []
unpack (p ∷ q ∷ r ∷ s ∷ []) = (p * 8 % 256 + q / 4) ∷ (q * 64 % 256 + r * 2 + s / 16) ∷ []
unpack (p ∷ q ∷ r ∷ s ∷ t ∷ []) =
    (p * 8 % 256 + q / 4) ∷ (q * 64 % 256 + r * 2 + s / 16) ∷ (s * 16 % 256 + t / 2) ∷ []
unpack (p ∷ q ∷ r ∷ s ∷ t ∷ u ∷ v ∷ []) =
    (p * 8 % 256 + q / 4)
    ∷ (q * 64 % 256 + r * 2 + s / 16)
    ∷ (s * 16 % 256 + t / 2)
    ∷ (t * 128 % 256 + u * 4 + v / 8)
    ∷ []
unpack (p ∷ q ∷ r ∷ s ∷ t ∷ u ∷ v ∷ w ∷ []) =
    (p * 8 % 256 + q / 4)
    ∷ (q * 64 % 256 + r * 2 + s / 16)
    ∷ (s * 16 % 256 + t / 2)
    ∷ (t * 128 % 256 + u * 4 + v / 8)
    ∷ (v * 32 % 256 + w)
    ∷ []
unpack _ = []

all_pads : Bytes → Bool
all_pads [] = true
all_pads (x ∷ s) = eqb x b'=' && all_pads s

-- The group ends with a pad behind `j` letters, and `rest` follows: enough pads, and no group of
-- three or six letters. What follows the pads is not looked at.
finish : ℕ → List ℕ → Bytes → Option Bytes
unfolding all_pads
finish j group rest =
    if ltb (length rest + j) 7 || eqb j 3 || eqb j 6
    then none
    else if all_pads (take (7 - j) rest)
    then some (unpack group)
    else none

-- Reads the letters behind the `j` ones of `group`.
decode_from : ℕ → List ℕ → Bytes → Option Bytes
unfolding finish
decode_from j group [] = if eqb j 0 then some [] else none
decode_from j group (x ∷ s) =
    let next = decode_from 0 [] s in
    if eqb x b'=' && leb 2 j && ltb (length s) 8 then finish j group s else elim (value x) [
      | none ↦ none
      | some q ↦
          let more = decode_from (suc j) (group ++ q ∷ []) s in
          if eqb j 7
          then (elim next [ none ↦ none | some b ↦ some (unpack (group ++ q ∷ []) ++ b) ])
          else more
    ]

strip_newlines : Bytes → Bytes
strip_newlines [] = []
strip_newlines (x ∷ s) =
    let rest = strip_newlines s in if eqb x 10 || eqb x 13 then rest else x ∷ rest

-- DecodeString
unfoldable pub decode_string : Bytes → Result Bytes
unfolding decode_from strip_newlines
decode_string s = elim (decode_from 0 [] (strip_newlines s)) [
  | none ↦ err (codes "illegal base32 data")
  | some b ↦ ok b
]
