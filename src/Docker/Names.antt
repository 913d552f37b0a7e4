-- ===== src/Docker/Names.antt =====
-- docker/util.go. `.` of a regular expression is any byte but the end of a line; the first way to
-- match counts, and a greedy star tries the longest first.
pub mod Laws
use ipdr.Prelude.{
  ℕ, zero, suc, ◌+◌, ◌-◌, ◌≤◌, ◌≡◌, ◌≢◌, refl, Bool, true, false, ◌&&◌, ◌||◌, Option, none, some,
  List, [], ◌∷◌, ◌++◌, Bytes, codes, arith, All, eqb, leb, if◌then◌else◌, ◌==◌, length, inl, inr,
  ◌⊎◌, Option-cases,
}
use ipdr.Strings.{has_prefix, trim_prefix}
use ipdr.Strings.Laws.{Lacks}
use ipdr.Regutil.{first_line}

-- What follows the first slash of the line: `.*?\/`
unfoldable pub after_slash : Bytes → Option Bytes
after_slash [] = none
after_slash (x ∷ s) =
    let rest = after_slash s in if eqb x b'/' then some s else if eqb x 10 then none else rest

-- What follows `.*\..*?\/`: the first slash behind the last dot that has one behind it.
unfoldable pub after_host : Bytes → Option Bytes
after_host [] = none
after_host (x ∷ s) =
    let later = after_host s in
    if eqb x 10
    then none
    else elim later [ some r ↦ some r | none ↦ if eqb x b'.' then after_slash s else none ]

-- The last match of `(.*\..*?\/)?(.*)`
unfoldable pub without_host : Bytes → Bytes
without_host s = elim (after_host s) [ some r ↦ first_line r | none ↦ first_line s ]

unfoldable pub strip_image_tag_host : Bytes → Bytes
strip_image_tag_host tag = trim_prefix (without_host tag) (codes "library/")

abbrev pub is_alnum : ℕ → Bool
is_alnum x = (leb b'0' x && leb x b'9') || (leb b'a' x && leb x b'z') || (leb b'A' x && leb x b'Z')

-- The first `n` bytes, all letters or digits, and what follows.
unfoldable pub take_alnum : ℕ → Bytes → Option (Bytes × Bytes)
take_alnum zero s = some ([], s)
take_alnum (suc n) [] = none
take_alnum (suc n) (x ∷ s) =
    if is_alnum x
    then elim (take_alnum n s) [ none ↦ none | some r ↦ some (x ∷ r.0, r.1) ]
    else none

-- What follows the line.
unfoldable pub after_line : Bytes → Bytes
after_line [] = []
after_line (x ∷ s) = let rest = after_line s in if eqb x 10 then x ∷ s else rest

-- A match of `(sha256:)?([0-9a-zA-Z]{12}).*` here: the twelve, and what follows the match.
unfoldable pub match_short : Bytes → Option (Bytes × Bytes)
match_short s =
    let plain = take_alnum 12 s in
    let tagged = take_alnum 12 (trim_prefix s (codes "sha256:")) in
    elim (if has_prefix s (codes "sha256:") then tagged else none) [
      | some r ↦ some (r.0, after_line r.1)
      | none ↦ elim plain [ none ↦ none | some r ↦ some (r.0, after_line r.1) ]
    ]

-- ReplaceAllString from left to right; a match is longer than eleven bytes, so that the length is
-- fuel enough.
replace_short : ℕ → Bytes → Bytes
replace_short zero s = s
replace_short (suc f) [] = []
replace_short (suc f) (x ∷ s) = elim (match_short (x ∷ s)) [
  | some r ↦ r.0 ++ replace_short f r.1
  | none ↦ x ∷ replace_short f s
]

unfoldable pub short_image_id : Bytes → Bytes
unfolding replace_short
short_image_id s = replace_short (length s) s
