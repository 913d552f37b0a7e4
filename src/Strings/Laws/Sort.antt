-- ===== src/Strings/Laws/Sort.antt =====
-- Sorting keeps the texts and puts them in order.
use ipdr.Prelude.{
  ◌≡◌, refl, Bool, true, false, ◌||◌, List, [], ◌∷◌, Bytes, arith, All, ◌==◌, ==_iff, Bool-cases,
  inl, inr,
}
use ipdr.Strings.{str_le, insert_sorted, sort_strings}

-- s is in the list.
unfoldable pub contains_str : Bytes → List Bytes → Bool
contains_str s [] = false
contains_str s (t ∷ ts) = s == t || contains_str s ts

str_le_total : (s t : Bytes) → str_le s t ≡ false → str_le t s ≡ true
unfolding str_le
str_le_total [] t h = ground arith
str_le_total (x ∷ s) [] h = refl
str_le_total (x ∷ s) (y ∷ t) h = ground (arith, str_le_total s t)

str_le_trans : (s t u : Bytes) → str_le s t ≡ true → str_le t u ≡ true → str_le s u ≡ true
unfolding str_le
str_le_trans [] t u h k = refl
str_le_trans (x ∷ s) [] u h k = ground arith
str_le_trans (x ∷ s) (y ∷ t) [] h k = k
str_le_trans (x ∷ s) (y ∷ t) (z ∷ u) h k = ground (arith, str_le_trans s t u)

-- Each text is at most every later one.
abbrev pub IsSorted : List Bytes → Type 0
IsSorted [] = Unit
IsSorted (s ∷ ts) = All (λ t. str_le s t ≡ true) ts × IsSorted ts

-- No text stands twice.
abbrev pub IsDistinct : List Bytes → Type 0
IsDistinct [] = Unit
IsDistinct (s ∷ ts) = (contains_str s ts ≡ false) × IsDistinct ts

All-str_le_trans :
    (s t : Bytes) (ts : List Bytes)
    → str_le s t ≡ true
    → All (λ u. str_le t u ≡ true) ts
    → All (λ u. str_le s u ≡ true) ts
All-str_le_trans s t [] h k = tt
All-str_le_trans s t (u ∷ us) h (a, k) = (str_le_trans s t u h a, All-str_le_trans s t us h k)

All-insert_sorted :
    (p s : Bytes) (ts : List Bytes)
    → str_le p s ≡ true
    → All (λ u. str_le p u ≡ true) ts
    → All (λ u. str_le p u ≡ true) (insert_sorted s ts)
unfolding insert_sorted
All-insert_sorted p s [] h k = (h, tt)
All-insert_sorted p s (t ∷ ts) h (a, k) = ground (arith, All-insert_sorted p s ts h k)

insert_sorted-IsSorted : (s : Bytes) (ts : List Bytes) → IsSorted ts → IsSorted (insert_sorted s ts)
unfolding insert_sorted
insert_sorted-IsSorted s [] h = (tt, tt)
insert_sorted-IsSorted s (t ∷ ts) (a, h) = elim (Bool-cases (str_le s t)) [
  | inl le ↦ rw le ((le, All-str_le_trans s t ts le a), (a, h))
  | inr gt ↦ rw gt (All-insert_sorted t s ts (str_le_total s t gt) a, insert_sorted-IsSorted s ts h)
]

pub sort_strings-IsSorted : (ts : List Bytes) → IsSorted (sort_strings ts)
unfolding sort_strings
sort_strings-IsSorted [] = tt
sort_strings-IsSorted (s ∷ ts) =
    insert_sorted-IsSorted s (sort_strings ts) (sort_strings-IsSorted ts)

contains_str-insert_sorted :
    (x s : Bytes) (ts : List Bytes)
    → contains_str x (insert_sorted s ts) ≡ (x == s || contains_str x ts)
unfolding insert_sorted contains_str
contains_str-insert_sorted x s [] = refl
contains_str-insert_sorted x s (t ∷ ts) = ground (arith, contains_str-insert_sorted x s ts)

pub contains_str-sort_strings :
    (x : Bytes) (ts : List Bytes) → contains_str x (sort_strings ts) ≡ contains_str x ts
unfolding sort_strings contains_str
contains_str-sort_strings x [] = refl
contains_str-sort_strings x (s ∷ ts) =
    ground (arith, contains_str-insert_sorted x s (sort_strings ts), contains_str-sort_strings x ts)

insert_sorted-IsDistinct :
    (s : Bytes) (ts : List Bytes)
    → contains_str s ts ≡ false
    → IsDistinct ts
    → IsDistinct (insert_sorted s ts)
unfolding insert_sorted contains_str
insert_sorted-IsDistinct s [] h k = (refl, tt)
insert_sorted-IsDistinct s (t ∷ ts) h (a, k) = ground (
  arith,
  insert_sorted-IsDistinct s ts,
  contains_str-insert_sorted t s ts,
  ==_iff s t,
  ==_iff t s,
)

pub sort_strings-IsDistinct : (ts : List Bytes) → IsDistinct ts → IsDistinct (sort_strings ts)
unfolding sort_strings
sort_strings-IsDistinct [] h = tt
sort_strings-IsDistinct (s ∷ ts) (a, h) =
    insert_sorted-IsDistinct s (sort_strings ts) (rw contains_str-sort_strings a)
      (sort_strings-IsDistinct ts h)
