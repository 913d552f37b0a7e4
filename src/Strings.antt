-- ===== src/Strings.antt =====
-- What the program uses of Go's `strings`, `path` and `sort` packages, over bytes. Upper and lower
-- case and white space are those of ASCII.
pub mod Laws
use ipdr.Prelude.{
  ℕ, zero, suc, ◌+◌, ◌-◌, Bool, true, false, ◌&&◌, ◌||◌, not, List, [], ◌∷◌, ◌++◌, Bytes, codes,
  eqb, leb, ltb, if◌then◌else◌, ◌==◌, length, drop,
}

-- strings.HasPrefix(s, p)
unfoldable pub has_prefix : Bytes → Bytes → Bool
has_prefix s [] = true
has_prefix [] (x ∷ p) = false
has_prefix (y ∷ s) (x ∷ p) = eqb y x && has_prefix s p

-- strings.TrimPrefix(s, p)
unfoldable pub trim_prefix : Bytes → Bytes → Bytes
trim_prefix s p = if has_prefix s p then drop (length p) s else s

-- strings.Contains(s, p); strings.Index(s, p) != -1
unfoldable pub contains : Bytes → Bytes → Bool
contains [] p = has_prefix [] p
contains (x ∷ s) p = has_prefix (x ∷ s) p || contains s p

-- The byte joins the part that is being read.
unfoldable pub grow : ℕ → List Bytes → List Bytes
grow x [] = (x ∷ []) ∷ []
grow x (p ∷ ps) = (x ∷ p) ∷ ps

-- strings.Split(s, sep) at a separator of one byte
unfoldable pub split : Bytes → ℕ → List Bytes
unfolding grow
split [] sep = [] ∷ []
split (x ∷ s) sep = let rest = split s sep in if eqb x sep then [] ∷ rest else grow x rest

-- strings.SplitN(s, sep, 2) at a separator of one byte
unfoldable pub split_n2 : Bytes → ℕ → List Bytes
unfolding grow
split_n2 [] sep = [] ∷ []
split_n2 (x ∷ s) sep = let rest = split_n2 s sep in if eqb x sep then [] ∷ s ∷ [] else grow x rest

-- strings.Join(parts, sep)
unfoldable pub join : List Bytes → Bytes → Bytes
join [] sep = []
join (p ∷ []) sep = p
join (p ∷ q ∷ ps) sep = p ++ (sep ++ join (q ∷ ps) sep)

abbrev is_space : ℕ → Bool
is_space c = eqb c 32 || (leb 9 c && leb c 13)

trim_left : Bytes → Bytes
trim_left [] = []
trim_left (x ∷ s) = let rest = trim_left s in if is_space x then rest else x ∷ s

-- Drops the bytes at the end that pass the test.
trim_right_by : (ℕ → Bool) → Bytes → Bytes
trim_right_by p [] = []
trim_right_by p (x ∷ s) =
    let rest = trim_right_by p s in
    elim rest [ [] ↦ if p x then [] else x ∷ [] | y ∷ t ↦ x ∷ y ∷ t ]

-- strings.TrimRight(s, cutset) at a cutset of one byte
unfoldable pub trim_right : Bytes → ℕ → Bytes
unfolding trim_right_by
trim_right s c = trim_right_by (λ x. eqb x c) s

-- strings.TrimSpace(s)
unfoldable pub trim_space : Bytes → Bytes
unfolding trim_left trim_right_by
trim_space s = trim_right_by is_space (trim_left s)

-- strings.ToLower(s)
unfoldable pub to_lower : Bytes → Bytes
to_lower [] = []
to_lower (x ∷ s) = (if leb b'A' x && leb x b'Z' then x + 32 else x) ∷ to_lower s

-- strings.ToUpper(s)
unfoldable pub to_upper : Bytes → Bytes
to_upper [] = []
to_upper (x ∷ s) = (if leb b'a' x && leb x b'z' then x - 32 else x) ∷ to_upper s

-- The order of Go's strings.
unfoldable pub str_le : Bytes → Bytes → Bool
str_le [] t = true
str_le (x ∷ s) [] = false
str_le (x ∷ s) (y ∷ t) = ltb x y || (eqb x y && str_le s t)

insert_sorted : Bytes → List Bytes → List Bytes
insert_sorted s [] = s ∷ []
insert_sorted s (t ∷ ts) =
    let rest = insert_sorted s ts in if str_le s t then s ∷ t ∷ ts else t ∷ rest

-- sort.Strings(l)
unfoldable pub sort_strings : List Bytes → List Bytes
unfolding insert_sorted
sort_strings [] = []
sort_strings (s ∷ ts) = insert_sorted s (sort_strings ts)

-- One round of path.Clean; the stack has its top at the head.
clean_step : Bool → List Bytes → Bytes → List Bytes
clean_step rooted stack part =
    if part == codes "" || part == codes "."
    then stack
    else if part == codes ".."
    then elim stack [
      | [] ↦ if rooted then [] else part ∷ []
      | top ∷ rest ↦ if top == codes ".." then part ∷ top ∷ rest else rest
    ]
    else part ∷ stack

clean_from : Bool → List Bytes → List Bytes → List Bytes
clean_from rooted stack [] = stack
clean_from rooted stack (part ∷ parts) = clean_from rooted (clean_step rooted stack part) parts

reverse_onto : List Bytes → List Bytes → List Bytes
reverse_onto [] out = out
reverse_onto (p ∷ ps) out = reverse_onto ps (p ∷ out)

or_dot : Bytes → Bytes
or_dot [] = codes "."
or_dot (x ∷ s) = x ∷ s

-- path.Clean(p)
unfoldable pub clean : Bytes → Bytes
unfolding clean_from clean_step reverse_onto or_dot has_prefix split join ◌==◌
clean p =
    let rooted = has_prefix p (codes "/") in
    let body = join (reverse_onto (clean_from rooted [] (split p b'/')) []) (codes "/") in
    if rooted then b'/' ∷ body else or_dot body

non_empty : List Bytes → List Bytes
non_empty [] = []
non_empty ([] ∷ ps) = non_empty ps
non_empty ((x ∷ p) ∷ ps) = (x ∷ p) ∷ non_empty ps

clean_unless_empty : List Bytes → Bytes
clean_unless_empty [] = []
clean_unless_empty (p ∷ ps) = clean (join (p ∷ ps) (codes "/"))

-- path.Join(parts...)
unfoldable pub path_join : List Bytes → Bytes
unfolding non_empty clean_unless_empty
path_join parts = clean_unless_empty (non_empty parts)
