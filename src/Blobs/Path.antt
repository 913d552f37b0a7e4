-- ===== src/Blobs/Path.antt =====
-- How blobs.go takes a path apart. `none` is a panic: an index or a slice out of range.
pub mod Bounds
pub mod Names
use ipdr.Prelude.{
  ℕ, zero, suc, ◌-◌, ◌+◌, Bool, true, false, ◌&&◌, ◌||◌, Option, none, some, List, [], ◌∷◌, Bytes,
  codes, leb, ltb, eqb, if◌then◌else◌, ◌==◌, length, take, drop,
}
use ipdr.Strings.{split, join}

-- elem[len(elem)-1-i]
unfoldable pub at_end : ℕ → List Bytes → Option Bytes
at_end i [] = none
at_end i (e ∷ es) = if eqb (length es) i then some e else at_end i es

-- xs[lo:hi]
unfoldable pub slice? : ℕ → ℕ → List Bytes → Option (List Bytes)
slice? lo hi xs =
    if leb lo hi && leb hi (length xs) then some (take (hi - lo) (drop lo xs)) else none

drop_empty_last : List Bytes → List Bytes
drop_empty_last [] = []
drop_empty_last ([] ∷ []) = []
drop_empty_last ((x ∷ e) ∷ []) = (x ∷ e) ∷ []
drop_empty_last (e ∷ f ∷ es) = e ∷ drop_empty_last (f ∷ es)

-- The elements of the path, without the empty one of a slash at the end.
unfoldable pub elements : Bytes → Option (List Bytes)
unfolding drop_empty_last
elements path = elim (drop 1 (split path b'/')) [
  | [] ↦ none
  | e ∷ es ↦ some (drop_empty_last (e ∷ es))
]

infixl 5 ◌>>=◌
abbrev ◌>>=◌ {ℓ κ} : {A : Type ℓ} {B : Type κ} → Option A → (A → Option B) → Option B
none >>= f = none
some a >>= f = f a

-- isBlob, on the elements
unfoldable pub is_blob_of : List Bytes → Option Bool
is_blob_of elem = if ltb (length elem) 3 then some false else do
  service ← at_end 1 elem
  above ← at_end 2 elem
  some (service == codes "blobs" || (above == codes "blobs" && service == codes "uploads"))

unfoldable pub is_blob : Bytes → Option Bool
is_blob path = do elem ← elements path; is_blob_of elem

-- What the handler reads off the path. `above` holds elem[1:len(elem)-2] and `upper`
-- elem[1:len(elem)-3].
pub record Target : Type 0 where
  pub target : Bytes
  pub service : Bytes
  pub above : List Bytes
  pub upper : List Bytes
  pub repo : Bytes

abbrev repo_of : Bytes → List Bytes → List Bytes → Bytes
repo_of service above upper = join (if service == codes "uploads" then upper else above) (codes "/")

-- Inside, `none` is a path of fewer than four elements.
unfoldable pub target_of : List Bytes → Option (Option Target)
target_of elem = if ltb (length elem) 4 then some none else do
  target ← at_end 0 elem
  service ← at_end 1 elem
  above ← slice? 1 (length elem - 2) elem
  upper ← slice? 1 (length elem - 3) elem
  some (
      some (record {
        target = target;
        service = service;
        above = above;
        upper = upper;
        repo = repo_of service above upper;
      }))

unfoldable pub blob_target : Bytes → Option (Option Target)
blob_target path = do elem ← elements path; target_of elem
