-- ===== src/Blobs/Path/Bounds.antt =====
-- No index and no slice of blobs.go is out of range.
use ipdr.Prelude.{
  ℕ, ◌≡◌, ◌≢◌, inl, inr, ◌<◌, true, some, none, List, [], ◌∷◌, Bytes, arith, length, Option-cases,
}
use ipdr.Blobs.Path.{at_end, slice?, elements, is_blob, target_of, blob_target}

pub at_end-ne-none : (i : ℕ) (es : List Bytes) → i < length es → at_end i es ≢ none
unfolding at_end
at_end-ne-none i [] h = absurd (omega arith)
at_end-ne-none i (e ∷ es) h = ground (arith, at_end-ne-none i es)

target_of-ne-none : (elem : List Bytes) → target_of elem ≢ none
unfolding target_of slice?
target_of-ne-none elem = ground (arith, at_end-ne-none 0 elem, at_end-ne-none 1 elem)

pub blob_target-ne-none : (path : Bytes) → is_blob path ≡ some true → blob_target path ≢ none
unfolding blob_target is_blob
blob_target-ne-none path h = elim (Option-cases (elements path)) [
  | inl e ↦ ground arith
  | inr (elem, e) ↦ rw e (target_of-ne-none elem)
]
