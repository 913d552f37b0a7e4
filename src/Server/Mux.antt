-- ===== src/Server/Mux.antt =====
-- net/http's ServeMux with the two patterns of `Start`: what it passes on to the registry.
use ipdr.Prelude.{
  ◌⊎◌, ◌≡◌, ◌≢◌, Bool, true, false, not, ◌&&◌, ◌||◌, none, some, [], ◌∷◌, ◌++◌, Bytes, codes, eqb,
  if◌then◌else◌, ◌==◌, arith, Option-cases, inl, inr,
}
use ipdr.Strings.{clean, has_prefix, split, grow}
use ipdr.Blobs.Path.{elements, is_blob_of, is_blob, blob_target, slice?}
use ipdr.Blobs.Path.Bounds.{at_end-ne-none, blob_target-ne-none}
use ipdr.Manifests.Handle.{raw_elements, is_manifest, manifest_target}

-- Where a request goes; `moved` is the answer 301 with the path that it gives.
pub data Route : Type 0 where
  moved : Bytes → Route
  to_health : Route
  to_registry : Route
  not_found : Route

ends_in_slash : Bytes → Bool
ends_in_slash [] = false
ends_in_slash (x ∷ []) = eqb x b'/'
ends_in_slash (x ∷ y ∷ s) = ends_in_slash (y ∷ s)

abbrev rooted : Bytes → Bytes
rooted path = if has_prefix path (codes "/") then path else b'/' ∷ path

-- cleanPath of net/http
unfoldable pub clean_path : Bytes → Bytes
unfolding ends_in_slash
clean_path [] = codes "/"
clean_path (x ∷ s) =
    let p = rooted (x ∷ s) in
    let np = clean p in if ends_in_slash p && not (np == codes "/") then np ++ codes "/" else np

-- The pattern that a path matches.
unfoldable pub match_path : Bytes → Route
match_path path =
    if path == codes "/health"
    then to_health
    else if has_prefix path (codes "/")
    then to_registry
    else not_found

-- The path of CONNECT is taken as it is.
unfoldable pub route : Bytes → Bytes → Route
unfolding match_path
route method path =
    if method == codes "CONNECT" || path == clean_path path
    then match_path path
    else moved (clean_path path)

has_slash : (path : Bytes) → match_path path ≡ to_registry → (s : Bytes) × (path ≡ b'/' ∷ s)
unfolding match_path has_prefix
has_slash [] h = ground arith
has_slash (x ∷ s) h = ground arith

split-ne-nil : (s : Bytes) → split s b'/' ≢ []
unfolding split grow
split-ne-nil [] = ground arith
split-ne-nil (x ∷ s) = grind (arith, split-ne-nil s)

elements-cons : (s : Bytes) → elements (b'/' ∷ s) ≢ none
unfolding elements split
elements-cons s = ground (arith, split-ne-nil s)

is_blob-cons : (s : Bytes) → is_blob (b'/' ∷ s) ≢ none
unfolding is_blob is_blob_of
is_blob-cons s = elim (Option-cases (elements (b'/' ∷ s))) [
  | inl e ↦ absurd (elements-cons s e)
  | inr (es, e) ↦ rw e (ground (arith, at_end-ne-none 1 es, at_end-ne-none 2 es))
]

is_manifest-ne-none : (path : Bytes) → is_manifest path ≢ none
unfolding is_manifest
is_manifest-ne-none path = ground (arith, at_end-ne-none 1 (raw_elements path))

manifest_target-ne-none :
    (path : Bytes) → is_manifest path ≡ some true → manifest_target path ≢ none
unfolding manifest_target is_manifest slice?
manifest_target-ne-none path h = ground (arith, at_end-ne-none 0 (raw_elements path))

blob_target-cases :
    (path : Bytes) → is_blob path ≢ none → (is_blob path ≡ some false) ⊎ (blob_target path ≢ none)
blob_target-cases path h = ground (arith, blob_target-ne-none path)

manifest_target-cases :
    (path : Bytes) → (is_manifest path ≡ some false) ⊎ (manifest_target path ≢ none)
manifest_target-cases path = ground (arith, is_manifest-ne-none path, manifest_target-ne-none path)

-- A path that the server's multiplexer passes on to the registry, CONNECT's too, puts no index and no
-- slice out of range, neither in the tests for blobs and for manifests nor where their handlers take
-- the path apart.
pub route_registry :
    (method path : Bytes)
    → route method path ≡ to_registry
    → (is_blob path ≢ none)
      × (is_manifest path ≢ none)
      × ((is_blob path ≡ some false) ⊎ (blob_target path ≢ none))
      × ((is_manifest path ≡ some false) ⊎ (manifest_target path ≢ none))
unfolding route
route_registry method path h =
    let (s, e) = has_slash path (ground arith) in
    let blob : is_blob path ≢ none = rw e (is_blob-cons s) in
    (blob, is_manifest-ne-none path, blob_target-cases path blob, manifest_target-cases path)
