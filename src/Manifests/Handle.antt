-- ===== src/Manifests/Handle.antt =====
-- manifest.go: which requests are about manifests, and the dispatch on the method.
use ipdr.Prelude.{
  ◌-◌, Bool, false, Option, none, some, List, Bytes, codes, ltb, if◌then◌else◌, ◌==◌, length, drop,
}
use ipdr.Strings.{split, join}
use ipdr.External.{Codecs, World}
use ipdr.Http.{Request, Writer, reg_error, Outcome, returned, panicked}
use ipdr.Blobs.{at_end, slice?}
use ipdr.Manifests.State.{Registry}
use ipdr.Manifests.Fetch.{get_handler, head_handler}
use ipdr.Manifests.Put.{put_handler}

infixl 5 ◌>>=◌
abbrev ◌>>=◌ {ℓ κ} : {A : Type ℓ} {B : Type κ} → Option A → (A → Option B) → Option B
none >>= f = none
some a >>= f = f a

-- Here the empty element of a slash at the end stays.
abbrev pub raw_elements : Bytes → List Bytes
raw_elements path = drop 1 (split path b'/')

unfoldable pub is_manifest : Bytes → Option Bool
is_manifest path =
    let elems = raw_elements path in
    if ltb (length elems) 4
    then some false
    else do kind ← at_end 1 elems; some (kind == codes "manifests")

-- The repository and the target; `none` is an index out of range.
unfoldable pub manifest_target : Bytes → Option (Bytes × Bytes)
manifest_target path = do
  let elem = raw_elements path
  target ← at_end 0 elem
  above ← slice? 1 (length elem - 2) elem
  some (join above (codes "/"), target)

unfoldable pub handle : Codecs → World → Registry → Request → Writer → Outcome Registry
handle c w r req wr = elim (manifest_target req.path) [
  | none ↦ panicked r wr
  | some (repo, target) ↦
      if req.method == codes "GET"
      then get_handler c w r repo target wr
      else if req.method == codes "HEAD"
      then head_handler c w r repo target wr
      else if req.method == codes "PUT"
      then put_handler c w repo target req wr r
      else returned r wr
          (reg_error 400 (codes "METHOD_UNKNOWN") (codes "We don't understand your method + url"))
]
