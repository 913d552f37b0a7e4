-- ===== src/Cids.antt =====
-- server/registry/cids.go: the store of known CIDs. `Add` and `Get` release the lock on every path,
-- so it is not part of the state.
pub mod Laws
use ipdr.Prelude.{
  Bool, true, false, not, ◌&&◌, Option, none, some, Result, ok, err, List, [], ◌∷◌, ◌++◌, Bytes,
  codes, Map, empty, insert, if◌then◌else◌, ◌==◌,
}
use ipdr.Strings.{join, split_n2, has_prefix, path_join}

-- `files` is the content of the files below `location`, by path.
pub record CidStore : Type 0 where
  pub cids : Map Bytes
  pub location : Bytes
  pub files : Map Bytes

unfoldable pub key : Bytes → Bytes → Bytes
key repo ref = repo ++ b':' ∷ ref

unfoldable pub file_path : Bytes → Bytes → Bytes
file_path location k = path_join (location ∷ join (split_n2 k b':') (codes "/") ∷ [])

unfoldable pub read_cid : CidStore → Bytes → Result Bytes
read_cid s k = elim (s.files (file_path s.location k)) [
  | none ↦ err (codes "no such file or directory")
  | some content ↦ ok content
]

-- The caller ignores the error of a write that fails.
unfoldable pub write_cid : (Bytes → Bool) → CidStore → Bytes → Bytes → CidStore
write_cid writable s k val =
    let p = file_path s.location k in
    if writable p then record s { files = insert p val s.files } else s

unfoldable pub add : (Bytes → Bool) → CidStore → Bytes → Bytes → Bytes → CidStore
add writable s repo reference cid =
    let k = key repo reference in
    let s' : CidStore = record s { cids = insert k cid s.cids } in
    if not (repo == cid) && not (has_prefix reference (codes "sha256:"))
    then write_cid writable s' k cid
    else s'

unfoldable pub get : CidStore → Bytes → Bytes → Option Bytes
get s repo reference =
    let k = key repo reference in
    elim (s.cids k) [
      | some val ↦ some val
      | none ↦ elim (read_cid s k) [ ok v ↦ some v | err e ↦ none ]
    ]

unfoldable pub new_cid_store : Bytes → Map Bytes → CidStore
new_cid_store location files = record { cids = empty; location = location; files = files }
