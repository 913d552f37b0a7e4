-- ===== src/Blobs/Store.antt =====
-- The state of the blob store. `lock` says that the mutex is held.
pub mod Layers
use ipdr.Prelude.{
  ℕ, Bool, true, false, Option, none, some, List, [], ◌∷◌, ◌++◌, Bytes, Map, empty, insert, delete,
  get_or_nil, if◌then◌else◌,
}
use ipdr.Http.{Outcome, returned, panicked, blocked, map_state}

pub record Blobs : Type 0 where
  pub contents : Map Bytes
  pub uploads : Map Bytes
  pub layers : Map (List Bytes)
  pub lock : Bool

abbrev pub no_blobs : Blobs
no_blobs = record { contents = empty; uploads = empty; layers = empty; lock = false }

-- b.uploads[target]
abbrev pub upload_of : Blobs → Bytes → Bytes
upload_of b target = get_or_nil (b.uploads target)

abbrev pub release : Blobs → Blobs
release b = record b { lock = false }

-- b.lock.Lock(); defer b.lock.Unlock()
abbrev pub with_lock : Blobs → (Blobs → Outcome Blobs) → Outcome Blobs
with_lock b body = if b.lock then blocked b else map_state release (body (record b { lock = true }))

-- b.contents[d] = blob; b.layers[repo] = append(b.layers[repo], d)
abbrev pub push : Bytes → Bytes → Bytes → Blobs → Blobs
push repo d blob b = record b {
  contents = insert d blob b.contents;
  layers = insert repo (get_or_nil (b.layers repo) ++ d ∷ []) b.layers;
}

-- The loop of `get`: `none` if a digest has no content.
unfoldable pub collect_layers : Map Bytes → List Bytes → Map Bytes → Option (Map Bytes)
collect_layers contents [] layers = some layers
collect_layers contents (d ∷ ds) layers = elim (contents d) [
  | none ↦ none
  | some blob ↦ collect_layers contents ds (insert d blob layers)
]

-- The outer `none` is a wait for ever. On failure the lock stays held.
unfoldable pub get : Blobs → Bytes → Option (Blobs × Option (Map Bytes))
get b repo = if b.lock then none else elim (b.layers repo) [
  | none ↦ some (record b { lock = true }, none)
  | some digests ↦ elim (collect_layers b.contents digests empty) [
    | none ↦ some (record b { lock = true }, none)
    | some layers ↦ some (b, some layers)
  ]
]

unfoldable pub remove_all : List Bytes → Map Bytes → Map Bytes
remove_all [] contents = contents
remove_all (d ∷ ds) contents = remove_all ds (delete d contents)

-- `none` is a wait for ever. Where there is nothing to remove, the lock stays held.
unfoldable pub remove : Blobs → Bytes → Option Blobs
remove b repo = if b.lock then none else elim (b.layers repo) [
  | none ↦ some (record b { lock = true })
  | some digests ↦
      some (record b { contents = remove_all digests b.contents; layers = delete repo b.layers })
]
