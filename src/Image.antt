-- ===== src/Image.antt =====
-- server/registry/image: the image manifest that JSON decodes to.
use ipdr.Prelude.{ℕ, Option, none, some, List, [], ◌∷◌, Bytes}

-- `Config` and `Layer` have the same fields.
pub record Descriptor : Type 0 where
  pub media_type : Bytes
  pub size : ℕ
  pub digest : Bytes

-- A pointer may be nil: `config` is absent from a manifest list, and a layer may be `null`.
pub record ImageManifest : Type 0 where
  pub schema_version : ℕ
  pub media_type : Bytes
  pub config : Option Descriptor
  pub layers : List (Option Descriptor)

unfoldable pub layer_digests : List (Option Descriptor) → Option (List Bytes)
layer_digests [] = some []
layer_digests (none ∷ ls) = none
layer_digests (some l ∷ ls) = elim (layer_digests ls) [
  | none ↦ none
  | some ds ↦ some (l.digest ∷ ds)
]

-- `none` is the panic of a nil pointer.
unfoldable pub digests : ImageManifest → Option (List Bytes)
unfolding layer_digests
digests m = elim m.config [
  | none ↦ none
  | some c ↦ elim (layer_digests m.layers) [ none ↦ none | some ds ↦ some (c.digest ∷ ds) ]
]
