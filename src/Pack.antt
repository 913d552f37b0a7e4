-- ===== src/Pack.antt =====
-- registry/registry.go: how an image archive of Docker is laid out for IPFS. The disk is a map from
-- paths to contents; the directories that mkdir makes are a part of what `writable` says.
pub mod Layer
pub mod Prep
pub mod Upload
pub mod Untar
pub mod Laws
pub mod Served
pub mod Offered
pub mod Names
use ipdr.Prelude.{
  ℕ, Bool, true, false, Option, none, some, Result, ok, err, ◌>>=◌, List, [], ◌∷◌, ◌++◌, Bytes,
  codes, Map, insert, delete, if◌then◌else◌, ◌==◌, length, ltb, ◌-◌, take,
}
use ipdr.Strings.{contains, split_n2}
use ipdr.Image.{ImageManifest, Descriptor}
use ipdr.Regutil.{or_empty}

abbrev pub Files : Type 0
Files = Map Bytes

-- An entry of manifest.json. `none` is a field that is absent or of another type.
pub record ArchiveImage : Type 0 where
  pub config : Option Bytes
  pub layers : Option (List (Option Bytes))

-- The libraries and the file system.
pub record Tools : Type 0 where
  pub gzip : Bytes → Bytes
  pub sha256_hex : Bytes → Bytes
  pub writable : Bytes → Bool
  -- json.Marshal, and json.Unmarshal of manifest.json and of the file `repositories`
  pub marshal : ImageManifest → Result Bytes
  pub parse_archive : Bytes → Result (List ArchiveImage)
  pub parse_repositories : Bytes → Result (List (Bytes × List (Bytes × Bytes)))

unfoldable pub read_file : Bytes → Files → Result Bytes
read_file path fs = elim (fs path) [
  | none ↦ err (codes "no such file or directory")
  | some b ↦ ok b
]

unfoldable pub write_file : Tools → Bytes → Bytes → Files → Result Files
write_file t path b fs =
    if t.writable path then ok (insert path b fs) else err (codes "cannot write the file")

-- The error of reading is ignored.
unfoldable pub gzip_file : Tools → Bytes → Bytes → Files → Result Files
gzip_file t src dst fs = write_file t dst (t.gzip (or_empty (read_file src fs))) fs

unfoldable pub file_size : Bytes → Files → Result ℕ
file_size path fs = do b ← read_file path fs; ok (length b)

unfoldable pub sha256_file : Tools → Bytes → Files → Result Bytes
sha256_file t path fs = do b ← read_file path fs; ok (t.sha256_hex b)

unfoldable pub rename_file : Tools → Bytes → Bytes → Files → Result Files
rename_file t src dst fs = do b ← read_file src fs; write_file t dst b (delete src fs)

unfoldable pub copy_file : Tools → Bytes → Bytes → Files → Result Files
copy_file t src dst fs = do b ← read_file src fs; write_file t dst b fs

abbrev pub layer_tmp : Bytes → Bytes
layer_tmp blob_dir = blob_dir ++ codes "/layer.tmp.tgz"

abbrev pub layer_path : Bytes → Bytes → Bytes
layer_path blob_dir digest = blob_dir ++ (codes "/sha256:" ++ digest)

-- The files, the size and the digest.
unfoldable pub compress_layer : Tools → Bytes → Bytes → Files → Result (Files × (ℕ × Bytes))
compress_layer t path blob_dir fs = do
  gzipped ← gzip_file t path (layer_tmp blob_dir) fs
  digest ← sha256_file t (layer_tmp blob_dir) gzipped
  size ← file_size (layer_tmp blob_dir) gzipped
  renamed ← rename_file t (layer_tmp blob_dir) (layer_path blob_dir digest) gzipped
  ok (renamed, (size, digest))

abbrev pub layer_of : ℕ → Bytes → Descriptor
layer_of size digest = record {
  media_type = codes "application/vnd.docker.image.rootfs.diff.tar.gzip";
  size = size;
  digest = codes "sha256:" ++ digest;
}

-- The loop over the layers.
unfoldable pub compress_layers :
    Tools → Bytes → Bytes → Files → List (Option Bytes) → Result (Files × List (Option Descriptor))
compress_layers t tmp blob_dir fs [] = ok (fs, [])
compress_layers t tmp blob_dir fs (none ∷ ls) = err (codes "expected string")
compress_layers t tmp blob_dir fs (some layer ∷ ls) = do
  one ← compress_layer t (tmp ++ b'/' ∷ layer) blob_dir fs
  rest ← compress_layers t tmp blob_dir one.0 ls
  ok (rest.0, some (layer_of one.1.0 one.1.1) ∷ rest.1)

-- The configuration is filled in by `make_v2_manifest`.
unfoldable pub prepare_v2_manifest :
    Tools → ArchiveImage → Bytes → Bytes → Files → Result (Files × List (Option Descriptor))
prepare_v2_manifest t mf tmp blob_dir fs = elim mf.layers [
  | none ↦ err (codes "expected layers")
  | some ls ↦ compress_layers t tmp blob_dir fs ls
]

unfoldable pub make_v2_manifest :
    Tools → ArchiveImage → Bytes → Bytes → Bytes → Bytes → Files → Result (Files × ImageManifest)
make_v2_manifest t mf config_digest config_dest tmp workdir fs = do
  prepared ← prepare_v2_manifest t mf tmp (workdir ++ codes "/blobs") fs
  size ← file_size config_dest prepared.0
  ok (
    prepared.0,
    record {
      schema_version = 2;
      media_type = codes "application/vnd.docker.distribution.manifest.v2+json";
      config = some (record {
        media_type = codes "application/vnd.docker.container.image.v1+json";
        size = size;
        digest = config_digest;
      });
      layers = prepared.1;
    },
  )

-- The tag of an image.
unfoldable pub ref : Bytes → Bytes
ref s = if contains s (codes "sha256:") then codes "latest" else elim (split_n2 s b':') [
  | [] ↦ codes "latest"
  | name ∷ rest ↦ elim rest [ [] ↦ codes "latest" | tag ∷ more ↦ tag ]
]

unfoldable pub write_json : Tools → ImageManifest → Bytes → Files → Result Files
write_json t mf path fs = do json ← t.marshal mf; write_file t path json fs

abbrev pub manifest_path : Bytes → Bytes → Bytes
manifest_path workdir tag = workdir ++ (codes "/manifests/" ++ tag)

unfoldable pub write_latest : Tools → ImageManifest → Bytes → Bytes → Files → Result Files
write_latest t mf workdir tag fs =
    if tag == codes "latest"
    then ok fs
    else write_json t mf (manifest_path workdir (codes "latest")) fs

unfoldable pub write_manifest : Tools → ImageManifest → Bytes → Bytes → Files → Result Files
write_manifest t mf workdir image_id fs = do
  one ← write_latest t mf workdir (ref image_id) fs
  two ← write_json t mf (manifest_path workdir (ref image_id)) one
  json ← t.marshal mf
  write_json t mf (manifest_path workdir (codes "sha256:" ++ t.sha256_hex json)) two
