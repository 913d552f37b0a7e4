-- ===== src/Pack/Prep.antt =====
-- registry/registry.go: ipfsPrep. The temporary directories are arguments.
use ipdr.Prelude.{
  ◌-◌, Option, none, some, Result, ok, err, ◌>>=◌, List, [], ◌∷◌, ◌++◌, Bytes, codes, if◌then◌else◌,
  length, ltb, take,
}
use ipdr.Regutil.{or_empty}
use ipdr.Pack.{Files, ArchiveImage, Tools, read_file, copy_file, make_v2_manifest, write_manifest}

-- The only repository, with its only tag.
only_repository : List (Bytes × List (Bytes × Bytes)) → Result Bytes
only_repository [] = err (codes "only one repository expected in input file")
only_repository ((name, tag ∷ []) ∷ []) = ok name
only_repository ((name, tags) ∷ []) = err (codes "only one tag expected for " ++ name)
only_repository (r ∷ s ∷ rs) = err (codes "only one repository expected in input file")

-- The file that is looked for is not the one that is read: there is no slash after `tmp`.
unfoldable pub repository_name : Tools → Bytes → Files → Result Bytes
unfolding only_repository
repository_name t tmp fs = elim (fs (tmp ++ codes "repositories")) [
  | none ↦ ok (codes "default")
  | some stat ↦ do
    repos ← t.parse_repositories (or_empty (read_file (tmp ++ codes "/repositories") fs))
    only_repository repos
]

first_image : List ArchiveImage → Result ArchiveImage
first_image [] = err (codes "expected manifest to contain data")
first_image (m ∷ ms) = ok m

unfoldable pub read_archive : Tools → Bytes → Files → Result ArchiveImage
unfolding first_image
read_archive t tmp fs = do
  images ← t.parse_archive (or_empty (read_file (tmp ++ codes "/manifest.json") fs))
  first_image images

-- "sha256:" + configFile[:len(configFile)-5]; `none` is the panic of a name that is too short
unfoldable pub config_digest : Bytes → Option Bytes
config_digest file =
    if ltb (length file) 5 then none else some (codes "sha256:" ++ take (length file - 5) file)

-- From the copy of the configuration on.
unfoldable pub lay_out :
    Tools → ArchiveImage → Bytes → Bytes → Bytes → Bytes → Bytes → Files → Result Files
lay_out t mf tmp workdir file digest image_id fs = do
  let dest = workdir ++ (codes "/blobs/" ++ digest)
  copied ← copy_file t (tmp ++ b'/' ∷ file) dest fs
  made ← make_v2_manifest t mf digest dest tmp workdir copied
  write_manifest t made.1 workdir image_id made.0

-- The name and the first image, once they are read.
prep_image : Tools → ArchiveImage → Bytes → Bytes → Bytes → Files → Option (Result Files)
prep_image t mf tmp workdir image_id fs = elim mf.config [
  | none ↦ some (err (codes "image archive must be produced by docker > 1.10"))
  | some file ↦ elim (config_digest file) [
    | none ↦ none
    | some digest ↦ some (lay_out t mf tmp workdir file digest image_id fs)
  ]
]

-- The files below `root`, or an error; `none` is a panic.
unfoldable pub ipfs_prep : Tools → Bytes → Bytes → Bytes → Files → Option (Result Files)
unfolding prep_image
ipfs_prep t tmp root image_id fs = elim (repository_name t tmp fs) [
  | err e ↦ some (err e)
  | ok name ↦ elim (read_archive t tmp fs) [
    | err e ↦ some (err e)
    | ok mf ↦ prep_image t mf tmp (root ++ b'/' ∷ name) image_id fs
  ]
]
