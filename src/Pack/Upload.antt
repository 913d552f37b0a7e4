-- ===== src/Pack/Upload.antt =====
-- registry/registry.go: TagToImageID and uploadDir; ipfs/ipfs.go: AddDir.
use ipdr.Prelude.{
  ℕ, zero, suc, ◌||◌, Option, none, some, Result, ok, err, ◌>>=◌, List, [], ◌∷◌, ◌++◌, Bytes, codes,
  if◌then◌else◌, ◌==◌,
}
use ipdr.Strings.{has_prefix}
use ipdr.External.{AddReply}
use ipdr.Ipfs.{read_add}
use ipdr.Docker.{ImageSummary}

-- The loop over the tags of one image: a tag that matches replaces what is looked for.
unfoldable pub match_tags : Bytes → List Bytes → Bytes → Bytes
match_tags id [] image_id = image_id
match_tags id (tag ∷ tags) image_id =
    if tag == image_id || tag == image_id ++ codes ":latest"
    then match_tags id tags id
    else match_tags id tags image_id

-- The loop over the images.
unfoldable pub match_images : List ImageSummary → Bytes → Bytes
match_images [] image_id = image_id
match_images (i ∷ is) image_id =
    let rest = match_images is (match_tags i.id i.tags image_id) in
    if has_prefix i.id image_id then image_id else rest

unfoldable pub tag_to_image_id : Result (List ImageSummary) → Bytes → Result Bytes
tag_to_image_id listed image_id = do images ← listed; ok (match_images images image_id)

-- What IPFS and the disk answer.
pub record Daemon : Type 0 where
  -- os.Lstat and files.NewSerialFile
  pub open_dir : Bytes → Result Bytes
  pub add_dir : Bytes → AddReply
  -- the references of a hash, in the order of the channel
  pub refs : Bytes → Result (List Bytes)

unfoldable pub add_dir : Daemon → Bytes → Result Bytes
add_dir d dir = do opened ← d.open_dir dir; read_add (d.add_dir opened)

-- The loop of ten reads from the channel; a closed channel gives the empty string.
unfoldable pub first_ref : ℕ → List Bytes → Option Bytes
first_ref zero refs = none
first_ref (suc n) [] = first_ref n []
first_ref (suc n) (r ∷ refs) = if r == [] then first_ref n refs else some r

-- `none` is the end of the program by log.Fatal.
unfoldable pub upload_dir : Daemon → Bytes → Option (Result Bytes)
upload_dir d root = elim (add_dir d root) [
  | err e ↦ some (err e)
  | ok hash ↦ elim (d.refs hash) [
    | err e ↦ some (err e)
    | ok refs ↦ elim (first_ref 10 refs) [ none ↦ none | some r ↦ some (ok r) ]
  ]
]
