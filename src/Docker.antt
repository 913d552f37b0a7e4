-- ===== src/Docker.antt =====
-- docker/docker.go: the client of the Docker daemon, which is a parameter with a state of its own.
pub mod Names
pub mod Removal
use ipdr.Prelude.{
  ℕ, Bool, true, false, Option, none, some, Result, ok, err, ◌>>=◌, List, [], ◌∷◌, ◌++◌, Bytes,
  codes, if◌then◌else◌, Map, insert,
}
use ipdr.Docker.Names.{strip_image_tag_host}

pub record Client : Type 0 where
  pub debug : Bool

pub record Config : Type 0 where
  pub debug : Bool

-- newEnvClient, with the error of the Docker library, if there is one; `none` is the end of the
-- program by log.Fatal.
unfoldable pub new_env_client : Option Bytes → Config → Option Client
new_env_client (some e) config = none
new_env_client none config = some (record { debug = config.debug })

-- NewClient
unfoldable pub new_client : Option Bytes → Option Config → Option Client
new_client e none = new_env_client e (record { debug = false })
new_client e (some config) = new_env_client e config

pub record ImageSummary : Type 0 where
  pub id : Bytes
  pub tags : List Bytes
  pub size : ℕ

-- An entry of ImageList; what the client does not read is left out.
pub record ApiImage : Type 0 where
  pub id : Bytes
  pub repo_tags : List Bytes
  pub size : ℕ

-- The calls of the Docker API; `image_list` takes the filter on the reference, if there is one.
pub record Daemon (S : Type 0) : Type 0 where
  pub image_list : Option Bytes → S → Result (List ApiImage)
  pub image_pull : Bytes → S → S × Option Bytes
  pub image_push : Bytes → S → S × Option Bytes
  pub image_tag : Bytes → Bytes → S → S × Option Bytes
  pub image_remove : Bytes → S → S × Option Bytes
  pub image_save : Bytes → S → Result Bytes
  -- the body of the answer may not be read to its end
  pub image_load : Bytes → S → S × Result (Option Bytes)

-- The loop of `ListImages`.
summaries : List ApiImage → List ImageSummary
summaries [] = []
summaries (i ∷ is) = record { id = i.id; tags = i.repo_tags; size = i.size } ∷ summaries is

module _ {S : Type 0} (d : Daemon S) where
  unfoldable pub list_images : S → Result (List ImageSummary)
  unfolding summaries
  list_images s = do images ← d.image_list none s; ok (summaries images)

  abbrev has_any : List ApiImage → Bool
  has_any [] = false
  has_any (i ∷ is) = true

  unfoldable pub has_image : Bytes → S → Result Bool
  has_image image_id s = do
    images ← d.image_list (some (strip_image_tag_host image_id)) s
    ok (has_any images)

  abbrev pull_error : Option Bytes → Option Bytes
  pull_error none = none
  pull_error (some e) = some (codes "[docker] error pulling image: " ++ e)

  -- The progress of the pull is read and thrown away, with the errors that it reports.
  unfoldable pub pull_image : Bytes → S → S × Option Bytes
  pull_image image_id s = let (s', e) = d.image_pull image_id s in (s', pull_error e)

  unfoldable pub push_image : Bytes → S → S × Option Bytes
  push_image image_id s = d.image_push image_id s

  unfoldable pub tag_image : Bytes → Bytes → S → S × Option Bytes
  tag_image image_id tag s = d.image_tag image_id tag s

  unfoldable pub remove_image : Bytes → S → S × Option Bytes
  remove_image image_id s = d.image_remove image_id s

  -- if err != nil { lastErr = err }
  abbrev pub or_last : Option Bytes → Option Bytes → Option Bytes
  or_last (some e) last = some e
  or_last none last = last

  -- The loop of `RemoveAllImages`: the state and the last error.
  unfoldable pub remove_each : List ImageSummary → S → Option Bytes → S × Option Bytes
  unfolding remove_image
  remove_each [] s last = (s, last)
  remove_each (i ∷ is) s last =
      let (s', e) = remove_image i.id s in remove_each is s' (or_last e last)

  -- The second listing decides whether the error counts.
  abbrev left_over : Result (List ImageSummary) → Option Bytes → Option Bytes
  left_over (err e) last = some e
  left_over (ok []) last = none
  left_over (ok (i ∷ is)) last = last

  unfoldable pub remove_all_images : S → S × Option Bytes
  unfolding remove_each list_images
  remove_all_images s = elim (list_images s) [
    | err e ↦ (s, some e)
    | ok images ↦
        let (s', last) = remove_each images s none in (s', left_over (list_images s') last)
  ]

  unfoldable pub read_image : Bytes → S → Result Bytes
  read_image image_id s = d.image_save image_id s

  load_result : Result (Option Bytes) → Option Bytes
  load_result (err e) = some e
  load_result (ok e) = e

  unfoldable pub load_image : Bytes → S → S × Option Bytes
  unfolding load_result
  load_image input s = let (s', r) = d.image_load input s in (s', load_result r)

  -- The file is opened, or that fails.
  unfoldable pub load_image_by_filepath : (Bytes → Result Bytes) → Bytes → S → S × Option Bytes
  load_image_by_filepath open_file path s = elim (open_file path) [
    | err e ↦ (s, some e)
    | ok input ↦ load_image input s
  ]

  -- The errors of the copy are ignored; `writable` says whether the file can be created.
  unfoldable pub save_image_tar :
      (Bytes → Bool) → Bytes → Bytes → S → Map Bytes → Result (Map Bytes)
  save_image_tar writable image_id dest s files = do
    content ← read_image image_id s
    if writable dest then ok (insert dest content files) else err (codes "cannot create the file")
