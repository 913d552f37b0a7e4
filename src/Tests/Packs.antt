-- ===== src/Tests/Packs.antt =====
-- Archives that are laid out, and the names of images.
use ipdr.Regutil.{to_b32, to_cid_v1}
use ipdr.Cids
use ipdr.Site.{resolve_repo, resolve, resolve_cid}
use ipdr.Manifests.{get_manifest}
use ipdr.Pack.Offered.{Publishes, read, Answers, IsOffered, ipfs_prep-IsOffered}
use ipdr.Tests.{image, toy, quiet, site}
use ipdr.Prelude.{
  Option, Result, ap, All, ◌≡◌, refl, true, none, some, ok, err, List, [], ◌∷◌, ◌++◌, Bytes, codes,
  empty, insert, arith, take, drop, length, get_or_nil, ◌==◌,
}
use ipdr.Strings.{contains, has_prefix}
use ipdr.Image.{ImageManifest}
use ipdr.External.{replied, Codecs, World}
use ipdr.Pack.{Files, Tools, ArchiveImage, ref, read_file}
use ipdr.Docker.{ImageSummary}
use ipdr.Pack.Prep.{repository_name, read_archive, ipfs_prep}
use ipdr.Pack.Served.{IsServed, ipfs_prep-IsServed}
use ipdr.Pack.Untar.{Disk, directory, regular, entry_path, untar, untar-regular}
use ipdr.Pack.Upload.{tag_to_image_id, Daemon}
use ipdr.Pack.Names.{ref-append, tag_to_image_id-tagged}

abbrev pub archive : ArchiveImage
archive = record {
  config = some (codes "c.json");
  layers = some (some (codes "l/layer.tar") ∷ some (codes "m/layer.tar") ∷ []);
}

abbrev pub printed : ImageManifest → Bytes
printed m = m.media_type

-- The digest of a text is its first byte.
abbrev pub tools : Tools
tools = record {
  gzip = λ b. b;
  sha256_hex = λ b. take 1 b;
  writable = λ p. true;
  marshal = λ m. ok (printed m);
  parse_archive = λ b. ok (archive ∷ []);
  parse_repositories = λ b. err [];
}

abbrev disk : Files
disk =
    insert (codes "/t/c.json") (codes "config")
      (insert (codes "/t/l/layer.tar") (codes "layer") empty)

named : repository_name tools (codes "/t") disk ≡ ok (codes "default")
unfolding repository_name ◌==◌
named = refl

listed : read_archive tools (codes "/t") disk ≡ ok archive
unfolding read_archive
listed = refl

ipfs_prep-IsServed_example :
    (fs' : Files) × (m : ImageManifest) × (ipfs_prep tools
        (codes "/t")
        (codes "/r")
        (codes "app:v1")
        disk
      ≡ some (ok fs'))
    × IsServed tools printed
        (λ p. refl)
        (λ m. refl)
        (codes "/t")
        (codes "app:v1")
        (codes "l/layer.tar" ∷ codes "m/layer.tar" ∷ [])
        archive
        refl
        (codes "/r/default")
        (codes "c")
        fs'
        m
unfolding ◌==◌
ipfs_prep-IsServed_example =
    ipfs_prep-IsServed tools printed (λ p. refl) (λ m. refl) (codes "/t") (codes "app:v1")
      (codes "l/layer.tar" ∷ codes "m/layer.tar" ∷ []) archive refl (codes "/r") (codes "default")
      (codes "c.json") (codes "config") disk named listed refl (omega arith) refl refl

-- A gateway that publishes what is laid out as "bafy", and a codec whose manifests are their media
-- types.
abbrev laid_out : Option (Result Files) → Bytes → Result Bytes
laid_out (some (ok fs)) path = read_file (codes "/r/default" ++ path) fs
laid_out (some (err e)) path = err e
laid_out none path = err []

abbrev publisher : World
publisher = record quiet {
  http_get = λ url. ok (record {
    status_code = 200;
    status = codes "200 OK";
    body = laid_out (ipfs_prep tools (codes "/t") (codes "/r") (codes "app:v1") disk) (drop 18 url);
  });
}

abbrev codec : Codecs
codec = record toy {
  cid_decode = λ s. ok s;
  decode_manifest = λ b. ok (record image { media_type = b });
}

laid_out-ok :
    (fs : Files) (path content : Bytes)
    → fs (codes "/r/default" ++ path) ≡ some content
    → laid_out (some (ok fs)) path ≡ ok content
unfolding read_file
laid_out-ok fs path content there = rw (read_file, there) refl

publishes :
    (fs : Files)
    → ipfs_prep tools (codes "/t") (codes "/r") (codes "app:v1") disk ≡ some (ok fs)
    → Publishes publisher (codes "http://g") (codes "bafy") (codes "/r/default") fs
publishes fs e path content there = (
  codes "200 OK",
  rw e (
      ap
        (λ (r : Result Bytes). ok (record { status_code = 200; status = codes "200 OK"; body = r }))
        (laid_out-ok fs path content there)),
)

resolves :
    (reference : Bytes)
    → resolve_cid codec publisher site (codes "bafy") reference ≡ ok (codes "bafy")
unfolding resolve_cid resolve resolve_repo to_b32 to_cid_v1 Cids.get Cids.read_cid ◌==◌
resolves reference = refl

ipfs_prep-IsOffered_example :
    (fs' : Files) × (m : ImageManifest) × (ipfs_prep tools
        (codes "/t")
        (codes "/r")
        (codes "app:v1")
        disk
      ≡ some (ok fs'))
    × (get_manifest codec publisher site (codes "bafy") (ref (codes "app:v1"))
        ≡ ok (read codec (printed m) m))
    × (get_manifest codec publisher site (codes "bafy") (codes "latest")
        ≡ ok (read codec (printed m) m))
    × Answers codec publisher site (codes "bafy") tools.sha256_hex (codes "c")
    × (length m.layers ≡ 2)
    × All (IsOffered codec publisher site (codes "bafy") tools.sha256_hex) m.layers
unfolding ◌==◌
ipfs_prep-IsOffered_example =
    ipfs_prep-IsOffered tools printed (λ p. refl) (λ m. refl) (codes "/t") (codes "app:v1")
      (codes "l/layer.tar" ∷ codes "m/layer.tar" ∷ []) archive refl codec publisher site
      (codes "bafy") (codes "bafy") (codes "/r") (codes "default") (codes "c.json") (codes "config")
      disk named listed refl (omega arith) refl refl
      (λ m. (record image { media_type = m.media_type }, refl, refl)) publishes resolves

ref-append_example : ref (codes "localhost:5000/app:v1") ≡ codes "5000/app:v1"
unfolding contains has_prefix
ref-append_example = ref-append (codes "localhost") (codes "5000/app:v1") (omega arith) refl

abbrev images : List ImageSummary
images = record { id = codes "sha256:1"; tags = codes "app:latest" ∷ []; size = 1 } ∷ []

tag_to_image_id-tagged_example : tag_to_image_id (ok images) (codes "app") ≡ ok (codes "sha256:1")
unfolding has_prefix ◌==◌
tag_to_image_id-tagged_example =
    tag_to_image_id-tagged [] []
      (record { id = codes "sha256:1"; tags = codes "app:latest" ∷ []; size = 1 }) (codes "app") tt
      refl refl tt

-- A daemon that knows no reference.
abbrev daemon : Daemon
daemon = record {
  open_dir = λ p. ok p;
  add_dir = λ p. replied none (ok (codes "bafy") ∷ []);
  refs = λ h. ok [];
}

abbrev pub hard_disk : Disk
hard_disk = record { writable = λ p. true; makes_dir = λ p. true }

-- The file `a` holds a longer text before it is extracted.
untar-regular_example :
    (fs' : Files) × (untar hard_disk
        (codes "/t")
        (ok (directory (codes "d")) ∷ ok (regular (codes "a") (ok (codes "new"))) ∷ [])
        (insert (codes "/t/a") (codes "older") empty)
      ≡ ok fs')
    × (fs' (entry_path (codes "/t") (codes "a"))
        ≡ some (
            codes "new"
            ++ drop (length (codes "new")) (
                get_or_nil (
                  insert
                    (codes "/t/a")
                    (codes "older")
                    empty
                    (entry_path (codes "/t") (codes "a"))))))
untar-regular_example =
    untar-regular hard_disk (codes "/t") (λ p. refl) (λ p. refl) (codes "a") (codes "new")
      (ok (directory (codes "d")) ∷ []) [] (insert (codes "/t/a") (codes "older") empty) (tt, tt) tt
