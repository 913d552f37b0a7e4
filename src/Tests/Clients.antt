-- ===== src/Tests/Clients.antt =====
-- The clients of Docker and of the registry, and the command `convert`.
use ipdr.Prelude.{
  ◌≡◌, ◌≢◌, ◌↔◌, refl, inl, Bool, true, false, none, some, ok, err, List, [], ◌∷◌, Bytes, codes,
  arith, empty, insert, if◌then◌else◌, ◌==◌,
}
use ipdr.Strings.{has_prefix, trim_prefix}
use ipdr.Strings.Laws.Sort.{contains_str}
use ipdr.Regutil.{first_line, hash_of, dockerize_hash, ipfsify_hash}
use ipdr.Regutil.Hashes.{ipfsify_hash-dockerize_hash}
use ipdr.External.{replied}
use ipdr.Docker.{ApiImage, ImageSummary, Daemon, list_images, remove_image, remove_all_images}
use ipdr.Docker.Removal.{Lists, IsSound, ids, remove_all_images-eq-none_iff}
use ipdr.Ipfs.Client.{Client, api_url, gateway_url}
use ipdr.Pack.{Files}
use ipdr.Pack.Untar.{untar}
use ipdr.Pack.Prep.{repository_name, read_archive}
use ipdr.Pack.Served.{IsServed}
use ipdr.Image.{ImageManifest}
use ipdr.RegistryClient.{Registry, Workshop, push_image}
use ipdr.RegistryClient.Pushing.{Takes, push_image-IsServed}
use ipdr.Cmd.{Flags, default_flags, convert_command}
use ipdr.Cmd.Convert.{IsFormat, convert_command_iff}
use ipdr.Tests.{toy}
use ipdr.Tests.Servers.{host}
use ipdr.Tests.Packs.{tools, printed, archive, hard_disk}

ipfsify_hash-dockerize_hash_example :
    ipfsify_hash toy (dockerize_hash toy (codes "/ipfs/Qm")) ≡ codes "Qm"
unfolding hash_of has_prefix first_line trim_prefix
ipfsify_hash-dockerize_hash_example =
    ipfsify_hash-dockerize_hash toy (codes "/ipfs/Qm") (codes "Qm") refl (ground arith) (cc) refl

-- A daemon that holds the image "x", or no image any more.
abbrev listing : Bool → List ApiImage
listing true = record { id = codes "x"; repo_tags = []; size = 1 } ∷ []
listing false = []

abbrev images : Bool → List ImageSummary
images true = record { id = codes "x"; tags = []; size = 1 } ∷ []
images false = []

abbrev docker : Daemon Bool
docker = record {
  image_list = λ filter s. ok (listing s);
  image_pull = λ x s. (s, none);
  image_push = λ x s. (s, none);
  image_tag = λ x tag s. (s, none);
  image_remove = λ x s. if x == codes "x" then (false, none) else (s, some (codes "no such image"));
  image_save = λ x s. ok [];
  image_load = λ input s. (s, ok none);
}

docker-listing : (s : Bool) → list_images docker s ≡ ok (images s)
unfolding list_images
docker-listing true = refl
docker-listing false = refl

docker-brings_none :
    (x y : Bytes) (s : Bool) → Lists (images (remove_image docker x s).0) y → Lists (images s) y
unfolding remove_image contains_str
docker-brings_none x y true h = ground arith
docker-brings_none x y false h = ground arith

docker-takes :
    (x : Bytes) (s : Bool)
    → (remove_image docker x s).1 ≡ none
    → contains_str x (ids (images (remove_image docker x s).0)) ≡ false
unfolding remove_image contains_str
docker-takes x true h = ground arith
docker-takes x false h = ground arith

docker-IsSound : IsSound docker images
docker-IsSound = record {
  listing = docker-listing;
  brings_none = docker-brings_none;
  takes = docker-takes;
}

remove_all_images-eq-none_iff_example :
    ((remove_all_images docker true).1 ≡ none) ↔ (images (remove_all_images docker true).0 ≡ [])
remove_all_images-eq-none_iff_example =
    remove_all_images-eq-none_iff docker images docker-IsSound true

abbrev client : Client
client = record {
  shell = codes "h";
  is_remote = true;
  host = codes "h";
  gateway_url = codes "127.0.0.1:8080";
}

abbrev registry : Registry
registry = record {
  docker_local_registry_host = codes "docker.local:5000";
  docker_client = record { debug = false };
  ipfs_client = client;
  debug = false;
}

-- A registry host without a port.
abbrev plain : Registry
plain = record registry { docker_local_registry_host = codes "192.168.1.2" }

abbrev workshop : Workshop
workshop = record {
  tmp = ok (codes "/t");
  root = ok (codes "/r");
  disk = hard_disk;
  tools = tools;
  entries = λ b. [];
  ipfs = λ fs. record {
    open_dir = λ p. ok p;
    add_dir = λ p. replied none (ok (codes "bafy") ∷ []);
    refs = λ h. ok [];
  };
  post = λ url. ok (record {
    status_code = 200;
    status = codes "200 OK";
    refs = ok none ∷ ok (some (codes "bafk")) ∷ [];
  });
  shell_refs = λ hash recursive. err [];
}

abbrev files : Files
files =
    insert (codes "/t/c.json") (codes "config")
      (insert (codes "/t/l/layer.tar") (codes "layer") empty)

takes : Takes workshop registry (codes "/r") (λ fs. codes "bafy") (λ hash. codes "bafk")
unfolding api_url ◌==◌
takes = record {
  opened = λ fs. codes "/r";
  others = λ fs. [];
  status = λ hash. codes "200 OK";
  before = λ hash. ok none ∷ [];
  after = λ hash. [];
  opens = λ fs. refl;
  adds = λ fs. refl;
  cid_filled = λ fs. ground arith;
  posts = λ hash. refl;
  blank = λ hash. (inl refl, tt);
  first_filled = λ hash. ground arith;
}

push_image-IsServed_example :
    (fs : Files) × (m : ImageManifest) × IsServed tools printed
      (λ p. refl)
      (λ m. refl)
      (codes "/t")
      (codes "app")
      (codes "l/layer.tar" ∷ codes "m/layer.tar" ∷ [])
      archive
      refl
      (codes "/r/default")
      (codes "c")
      fs
      m
    × (push_image workshop registry [] (codes "app") files ≡ some (ok (codes "bafk")))
unfolding untar repository_name read_archive ◌==◌
push_image-IsServed_example =
    push_image-IsServed workshop registry refl (codes "/r") (λ fs. codes "bafy")
      (λ hash. codes "bafk") takes printed (λ p. refl) (λ m. refl) (codes "/t") (codes "app") []
      (codes "default") (codes "c.json") (codes "config")
      (codes "l/layer.tar" ∷ codes "m/layer.tar" ∷ []) archive refl files files refl refl refl refl
      refl refl (omega arith) refl refl

abbrev flags : Flags
flags = record (default_flags (codes "/home/u")) { format = codes "ipfs" }

convert_command_iff_example :
    (convert_command toy flags (codes "x" ∷ []) ≢ none)
    × (((out : Bytes) × (convert_command toy flags (codes "x" ∷ []) ≡ some (ok out)))
        ↔ ((a : Bytes) × (codes "x" ∷ [] ≡ a ∷ []) × IsFormat flags.format))
convert_command_iff_example = convert_command_iff toy flags (codes "x" ∷ [])
