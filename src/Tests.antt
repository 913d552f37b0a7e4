-- ===== src/Tests.antt =====
-- The data of the tests: a toy codec, a world and two states.
pub mod Uploads
pub mod Pushes
pub mod Pulls
pub mod Packs
pub mod Addresses
pub mod Servers
pub mod Clients
use ipdr.Prelude.{none, some, Result, ok, err, [], ◌∷◌, codes, empty, Bytes, insert, false, true}
use ipdr.Image.{ImageManifest, Descriptor}
use ipdr.External.{Codecs, World, ImageDir, replied, send_failed}
use ipdr.Http.{Request}
use ipdr.Site.{Site}
use ipdr.Cids.{CidStore}
use ipdr.Blobs.{Blobs, no_blobs, push}
use ipdr.Manifests.{Registry, no_manifests}

abbrev pub image : ImageManifest
image = record {
  schema_version = 2;
  media_type = codes "m";
  config = some (record { media_type = codes "c"; size = 1; digest = codes "sha256:c" });
  layers = some (record { media_type = codes "l"; size = 1; digest = codes "sha256:l" }) ∷ [];
}

-- A hash that is the text itself.
abbrev pub toy : Codecs
toy = record {
  sha256_hex = λ b. b;
  decode_manifest = λ b. ok image;
  parse_index = λ b. ok (codes "sha256:x" ∷ []);
  quote = λ s. s;
  json_string = λ s. s;
  cid_decode = λ s. err [];
  cid_type = λ s. 112;
  cid_hash = λ s. s;
  new_cid_v0 = λ s. s;
  new_cid_v1 = λ n s. s;
  string_of_base32 = λ s. ok s;
  base58_decode = λ s. s;
  base58_encode = λ s. s;
}

-- IPFS takes every image; nothing else answers.
abbrev pub quiet : World
quiet = record {
  http_head = λ url. err [];
  http_get = λ url. err [];
  ipfs_add = λ dir. replied none (ok (codes "bafy") ∷ []);
  ipfs_list = λ p. err [];
  ipfs_cat = λ p. err [];
  lookup_txt = λ d. err [];
  read_dir = λ p. err [];
  read_file = λ p. err [];
  writable = λ p. true;
  random = 7;
}

abbrev pub down : World
down = record quiet { ipfs_add = λ dir. send_failed (codes "refused") }

-- The gateway has one manifest, and the other resolvers two tags.
abbrev pub gateway : World
gateway = record quiet {
  http_get =
      λ url. ok (record { status_code = 200; status = codes "200 OK"; body = ok (codes "{}") });
  read_dir = λ p. ok ((codes "v2", true) ∷ (codes "v1", true) ∷ (codes "d", false) ∷ []);
  ipfs_list = λ p. ok (codes "v1" ∷ []);
  read_file = λ p. ok (codes " bafy ");
}

abbrev pub no_cids : CidStore
no_cids = record { cids = empty; location = codes "/c"; files = empty }

abbrev pub site : Site
site = record { gateway = codes "http://g"; cids = no_cids; resolvers = [] }

abbrev pub first_layer : Blobs
first_layer = push (codes "a") (codes "sha256:l") (codes "l") no_blobs

abbrev pub one_layer : Blobs
one_layer = push (codes "b") (codes "sha256:l") (codes "l") first_layer

abbrev pub fresh_registry : Registry
fresh_registry = record { blobs = no_blobs; manifests = no_manifests; site = site }

-- The repositories `a` and `b` share a layer.
abbrev pub pushed : Registry
pushed = record fresh_registry { blobs = one_layer }

abbrev pub ask : Bytes → Bytes → Bytes → Request
ask method path body = record {
  method = method;
  path = path;
  query = empty;
  header = empty;
  body = body;
}
