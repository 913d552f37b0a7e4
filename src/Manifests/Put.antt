-- ===== src/Manifests/Put.antt =====
-- manifest.go: the handler of PUT.
pub mod Locks
pub mod Stored
pub mod Failed
use ipdr.Prelude.{
  Bool, true, false, ◌||◌, Option, none, some, Result, ok, err, List, [], ◌∷◌, ◌++◌, Bytes, codes,
  Map, empty, insert, if◌then◌else◌, ◌==◌,
}
use ipdr.External.{Codecs, World}
use ipdr.Ipfs.{add_image}
use ipdr.Http.{
  Request, get_header, Writer, set_header, write_header, RegError, reg_error, Outcome, returned,
  blocked,
}
use ipdr.Blobs
use ipdr.Blobs.{Blobs}
use ipdr.Site.{compute_digest}
use ipdr.Manifests.State.{Manifest, Registry, with_lock, manifests_of, ensure, keep}
use ipdr.Manifests.Fetch.{add_cid, unknown}

-- types.OCIImageIndex and types.DockerManifestList
unfoldable pub is_index : Bytes → Bool
is_index content_type =
    content_type == codes "application/vnd.oci.image.index.v1+json"
    || content_type == codes "application/vnd.docker.distribution.manifest.list.v2+json"

-- The first digest that the repository has no manifest for.
unfoldable pub missing : Map Manifest → List Bytes → Option Bytes
missing known [] = none
missing known (d ∷ ds) = elim (known d) [ none ↦ some d | some mf ↦ missing known ds ]

-- The check of a manifest list: the error, if there is one.
unfoldable pub check_index : Codecs → Map Manifest → Bytes → Bytes → Option RegError
check_index c known content_type b =
    if is_index content_type
    then elim (c.parse_index b) [
      | err e ↦ unknown e
      | ok ds ↦ elim (missing known ds) [
        | none ↦ none
        | some d ↦ unknown (codes "Sub-manifest " ++ (c.quote d ++ codes " not found"))
      ]
    ]
    else none

-- The manifest that PUT stores; its digest field is not set.
abbrev pub put_manifest : Request → Manifest
put_manifest req = record {
  blob = req.body;
  content_type = get_header req (codes "Content-Type");
  digest = [];
}

-- The manifests that are sent to IPFS.
abbrev pub refs_of : Bytes → Bytes → Bytes → Map Bytes
refs_of target digest blob =
    insert (codes "latest") blob (insert digest blob (insert target blob empty))

module _ (c : Codecs) (w : World) (repo target : Bytes) (req : Request) (wr : Writer) where
  abbrev pub digest : Bytes
  digest = compute_digest c req.body

  abbrev pub store : Registry → Registry
  store r = keep repo digest (put_manifest req) (keep repo target (put_manifest req) r)

  -- The three entries of the CID store, and the answer.
  unfoldable pub finish_put : Registry → Bytes → Outcome Registry
  unfolding write_header
  finish_put r cid =
      returned
        (add_cid w cid (codes "latest") cid
          (add_cid w repo digest cid (add_cid w repo target cid r)))
        (write_header 201 (
          set_header (codes "X-Docker-Content-ID") cid
            (set_header (codes "Docker-Content-Digest") digest wr)))
        none

  -- The layers leave the blob store before the image is sent.
  unfoldable pub publish : Registry → Map Bytes → Outcome Registry
  unfolding finish_put
  publish r layers = elim (Blobs.remove r.blobs repo) [
    | none ↦ blocked r
    | some b ↦ elim (add_image w (refs_of target digest req.body) layers) [
      | err e ↦ returned (record r { blobs = b }) wr (reg_error 500 [] e)
      | ok cid ↦ finish_put (record r { blobs = b }) cid
    ]
  ]

  unfoldable pub put_checked : Registry → Outcome Registry
  unfolding publish
  put_checked r = elim (Blobs.get r.blobs repo) [
    | none ↦ blocked r
    | some (b, none) ↦
        returned (record r { blobs = b }) wr
          (reg_error 404 (codes "MANIFEST_BLOB_UNKNOWN")
            (codes "layers for " ++ (c.quote repo ++ codes " not found")))
    | some (b, some layers) ↦ publish (record r { blobs = b }) layers
  ]

  unfoldable pub put_locked : Registry → Outcome Registry
  unfolding put_checked
  put_locked r =
      let r' : Registry = ensure repo r in
      elim (check_index c (manifests_of r repo) (get_header req (codes "Content-Type")) req.body) [
        | some e ↦ returned r' wr (some e)
        | none ↦ put_checked (store r')
      ]

  unfoldable pub put_handler : Registry → Outcome Registry
  unfolding put_locked
  put_handler r = with_lock r put_locked
