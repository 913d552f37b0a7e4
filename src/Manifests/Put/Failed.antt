-- ===== src/Manifests/Put/Failed.antt =====
-- PUTs of manifests that are refused, or that IPFS never saw.
use ipdr.Prelude.{
  ◌≡◌, ◌≢◌, ◌↔◌, ◌⊎◌, inl, inr, refl, false, some, none, ok, List, [], ◌∷◌, Bytes, codes, arith,
  All, ◌==◌, ==_iff, ==_refl, Map, insert, Result-cases,
}
use ipdr.External.{Codecs, World, ImageDir, send_failed}
use ipdr.Ipfs.{read_add, add_image}
use ipdr.Http.{
  Request, Writer, RegError, get_header, fresh, returned, Returns, status_of, sent_header,
}
use ipdr.Blobs
use ipdr.Manifests.State.{Registry, Manifest, manifests_of}
use ipdr.Manifests.Fetch.{fetch, head_handler}
use ipdr.Manifests.Put.{is_index, missing, check_index, put_manifest, put_locked, put_handler}
use ipdr.Manifests.Put.Locks.{IsFree}
use ipdr.Manifests.Put.Stored.{Created, put_handler-Created}

missing-eq-none_iff :
    (known : Map Manifest) (ds : List Bytes)
    → (missing known ds ≡ none) ↔ All (λ d. known d ≢ none) ds
unfolding missing
missing-eq-none_iff known [] = ground arith
missing-eq-none_iff known (d ∷ ds) = ground (arith, missing-eq-none_iff known ds)

-- The two content types of a manifest list.
is_index_iff :
    (s : Bytes)
    → (is_index s ≡ false) ↔ (
        (s ≢ codes "application/vnd.oci.image.index.v1+json")
        × (s ≢ codes "application/vnd.docker.distribution.manifest.list.v2+json"))
unfolding is_index
is_index_iff s =
    let oci = ==_iff s (codes "application/vnd.oci.image.index.v1+json") in
    let docker = ==_iff s (codes "application/vnd.docker.distribution.manifest.list.v2+json") in
    ground (arith, oci, docker)

-- A manifest passes the check exactly when its content type is neither that of an OCI index nor that
-- of a Docker manifest list, or when it parses as a list whose manifests the repository holds, every
-- one of them.
pub check_index-eq-none_iff :
    (c : Codecs) (known : Map Manifest) (content_type body : Bytes)
    → (check_index c known content_type body ≡ none) ↔ (
        ((content_type ≢ codes "application/vnd.oci.image.index.v1+json")
          × (content_type ≢ codes "application/vnd.docker.distribution.manifest.list.v2+json"))
        ⊎ ((ds : List Bytes) × (c.parse_index body ≡ ok ds) × All (λ d. known d ≢ none) ds))
unfolding check_index
check_index-eq-none_iff c known content_type body = elim (Result-cases (c.parse_index body)) [
  | inl (ds, e) ↦ ground (arith, is_index_iff content_type, missing-eq-none_iff known ds)
  | inr (e, f) ↦ ground (arith, is_index_iff content_type)
]

-- With the manifest mutex free, a PUT that the check of manifest lists refuses returns that error,
-- releases the mutex and leaves every manifest, the blob store and the CID store as they were.
pub put_handler_refused :
    (c : Codecs) (w : World) (repo target : Bytes) (req : Request) (wr : Writer) (r : Registry)
    (refused : RegError)
    → r.manifests.lock ≡ false
    → check_index c (manifests_of r repo) (get_header req (codes "Content-Type")) req.body
      ≡ some refused
    → Returns
        (λ r' wr' e.
          (e ≡ some refused)
          × (wr' ≡ wr)
          × (r'.manifests.lock ≡ false)
          × (r'.blobs ≡ r.blobs)
          × (r'.site ≡ r.site)
          × ((other ref : Bytes) → manifests_of r' other ref ≡ manifests_of r other ref))
        (put_handler c w repo target req wr r)
unfolding put_handler put_locked
put_handler_refused c w repo target req wr r refused free e =
    let after : Registry = record r {
      manifests = record {
        manifests = insert repo (manifests_of r repo) r.manifests.manifests;
        lock = false;
      };
    } in
    let out : put_handler c w repo target req wr r ≡ returned after wr (some refused) =
      ground arith in
    rw out (refl, refl, refl, refl, refl, λ other ref. ground (arith, ==_iff repo other))

-- Where the request to IPFS cannot be sent, a PUT of a manifest that passes the check of manifest
-- lists and has its layers, with both mutexes free, is answered 201 all the same, with an empty
-- CID, and its layers are gone.
pub put_handler_unsent :
    (c : Codecs) (w : World) (repo target message : Bytes) (req : Request) (r : Registry)
    (layers : Map Bytes) (ds : List Bytes)
    → ((dir : ImageDir) → w.ipfs_add dir ≡ send_failed message)
    → IsFree r
    → check_index c (manifests_of r repo) (get_header req (codes "Content-Type")) req.body ≡ none
    → r.blobs.layers repo ≡ some ds
    → Blobs.get r.blobs repo ≡ some (r.blobs, some layers)
    → Returns
        (λ r' wr e. Created c repo target req [] r' wr e × (r'.manifests.lock ≡ false))
        (put_handler c w repo target req fresh r)
unfolding add_image
put_handler_unsent c w repo target message req r layers ds down free fine listed found =
    put_handler-Created c w repo target req r layers ds [] free fine listed found
      (rw down (unfold read_add in refl))

-- With the manifest mutex free, a HEAD of a manifest that was stored by a PUT answers 200 with an
-- empty digest in its header.
pub head_handler_put :
    (c : Codecs) (w : World) (r : Registry) (repo target : Bytes) (req : Request)
    → r.manifests.lock ≡ false
    → manifests_of r repo target ≡ some (put_manifest req)
    → Returns
        (λ r' wr e.
          (e ≡ none)
          × (status_of wr ≡ some 200)
          × (sent_header wr (codes "Docker-Content-Digest") ≡ some []))
        (head_handler c w r repo target fresh)
unfolding head_handler fetch ◌==◌
head_handler_put c w r repo target req free stored = ground (arith, ==_refl repo)
