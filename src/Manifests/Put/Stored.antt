-- ===== src/Manifests/Put/Stored.antt =====
-- What a PUT of a manifest leaves behind when it succeeds, and when it fails.
use ipdr.Prelude.{
  ◌≡◌, Bool, true, false, Option, some, none, ok, List, Bytes, codes, arith, ==_refl, Map,
}
use ipdr.External.{Codecs, World}
use ipdr.Ipfs.{add_image}
use ipdr.Http.{Request, Writer, RegError, get_header, fresh, Returns, status_of, sent_header}
use ipdr.Cids
use ipdr.Site.{compute_digest}
use ipdr.Blobs
use ipdr.Blobs.{Blobs}
use ipdr.Manifests.State.{Registry, manifests_of, ensure}
use ipdr.Manifests.Put.{
  check_index, put_manifest, refs_of, publish, put_checked, put_locked, put_handler, store,
}
use ipdr.Manifests.Put.Locks.{IsFree}

-- After three entries of one CID, the first two are found.
get-add_thrice :
    (writable : Bytes → Bool) (s : Cids.CidStore) (repo target digest cid : Bytes)
    → let s' : Cids.CidStore =
        Cids.add writable
          (Cids.add writable (Cids.add writable s repo target cid) repo digest cid)
          cid
          (codes "latest")
          cid in
      (Cids.get s' repo target ≡ some cid) × (Cids.get s' repo digest ≡ some cid)
unfolding Cids.get Cids.add Cids.write_cid
get-add_thrice writable s repo target digest cid =
    ground (arith, ==_refl (Cids.key repo target), ==_refl (Cids.key repo digest))

-- The answer to an image that IPFS took.
abbrev pub Created :
    Codecs → Bytes → Bytes → Request → Bytes → Registry → Writer → Option RegError → Type 0
Created c repo target req cid r wr e =
    (e ≡ none)
    × (status_of wr ≡ some 201)
    × (sent_header wr (codes "X-Docker-Content-ID") ≡ some cid)
    × (r.blobs.layers repo ≡ none)
    × (r.blobs.lock ≡ false)
    × (manifests_of r repo target ≡ some (put_manifest req))
    × (manifests_of r repo (compute_digest c req.body) ≡ some (put_manifest req))
    × (Cids.get r.site.cids repo target ≡ some cid)
    × (Cids.get r.site.cids repo (compute_digest c req.body) ≡ some cid)

module _ (c : Codecs) (w : World) (repo target : Bytes) (req : Request) where
  publish-Created :
      (r : Registry) (layers : Map Bytes) (ds : List Bytes) (cid : Bytes)
      → r.blobs.lock ≡ false
      → r.blobs.layers repo ≡ some ds
      → add_image w (refs_of target (compute_digest c req.body) req.body) layers ≡ ok cid
      → manifests_of r repo target ≡ some (put_manifest req)
      → manifests_of r repo (compute_digest c req.body) ≡ some (put_manifest req)
      → Returns (Created c repo target req cid) (publish c w repo target req fresh r layers)
  unfolding publish Blobs.remove
  publish-Created r layers ds cid free listed sent m n = ground (
    arith,
    ==_refl repo,
    ==_refl (codes "X-Docker-Content-ID"),
    get-add_thrice w.writable r.site.cids repo target (compute_digest c req.body) cid,
  )

  -- The state that goes into `publish`.
  abbrev Kept : Registry → Registry
  Kept r =
      store c w repo target req fresh
        (ensure repo (record r { manifests = record r.manifests { lock = true } }))

  kept_manifests :
      (r : Registry)
      → (manifests_of (Kept r) repo target ≡ some (put_manifest req))
        × (manifests_of (Kept r) repo (compute_digest c req.body) ≡ some (put_manifest req))
  kept_manifests r =
      ground (arith, ==_refl repo, ==_refl target, ==_refl (compute_digest c req.body))

  -- A PUT of a manifest that passes the check of manifest lists, to a repository with layers whose
  -- contents are all there, with both mutexes free, and whose image IPFS takes under `cid`: the
  -- answer is 201 with the CID in its header, both mutexes are free, the pending layers are gone,
  -- and the manifest and the CID are found under the target and under the digest.
  pub put_handler-Created :
      (r : Registry) (layers : Map Bytes) (ds : List Bytes) (cid : Bytes)
      → IsFree r
      → check_index c (manifests_of r repo) (get_header req (codes "Content-Type")) req.body ≡ none
      → r.blobs.layers repo ≡ some ds
      → Blobs.get r.blobs repo ≡ some (r.blobs, some layers)
      → add_image w (refs_of target (compute_digest c req.body) req.body) layers ≡ ok cid
      → Returns
          (λ r' wr e. Created c repo target req cid r' wr e × (r'.manifests.lock ≡ false))
          (put_handler c w repo target req fresh r)
  unfolding put_handler put_locked put_checked
  put_handler-Created r layers ds cid free fine listed found sent =
      let (m, n) = kept_manifests r in
      let done = publish-Created (Kept r) layers ds cid free.1 listed sent m n in
      ground (arith, done)
