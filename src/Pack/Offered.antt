-- ===== src/Pack/Offered.antt =====
-- From the push to the pull: what ipfsPrep lays out is what the registry's server answers with, once
-- a gateway publishes the directory.
use ipdr.Prelude.{
  ℕ, ◌-◌, ◌≤◌, ◌≡◌, refl, true, Option, none, some, ok, List, [], ◌∷◌, ◌++◌, Bytes, codes, All,
  length, take,
}
use ipdr.External.{Codecs, World}
use ipdr.Http.{Request, Writer, write_header, write_body, returned}
use ipdr.Image.{Descriptor, ImageManifest}
use ipdr.Strings.{join}
use ipdr.Regutil.{ipfs_url}
use ipdr.Site.{Site, resolve_cid, site_url, get_content, compute_digest}
use ipdr.Blobs.Store.{Blobs}
use ipdr.Blobs.Path.{Target}
use ipdr.Blobs.Handle.{describe, remote, get_blob}
use ipdr.Manifests.State.{Manifest}
use ipdr.Manifests.Fetch.{get_manifest}
use ipdr.Pack.{Files, Tools, ArchiveImage, ref, manifest_path, layer_of}
use ipdr.Pack.Layer.{IsHeld, IsPacked, some_all}
use ipdr.Pack.Laws.{blobs_dir, layer_path-blobs_dir}
use ipdr.Pack.Prep.{repository_name, read_archive, ipfs_prep}
use ipdr.Pack.Served.{ipfs_prep-IsServed}

-- The gateway answers with the files of a directory below a CID.
abbrev pub Publishes : World → Bytes → Bytes → Bytes → Files → Type 0
Publishes w gw cid dir fs =
    (path content : Bytes)
    → fs (dir ++ path) ≡ some content
    → (status : Bytes) × (w.http_get (gw ++ (codes "/ipfs/" ++ (cid ++ path)))
        ≡ ok (record { status_code = 200; status = status; body = ok content }))

-- The manifest that the registry reads off the gateway.
abbrev pub read : Codecs → Bytes → ImageManifest → Manifest
read c b m = record { blob = b; content_type = m.media_type; digest = compute_digest c b }

-- A blob of a repository, as the handler reads it off the path.
abbrev blob_of : Bytes → List Bytes → List Bytes → Bytes → Target
blob_of repo above upper digest = record {
  target = codes "sha256:" ++ digest;
  service = codes "blobs";
  above = above;
  upper = upper;
  repo = repo;
}

module _ (c : Codecs) (w : World) (s : Site) (repo : Bytes) (sha256_hex : Bytes → Bytes) where
  -- Every GET of the digest is answered with one blob, and that has the digest.
  abbrev pub Answers : Bytes → Type 0
  Answers digest =
      (blob : Bytes) × (sha256_hex blob ≡ digest)
      × ((b : Blobs) (req : Request) (above upper : List Bytes) (wr : Writer)
          → get_blob c w s b req (blob_of repo above upper digest) wr
            ≡ returned b
                (write_body blob
                  (write_header 200 (describe (length blob) (codes "sha256:" ++ digest) wr)))
                none)

  -- The layer has a digest, and a GET of it is answered.
  abbrev pub IsOffered : Option Descriptor → Type 0
  IsOffered l = (size : ℕ) × (digest : Bytes) × (l ≡ some (layer_of size digest)) × Answers digest

module _ (c : Codecs) (w : World) (s : Site) (cid dir : Bytes) (fs : Files)
    (published : Publishes w s.gateway cid dir fs) (repo : Bytes)
    (resolves : (reference : Bytes) → resolve_cid c w s repo reference ≡ ok cid) where
  get_content-published :
      (target content : Bytes)
      → fs (manifest_path dir target) ≡ some content
      → get_content w s.gateway cid (codes "manifests" ∷ target ∷ []) ≡ ok content
  unfolding get_content ipfs_url join
  get_content-published target content e =
      let (status, f) = published (codes "/manifests/" ++ target) content e in rw f refl

  get_manifest-published :
      (target content : Bytes) (m m' : ImageManifest)
      → c.decode_manifest content ≡ ok m'
      → m'.media_type ≡ m.media_type
      → fs (manifest_path dir target) ≡ some content
      → get_manifest c w s cid target ≡ ok (read c content m)
  unfolding get_manifest
  get_manifest-published target content m m' d same e =
      rw (get_content-published target content e, d, same) refl

  IsHeld-Answers :
      (t : Tools) (digest : Bytes)
      → IsHeld t (blobs_dir dir) fs digest
      → Answers c w s repo t.sha256_hex digest
  unfolding get_blob remote site_url ipfs_url join
  IsHeld-Answers t digest (blob, e, h) =
      let (status, f) =
        published (codes "/blobs/" ++ (codes "sha256:" ++ digest)) blob
          (rw (← layer_path-blobs_dir dir digest) e) in
      (blob, h, λ b req above upper wr. rw (get_blob, remote, resolves, f) refl)

  All-IsOffered :
      (t : Tools) (ls : List (Option Descriptor))
      → All (IsPacked t (blobs_dir dir) fs) ls
      → All (IsOffered c w s repo t.sha256_hex) ls
  All-IsOffered t [] h = tt
  All-IsOffered t (l ∷ ls) ((size, digest, e, held), hs) =
      ((size, digest, e, IsHeld-Answers t digest held), All-IsOffered t ls hs)

module _ (t : Tools) (json : ImageManifest → Bytes) (free : (p : Bytes) → t.writable p ≡ true)
    (marshals : (m : ImageManifest) → t.marshal m ≡ ok (json m)) (tmp image_id : Bytes)
    (names : List Bytes) (mf : ArchiveImage) (layers : mf.layers ≡ some (some_all names))
    (c : Codecs) (w : World) (s : Site) (cid repo : Bytes) where
  -- An archive with a name, a configuration that is called by its digest, and layers, on a disk that
  -- takes every file and with an encoder that takes every manifest, whose decoder keeps the media
  -- type; a gateway that publishes the directory that ipfsPrep lays out under a CID; and a repository
  -- that is resolved to the CID. Then ipfsPrep succeeds, getManifest reads its manifest under the CID
  -- by the image's tag and by `latest`, and every GET of the blob of the configuration, or of one of
  -- the layers, of which there are as many as in the archive, answers 200 with a blob of that digest.
  pub ipfs_prep-IsOffered :
      (root name file content : Bytes) (fs : Files)
      → repository_name t tmp fs ≡ ok name
      → read_archive t tmp fs ≡ ok mf
      → mf.config ≡ some file
      → 5 ≤ length file
      → fs (tmp ++ b'/' ∷ file) ≡ some content
      → t.sha256_hex content ≡ take (length file - 5) file
      → ((m : ImageManifest)
          → (m' : ImageManifest) × (c.decode_manifest (json m) ≡ ok m')
            × (m'.media_type ≡ m.media_type))
      → ((fs' : Files)
          → ipfs_prep t tmp root image_id fs ≡ some (ok fs')
          → Publishes w s.gateway cid (root ++ b'/' ∷ name) fs')
      → ((reference : Bytes) → resolve_cid c w s repo reference ≡ ok cid)
      → (fs' : Files) × (m : ImageManifest) × (ipfs_prep t tmp root image_id fs ≡ some (ok fs'))
        × (get_manifest c w s cid (ref image_id) ≡ ok (read c (json m) m))
        × (get_manifest c w s cid (codes "latest") ≡ ok (read c (json m) m))
        × Answers c w s repo t.sha256_hex (take (length file - 5) file)
        × (length m.layers ≡ length names)
        × All (IsOffered c w s repo t.sha256_hex) m.layers
  ipfs_prep-IsOffered root name file content fs named archive config long there hashed decodes
        publishes resolves =
      let (fs', m, e, (tag, latest, sha, count, packed, held, size)) =
        ipfs_prep-IsServed t json free marshals tmp image_id names mf layers root name file content
          fs named archive config long there hashed in
      let dir : Bytes = root ++ b'/' ∷ name in
      let published : Publishes w s.gateway cid dir fs' = publishes fs' e in
      let (m', d, same) = decodes m in
      (
        fs',
        m,
        e,
        get_manifest-published c w s cid dir fs' published repo resolves (ref image_id) (json m) m
            m' d same tag,
        get_manifest-published c w s cid dir fs' published repo resolves (codes "latest") (json m) m
            m' d same latest,
        IsHeld-Answers c w s cid dir fs' published repo resolves t (take (length file - 5) file)
            held,
        count,
        All-IsOffered c w s cid dir fs' published repo resolves t m.layers packed,
      )
