-- ===== src/Manifests/Fetch.antt =====
-- manifest.go: `getManifest`, `fetch`, and the handler of GET and HEAD.
pub mod Lookup
use ipdr.Prelude.{
  ℕ, Option, none, some, Result, ok, err, ◌>>=◌, List, [], ◌∷◌, Bytes, codes, length,
}
use ipdr.Decimal.{print}
use ipdr.External.{Codecs, World}
use ipdr.Http.{
  Writer, set_header, write_header, write_body, RegError, reg_error, Outcome, returned, panicked,
}
use ipdr.Image.{ImageManifest, digests}
use ipdr.Cids
use ipdr.Cids.{CidStore}
use ipdr.Site.{Site, resolve_cid, get_content, compute_digest}
use ipdr.Manifests.State.{Manifest, Manifests, Registry, with_lock, manifests_of, ensure, keep}

unfoldable pub get_manifest : Codecs → World → Site → Bytes → Bytes → Result Manifest
get_manifest c w s cid target = do
  b ← get_content w s.gateway cid (codes "manifests" ∷ target ∷ [])
  mf ← c.decode_manifest b
  ok (record { blob = b; content_type = mf.media_type; digest = compute_digest c b })

-- m.registry.cids.Add(repo, reference, cid)
abbrev pub add_cid : World → Bytes → Bytes → Bytes → Registry → Registry
add_cid w repo reference cid r = record r {
  site = record r.site { cids = Cids.add w.writable r.site.cids repo reference cid };
}

-- What a manifest read from IPFS leaves behind.
abbrev pub learn : World → Bytes → Bytes → Bytes → Manifest → Registry → Registry
learn w repo target cid mf r =
    add_cid w repo mf.digest cid (keep repo mf.digest mf (keep repo target mf r))

-- The part of `fetch` behind the store.
unfoldable pub fetch_remote : Codecs → World → Registry → Bytes → Bytes → Registry × Result Manifest
fetch_remote c w r repo target = elim (resolve_cid c w r.site repo target) [
  | err e ↦ (r, err e)
  | ok cid ↦ elim (get_manifest c w r.site cid target) [
    | err e ↦ (r, err e)
    | ok mf ↦ (learn w repo target cid mf r, ok mf)
  ]
]

unfoldable pub fetch : Codecs → World → Registry → Bytes → Bytes → Registry × Result Manifest
unfolding fetch_remote
fetch c w r repo target =
    let r' : Registry = ensure repo r in
    elim (manifests_of r repo target) [
      | some mf ↦ (r', ok mf)
      | none ↦ fetch_remote c w r' repo target
    ]

-- for _, d := range f.Digests() { m.registry.cids.Add(repo, d, cid) }
unfoldable pub add_digests : World → Bytes → Bytes → List Bytes → Registry → Registry
add_digests w repo cid [] r = r
add_digests w repo cid (d ∷ ds) r = add_digests w repo cid ds (add_cid w repo d cid r)

-- f.Digests() where decoding failed and f is nil, or where f has a nil pointer: a panic
abbrev digests_of : Result ImageManifest → Option (List Bytes)
digests_of (ok f) = digests f
digests_of (err e) = none

abbrev pub unknown : Bytes → Option RegError
unknown message = reg_error 404 (codes "MANIFEST_UNKNOWN") message

-- The headers that GET and HEAD share.
abbrev pub describe : Manifest → Writer → Writer
describe mf wr =
    set_header (codes "Content-Length") (print (length mf.blob))
      (set_header (codes "Content-Type") mf.content_type wr)

-- The manifest, the CID and the digests to remember, once all are there.
abbrev pub answer :
    World → Registry → Bytes → Manifest → Bytes → List Bytes → Writer → Outcome Registry
answer w r repo mf cid ds wr =
    returned (add_digests w repo cid ds r)
      (write_body mf.blob (
        write_header 200 (
          describe mf (
            set_header (codes "X-Docker-Content-ID") cid
              (set_header (codes "Docker-Content-Digest") mf.digest wr)))))
      none

-- GET behind the lookup of the manifest.
get_found : Codecs → World → Bytes → Bytes → Writer → Registry → Manifest → Outcome Registry
get_found c w repo target wr r mf = elim (resolve_cid c w r.site repo target) [
  | err e ↦ returned r wr (unknown e)
  | ok cid ↦ elim (digests_of (c.decode_manifest mf.blob)) [
    | none ↦ panicked r wr
    | some ds ↦ answer w r repo mf cid ds wr
  ]
]

module _ (c : Codecs) (w : World) (r : Registry) (repo target : Bytes) (wr : Writer) where
  unfoldable pub get_handler : Outcome Registry
  unfolding get_found write_header write_body
  get_handler = with_lock r λ r'.
      let (r'', found) = fetch c w r' repo target in
      elim found [
        | err e ↦ returned r'' wr (unknown e)
        | ok mf ↦ get_found c w repo target wr r'' mf
      ]

  unfoldable pub head_handler : Outcome Registry
  unfolding write_header
  head_handler = with_lock r λ r'.
      let (r'', found) = fetch c w r' repo target in
      elim found [
        | err e ↦ returned r'' wr (unknown e)
        | ok mf ↦
            returned r''
              (write_header 200
                (describe mf (set_header (codes "Docker-Content-Digest") mf.digest wr)))
              none
      ]
