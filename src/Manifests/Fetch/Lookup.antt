-- ===== src/Manifests/Fetch/Lookup.antt =====
-- What a fetched manifest leaves behind.
use ipdr.Prelude.{
  ◌≡◌, refl, All, Option, Bool, true, false, some, none, Result, ok, err, List, [], ◌∷◌, Bytes,
  codes, arith, ◌==◌, ==_iff, ==_refl,
}
use ipdr.External.{Codecs, World}
use ipdr.Http.{fresh, panicked, Returns, map_state, status_of, sent_header}
use ipdr.Image.{Descriptor, ImageManifest, layer_digests, digests}
use ipdr.Cids
use ipdr.Cids.{CidStore}
use ipdr.Cids.Laws.{get-add_self}
use ipdr.Site.{resolve_cid}
use ipdr.Manifests.State.{Manifest, Registry, manifests_of, ensure, release}
use ipdr.Manifests.Fetch.{add_cid, fetch_remote, fetch, add_digests, get_found, get_handler, answer}

-- The result of a fetch is kept.
abbrev Kept : Bytes → Bytes → Registry × Result Manifest → Type 0
Kept repo target (r, ok mf) = manifests_of r repo target ≡ some mf
Kept repo target (r, err e) = Unit

fetch_remote-Kept :
    (c : Codecs) (w : World) (r : Registry) (repo target : Bytes)
    → Kept repo target (fetch_remote c w r repo target)
unfolding fetch_remote
fetch_remote-Kept c w r repo target = ground (arith, ==_refl repo, ==_refl target)

fetch-Kept :
    (c : Codecs) (w : World) (r : Registry) (repo target : Bytes)
    → Kept repo target (fetch c w r repo target)
unfolding fetch
fetch-Kept c w r repo target =
    ground (arith, fetch_remote-Kept c w (ensure repo r) repo target, ==_refl repo)

-- A manifest that has been fetched once is fetched again from memory: whatever the network answers
-- the second time, the manifest is the same, and no manifest and no CID changes.
pub fetch_again :
    (c : Codecs) (w w' : World) (r r' : Registry) (repo target : Bytes) (mf : Manifest)
    → fetch c w r repo target ≡ (r', ok mf)
    → ((fetch c w' r' repo target).1 ≡ ok mf)
      × ((fetch c w' r' repo target).0.site ≡ r'.site)
      × ((other ref : Bytes)
          → manifests_of (fetch c w' r' repo target).0 other ref ≡ manifests_of r' other ref)
fetch_again c w w' r r' repo target mf e =
    let kept : manifests_of r' repo target ≡ some mf = rw e at (fetch-Kept c w r repo target) in
    (
      unfold fetch in ground arith,
      unfold fetch in ground arith,
      λ other ref. unfold fetch in ground (arith, ==_iff repo other),
    )

get-add_same :
    (writable : Bytes → Bool) (s : CidStore) (repo d e cid : Bytes)
    → Cids.get s repo d ≡ some cid
    → Cids.get (Cids.add writable s repo e cid) repo d ≡ some cid
unfolding Cids.get Cids.add Cids.write_cid Cids.read_cid
get-add_same writable s repo d e cid h = ground arith

get-add_digests_keeps :
    (w : World) (repo cid d : Bytes) (ds : List Bytes) (r : Registry)
    → Cids.get r.site.cids repo d ≡ some cid
    → Cids.get (add_digests w repo cid ds r).site.cids repo d ≡ some cid
unfolding add_digests
get-add_digests_keeps w repo cid d [] r h = h
get-add_digests_keeps w repo cid d (e ∷ ds) r h =
    get-add_digests_keeps w repo cid d ds (add_cid w repo e cid r)
      (get-add_same w.writable r.site.cids repo d e cid h)

-- The digests of layers, none of which is null.
abbrev pub all_some : List Descriptor → List (Option Descriptor)
all_some [] = []
all_some (l ∷ ls) = some l ∷ all_some ls

abbrev digests_in : List Descriptor → List Bytes
digests_in [] = []
digests_in (l ∷ ls) = l.digest ∷ digests_in ls

layer_digests-all_some : (ls : List Descriptor) → layer_digests (all_some ls) ≡ some (digests_in ls)
unfolding layer_digests
layer_digests-all_some [] = refl
layer_digests-all_some (l ∷ ls) = rw (layer_digests, layer_digests-all_some ls) refl

digests-all_some :
    (f : ImageManifest) (config : Descriptor) (layers : List Descriptor)
    → f.config ≡ some config
    → f.layers ≡ all_some layers
    → digests f ≡ some (config.digest ∷ digests_in layers)
unfolding digests
digests-all_some f config layers e g = rw (digests, e, g, layer_digests-all_some layers) refl

add_digests-All :
    (w : World) (repo cid : Bytes) (ls : List Descriptor) (r : Registry)
    → All
        (λ l.
          Cids.get (add_digests w repo cid (digests_in ls) r).site.cids repo l.digest ≡ some cid)
        ls
unfolding add_digests
add_digests-All w repo cid [] r = tt
add_digests-All w repo cid (l ∷ ls) r = (
  get-add_digests_keeps w repo cid l.digest (digests_in ls) (add_cid w repo l.digest cid r)
      (get-add_self w.writable r.site.cids repo l.digest cid),
  add_digests-All w repo cid ls (add_cid w repo l.digest cid r),
)

-- The registry while a request holds the manifest mutex.
abbrev pub locked : Registry → Registry
locked r = record r { manifests = record r.manifests { lock = true } }

module _ (c : Codecs) (w : World) (r r' : Registry) (repo target : Bytes) (mf : Manifest)
    (cid : Bytes) (f : ImageManifest) (free : r.manifests.lock ≡ false)
    (fetched : fetch c w (locked r) repo target ≡ (r', ok mf))
    (resolved : resolve_cid c w r'.site repo target ≡ ok cid)
    (decoded : c.decode_manifest mf.blob ≡ ok f) where
  -- A GET of a manifest, with the manifest mutex free, that is fetched as `mf`, whose CID is then
  -- resolved as `cid`, and that decodes to an image with a configuration and with layers, none of
  -- them null: the answer is 200 with the manifest as its body, the CID in its header and, as the
  -- manifest's digest, the one that it is stored with, the mutex is free again, and in the state that
  -- the request leaves the digest of the configuration and of every layer leads to the CID.
  pub get_handler_found :
      (config : Descriptor) (layers : List Descriptor)
      → f.config ≡ some config
      → f.layers ≡ all_some layers
      → Returns
          (λ s wr e.
            (e ≡ none)
            × (status_of wr ≡ some 200)
            × (wr.body ≡ mf.blob)
            × (sent_header wr (codes "Docker-Content-Digest") ≡ some mf.digest)
            × (sent_header wr (codes "X-Docker-Content-ID") ≡ some cid)
            × (s.manifests.lock ≡ false)
            × (Cids.get s.site.cids repo config.digest ≡ some cid)
            × All (λ l. Cids.get s.site.cids repo l.digest ≡ some cid) layers)
          (get_handler c w r repo target fresh)
  unfolding get_handler get_found ◌==◌
  get_handler_found config layers configured filled =
      let ds : List Bytes = config.digest ∷ digests_in layers in
      let listed : digests f ≡ some ds = digests-all_some f config layers configured filled in
      let out : get_handler c w r repo target fresh
          ≡ map_state release (answer w r' repo mf cid ds fresh) =
        ground arith in
      let (first, others) = add_digests-All w repo cid (config ∷ layers) r' in
      rw out (refl, refl, refl, refl, refl, refl, first, others)

  -- With the manifest mutex free, a GET of a manifest that is fetched, whose CID is resolved, and
  -- that decodes without a configuration, such as a manifest list, panics: the dereference of a
  -- nil pointer. The mutex is released.
  pub get_handler_nil :
      f.config ≡ none → get_handler c w r repo target fresh ≡ panicked (release r') fresh
  unfolding get_handler get_found digests
  get_handler_nil absent = ground arith
