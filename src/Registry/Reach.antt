-- ===== src/Registry/Reach.antt =====
-- Whatever the requests, the blobs stay under their own digests.
use ipdr.Prelude.{◌≡◌, refl, true, some, List, [], ◌∷◌, Bytes, arith, Option-cases, Map, inl, inr}
use ipdr.External.{Codecs, World}
use ipdr.Http.{Request, Writer, state_of}
use ipdr.Blobs
use ipdr.Blobs.{Blobs}
use ipdr.Blobs.Store.Layers.{remove_all_at}
use ipdr.Blobs.Handle.Addressed.{IsAddressed, handle-IsAddressed}
use ipdr.Manifests
use ipdr.Manifests.{Registry, manifest_target, fetch}
use ipdr.Manifests.State.{ensure}
use ipdr.Manifests.Fetch.{fetch_remote, add_digests, get_handler, head_handler}
use ipdr.Manifests.Put.{publish, put_checked, put_locked, put_handler, store}
use ipdr.Registry.{Config, v2, root, new}

-- The states of the registry: the first one, and what a request leaves, however it ends.
pub data Reach (c : Codecs) : Registry → Type 0 where
  start : (w : World) (config : Config) (files : Map Bytes) → Reach c (new w config files)
  step :
      {r : Registry} (w : World) (req : Request) (wr : Writer)
      → Reach c r
      → Reach c (state_of (root c w r req wr))

fetch-blobs :
    (c : Codecs) (w : World) (r : Registry) (repo target : Bytes)
    → (fetch c w r repo target).0.blobs ≡ r.blobs
unfolding fetch fetch_remote
fetch-blobs c w r repo target = ground arith

add_digests-blobs :
    (w : World) (repo cid : Bytes) (ds : List Bytes) (r : Registry)
    → (add_digests w repo cid ds r).blobs ≡ r.blobs
unfolding add_digests
add_digests-blobs w repo cid [] r = refl
add_digests-blobs w repo cid (d ∷ ds) r = add_digests-blobs w repo cid ds _

get_handler-blobs :
    (c : Codecs) (w : World) (r : Registry) (repo target : Bytes) (wr : Writer)
    → (state_of (get_handler c w r repo target wr)).blobs ≡ r.blobs
unfolding get_handler
get_handler-blobs c w r repo target wr = grind (arith, add_digests-blobs, fetch-blobs)

head_handler-blobs :
    (c : Codecs) (w : World) (r : Registry) (repo target : Bytes) (wr : Writer)
    → (state_of (head_handler c w r repo target wr)).blobs ≡ r.blobs
unfolding head_handler
head_handler-blobs c w r repo target wr = ground (
  arith,
  fetch-blobs c w (record r { manifests = record r.manifests { lock = true } }) repo target,
)

-- Removing contents keeps what is left under its digest.
remove-IsAddressed :
    (c : Codecs) (b b' : Blobs) (repo : Bytes)
    → IsAddressed c b
    → Blobs.remove b repo ≡ some b'
    → IsAddressed c b'
unfolding Blobs.remove
remove-IsAddressed c b b' repo h e d blob = elim (Option-cases (b.layers repo)) [
  | inl n ↦ ground (arith, h d blob)
  | inr (ds, f) ↦ ground (arith, h d blob, remove_all_at d ds b.contents)
]

module _ (c : Codecs) (w : World) (repo target : Bytes) (req : Request) (wr : Writer) where
  publish-IsAddressed :
      (r : Registry) (layers : Map Bytes)
      → IsAddressed c r.blobs
      → IsAddressed c (state_of (publish c w repo target req wr r layers)).blobs
  unfolding publish
  publish-IsAddressed r layers h d blob = elim (Option-cases (Blobs.remove r.blobs repo)) [
    | inl n ↦ ground (arith, h d blob)
    | inr (b, e) ↦ ground (arith, remove-IsAddressed c r.blobs b repo h e d blob)
  ]

  put_checked-IsAddressed :
      (r : Registry)
      → IsAddressed c r.blobs
      → IsAddressed c (state_of (put_checked c w repo target req wr r)).blobs
  unfolding put_checked Blobs.get
  put_checked-IsAddressed r h d blob = grind (arith, h d blob, publish-IsAddressed)

put_handler-IsAddressed :
    (c : Codecs) (w : World) (repo target : Bytes) (req : Request) (wr : Writer) (r : Registry)
    → IsAddressed c r.blobs
    → IsAddressed c (state_of (put_handler c w repo target req wr r)).blobs
unfolding put_handler put_locked
put_handler-IsAddressed c w repo target req wr r h d blob =
    let held : Registry = record r { manifests = record r.manifests { lock = true } } in
    ground (
      arith,
      h d blob,
      put_checked-IsAddressed c w repo target req wr
          (store c w repo target req wr (ensure repo held)) h d blob,
    )

manifests-IsAddressed :
    (c : Codecs) (w : World) (r : Registry) (req : Request) (wr : Writer)
    → IsAddressed c r.blobs
    → IsAddressed c (state_of (Manifests.handle c w r req wr)).blobs
unfolding Manifests.handle
manifests-IsAddressed c w r req wr h d blob = elim (Option-cases (manifest_target req.path)) [
  | inl n ↦ ground (arith, h d blob)
  | inr ((repo, target), e) ↦ ground (
    arith,
    h d blob,
    get_handler-blobs c w r repo target wr,
    head_handler-blobs c w r repo target wr,
    put_handler-IsAddressed c w repo target req wr r h d blob,
  )
]

root-IsAddressed :
    (c : Codecs) (w : World) (r : Registry) (req : Request) (wr : Writer)
    → IsAddressed c r.blobs
    → IsAddressed c (state_of (root c w r req wr)).blobs
unfolding root v2
root-IsAddressed c w r req wr h d blob = ground (
  arith,
  h d blob,
  handle-IsAddressed c w r.site r.blobs req wr h d blob,
  manifests-IsAddressed c w r req wr h d blob,
)

-- In every state that requests can lead to, whatever they ask, whatever the network answers and
-- however they end, each blob in the store stands under its own digest.
pub Reach-IsAddressed : (c : Codecs) (r : Registry) → Reach c r → IsAddressed c r.blobs
Reach-IsAddressed c _ (start w config files) = unfold new in λ d blob e. cc
Reach-IsAddressed c _ (step w req wr reach) =
    root-IsAddressed c w _ req wr (Reach-IsAddressed c _ reach)
