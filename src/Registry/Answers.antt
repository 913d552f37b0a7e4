-- ===== src/Registry/Answers.antt =====
-- From a state with both mutexes free every request is answered.
use ipdr.Prelude.{◌≡◌, inl, inr, true, false, some, Bytes, arith, Option-cases}
use ipdr.External.{Codecs, World}
use ipdr.Http.{Request, Writer, Outcome, returned, panicked, blocked}
use ipdr.Blobs.{is_blob}
use ipdr.Blobs.Handle.Answers.{handle-Settled}
use ipdr.Manifests
use ipdr.Manifests.{Registry, is_manifest, manifest_target, fetch}
use ipdr.Manifests.Fetch.{get_handler, head_handler}
use ipdr.Manifests.Put.Locks.{IsFree, put_handler-Leaks}
use ipdr.Registry.{v2, root, handle_blobs}

-- The request does not wait for ever, and the manifest mutex is free in the end.
abbrev pub Ends : Outcome Registry → Type 0
Ends (returned r wr e) = r.manifests.lock ≡ false
Ends (panicked r wr) = r.manifests.lock ≡ false
Ends (blocked r) = ⊥

get_handler-Ends :
    (c : Codecs) (w : World) (r : Registry) (repo target : Bytes) (wr : Writer)
    → r.manifests.lock ≡ false
    → Ends (get_handler c w r repo target wr)
unfolding get_handler
get_handler-Ends c w r repo target wr free = ground arith

head_handler-Ends :
    (c : Codecs) (w : World) (r : Registry) (repo target : Bytes) (wr : Writer)
    → r.manifests.lock ≡ false
    → Ends (head_handler c w r repo target wr)
unfolding head_handler
head_handler-Ends c w r repo target wr free = ground arith

manifests-Ends :
    (c : Codecs) (w : World) (r : Registry) (req : Request) (wr : Writer)
    → IsFree r
    → Ends (Manifests.handle c w r req wr)
unfolding Manifests.handle
manifests-Ends c w r req wr free = elim (Option-cases (manifest_target req.path)) [
  | inl n ↦ rw (n, Manifests.handle) free.0
  | inr ((repo, target), e) ↦
      rw (e, Manifests.handle)
        (ground (
          arith,
          get_handler-Ends c w r repo target wr free.0,
          head_handler-Ends c w r repo target wr free.0,
          put_handler-Leaks c w repo target req wr r free,
        ))
]

blobs-Ends :
    (c : Codecs) (w : World) (r : Registry) (req : Request) (wr : Writer)
    → IsFree r
    → is_blob req.path ≡ some true
    → Ends (handle_blobs c w r req wr)
blobs-Ends c w r req wr free blob =
    ground (arith, handle-Settled c w r.site r.blobs req wr free.1 blob)

v2-Ends :
    (c : Codecs) (w : World) (r : Registry) (req : Request) (wr : Writer)
    → IsFree r
    → Ends (v2 c w r req wr)
unfolding v2
v2-Ends c w r req wr free =
    ground (arith, blobs-Ends c w r req wr free, manifests-Ends c w r req wr free)

-- With both mutexes free, no request waits for ever, whatever it asks and whatever the network
-- answers, and the manifest mutex is free in the end, also where the handler panics.
pub root-Ends :
    (c : Codecs) (w : World) (r : Registry) (req : Request) (wr : Writer)
    → IsFree r
    → Ends (root c w r req wr)
unfolding root
root-Ends c w r req wr free = ground (arith, v2-Ends c w r req wr free)
