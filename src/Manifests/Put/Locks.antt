-- ===== src/Manifests/Put/Locks.antt =====
-- Which locks a PUT of a manifest leaves held.
use ipdr.Prelude.{
  ◌≡◌, ◌≢◌, ◌↔◌, refl, true, false, Option, some, none, [], ◌++◌, Bytes, codes, arith, Map,
}
use ipdr.External.{Codecs, World}
use ipdr.Http.{Request, Writer, RegError, get_header, returned, blocked, Returns}
use ipdr.Blobs
use ipdr.Blobs.{Blobs, Target, blob_target}
use ipdr.Blobs.Handle.Dispatch.{serve-head}
use ipdr.Manifests.State.{Registry, Manifest, manifests_of, ensure}
use ipdr.Manifests.Put.{check_index, publish, put_checked, put_locked, put_handler, store}

-- The code of the error, if there is one.
abbrev code_of : Option RegError → Bytes
code_of none = []
code_of (some e) = e.code

-- Both mutexes are free.
abbrev pub IsFree : Registry → Type 0
IsFree r = (r.manifests.lock ≡ false) × (r.blobs.lock ≡ false)

-- The blob mutex stays held exactly after the error of a repository without layers.
abbrev pub Leaks : Registry → Writer → Option RegError → Type 0
Leaks r wr e = (r.blobs.lock ≡ true) ↔ (code_of e ≡ codes "MANIFEST_BLOB_UNKNOWN")

module _ (c : Codecs) (w : World) (repo target : Bytes) (req : Request) (wr : Writer) where
  put_checked-Leaks :
      (r : Registry) → r.blobs.lock ≡ false → Returns Leaks (put_checked c w repo target req wr r)
  unfolding put_checked publish Blobs.get Blobs.remove
  put_checked-Leaks r free = ground arith

  check_index-code :
      (known : Map Manifest) (content_type body : Bytes)
      → code_of (check_index c known content_type body) ≢ codes "MANIFEST_BLOB_UNKNOWN"
  unfolding check_index
  check_index-code known content_type body = ground arith

  put_locked-Leaks :
      (r : Registry) → r.blobs.lock ≡ false → Returns Leaks (put_locked c w repo target req wr r)
  unfolding put_locked
  put_locked-Leaks r free = ground (
    arith,
    put_checked-Leaks (store c w repo target req wr (ensure repo r)) free,
    check_index-code (manifests_of r repo) (get_header req (codes "Content-Type")) req.body,
  )

-- With both mutexes free, a PUT of a manifest is answered and releases the manifest mutex. The blob
-- mutex stays held exactly when the answer is the error that the repository's layers are not found.
pub put_handler-Leaks :
    (c : Codecs) (w : World) (repo target : Bytes) (req : Request) (wr : Writer) (r : Registry)
    → IsFree r
    → Returns
        (λ r' wr' e. (r'.manifests.lock ≡ false) × Leaks r' wr' e)
        (put_handler c w repo target req wr r)
unfolding put_handler
put_handler-Leaks c w repo target req wr r free = ground (
  arith,
  put_locked-Leaks c w repo target req wr
      (record r { manifests = record r.manifests { lock = true } }) free.1,
)

-- Once the blob mutex is held and nobody will release it, every HEAD of a blob waits for ever.
handle_held :
    (c : Codecs) (w : World) (r : Registry) (req : Request) (wr : Writer) (t : Target)
    → r.blobs.lock ≡ true
    → blob_target req.path ≡ some (some t)
    → req.method ≡ codes "HEAD"
    → Blobs.handle c w r.site r.blobs req wr ≡ blocked r.blobs
unfolding Blobs.handle Blobs.handle_at Blobs.head
handle_held c w r req wr t held target head =
    rw (target, serve-head c w r.site r.blobs req t wr head, Blobs.head) (ground arith)

-- A PUT of a manifest that gets as far as the layers waits too, and holds the manifest mutex.
put_held :
    (c : Codecs) (w : World) (repo target : Bytes) (req : Request) (wr : Writer) (r : Registry)
    → r.manifests.lock ≡ false
    → r.blobs.lock ≡ true
    → check_index c (manifests_of r repo) (get_header req (codes "Content-Type")) req.body ≡ none
    → (r' : Registry) × (put_handler c w repo target req wr r ≡ blocked r')
      × (r'.manifests.lock ≡ true)
unfolding put_handler put_locked put_checked Blobs.get
put_held c w repo target req wr r free held fine = (
  store c w repo target req wr
      (ensure repo (record r { manifests = record r.manifests { lock = true } })),
  ground arith,
  refl,
)

-- A PUT of a manifest that passes the check of manifest lists, to a repository without layers,
-- with both mutexes free, answers 404, and from then on every HEAD of a blob waits for ever, and
-- so does every PUT of a manifest that passes the check, which moreover keeps the manifest mutex.
pub put_handler-deadlock :
    (c : Codecs) (w : World) (repo target : Bytes) (req : Request) (wr : Writer) (r : Registry)
    → IsFree r
    → r.blobs.layers repo ≡ none
    → check_index c (manifests_of r repo) (get_header req (codes "Content-Type")) req.body ≡ none
    → (r' : Registry) × (e : RegError) × (put_handler c w repo target req wr r
        ≡ returned r' wr (some e))
      × (e.status ≡ 404)
      × ((w' : World) (req' : Request) (wr' : Writer) (t : Target)
          → blob_target req'.path ≡ some (some t)
          → req'.method ≡ codes "HEAD"
          → Blobs.handle c w' r'.site r'.blobs req' wr' ≡ blocked r'.blobs)
      × ((w' : World) (repo' target' : Bytes) (req' : Request) (wr' : Writer)
          → check_index c (manifests_of r' repo') (get_header req' (codes "Content-Type")) req'.body
            ≡ none
          → (r'' : Registry) × (put_handler c w' repo' target' req' wr' r' ≡ blocked r'')
            × (r''.manifests.lock ≡ true))
unfolding put_handler put_locked put_checked Blobs.get
put_handler-deadlock c w repo target req wr r free absent fine =
    let stored : Registry = store c w repo target req wr (ensure repo r) in
    let r' : Registry = record stored { blobs = record r.blobs { lock = true } } in
    (
      r',
      record {
        status = 404;
        code = codes "MANIFEST_BLOB_UNKNOWN";
        message = codes "layers for " ++ (c.quote repo ++ codes " not found");
      },
      ground arith,
      refl,
      λ w' req' wr' t. handle_held c w' r' req' wr' t refl,
      λ w' repo' target' req' wr'. put_held c w' repo' target' req' wr' r' free.0 refl,
    )
