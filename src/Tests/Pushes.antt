-- ===== src/Tests/Pushes.antt =====
-- PUTs of manifests.
use ipdr.Prelude.{
  ◌≡◌, ◌≢◌, ◌↔◌, ◌⊎◌, refl, true, false, none, some, ok, List, [], ◌∷◌, Bytes, codes, empty, insert,
  Map, All, ◌==◌,
}
use ipdr.External.{World}
use ipdr.Http.{
  Request, Writer, RegError, fresh, Returns, returned, blocked, get_header, status_of, sent_header,
}
use ipdr.Ipfs.{add_image, read_add, final_hash, or_no_results}
use ipdr.Blobs
use ipdr.Blobs.{Target, blob_target, collect_layers}
use ipdr.Site.{compute_digest}
use ipdr.Manifests.{Registry, Manifest, manifests_of}
use ipdr.Manifests.Fetch.{head_handler}
use ipdr.Manifests.Put.{is_index, missing, check_index, put_manifest, refs_of, put_handler}
use ipdr.Manifests.Put.Locks.{Leaks, put_handler-Leaks, put_handler-deadlock}
use ipdr.Manifests.Put.Stored.{Created, put_handler-Created}
use ipdr.Manifests.Put.Failed.{
  check_index-eq-none_iff, put_handler_refused, put_handler_unsent, head_handler_put,
}
use ipdr.Tests.{toy, quiet, down, fresh_registry, pushed, ask}

abbrev put : Request
put = record (ask (codes "PUT") (codes "/v2/a/manifests/t") (codes "{}")) {
  header = insert (codes "Content-Type") (codes "m") empty;
}

-- A manifest list, whose one manifest the registry does not hold.
abbrev put_list : Request
put_list = record put {
  header = insert (codes "Content-Type") (codes "application/vnd.oci.image.index.v1+json") empty;
}

plain :
    check_index toy
      (manifests_of pushed (codes "a"))
      (get_header put (codes "Content-Type"))
      put.body
    ≡ none
unfolding check_index is_index ◌==◌
plain = refl

plain_fresh :
    check_index toy
      (manifests_of fresh_registry (codes "a"))
      (get_header put (codes "Content-Type"))
      put.body
    ≡ none
unfolding check_index is_index ◌==◌
plain_fresh = refl

taken_layers :
    Blobs.get pushed.blobs (codes "a")
    ≡ some (pushed.blobs, some (insert (codes "sha256:l") (codes "l") empty))
unfolding Blobs.get collect_layers ◌==◌
taken_layers = refl

sent_image :
    add_image quiet
      (refs_of (codes "t") (compute_digest toy (codes "{}")) (codes "{}"))
      (insert (codes "sha256:l") (codes "l") empty)
    ≡ ok (codes "bafy")
unfolding add_image read_add final_hash or_no_results
sent_image = refl

put_handler-Created_example :
    Returns
      (λ r' wr e.
        Created toy (codes "a") (codes "t") put (codes "bafy") r' wr e
        × (r'.manifests.lock ≡ false))
      (put_handler toy quiet (codes "a") (codes "t") put fresh pushed)
unfolding ◌==◌
put_handler-Created_example =
    put_handler-Created toy quiet (codes "a") (codes "t") put pushed
      (insert (codes "sha256:l") (codes "l") empty) (codes "sha256:l" ∷ []) (codes "bafy")
      (refl, refl) plain refl taken_layers sent_image

put_handler-Leaks_example :
    Returns
      (λ r' wr' e. (r'.manifests.lock ≡ false) × Leaks r' wr' e)
      (put_handler toy quiet (codes "a") (codes "t") put fresh pushed)
put_handler-Leaks_example =
    put_handler-Leaks toy quiet (codes "a") (codes "t") put fresh pushed (refl, refl)

put_handler-deadlock_example :
    (r' : Registry) × (e : RegError) × (put_handler toy quiet
        (codes "a")
        (codes "t")
        put
        fresh
        fresh_registry
      ≡ returned r' fresh (some e))
    × (e.status ≡ 404)
    × ((w' : World) (req' : Request) (wr' : Writer) (t : Target)
        → blob_target req'.path ≡ some (some t)
        → req'.method ≡ codes "HEAD"
        → Blobs.handle toy w' r'.site r'.blobs req' wr' ≡ blocked r'.blobs)
    × ((w' : World) (repo' target' : Bytes) (req' : Request) (wr' : Writer)
        → check_index toy (manifests_of r' repo') (get_header req' (codes "Content-Type")) req'.body
          ≡ none
        → (r'' : Registry) × (put_handler toy w' repo' target' req' wr' r' ≡ blocked r'')
          × (r''.manifests.lock ≡ true))
put_handler-deadlock_example =
    put_handler-deadlock toy quiet (codes "a") (codes "t") put fresh fresh_registry (refl, refl)
      refl plain_fresh

abbrev refusal : RegError
refusal = record {
  status = 404;
  code = codes "MANIFEST_UNKNOWN";
  message = codes "Sub-manifest sha256:x not found";
}

refused :
    check_index toy
      (manifests_of pushed (codes "a"))
      (get_header put_list (codes "Content-Type"))
      put_list.body
    ≡ some refusal
unfolding check_index is_index missing ◌==◌
refused = refl

put_handler_refused_example :
    Returns
      (λ r' wr' e.
        (e ≡ some refusal)
        × (wr' ≡ fresh)
        × (r'.manifests.lock ≡ false)
        × (r'.blobs ≡ pushed.blobs)
        × (r'.site ≡ pushed.site)
        × ((other ref : Bytes) → manifests_of r' other ref ≡ manifests_of pushed other ref))
      (put_handler toy quiet (codes "a") (codes "t") put_list fresh pushed)
put_handler_refused_example =
    put_handler_refused toy quiet (codes "a") (codes "t") put_list fresh pushed refusal refl refused

abbrev nothing : Map Manifest
nothing = empty

abbrev docker_list : Bytes
docker_list = codes "application/vnd.docker.distribution.manifest.list.v2+json"

check_index-eq-none_iff_example : (check_index toy nothing docker_list [] ≡ none) ↔ (
    ((docker_list ≢ codes "application/vnd.oci.image.index.v1+json")
      × (docker_list ≢ codes "application/vnd.docker.distribution.manifest.list.v2+json"))
    ⊎ ((ds : List Bytes) × (ok (codes "sha256:x" ∷ []) ≡ ok ds) × All (λ d. nothing d ≢ none) ds))
check_index-eq-none_iff_example = check_index-eq-none_iff toy nothing docker_list []

put_handler_unsent_example :
    Returns
      (λ r' wr e. Created toy (codes "a") (codes "t") put [] r' wr e × (r'.manifests.lock ≡ false))
      (put_handler toy down (codes "a") (codes "t") put fresh pushed)
unfolding ◌==◌
put_handler_unsent_example =
    put_handler_unsent toy down (codes "a") (codes "t") (codes "refused") put pushed
      (insert (codes "sha256:l") (codes "l") empty) (codes "sha256:l" ∷ []) (λ dir. refl)
      (refl, refl) plain refl taken_layers

-- A registry that holds the manifest of a PUT.
abbrev holding : Registry
holding = record fresh_registry {
  manifests = record {
    manifests = insert (codes "a") (insert (codes "t") (put_manifest put) empty) empty;
    lock = false;
  };
}

head_handler_put_example :
    Returns
      (λ r' wr e.
        (e ≡ none)
        × (status_of wr ≡ some 200)
        × (sent_header wr (codes "Docker-Content-Digest") ≡ some []))
      (head_handler toy quiet holding (codes "a") (codes "t") fresh)
unfolding ◌==◌
head_handler_put_example = head_handler_put toy quiet holding (codes "a") (codes "t") put refl refl
