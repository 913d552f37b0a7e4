-- ===== src/Tests/Uploads.antt =====
-- Uploads of blobs.
use ipdr.Prelude.{
  ◌≡◌, refl, true, none, some, List, [], ◌∷◌, ◌++◌, Bytes, codes, empty, arith, flatten, ◌==◌,
  if◌then◌else◌, Map,
}
use ipdr.Strings.{split, join}
use ipdr.Strings.Laws.Sort.{contains_str}
use ipdr.Decimal.{print}
use ipdr.Http.{fresh, Returns, state_of, status_of, sent_header}
use ipdr.Site.{compute_digest}
use ipdr.Blobs
use ipdr.Blobs.{Blobs, Target, no_blobs, handle, blob_target, is_blob, elements, at_end, slice?}
use ipdr.Blobs.Store.Layers.{IsComplete, get-some, get-remove_shared}
use ipdr.Blobs.Handle.Answers.{Settled, handle-Settled}
use ipdr.Blobs.Handle.Complete.{push-IsComplete, handle-IsComplete}
use ipdr.Blobs.Handle.Location.{start_request, handle-Location}
use ipdr.Blobs.Handle.Upload.{digest_request, send_chunks}
use ipdr.Blobs.Handle.Upload.Whole.{upload-eq-post}
use ipdr.Tests.{toy, quiet, site, first_layer, one_layer, ask}

abbrev name : List Bytes
name = codes "lib" ∷ codes "a" ∷ []

abbrev upload : Target
upload = record {
  target = codes "7";
  service = codes "uploads";
  above = name ++ codes "blobs" ∷ [];
  upper = name;
  repo = codes "lib/a";
}

abbrev whole : Target
whole = record {
  target = codes "uploads";
  service = codes "blobs";
  above = name;
  upper = codes "lib" ∷ [];
  repo = codes "lib/a";
}

abbrev chunks : List Bytes
chunks = codes "ab" ∷ codes "c" ∷ []

abbrev put_path : Bytes
put_path = codes "/v2/lib/a/blobs/uploads/7"

abbrev post_path : Bytes
post_path = codes "/v2/lib/a/blobs/uploads/"

parsed : (blob_target put_path ≡ some (some upload)) × (blob_target post_path ≡ some (some whole))
unfolding blob_target Blobs.target_of elements at_end slice? split join ◌==◌
parsed = (refl, refl)

upload-eq-post_example :
    handle toy quiet site
      (send_chunks toy quiet site put_path no_blobs 0 chunks)
      (digest_request
        (codes "PUT")
        put_path
        (compute_digest toy (flatten chunks ++ codes "d"))
        (codes "d"))
      fresh
    ≡ handle toy quiet site no_blobs
        (digest_request
          (codes "POST")
          post_path
          (compute_digest toy (flatten chunks ++ codes "d"))
          (flatten chunks ++ codes "d"))
        fresh
upload-eq-post_example =
    upload-eq-post toy quiet site no_blobs put_path post_path upload whole chunks (codes "d")
      parsed.0 refl parsed.1 refl refl refl refl (omega arith)

taken : is_blob put_path ≡ some true
unfolding is_blob Blobs.is_blob_of elements at_end split ◌==◌
taken = refl

handle-Settled_example :
    Returns
      (Settled one_layer fresh)
      (handle toy quiet site one_layer (ask (codes "PATCH") put_path (codes "ab")) fresh)
handle-Settled_example =
    handle-Settled toy quiet site one_layer (ask (codes "PATCH") put_path (codes "ab")) fresh refl
      taken

no_blobs-IsComplete : IsComplete no_blobs
no_blobs-IsComplete repo ds e = cc

handle-IsComplete_example :
    IsComplete
      (state_of (handle toy quiet site no_blobs (ask (codes "PATCH") put_path (codes "ab")) fresh))
handle-IsComplete_example =
    handle-IsComplete toy quiet site no_blobs (ask (codes "PATCH") put_path (codes "ab")) fresh
      no_blobs-IsComplete

one_layer-IsComplete : IsComplete one_layer
one_layer-IsComplete =
    push-IsComplete (codes "b") (codes "sha256:l") (codes "l") first_layer
      (push-IsComplete (codes "a") (codes "sha256:l") (codes "l") no_blobs no_blobs-IsComplete)

get-some_example :
    (layers : Map Bytes) × (Blobs.get one_layer (codes "a") ≡ some (one_layer, some layers))
    × ((d : Bytes)
        → layers d
          ≡ (if contains_str d (codes "sha256:l" ∷ []) then one_layer.contents d else none))
unfolding ◌==◌
get-some_example =
    get-some one_layer (codes "a") (codes "sha256:l" ∷ []) refl one_layer-IsComplete refl

get-remove_shared_example :
    (b' : Blobs) × (Blobs.remove one_layer (codes "a") ≡ some b')
    × (Blobs.get b' (codes "b") ≡ some (record b' { lock = true }, none))
unfolding ◌==◌ contains_str
get-remove_shared_example =
    get-remove_shared one_layer (codes "a") (codes "b") (codes "sha256:l") (codes "sha256:l" ∷ [])
      (codes "sha256:l" ∷ []) refl refl refl refl refl refl

handle-Location_example :
    (location : Bytes) × Returns
      (λ b' wr e.
        (b' ≡ one_layer)
        × (e ≡ none)
        × (status_of wr ≡ some 202)
        × (sent_header wr (codes "Location") ≡ some location))
      (handle toy quiet site one_layer (start_request name empty []) fresh)
    × (blob_target location
        ≡ some (
            some (record {
              target = print 7;
              service = codes "uploads";
              above = name ++ codes "blobs" ∷ [];
              upper = name;
              repo = join name (codes "/");
            })))
handle-Location_example =
    handle-Location toy quiet site one_layer (codes "lib") (codes "a" ∷ []) empty []
      ((cc, cc, cc, omega arith), ((cc, cc, cc, omega arith), tt))
