-- ===== src/Blobs/Handle/Location.antt =====
-- The Location of a new upload leads back to its repository.
use ipdr.Prelude.{
  ℕ, ◌≤◌, ◌≡◌, ◌≢◌, refl, some, none, List, [], ◌∷◌, ◌++◌, Bytes, codes, empty, arith, All, ◌==◌,
  ap, Map, append_assoc,
}
use ipdr.Strings.{join}
use ipdr.Strings.Laws.{Lacks}
use ipdr.Strings.Laws.Clean.{IsPart, All-Lacks, path_join-upload}
use ipdr.Decimal.{print}
use ipdr.Decimal.RoundTrip.{print-ge, print-ne-nil}
use ipdr.External.{Codecs, World}
use ipdr.Http.{Request, Writer, get_query, fresh, Returns, status_of, sent_header}
use ipdr.Site.{Site}
use ipdr.Blobs.Path.{Target, blob_target}
use ipdr.Blobs.Path.Names.{blob_path, upload_path, blob_target-blob_path, blob_target-upload_path}
use ipdr.Blobs.Store.{Blobs}
use ipdr.Blobs.Handle.{upload_location, post_start, serve, handle_at, handle}

Lacks-ge : (s : Bytes) → All (λ c. b'0' ≤ c) s → Lacks b'/' s
Lacks-ge [] h = tt
Lacks-ge (c ∷ s) (hc, h) = (omega arith, Lacks-ge s h)

IsPart-ge : (s : Bytes) → s ≢ [] → All (λ c. b'0' ≤ c) s → IsPart s
IsPart-ge [] filled h = absurd (filled refl)
IsPart-ge (c ∷ s) filled (hc, h) = (cc, ground arith, ground arith, Lacks-ge (c ∷ s) (hc, h))

print-IsPart : (n : ℕ) → IsPart (print n)
print-IsPart n = IsPart-ge (print n) (print-ne-nil n) (print-ge n)

upload_location-IsPart :
    (n : Bytes) (ns : List Bytes) (id : Bytes)
    → All IsPart (n ∷ ns)
    → IsPart id
    → upload_location (n ∷ ns) id ≡ upload_path (n ∷ ns) id
upload_location-IsPart n ns id h k =
    ap (λ (p : Bytes). b'/' ∷ p)
      (rw (append_assoc (n ∷ ns) (codes "blobs" ∷ []) (codes "uploads" ∷ id ∷ []))
        (path_join-upload n ns id h k))

abbrev pub start_request : List Bytes → Map Bytes → Bytes → Request
start_request name header body = record {
  method = codes "POST";
  path = blob_path name (codes "uploads");
  query = empty;
  header = header;
  body = body;
}

serve-post_start :
    (c : Codecs) (w : World) (s : Site) (b : Blobs) (req : Request) (t : Target) (wr : Writer)
    → req.method ≡ codes "POST"
    → t.target ≡ codes "uploads"
    → get_query req (codes "digest") ≡ []
    → serve c w s b req t wr ≡ post_start c w s b req t wr
unfolding serve ◌==◌
serve-post_start c w s b req t wr e u d = rw (e, u, d)

-- A POST to /v2/{name}/blobs/uploads without a digest answers 202 and leaves the store as it is, and
-- the path in its Location names the upload of that repository whose id is the random number, for a
-- name of one part or more that a clean path can hold.
pub handle-Location :
    (c : Codecs) (w : World) (s : Site) (b : Blobs) (n : Bytes) (ns : List Bytes)
    (header : Map Bytes) (body : Bytes)
    → All IsPart (n ∷ ns)
    → (location : Bytes) × Returns
        (λ b' wr e.
          (b' ≡ b)
          × (e ≡ none)
          × (status_of wr ≡ some 202)
          × (sent_header wr (codes "Location") ≡ some location))
        (handle c w s b (start_request (n ∷ ns) header body) fresh)
      × (blob_target location
          ≡ some (
              some (record {
                target = print w.random;
                service = codes "uploads";
                above = (n ∷ ns) ++ codes "blobs" ∷ [];
                upper = n ∷ ns;
                repo = join (n ∷ ns) (codes "/");
              })))
unfolding handle handle_at post_start ◌==◌
handle-Location c w s b n ns header body h =
    let id = print w.random in
    let lacks = All-Lacks (n ∷ ns) h in
    let (upper, at) = blob_target-blob_path n ns (codes "uploads") lacks (omega arith) (cc) in
    let t : Target = record {
      target = codes "uploads";
      service = codes "blobs";
      above = n ∷ ns;
      upper = upper;
      repo = join (n ∷ ns) (codes "/");
    } in
    (
      upload_path (n ∷ ns) id,
      rw
          (
            at,
            serve-post_start c w s b (start_request (n ∷ ns) header body) t fresh refl refl refl,
            post_start,
          )
          (refl, refl, refl, ap some (upload_location-IsPart n ns id h (print-IsPart w.random))),
      blob_target-upload_path (n ∷ ns) id lacks ((print-IsPart w.random).3) (print-ne-nil w.random),
    )
