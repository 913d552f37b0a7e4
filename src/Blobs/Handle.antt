-- ===== src/Blobs/Handle.antt =====
-- blobs.handle, one function for each kind of request, in the order of the code's tests.
pub mod Addressed
pub mod Complete
pub mod Answers
pub mod Dispatch
pub mod Upload
pub mod Location
use ipdr.Prelude.{
  ℕ, ◌+◌, Bool, true, false, not, ◌&&◌, ◌||◌, Option, none, some, Result, ok, err, ◌>>=◌, List, [],
  ◌∷◌, ◌++◌, Bytes, codes, Map, insert, delete, eqb, if◌then◌else◌, ◌==◌, length,
}
use ipdr.Strings.{path_join}
use ipdr.Decimal.{print, print_pred, scan_range, equals_nat}
use ipdr.External.{Codecs, World, HttpReply}
use ipdr.Http.{
  Request, get_query, get_header, Writer, set_header, write_header, write_body, RegError, reg_error,
  Outcome, returned, panicked, blocked,
}
use ipdr.Site.{Site, resolve_cid, site_url, compute_digest}
use ipdr.Blobs.Path.{Target, blob_target}
use ipdr.Blobs.Store.{Blobs, with_lock, upload_of, push}

abbrev unknown : Bytes → Option RegError
unknown message = reg_error 404 (codes "BLOB_UNKNOWN") message

abbrev mismatch : Option RegError
mismatch = reg_error 400 (codes "DIGEST_INVALID") (codes "digest does not match contents")

abbrev bad_range : Bytes → Option RegError
bad_range message = reg_error 416 (codes "BLOB_UPLOAD_UNKNOWN") message

-- The blob on the IPFS gateway, by a HEAD or a GET request.
unfoldable pub remote :
    (Bytes → Result HttpReply) → Codecs → World → Site → Target → Result (ℕ × Bytes)
remote fetch c w s t = do
  cid ← resolve_cid c w s t.repo t.target
  reply ← fetch (site_url s (cid ∷ codes "blobs" ∷ t.target ∷ []))
  if eqb reply.status_code 200
      then (do body ← reply.body; ok (reply.status_code, body))
      else err reply.status

-- The headers that describe a blob.
abbrev pub describe : ℕ → Bytes → Writer → Writer
describe size target wr =
    set_header (codes "Docker-Content-Digest") target
      (set_header (codes "Content-Length") (print size) wr)

-- Copies the gateway's answer, or its error.
abbrev copy_remote : Result (ℕ × Bytes) → Blobs → Target → Writer → Outcome Blobs
copy_remote (ok (status, body)) b t wr =
    returned b (write_body body (write_header status (describe (length body) t.target wr))) none
copy_remote (err e) b t wr = returned b wr (unknown e)

abbrev upload_location : List Bytes → Bytes → Bytes
upload_location dir id =
    b'/' ∷ path_join (codes "v2" ∷ path_join dir ∷ codes "blobs/uploads" ∷ id ∷ [])

module _ (c : Codecs) (w : World) (s : Site) (b : Blobs) (req : Request) (t : Target)
    (wr : Writer) where
  unfoldable pub head : Outcome Blobs
  unfolding remote write_header write_body
  head = with_lock b λ b'. elim (b'.contents t.target) [
    | some blob ↦ returned b' (write_header 200 (describe (length blob) t.target wr)) none
    | none ↦ copy_remote (remote w.http_head c w s t) b' t wr
  ]

  unfoldable pub get_blob : Outcome Blobs
  unfolding remote write_header write_body
  get_blob = copy_remote (remote w.http_get c w s t) b t wr

  -- POST with a digest: the whole blob in one request
  unfoldable pub post_whole : Outcome Blobs
  unfolding compute_digest write_header
  post_whole =
      let d = compute_digest c req.body in
      if d == get_query req (codes "digest")
      then with_lock b (λ b'.
        returned (push t.repo d req.body b')
          (write_header 201 (set_header (codes "Docker-Content-Digest") d wr)) none)
      else returned b wr mismatch

  -- POST without a digest: the name of an upload, which is not stored
  unfoldable pub post_start : Outcome Blobs
  unfolding write_header
  post_start =
      returned b
        (write_header 202 (
          set_header (codes "Range") (codes "0-0")
            (set_header (codes "Location") (upload_location t.above (print w.random)) wr)))
        none

  -- The answer to an upload that now holds `l`.
  accepted : Bytes → Blobs → Outcome Blobs
  unfolding write_header
  accepted l b' =
      returned (record b' { uploads = insert t.target l b'.uploads })
        (write_header 204 (
          set_header (codes "Range") (codes "0-" ++ print_pred (length l))
            (set_header (codes "Location") (upload_location t.upper t.target) wr)))
        none

  -- PATCH with a Content-Range: one chunk
  unfoldable pub patch_range : Outcome Blobs
  unfolding accepted
  patch_range = elim (scan_range (get_header req (codes "Content-Range"))) [
    | none ↦ returned b wr (bad_range (codes "We don't understand your Content-Range"))
    | some start ↦ with_lock b λ b'.
        if equals_nat start (length (upload_of b' t.target))
        then accepted (upload_of b' t.target ++ req.body) b'
        else returned b' wr (bad_range (codes "Your content range doesn't match what we have"))
  ]

  -- PATCH without one: a stream, which must be the first write
  unfoldable pub patch_stream : Outcome Blobs
  unfolding accepted
  patch_stream = with_lock b λ b'. elim (b'.uploads t.target) [
    | some l ↦ returned b' wr (
        reg_error 400 (codes "BLOB_UPLOAD_INVALID")
          (codes "Stream uploads after first write are not allowed"))
    | none ↦ accepted req.body b'
  ]

  -- PUT with a digest: the end of an upload
  unfoldable pub put_upload : Outcome Blobs
  unfolding compute_digest write_header
  put_upload = with_lock b λ b'.
      let l = upload_of b' t.target ++ req.body in
      let d = compute_digest c l in
      if d == get_query req (codes "digest")
      then returned (record (push t.repo d l b') { uploads = delete t.target b'.uploads })
          (write_header 201 (set_header (codes "Docker-Content-Digest") d wr)) none
      else returned b' wr mismatch

  -- The tests on method, service and target.
  unfoldable pub serve : Outcome Blobs
  serve =
      let digest = get_query req (codes "digest") in
      let range = get_header req (codes "Content-Range") in
      let is_uploads = t.service == codes "uploads" in
      if req.method == codes "HEAD"
      then head
      else if req.method == codes "GET"
      then get_blob
      else if req.method == codes "POST" && t.target == codes "uploads" && not (digest == [])
      then post_whole
      else if req.method == codes "POST" && t.target == codes "uploads" && digest == []
      then post_start
      else if req.method == codes "PATCH" && is_uploads && not (range == [])
      then patch_range
      else if req.method == codes "PATCH" && is_uploads && range == []
      then patch_stream
      else if req.method == codes "PUT" && is_uploads && digest == []
      then returned b wr (reg_error 400 (codes "DIGEST_INVALID") (codes "digest not specified"))
      else if req.method == codes "PUT" && is_uploads && not (digest == [])
      then put_upload
      else returned b wr
          (reg_error 400 (codes "METHOD_UNKNOWN") (codes "We don't understand your method + url"))

-- `none` is an index out of range, and the inner `none` a path that is too short.
unfoldable pub handle_at :
    Codecs → World → Site → Blobs → Request → Writer → Option (Option Target) → Outcome Blobs
handle_at c w s b req wr none = panicked b wr
handle_at c w s b req wr (some none) =
    returned b wr (reg_error 400 (codes "NAME_INVALID") (codes "blobs must be attached to a repo"))
handle_at c w s b req wr (some (some t)) = serve c w s b req t wr

unfoldable pub handle : Codecs → World → Site → Blobs → Request → Writer → Outcome Blobs
handle c w s b req wr = handle_at c w s b req wr (blob_target req.path)
