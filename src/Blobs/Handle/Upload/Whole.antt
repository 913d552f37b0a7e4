-- ===== src/Blobs/Handle/Upload/Whole.antt =====
-- An upload in chunks leaves what a single POST leaves.
use mathlib.Core.Path.{fun_ext}
use ipdr.Prelude.{
  ◌^◌, ◌<◌, ◌≡◌, refl, false, some, none, List, [], ◌++◌, Bytes, codes, delete, arith, ◌==◌, ==_iff,
  ==_refl, length, get_or_nil, flatten, ap,
}
use ipdr.External.{Codecs, World}
use ipdr.Http.{Writer, fresh, returned, set_header, write_header}
use ipdr.Site.{Site, compute_digest}
use ipdr.Blobs.Path.{Target, blob_target}
use ipdr.Blobs.Store.{Blobs, push, upload_of}
use ipdr.Blobs.Handle.{post_whole, put_upload, handle_at, handle}
use ipdr.Blobs.Handle.Dispatch.{serve-post, serve-put}
use ipdr.Blobs.Handle.Upload.{
  digest_request, compute_digest-ne-nil, Progress, send_chunks, send_chunks-Progress,
}

-- The store with one more blob, which the repository lists, and without the upload.
abbrev with_blob : Codecs → Target → Bytes → Blobs → Blobs
with_blob c t blob b = record (push t.repo (compute_digest c blob) blob b) {
  uploads = delete t.target b.uploads;
}

abbrev pub created : Codecs → Bytes → Writer
created c blob =
    write_header 201 (set_header (codes "Docker-Content-Digest") (compute_digest c blob) fresh)

module _ (c : Codecs) (w : World) (s : Site) (t : Target) (path : Bytes) where
  put_upload_lem :
      (b : Blobs) (l last : Bytes)
      → b.lock ≡ false
      → upload_of b t.target ≡ l
      → put_upload c w s b
          (digest_request (codes "PUT") path (compute_digest c (l ++ last)) last)
          t
          fresh
        ≡ returned (with_blob c t (l ++ last) b) (created c (l ++ last)) none
  unfolding put_upload ◌==◌
  put_upload_lem b l last free held =
      rw (← held) (ground (arith, ==_refl (compute_digest c (upload_of b t.target ++ last))))

  handle-put :
      (b : Blobs) (l last : Bytes)
      → blob_target path ≡ some (some t)
      → t.service ≡ codes "uploads"
      → b.lock ≡ false
      → upload_of b t.target ≡ l
      → handle c w s b (digest_request (codes "PUT") path (compute_digest c (l ++ last)) last) fresh
        ≡ returned (with_blob c t (l ++ last) b) (created c (l ++ last)) none
  unfolding handle handle_at
  handle-put b l last target service free held =
      rw
        (
          target,
          serve-put c w s b (digest_request (codes "PUT") path (compute_digest c (l ++ last)) last)
              t fresh refl service (unfold ◌==◌ in compute_digest-ne-nil c (l ++ last)),
        )
        (put_upload_lem b l last free held)

  -- A POST of the whole blob.
  handle-post :
      (b : Blobs) (blob : Bytes)
      → blob_target path ≡ some (some t)
      → t.target ≡ codes "uploads"
      → b.lock ≡ false
      → handle c w s b (digest_request (codes "POST") path (compute_digest c blob) blob) fresh
        ≡ returned (push t.repo (compute_digest c blob) blob b) (created c blob) none
  unfolding handle handle_at post_whole
  handle-post b blob target uploads free =
      rw
        (
          target,
          serve-post c w s b (digest_request (codes "POST") path (compute_digest c blob) blob) t
              fresh refl uploads (unfold ◌==◌ in compute_digest-ne-nil c blob),
        )
        (unfold ◌==◌ in ground (arith, ==_refl (compute_digest c blob)))

delete-Progress :
    (id : Bytes) (b b' : Blobs) (l : Bytes)
    → b.uploads id ≡ none
    → Progress id b b' l
    → delete id b'.uploads ≡ b.uploads
delete-Progress id b b' l absent p = fun_ext λ j. ground (arith, ==_iff id j, p.others j)

with_blob-Progress :
    (c : Codecs) (t : Target) (b b' : Blobs) (l blob : Bytes)
    → b.lock ≡ false
    → b.uploads t.target ≡ none
    → Progress t.target b b' l
    → with_blob c t blob b' ≡ push t.repo (compute_digest c blob) blob b
with_blob-Progress c t b b' l blob free absent p =
    ground (arith, delete-Progress t.target b b' l absent p)

-- With the lock free, an upload under a name that the store does not hold yet, sent in any number
-- of chunks with their ranges, shorter than 2^63 bytes together, and ended by a PUT with the
-- digest of the whole, has the outcome of one POST of the whole blob to the same repository: the
-- same state of the store, the same response and the same error, if any.
pub upload-eq-post :
    (c : Codecs) (w : World) (s : Site) (b : Blobs) (path post_path : Bytes) (t u : Target)
    (chunks : List Bytes) (last : Bytes)
    → blob_target path ≡ some (some t)
    → t.service ≡ codes "uploads"
    → blob_target post_path ≡ some (some u)
    → u.target ≡ codes "uploads"
    → u.repo ≡ t.repo
    → b.lock ≡ false
    → b.uploads t.target ≡ none
    → length (flatten chunks) < 2 ^ 63
    → handle c w s
        (send_chunks c w s path b 0 chunks)
        (digest_request (codes "PUT") path (compute_digest c (flatten chunks ++ last)) last)
        fresh
      ≡ handle c w s b
          (digest_request
            (codes "POST")
            post_path
            (compute_digest c (flatten chunks ++ last))
            (flatten chunks ++ last))
          fresh
upload-eq-post c w s b path post_path t u chunks last target service post_target uploads same free
      absent fits =
    let start : Progress t.target b b [] = record {
      free = free;
      contents = refl;
      layers = refl;
      held = ap get_or_nil absent;
      others = λ j ne. refl;
    } in
    let p =
      send_chunks-Progress c w s t path target service b b [] 0 chunks start refl (omega arith) in
    let b' : Blobs = send_chunks c w s path b 0 chunks in
    let blob : Bytes = flatten chunks ++ last in
    rw
      (
        handle-put c w s t path b' (flatten chunks) last target service p.free p.held,
        handle-post c w s u post_path b blob post_target uploads free,
        same,
      )
      (ap (λ x. returned x (created c blob) none)
        (with_blob-Progress c t b b' (flatten chunks) blob free absent p))
