-- ===== src/Blobs/Handle/Addressed.antt =====
-- Blobs are kept under their own digests.
use ipdr.Prelude.{◌≡◌, ◌++◌, Option, some, none, Bytes, arith, ==_iff}
use ipdr.External.{Codecs, World}
use ipdr.Http.{Request, Writer, state_of}
use ipdr.Site.{Site, compute_digest}
use ipdr.Blobs.Path.{Target, blob_target}
use ipdr.Blobs.Store.{Blobs, upload_of}
use ipdr.Blobs.Handle.{
  head, get_blob, post_whole, post_start, patch_range, patch_stream, put_upload, serve, handle_at,
  handle,
}

abbrev pub IsAddressed : Codecs → Blobs → Type 0
IsAddressed c b = (d blob : Bytes) → b.contents d ≡ some blob → compute_digest c blob ≡ d

module _ (c : Codecs) (w : World) (s : Site) (b : Blobs) (req : Request) (t : Target) (wr : Writer)
    (h : IsAddressed c b) where
  head-IsAddressed : IsAddressed c (state_of (head c w s b req t wr))
  unfolding head
  head-IsAddressed d blob = ground (arith, h d blob)

  get_blob-IsAddressed : IsAddressed c (state_of (get_blob c w s b req t wr))
  unfolding get_blob
  get_blob-IsAddressed d blob = ground (arith, h d blob)

  post_whole-IsAddressed : IsAddressed c (state_of (post_whole c w s b req t wr))
  unfolding post_whole
  post_whole-IsAddressed d blob = ground (arith, h d blob, ==_iff (compute_digest c req.body) d)

  patch_range-IsAddressed : IsAddressed c (state_of (patch_range c w s b req t wr))
  unfolding patch_range
  patch_range-IsAddressed d blob = ground (arith, h d blob)

  patch_stream-IsAddressed : IsAddressed c (state_of (patch_stream c w s b req t wr))
  unfolding patch_stream
  patch_stream-IsAddressed d blob = ground (arith, h d blob)

  put_upload-IsAddressed : IsAddressed c (state_of (put_upload c w s b req t wr))
  unfolding put_upload
  put_upload-IsAddressed d blob =
      ground (arith, h d blob, ==_iff (compute_digest c (upload_of b t.target ++ req.body)) d)

  serve-IsAddressed : IsAddressed c (state_of (serve c w s b req t wr))
  unfolding serve post_start
  serve-IsAddressed d blob = ground (
    arith,
    h d blob,
    head-IsAddressed d blob,
    get_blob-IsAddressed d blob,
    post_whole-IsAddressed d blob,
    patch_range-IsAddressed d blob,
    patch_stream-IsAddressed d blob,
    put_upload-IsAddressed d blob,
  )

handle_at-IsAddressed :
    (c : Codecs) (w : World) (s : Site) (b : Blobs) (req : Request) (wr : Writer)
    (t : Option (Option Target))
    → IsAddressed c b
    → IsAddressed c (state_of (handle_at c w s b req wr t))
unfolding handle_at
handle_at-IsAddressed c w s b req wr none h = h
handle_at-IsAddressed c w s b req wr (some none) h = h
handle_at-IsAddressed c w s b req wr (some (some t)) h = serve-IsAddressed c w s b req t wr h

-- Every request keeps the store content-addressed.
pub handle-IsAddressed :
    (c : Codecs) (w : World) (s : Site) (b : Blobs) (req : Request) (wr : Writer)
    → IsAddressed c b
    → IsAddressed c (state_of (handle c w s b req wr))
unfolding handle
handle-IsAddressed c w s b req wr h = handle_at-IsAddressed c w s b req wr (blob_target req.path) h
