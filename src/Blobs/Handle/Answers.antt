-- ===== src/Blobs/Handle/Answers.antt =====
-- Every request is answered, with the lock released, and an error changes nothing.
use ipdr.Prelude.{◌≡◌, ◌≢◌, ◌⊎◌, refl, true, false, Option, some, none, arith}
use ipdr.External.{Codecs, World}
use ipdr.Http.{Request, Writer, RegError, Returns}
use ipdr.Site.{Site}
use ipdr.Blobs.Path.{Target, blob_target, is_blob}
use ipdr.Blobs.Path.Bounds.{blob_target-ne-none}
use ipdr.Blobs.Store.{Blobs}
use ipdr.Blobs.Handle.{
  head, get_blob, post_whole, post_start, patch_range, patch_stream, put_upload, serve, handle_at,
  handle,
}

-- The three maps are the same.
pub record SameBlobs (b b' : Blobs) : Type 0 where
  pub contents : b'.contents ≡ b.contents
  pub uploads : b'.uploads ≡ b.uploads
  pub layers : b'.layers ≡ b.layers

-- The lock is free. Either a status has been sent, or an error changes nothing and leaves the
-- response to its reader.
abbrev pub Settled : Blobs → Writer → Blobs → Writer → Option RegError → Type 0
Settled b wr b' wr' e =
    (b'.lock ≡ false)
    × (((e ≡ none) × (wr'.sent ≢ none)) ⊎ ((e ≢ none) × SameBlobs b b' × (wr' ≡ wr)))

module _ (c : Codecs) (w : World) (s : Site) (b : Blobs) (req : Request) (t : Target) (wr : Writer)
    (free : b.lock ≡ false) where
  head-Settled : Returns (Settled b wr) (head c w s b req t wr)
  unfolding head
  head-Settled = ground arith

  get_blob-Settled : Returns (Settled b wr) (get_blob c w s b req t wr)
  unfolding get_blob
  get_blob-Settled = ground arith

  post_whole-Settled : Returns (Settled b wr) (post_whole c w s b req t wr)
  unfolding post_whole
  post_whole-Settled = ground arith

  patch_range-Settled : Returns (Settled b wr) (patch_range c w s b req t wr)
  unfolding patch_range
  patch_range-Settled = ground arith

  patch_stream-Settled : Returns (Settled b wr) (patch_stream c w s b req t wr)
  unfolding patch_stream
  patch_stream-Settled = ground arith

  put_upload-Settled : Returns (Settled b wr) (put_upload c w s b req t wr)
  unfolding put_upload
  put_upload-Settled = ground arith

  serve-Settled : Returns (Settled b wr) (serve c w s b req t wr)
  unfolding serve post_start
  serve-Settled = ground (
    arith, head-Settled, get_blob-Settled, post_whole-Settled, patch_range-Settled,
    patch_stream-Settled, put_upload-Settled,
  )

handle_at-Settled :
    (c : Codecs) (w : World) (s : Site) (b : Blobs) (req : Request) (wr : Writer)
    (t : Option (Option Target))
    → b.lock ≡ false
    → t ≢ none
    → Returns (Settled b wr) (handle_at c w s b req wr t)
unfolding handle_at
handle_at-Settled c w s b req wr none free h = absurd (h refl)
handle_at-Settled c w s b req wr (some none) free h = ground arith
handle_at-Settled c w s b req wr (some (some t)) free h = serve-Settled c w s b req t wr free

-- On a path that the registry takes for a blob's, with the lock free, the handler never panics and
-- never waits for ever: it releases the lock, and either it sends a status and returns no error, or
-- it returns an error, sends nothing and changes no map.
pub handle-Settled :
    (c : Codecs) (w : World) (s : Site) (b : Blobs) (req : Request) (wr : Writer)
    → b.lock ≡ false
    → is_blob req.path ≡ some true
    → Returns (Settled b wr) (handle c w s b req wr)
unfolding handle
handle-Settled c w s b req wr free blob =
    handle_at-Settled c w s b req wr (blob_target req.path) free (blob_target-ne-none req.path blob)
