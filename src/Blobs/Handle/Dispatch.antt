-- ===== src/Blobs/Handle/Dispatch.antt =====
-- Which function of the handler serves which request.
use ipdr.Prelude.{◌≡◌, ◌≢◌, refl, codes, ◌==◌, [], ==_ne}
use ipdr.External.{Codecs, World}
use ipdr.Http.{Request, Writer, get_query, get_header}
use ipdr.Site.{Site}
use ipdr.Blobs.Path.{Target}
use ipdr.Blobs.Store.{Blobs}
use ipdr.Blobs.Handle.{head, get_blob, post_whole, patch_range, put_upload, serve}

module _ (c : Codecs) (w : World) (s : Site) (b : Blobs) (req : Request) (t : Target)
    (wr : Writer) where
  pub serve-head : req.method ≡ codes "HEAD" → serve c w s b req t wr ≡ head c w s b req t wr
  unfolding serve ◌==◌
  serve-head e = rw e

  serve-get : req.method ≡ codes "GET" → serve c w s b req t wr ≡ get_blob c w s b req t wr
  unfolding serve ◌==◌
  serve-get e = rw e

  pub serve-post :
      req.method ≡ codes "POST"
      → t.target ≡ codes "uploads"
      → get_query req (codes "digest") ≢ []
      → serve c w s b req t wr ≡ post_whole c w s b req t wr
  unfolding serve
  serve-post e u d = rw (e, u, ==_ne (get_query req (codes "digest")) [] d) (unfold ◌==◌ in refl)

  pub serve-patch :
      req.method ≡ codes "PATCH"
      → t.service ≡ codes "uploads"
      → get_header req (codes "Content-Range") ≢ []
      → serve c w s b req t wr ≡ patch_range c w s b req t wr
  unfolding serve
  serve-patch e u r =
      rw (e, u, ==_ne (get_header req (codes "Content-Range")) [] r) (unfold ◌==◌ in refl)

  pub serve-put :
      req.method ≡ codes "PUT"
      → t.service ≡ codes "uploads"
      → get_query req (codes "digest") ≢ []
      → serve c w s b req t wr ≡ put_upload c w s b req t wr
  unfolding serve
  serve-put e u d = rw (e, u, ==_ne (get_query req (codes "digest")) [] d) (unfold ◌==◌ in refl)
