-- ===== src/Blobs/Handle/Upload.antt =====
-- The chunks of an upload, as a client sends them.
pub mod Whole
use mathlib.Core.Path.{fun_ext}
use ipdr.Prelude.{
  ℕ, ◌+◌, ◌-◌, ◌^◌, ◌<◌, ◌≤◌, ◌≡◌, ◌≢◌, refl, Bool, true, false, Option, some, none, List, [], ◌∷◌,
  ◌++◌, Bytes, codes, Map, empty, insert, delete, arith, ◌==◌, ==_iff, ==_refl, length,
  length-append, append_assoc, append-nil, get_or_nil, flatten, ap, if◌then◌else◌, ◌∙◌,
}
use ipdr.Decimal.{print, scan_range}
use ipdr.Decimal.RoundTrip.{scan_range-print}
use ipdr.External.{Codecs, World}
use ipdr.Http.{
  Request, Writer, RegError, get_query, get_header, fresh, Outcome, returned, state_of, set_header,
  write_header,
}
use ipdr.Site.{Site, compute_digest}
use ipdr.Blobs.Path.{Target, blob_target}
use ipdr.Blobs.Store.{Blobs, push, upload_of}
use ipdr.Blobs.Handle.{post_whole, patch_range, put_upload, serve, handle_at, handle}
use ipdr.Blobs.Handle.Dispatch.{serve-post, serve-patch, serve-put}

-- The requests of a client.
abbrev content_range : ℕ → Bytes → Bytes
content_range start chunk = print start ++ b'-' ∷ print (start + length chunk - 1)

abbrev patch_request : Bytes → ℕ → Bytes → Request
patch_request path start chunk = record {
  method = codes "PATCH";
  path = path;
  query = empty;
  header = insert (codes "Content-Range") (content_range start chunk) empty;
  body = chunk;
}

abbrev pub digest_request : Bytes → Bytes → Bytes → Bytes → Request
digest_request method path digest body = record {
  method = method;
  path = path;
  query = insert (codes "digest") digest empty;
  header = empty;
  body = body;
}

append-cons-ne-nil : (s t : Bytes) (x : ℕ) → s ++ x ∷ t ≢ []
append-cons-ne-nil [] t x = cc
append-cons-ne-nil (y ∷ s) t x = cc

pub compute_digest-ne-nil : (c : Codecs) (b : Bytes) → compute_digest c b ≢ []
unfolding compute_digest
compute_digest-ne-nil c b = cc

-- The state `b'` of an upload that has received `l` since the state `b`.
pub record Progress (id : Bytes) (b b' : Blobs) (l : Bytes) : Type 0 where
  pub free : b'.lock ≡ false
  pub contents : b'.contents ≡ b.contents
  pub layers : b'.layers ≡ b.layers
  pub held : upload_of b' id ≡ l
  pub others : (j : Bytes) → (id == j) ≡ false → b'.uploads j ≡ b.uploads j

module _ (c : Codecs) (w : World) (s : Site) (t : Target) where
  state-patch_range :
      (path : Bytes) (b : Blobs) (start : ℕ) (chunk : Bytes)
      → b.lock ≡ false
      → length (upload_of b t.target) ≡ start
      → start + length chunk < 2 ^ 63
      → state_of (patch_range c w s b (patch_request path start chunk) t fresh)
        ≡ record b { uploads = insert t.target (upload_of b t.target ++ chunk) b.uploads }
  unfolding patch_range ◌==◌
  state-patch_range path b start chunk free at fits =
      ground (arith, scan_range-print start (start + length chunk - 1) (omega arith) (omega arith))

  state-handle-patch :
      (path : Bytes) (b : Blobs) (start : ℕ) (chunk : Bytes)
      → blob_target path ≡ some (some t)
      → t.service ≡ codes "uploads"
      → b.lock ≡ false
      → length (upload_of b t.target) ≡ start
      → start + length chunk < 2 ^ 63
      → state_of (handle c w s b (patch_request path start chunk) fresh)
        ≡ record b { uploads = insert t.target (upload_of b t.target ++ chunk) b.uploads }
  unfolding handle handle_at
  state-handle-patch path b start chunk target service free at fits =
      rw
        (
          target,
          serve-patch c w s b (patch_request path start chunk) t fresh refl service
              (unfold ◌==◌ in append-cons-ne-nil (print start) _ b'-'),
        )
        (state-patch_range path b start chunk free at fits)

  handle-patch-Progress :
      (path : Bytes) (b b' : Blobs) (l chunk : Bytes)
      → blob_target path ≡ some (some t)
      → t.service ≡ codes "uploads"
      → Progress t.target b b' l
      → length l + length chunk < 2 ^ 63
      → Progress t.target b
          (state_of (handle c w s b' (patch_request path (length l) chunk) fresh))
          (l ++ chunk)
  handle-patch-Progress path b b' l chunk target service p fits =
      rw (state-handle-patch path b' (length l) chunk target service p.free (ap length p.held) fits)
        (record {
          free = p.free;
          contents = p.contents;
          layers = p.layers;
          held = ground (arith, p.held, ==_refl t.target);
          others = λ j ne. rw ne (p.others j ne);
        })

-- The client sends the chunks one after the other, each with its range.
pub send_chunks : Codecs → World → Site → Bytes → Blobs → ℕ → List Bytes → Blobs
send_chunks c w s path b start [] = b
send_chunks c w s path b start (chunk ∷ chunks) =
    send_chunks c w s path (state_of (handle c w s b (patch_request path start chunk) fresh))
      (start + length chunk) chunks

module _ (c : Codecs) (w : World) (s : Site) (t : Target) (path : Bytes)
    (target : blob_target path ≡ some (some t)) (service : t.service ≡ codes "uploads") where
  pub send_chunks-Progress :
      (b b' : Blobs) (l : Bytes) (start : ℕ) (chunks : List Bytes)
      → Progress t.target b b' l
      → length l ≡ start
      → start + length (flatten chunks) < 2 ^ 63
      → Progress t.target b (send_chunks c w s path b' start chunks) (l ++ flatten chunks)
  unfolding send_chunks
  send_chunks-Progress b b' l start [] p at fits = rw append-nil p
  send_chunks-Progress b b' l start (chunk ∷ chunks) p at fits =
      rw (← append_assoc l chunk (flatten chunks)) (
        send_chunks-Progress b (state_of (handle c w s b' (patch_request path start chunk) fresh))
          (l ++ chunk) (start + length chunk) chunks
          (rw (← at) (
            handle-patch-Progress c w s t path b b' l chunk target service p
              (omega (arith, length-append chunk (flatten chunks)))))
          (omega (arith, length-append l chunk))
          (omega (arith, length-append chunk (flatten chunks))))
