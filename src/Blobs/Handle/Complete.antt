-- ===== src/Blobs/Handle/Complete.antt =====
-- No request to the blob handler makes a listed blob unavailable.
use mathlib.Core.Path.{subst}
use mathlib.Core.Option.{some-injective}
use ipdr.Prelude.{
  ◌≡◌, ◌≢◌, ◌⊎◌, inl, inr, Option, some, none, List, [], ◌∷◌, ◌++◌, Bytes, Map, insert, arith, All,
  All-append, ◌==◌, ==_refl, Bool-cases, Option-cases, get_or_nil,
}
use ipdr.External.{Codecs, World}
use ipdr.Http.{Request, Writer, state_of}
use ipdr.Site.{Site, compute_digest}
use ipdr.Blobs.Path.{Target, blob_target}
use ipdr.Blobs.Store.{Blobs, push, upload_of}
use ipdr.Blobs.Store.Layers.{IsComplete}
use ipdr.Blobs.Handle.{
  head, get_blob, post_whole, post_start, patch_range, patch_stream, put_upload, serve, handle_at,
  handle,
}

All-insert :
    (k : Bytes) (v : Bytes) (m : Map Bytes) (ds : List Bytes)
    → All (λ d. m d ≢ none) ds
    → All (λ d. insert k v m d ≢ none) ds
All-insert k v m [] h = tt
All-insert k v m (d ∷ ds) (a, h) = (ground arith, All-insert k v m ds h)

All-or_nil :
    (b : Blobs) (repo : Bytes)
    → IsComplete b
    → All (λ d. b.contents d ≢ none) (get_or_nil (b.layers repo))
All-or_nil b repo h = elim (Option-cases (b.layers repo)) [
  | inl n ↦ rw n tt
  | inr (ds, e) ↦ rw e (h repo ds e)
]

pub push-IsComplete :
    (repo d blob : Bytes) (b : Blobs) → IsComplete b → IsComplete (push repo d blob b)
push-IsComplete repo d blob b h other ds = elim (Bool-cases (repo == other)) [
  | inl same ↦ rw same λ e.
      subst (All (λ x. insert d blob b.contents x ≢ none)) (some-injective _ _ e) (
        All-append _ (get_or_nil (b.layers repo)) (d ∷ [])
          (All-insert d blob b.contents _ (All-or_nil b repo h)) (rw (==_refl d) (λ z. cc), tt))
  | inr ne ↦ rw ne λ e. All-insert d blob b.contents ds (h other ds e)
]

-- The contents and the layers are as before, or those of a push.
abbrev GrowsBy : Bytes → Bytes → Bytes → Blobs → Blobs → Type 0
GrowsBy repo d blob b b' =
    ((b'.contents ≡ b.contents) × (b'.layers ≡ b.layers))
    ⊎ ((b'.contents ≡ (push repo d blob b).contents) × (b'.layers ≡ (push repo d blob b).layers))

GrowsBy-IsComplete :
    (repo d blob : Bytes) (b b' : Blobs) → GrowsBy repo d blob b b' → IsComplete b → IsComplete b'
GrowsBy-IsComplete repo d blob b b' (inl (e, f)) h other ds = rw (e, f) (h other ds)
GrowsBy-IsComplete repo d blob b b' (inr (e, f)) h other ds =
    rw (e, f) (push-IsComplete repo d blob b h other ds)

module _ (c : Codecs) (w : World) (s : Site) (b : Blobs) (req : Request) (t : Target)
    (wr : Writer) where
  abbrev Whole : Blobs → Type 0
  Whole = GrowsBy t.repo (compute_digest c req.body) req.body b

  abbrev Joined : Blobs → Type 0
  Joined =
      GrowsBy t.repo (compute_digest c (upload_of b t.target ++ req.body))
        (upload_of b t.target ++ req.body) b

  serve-GrowsBy :
      Whole (state_of (serve c w s b req t wr)) ⊎ Joined (state_of (serve c w s b req t wr))
  unfolding serve head get_blob post_whole post_start patch_range patch_stream put_upload
  serve-GrowsBy = ground arith

serve-IsComplete :
    (c : Codecs) (w : World) (s : Site) (b : Blobs) (req : Request) (t : Target) (wr : Writer)
    → IsComplete b
    → IsComplete (state_of (serve c w s b req t wr))
serve-IsComplete c w s b req t wr h = elim (serve-GrowsBy c w s b req t wr) [
  | inl g ↦ GrowsBy-IsComplete _ _ _ b (state_of (serve c w s b req t wr)) g h
  | inr g ↦ GrowsBy-IsComplete _ _ _ b (state_of (serve c w s b req t wr)) g h
]

handle_at-IsComplete :
    (c : Codecs) (w : World) (s : Site) (b : Blobs) (req : Request) (wr : Writer)
    (t : Option (Option Target))
    → IsComplete b
    → IsComplete (state_of (handle_at c w s b req wr t))
unfolding handle_at
handle_at-IsComplete c w s b req wr none h = h
handle_at-IsComplete c w s b req wr (some none) h = h
handle_at-IsComplete c w s b req wr (some (some t)) h = serve-IsComplete c w s b req t wr h

-- Every request to the blob handler keeps the store complete: each digest that a repository lists
-- has a content.
pub handle-IsComplete :
    (c : Codecs) (w : World) (s : Site) (b : Blobs) (req : Request) (wr : Writer)
    → IsComplete b
    → IsComplete (state_of (handle c w s b req wr))
unfolding handle
handle-IsComplete c w s b req wr h = handle_at-IsComplete c w s b req wr (blob_target req.path) h
