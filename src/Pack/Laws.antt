-- ===== src/Pack/Laws.antt =====
-- What ipfsPrep leaves on the disk: a directory that the registry can serve.
use mathlib.Core.Path.{subst}
use ipdr.Prelude.{
  ◌≡◌, ◌≢◌, ◌⊎◌, refl, ◌∙◌, true, Bool-cases, inl, inr, Option, some, ok, List, [], ◌∷◌, ◌++◌,
  append_assoc, Bytes, codes, arith, All, ◌==◌, ==_iff, ==_refl, ==_ne, insert,
}
use ipdr.Image.{Descriptor, ImageManifest}
use ipdr.Pack.{
  Files, Tools, write_file, layer_path, ref, write_json, manifest_path, write_latest,
  write_manifest,
}
use ipdr.Pack.Layer.{append-injective, IsHeld, IsPacked}

abbrev pub blobs_dir : Bytes → Bytes
blobs_dir workdir = workdir ++ codes "/blobs"

pub layer_path-blobs_dir :
    (workdir d : Bytes)
    → layer_path (blobs_dir workdir) d ≡ workdir ++ (codes "/blobs/" ++ (codes "sha256:" ++ d))
layer_path-blobs_dir workdir d = append_assoc workdir (codes "/blobs") (codes "/sha256:" ++ d)

manifest_path-ne :
    (workdir tag d : Bytes) → manifest_path workdir tag ≢ layer_path (blobs_dir workdir) d
manifest_path-ne workdir tag d e = ground (
  arith,
  append-injective workdir (codes "/manifests/" ++ tag) (codes "/blobs/" ++ (codes "sha256:" ++ d))
      (e ∙ layer_path-blobs_dir workdir d),
)

-- A manifest that is written takes no blob away.
insert-IsHeld :
    (t : Tools) (workdir tag b d : Bytes) (fs : Files)
    → IsHeld t (blobs_dir workdir) fs d
    → IsHeld t (blobs_dir workdir) (insert (manifest_path workdir tag) b fs) d
insert-IsHeld t workdir tag b d fs (blob, e, h) = (
  blob,
  rw
      (==_ne (manifest_path workdir tag) (layer_path (blobs_dir workdir) d)
        (manifest_path-ne workdir tag d))
      e,
  h,
)

pub All-IsPacked :
    (t : Tools) (dir : Bytes) (fs fs' : Files) (ls : List (Option Descriptor))
    → ((d : Bytes) → IsHeld t dir fs d → IsHeld t dir fs' d)
    → All (IsPacked t dir fs) ls
    → All (IsPacked t dir fs') ls
All-IsPacked t dir fs fs' [] keeps h = tt
All-IsPacked t dir fs fs' (l ∷ ls) keeps ((size, d, e, held), h) =
    ((size, d, e, keeps d held), All-IsPacked t dir fs fs' ls keeps h)

insert-same : (p q b : Bytes) (fs : Files) → fs p ≡ some b → insert q b fs p ≡ some b
insert-same p q b fs e = ground arith

module _ (t : Tools) (json : ImageManifest → Bytes) (free : (p : Bytes) → t.writable p ≡ true)
    (marshals : (m : ImageManifest) → t.marshal m ≡ ok (json m)) (workdir image_id : Bytes) where
  write_json_lem :
      (m : ImageManifest) (p : Bytes) (fs : Files) → write_json t m p fs ≡ ok (insert p (json m) fs)
  unfolding write_json write_file
  write_json_lem m p fs = rw (marshals, free) refl

  -- The manifest stands under its tag, under `latest` and under its digest, and all blobs are kept.
  abbrev IsWritten : ImageManifest → Files → Files → Type 0
  IsWritten m fs fs' =
      (fs' (manifest_path workdir (ref image_id)) ≡ some (json m))
      × (fs' (manifest_path workdir (codes "latest")) ≡ some (json m))
      × (fs' (manifest_path workdir (codes "sha256:" ++ t.sha256_hex (json m))) ≡ some (json m))
      × ((d : Bytes) → IsHeld t (blobs_dir workdir) fs d → IsHeld t (blobs_dir workdir) fs' d)

  -- The two writes behind the first.
  abbrev both : ImageManifest → Files → Files
  both m fs =
      insert (manifest_path workdir (codes "sha256:" ++ t.sha256_hex (json m))) (json m)
        (insert (manifest_path workdir (ref image_id)) (json m) fs)

  -- The first write, which is left out for the tag `latest`.
  abbrev IsFirst : ImageManifest → Files → Files → Type 0
  IsFirst m fs fs' =
      ((ref image_id ≡ codes "latest")
        ⊎ (fs' (manifest_path workdir (codes "latest")) ≡ some (json m)))
      × ((d : Bytes) → IsHeld t (blobs_dir workdir) fs d → IsHeld t (blobs_dir workdir) fs' d)

  write_latest-IsFirst :
      (m : ImageManifest) (fs : Files)
      → (fs' : Files) × (write_latest t m workdir (ref image_id) fs ≡ ok fs') × IsFirst m fs fs'
  unfolding write_latest
  write_latest-IsFirst m fs = elim (Bool-cases (ref image_id == codes "latest")) [
    | inl e ↦ (fs, rw e refl, (inl ((==_iff _ _).0 e), λ d h. h))
    | inr e ↦ (
      insert (manifest_path workdir (codes "latest")) (json m) fs,
      rw (e, write_json_lem) refl,
      (
        inr (rw (==_refl (manifest_path workdir (codes "latest"))) refl),
        λ d h. insert-IsHeld t workdir (codes "latest") (json m) d fs h,
      ),
    )
  ]

  both-IsWritten :
      (m : ImageManifest) (fs fs' : Files) → IsFirst m fs fs' → IsWritten m fs (both m fs')
  both-IsWritten m fs fs' (latest, keeps) =
      let tag = manifest_path workdir (ref image_id) in
      let sha = manifest_path workdir (codes "sha256:" ++ t.sha256_hex (json m)) in
      let at_tag : both m fs' tag ≡ some (json m) =
        insert-same tag sha (json m) (insert tag (json m) fs') (rw (==_refl tag) refl) in
      (
        at_tag,
        elim latest [
          | inl e ↦ subst (λ x. both m fs' (manifest_path workdir x) ≡ some (json m)) e at_tag
          | inr e ↦
              insert-same _ sha (json m) (insert tag (json m) fs')
                (insert-same _ tag (json m) fs' e)
        ],
        rw (==_refl sha) refl,
        λ d h.
            insert-IsHeld t workdir (codes "sha256:" ++ t.sha256_hex (json m)) (json m) d
              (insert tag (json m) fs')
              (insert-IsHeld t workdir (ref image_id) (json m) d fs' (keeps d h)),
      )

  pub write_manifest-IsWritten :
      (m : ImageManifest) (fs : Files)
      → (fs' : Files) × (write_manifest t m workdir image_id fs ≡ ok fs') × IsWritten m fs fs'
  unfolding write_manifest
  write_manifest-IsWritten m fs =
      let (fs', e, first) = write_latest-IsFirst m fs in
      (
        both m fs',
        rw (e, write_json_lem, marshals, write_json_lem) refl,
        both-IsWritten m fs fs' first,
      )
