-- ===== src/Pack/Served.antt =====
-- ipfsPrep from the archive to the directory.
use ipdr.Prelude.{
  ℕ, ◌-◌, ◌≤◌, ◌≡◌, refl, true, Option, some, ok, List, [], ◌∷◌, ◌++◌, Bytes, codes, arith, All,
  length, take, insert, ==_refl,
}
use ipdr.Image.{Descriptor, ImageManifest}
use ipdr.Pack.{
  Files, Tools, ArchiveImage, read_file, write_file, file_size, copy_file, layer_path,
  prepare_v2_manifest, make_v2_manifest, ref, manifest_path,
}
use ipdr.Pack.Layer.{IsHeld, IsPacked, some_all, compress_layers-IsResult}
use ipdr.Pack.Laws.{blobs_dir, layer_path-blobs_dir, All-IsPacked, write_manifest-IsWritten}
use ipdr.Pack.Prep.{repository_name, read_archive, config_digest, lay_out, ipfs_prep}

-- The manifest for a configuration and layers.
abbrev v2_manifest : ℕ → Bytes → List (Option Descriptor) → ImageManifest
v2_manifest size digest ls = record {
  schema_version = 2;
  media_type = codes "application/vnd.docker.distribution.manifest.v2+json";
  config = some (record {
    media_type = codes "application/vnd.docker.container.image.v1+json";
    size = size;
    digest = digest;
  });
  layers = ls;
}

module _ (t : Tools) (json : ImageManifest → Bytes) (free : (p : Bytes) → t.writable p ≡ true)
    (marshals : (m : ImageManifest) → t.marshal m ≡ ok (json m)) (tmp image_id : Bytes)
    (names : List Bytes) (mf : ArchiveImage) (layers : mf.layers ≡ some (some_all names)) where
  -- The manifest is made where the configuration is held.
  make_v2_manifest_lem :
      (workdir hex : Bytes) (fs : Files)
      → IsHeld t (blobs_dir workdir) fs hex
      → (fs' : Files) × (size : ℕ) × (ls : List (Option Descriptor)) × (make_v2_manifest t mf
            (codes "sha256:" ++ hex)
            (layer_path (blobs_dir workdir) hex)
            tmp
            workdir
            fs
          ≡ ok (fs', v2_manifest size (codes "sha256:" ++ hex) ls))
        × (length ls ≡ length names)
        × All (IsPacked t (blobs_dir workdir) fs') ls
        × IsHeld t (blobs_dir workdir) fs' hex
  unfolding make_v2_manifest prepare_v2_manifest file_size read_file
  make_v2_manifest_lem workdir hex fs held =
      let (fs', ls, e, (size, packed, keeps)) =
        compress_layers-IsResult t tmp (blobs_dir workdir) fs names free in
      let (blob, f, h) = keeps hex held in
      (
        fs',
        length blob,
        ls,
        rw (layers, e, file_size, read_file, f) refl,
        size,
        packed,
        (blob, f, h),
      )

  -- What ipfsPrep leaves below `workdir`, for the configuration `hex`: the manifest under its tag,
  -- under `latest` and under its digest, and each blob that it names under the blob's digest.
  abbrev pub IsServed : Bytes → Bytes → Files → ImageManifest → Type 0
  IsServed workdir hex fs m =
      (fs (manifest_path workdir (ref image_id)) ≡ some (json m))
      × (fs (manifest_path workdir (codes "latest")) ≡ some (json m))
      × (fs (manifest_path workdir (codes "sha256:" ++ t.sha256_hex (json m))) ≡ some (json m))
      × (length m.layers ≡ length names)
      × All (IsPacked t (blobs_dir workdir) fs) m.layers
      × IsHeld t (blobs_dir workdir) fs hex
      × ((size : ℕ) × (m.config ≡ (v2_manifest size (codes "sha256:" ++ hex) []).config))

  lay_out-IsServed :
      (workdir file hex content : Bytes) (fs : Files)
      → fs (tmp ++ b'/' ∷ file) ≡ some content
      → t.sha256_hex content ≡ hex
      → (fs' : Files) × (m : ImageManifest) × (lay_out t mf tmp workdir file
            (codes "sha256:" ++ hex)
            image_id
            fs
          ≡ ok fs')
        × IsServed workdir hex fs' m
  unfolding lay_out copy_file read_file write_file
  lay_out-IsServed workdir file hex content fs there hashed =
      let dest : Bytes = layer_path (blobs_dir workdir) hex in
      let copied : Files = insert dest content fs in
      let held : IsHeld t (blobs_dir workdir) copied hex =
        (content, rw (==_refl dest) refl, hashed) in
      let (made, size, ls, e, count, packed, kept) = make_v2_manifest_lem workdir hex copied held in
      let m : ImageManifest = v2_manifest size (codes "sha256:" ++ hex) ls in
      let (fs', f, (tag, latest, sha, keeps)) =
        write_manifest-IsWritten t json free marshals workdir image_id m made in
      (
        fs',
        m,
        rw (← layer_path-blobs_dir workdir hex, read_file, there, free, e, f) refl,
        (
          tag,
          latest,
          sha,
          count,
          All-IsPacked t (blobs_dir workdir) made fs' ls keeps packed,
          keeps hex kept,
          (size, refl),
        ),
      )

  -- An archive with a name, a configuration that is called by its digest, and layers, on a disk
  -- that takes every file and with an encoder that takes every manifest: ipfsPrep succeeds, the
  -- manifest stands under the image's tag, under `latest` and under its digest, and names as many
  -- layers as the archive; the blob of the configuration and of every layer stands under its own
  -- digest.
  pub ipfs_prep-IsServed :
      (root name file content : Bytes) (fs : Files)
      → repository_name t tmp fs ≡ ok name
      → read_archive t tmp fs ≡ ok mf
      → mf.config ≡ some file
      → 5 ≤ length file
      → fs (tmp ++ b'/' ∷ file) ≡ some content
      → t.sha256_hex content ≡ take (length file - 5) file
      → (fs' : Files) × (m : ImageManifest) × (ipfs_prep t tmp root image_id fs ≡ some (ok fs'))
        × IsServed (root ++ b'/' ∷ name) (take (length file - 5) file) fs' m
  unfolding ipfs_prep config_digest
  ipfs_prep-IsServed root name file content fs named archive config long there hashed =
      let (fs', m, e, served) =
        lay_out-IsServed (root ++ b'/' ∷ name) file (take (length file - 5) file) content fs there
          hashed in
      (fs', m, ground arith, served)
