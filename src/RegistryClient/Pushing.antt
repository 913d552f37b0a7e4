-- ===== src/RegistryClient/Pushing.antt =====
-- A push through the IPFS client of a registry.
use ipdr.Prelude.{
  ◌-◌, ◌≤◌, ◌≡◌, ◌≢◌, ◌⊎◌, inl, inr, refl, true, false, Option, none, some, Result, ok, List, [],
  ◌∷◌, ◌++◌, Bytes, arith, All, length, take, ==_ne, ◌==◌,
}
use ipdr.Image.{ImageManifest}
use ipdr.External.{replied}
use ipdr.Ipfs.{final_hash, or_no_results, read_add}
use ipdr.Ipfs.Client.{sent_refs, refs_url, remote_refs, refs}
use ipdr.Pack.{Files, ArchiveImage}
use ipdr.Pack.Layer.{some_all}
use ipdr.Pack.Untar.{untar}
use ipdr.Pack.Prep.{repository_name, read_archive}
use ipdr.Pack.Served.{IsServed, ipfs_prep-IsServed}
use ipdr.Pack.Upload.{first_ref, add_dir, upload_dir}
use ipdr.RegistryClient.{Registry, Workshop, client_daemon, push_image}

-- The replies to `add`, one for each file.
abbrev pub hashes : List Bytes → List (Result Bytes)
hashes [] = []
hashes (h ∷ hs) = ok h ∷ hashes hs

final_hash-append :
    (final hash : Bytes) (hs : List Bytes) → final_hash final (hashes hs ++ ok hash ∷ []) ≡ ok hash
unfolding final_hash
final_hash-append final hash [] = refl
final_hash-append final hash (h ∷ hs) = final_hash-append h hash hs

-- An object of the answer to `refs` without a reference.
abbrev pub IsBlank : Result (Option Bytes) → Type 0
IsBlank o = (o ≡ ok none) ⊎ (o ≡ ok (some []))

sent_refs-append :
    (before after : List (Result (Option Bytes))) (ref : Bytes)
    → All IsBlank before
    → ref ≢ []
    → sent_refs [] (before ++ ok (some ref) ∷ after) ≡ ref ∷ sent_refs ref after
unfolding sent_refs ◌==◌
sent_refs-append [] after ref h n = ground (arith, ==_ne ref [] n)
sent_refs-append (o ∷ before) after ref (inl e, h) n = rw e (sent_refs-append before after ref h n)
sent_refs-append (o ∷ before) after ref (inr e, h) n = rw e (sent_refs-append before after ref h n)

-- How IPFS answers a push whose directory is `root`: it takes any files under a CID, and names for a
-- CID a first reference, behind any number of objects without one.
pub record Takes (w : Workshop) (r : Registry) (root : Bytes) (cid : Files → Bytes)
    (first : Bytes → Bytes) : Type 0 where
  pub opened : Files → Bytes
  pub others : Files → List Bytes
  pub status : Bytes → Bytes
  pub before : Bytes → List (Result (Option Bytes))
  pub after : Bytes → List (Result (Option Bytes))
  pub opens : (fs : Files) → (w.ipfs fs).open_dir root ≡ ok (opened fs)
  pub adds :
      (fs : Files)
      → (w.ipfs fs).add_dir (opened fs) ≡ replied none (hashes (others fs) ++ ok (cid fs) ∷ [])
  pub cid_filled : (fs : Files) → cid fs ≢ []
  pub posts :
      (hash : Bytes)
      → w.post (refs_url r.ipfs_client hash false)
        ≡ ok (record {
          status_code = 200;
          status = status hash;
          refs = before hash ++ ok (some (first hash)) ∷ after hash;
        })
  pub blank : (hash : Bytes) → All IsBlank (before hash)
  pub first_filled : (hash : Bytes) → first hash ≢ []

or_no_results-ne : (hash : Bytes) → hash ≢ [] → or_no_results hash ≡ ok hash
unfolding or_no_results
or_no_results-ne [] h = absurd (h refl)
or_no_results-ne (x ∷ hash) h = refl

module _ (w : Workshop) (r : Registry) (remote : r.ipfs_client.is_remote ≡ true) (root : Bytes)
    (cid : Files → Bytes) (first : Bytes → Bytes) (takes : Takes w r root cid first) where
  add_dir-cid : (fs : Files) → add_dir (client_daemon w r fs) root ≡ ok (cid fs)
  unfolding add_dir read_add or_no_results
  add_dir-cid fs = ground (
    arith,
    takes.opens fs,
    takes.adds fs,
    final_hash-append [] (cid fs) (takes.others fs),
    or_no_results-ne (cid fs) (takes.cid_filled fs),
  )

  refs-first :
      (hash : Bytes)
      → refs w.post w.shell_refs r.ipfs_client hash false
        ≡ ok (first hash ∷ sent_refs (first hash) (takes.after hash))
  unfolding refs remote_refs
  refs-first hash = ground (
    arith,
    takes.posts hash,
    sent_refs-append (takes.before hash) (takes.after hash) (first hash) (takes.blank hash)
        (takes.first_filled hash),
  )

  upload_dir-first :
      (fs : Files) → upload_dir (client_daemon w r fs) root ≡ some (ok (first (cid fs)))
  unfolding upload_dir first_ref
  upload_dir-first fs = ground (
    arith,
    add_dir-cid fs,
    refs-first (cid fs),
    ==_ne (first (cid fs)) [] (takes.first_filled (cid fs)),
  )

  -- A push through a remote client, as NewRegistry makes it, where both directories are made and the
  -- archive is unpacked; of an archive with a name, a configuration that is called by its digest, and
  -- layers, on a disk that takes every file and with an encoder that takes every manifest; while IPFS
  -- takes the directory and answers with its references. Then ipfsPrep lays out files that serve the
  -- image, and the push gives the first reference that IPFS names for the CID of just these files.
  pub push_image-IsServed :
      (json : ImageManifest → Bytes) (free : (p : Bytes) → w.tools.writable p ≡ true)
      (marshals : (m : ImageManifest) → w.tools.marshal m ≡ ok (json m))
      (tmp image_id reader name file content : Bytes) (names : List Bytes) (mf : ArchiveImage)
      (layers : mf.layers ≡ some (some_all names)) (start unpacked : Files)
      → w.tmp ≡ ok tmp
      → w.root ≡ ok root
      → untar w.disk tmp (w.entries reader) start ≡ ok unpacked
      → repository_name w.tools tmp unpacked ≡ ok name
      → read_archive w.tools tmp unpacked ≡ ok mf
      → mf.config ≡ some file
      → 5 ≤ length file
      → unpacked (tmp ++ b'/' ∷ file) ≡ some content
      → w.tools.sha256_hex content ≡ take (length file - 5) file
      → (fs : Files) × (m : ImageManifest) × IsServed w.tools json free marshals tmp image_id names
          mf layers
          (root ++ b'/' ∷ name)
          (take (length file - 5) file)
          fs
          m
        × (push_image w r reader image_id start ≡ some (ok (first (cid fs))))
  unfolding push_image
  push_image-IsServed json free marshals tmp image_id reader name file content names mf layers start
        unpacked made rooted tarred named archive config long there hashed =
      let (fs, m, e, served) =
        ipfs_prep-IsServed w.tools json free marshals tmp image_id names mf layers root name file
          content unpacked named archive config long there hashed in
      (fs, m, served, rw (push_image, made, tarred, rooted, e) (upload_dir-first fs))
