-- ===== src/Cids/Laws.antt =====
-- What the CID store remembers, in memory and over a restart.
pub mod Log
use ipdr.Prelude.{
  ◌≡◌, ◌≢◌, Bool, true, false, some, Bytes, codes, arith, ==_iff, ==_refl, ==_ne, ◌⊎◌, ap,
}
use ipdr.Strings.{has_prefix, split_n2}
use ipdr.Strings.Laws.{Lacks, split_n2-append}
use ipdr.Cids.{CidStore, key, file_path, read_cid, write_cid, add, get, new_cid_store}

-- A repository and a reference can be read off their key, if the repository holds no colon.
pub key-injective :
    (repo repo' ref ref' : Bytes)
    → Lacks b':' repo
    → Lacks b':' repo'
    → key repo ref ≡ key repo' ref'
    → (repo ≡ repo') × (ref ≡ ref')
unfolding key
key-injective repo repo' ref ref' h h' e = ground (
  arith,
  split_n2-append repo ref b':' h,
  split_n2-append repo' ref' b':' h',
  ap (λ (s : Bytes). split_n2 s b':') e,
)

module _ (writable : Bytes → Bool) (s : CidStore) (repo ref cid : Bytes) where
  -- What has been added is found.
  pub get-add_self : get (add writable s repo ref cid) repo ref ≡ some cid
  unfolding get add write_cid
  get-add_self = ground (arith, ==_refl (key repo ref))

  -- An entry of another key in another file is found as before.
  pub get-add_ne :
      (repo' ref' : Bytes)
      → key repo ref ≢ key repo' ref'
      → file_path s.location (key repo ref) ≢ file_path s.location (key repo' ref')
      → get (add writable s repo ref cid) repo' ref' ≡ get s repo' ref'
  unfolding get add write_cid read_cid
  get-add_ne repo' ref' k f = ground (
    arith,
    ==_ne (key repo ref) (key repo' ref') k,
    ==_ne (file_path s.location (key repo ref)) (file_path s.location (key repo' ref')) f,
  )

  -- A tag, no digest, of a repository that is not the CID itself, whose file could be written, is
  -- still known to a store that starts over from the same files.
  pub get-restart :
      repo ≢ cid
      → has_prefix ref (codes "sha256:") ≡ false
      → writable (file_path s.location (key repo ref)) ≡ true
      → get (new_cid_store s.location (add writable s repo ref cid).files) repo ref ≡ some cid
  unfolding get add write_cid read_cid new_cid_store
  get-restart n p h =
      ground (arith, ==_ne repo cid n, ==_refl (file_path s.location (key repo ref)))
