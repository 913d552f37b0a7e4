-- ===== src/Cids/Laws/Log.antt =====
-- The CID store as a log of what was added.
use ipdr.Prelude.{
  ◌≡◌, ◌≢◌, ◌⊎◌, refl, ◌∙◌, ap, Bool, ◌&&◌, Option, some, List, [], ◌∷◌, Bytes, arith, All,
  if◌then◌else◌, ◌==◌, ==_iff, Bool-cases, inl, inr,
}
use ipdr.Strings.Laws.{Lacks}
use ipdr.Cids.{CidStore, key, file_path, write_cid, add, get}
use ipdr.Cids.Laws.{key-injective, get-add_self, get-add_ne}

-- One call of `Add`.
pub record Entry : Type 0 where
  pub repo : Bytes
  pub reference : Bytes
  pub cid : Bytes

unfoldable pub add_all : (Bytes → Bool) → CidStore → List Entry → CidStore
add_all writable s [] = s
add_all writable s (e ∷ es) = add_all writable (add writable s e.repo e.reference e.cid) es

-- The abstract store: the log of the entries, of which the last one for a repository and a reference
-- counts, and what was known before, where there is none.
unfoldable pub latest : List Entry → Bytes → Bytes → Option Bytes → Option Bytes
latest [] repo ref before = before
latest (e ∷ es) repo ref before =
    latest es repo ref (if e.repo == repo && e.reference == ref then some e.cid else before)

-- An entry for another repository or reference does not share the file.
abbrev KeepsFile : Bytes → Bytes → Bytes → Entry → Type 0
KeepsFile location repo ref e =
    ((e.repo ≡ repo) × (e.reference ≡ ref))
    ⊎ (file_path location (key e.repo e.reference) ≢ file_path location (key repo ref))

add-location :
    (writable : Bytes → Bool) (s : CidStore) (repo ref cid : Bytes)
    → (add writable s repo ref cid).location ≡ s.location
unfolding add write_cid
add-location writable s repo ref cid = ground arith

abbrev IsFor : Bytes → Bytes → Entry → Type 0
IsFor repo ref e = (e.repo ≡ repo) × (e.reference ≡ ref)

get-add_other :
    (writable : Bytes → Bool) (s : CidStore) (e : Entry) (repo ref : Bytes)
    → Lacks b':' e.repo
    → Lacks b':' repo
    → KeepsFile s.location repo ref e
    → (IsFor repo ref e → ⊥)
    → get (add writable s e.repo e.reference e.cid) repo ref ≡ get s repo ref
get-add_other writable s e repo ref h k (inl same) n = absurd (n same)
get-add_other writable s e repo ref h k (inr apart) n =
    get-add_ne writable s e.repo e.reference e.cid repo ref
      (λ same. n (key-injective e.repo repo e.reference ref h k same)) apart

get-add :
    (writable : Bytes → Bool) (s : CidStore) (e : Entry) (repo ref : Bytes)
    → Lacks b':' e.repo
    → Lacks b':' repo
    → KeepsFile s.location repo ref e
    → get (add writable s e.repo e.reference e.cid) repo ref
      ≡ (if e.repo == repo && e.reference == ref then some e.cid else get s repo ref)
get-add writable s e repo ref h k f = elim (Bool-cases (e.repo == repo)) [
  | inl p ↦ elim (Bool-cases (e.reference == ref)) [
    | inl q ↦ ground (
      arith,
      ==_iff e.repo repo,
      ==_iff e.reference ref,
      get-add_self writable s e.repo e.reference e.cid,
    )
    | inr q ↦ ground (
      arith,
      ==_iff e.repo repo,
      ==_iff e.reference ref,
      get-add_other writable s e repo ref h k f,
    )
  ]
  | inr p ↦
      ground (
        arith,
        ==_iff e.repo repo,
        ==_iff e.reference ref,
        get-add_other writable s e repo ref h k f,
      )
]

-- The store refines the log: after any sequence of additions, whatever can be written to files, it
-- finds for a repository and a reference the CID that was added last for just these two, and what it
-- found before them where none was, if no repository holds a colon and no other entry shares the
-- file.
pub get-add_all :
    (writable : Bytes → Bool) (es : List Entry) (s : CidStore) (repo ref : Bytes)
    → All (λ e. Lacks b':' e.repo) es
    → Lacks b':' repo
    → All (KeepsFile s.location repo ref) es
    → get (add_all writable s es) repo ref ≡ latest es repo ref (get s repo ref)
unfolding add_all latest
get-add_all writable [] s repo ref h k f = refl
get-add_all writable (e ∷ es) s repo ref (h, hs) k (f, fs) =
    let s' = add writable s e.repo e.reference e.cid in
    get-add_all writable es s' repo ref hs k (rw add-location fs)
    ∙ ap (latest es repo ref) (get-add writable s e repo ref h k f)
