-- ===== src/Pack/Layer.antt =====
-- What the compression of the layers leaves on the disk.
use ipdr.Prelude.{
  ℕ, ◌≡◌, ◌≢◌, refl, true, Bool-cases, inl, inr, Option, some, ok, List, [], ◌∷◌, ◌++◌, Bytes,
  codes, arith, All, length, ◌==◌, ==_iff, ==_refl, ==_ne, insert, delete, sym,
}
use ipdr.Regutil.{or_empty}
use ipdr.Image.{Descriptor}
use ipdr.Pack.{
  Files, Tools, read_file, write_file, gzip_file, file_size, sha256_file, rename_file, layer_tmp,
  layer_path, compress_layer, layer_of, compress_layers,
}

pub append-injective : (p s s' : Bytes) → p ++ s ≡ p ++ s' → s ≡ s'
append-injective [] s s' e = e
append-injective (x ∷ p) s s' e = append-injective p s s' (ground arith)

layer_path-ne-tmp : (dir digest : Bytes) → layer_path dir digest ≢ layer_tmp dir
layer_path-ne-tmp dir digest e =
    ground (arith, append-injective dir (codes "/sha256:" ++ digest) (codes "/layer.tmp.tgz") e)

layer_path-injective : (dir d e : Bytes) → layer_path dir d ≡ layer_path dir e → d ≡ e
layer_path-injective dir d e h =
    ground (arith, append-injective dir (codes "/sha256:" ++ d) (codes "/sha256:" ++ e) h)

-- What a layer is compressed to.
abbrev compressed : Tools → Bytes → Files → Bytes
compressed t path fs = t.gzip (or_empty (read_file path fs))

-- The disk after one layer.
abbrev stored : Tools → Bytes → Bytes → Files → Files
stored t path dir fs =
    let blob = compressed t path fs in
    insert (layer_path dir (t.sha256_hex blob)) blob
      (delete (layer_tmp dir) (insert (layer_tmp dir) blob fs))

-- A disk that takes every file compresses every layer.
module _ (t : Tools) (path dir : Bytes) (fs : Files)
    (free : (p : Bytes) → t.writable p ≡ true) where
  abbrev gzipped : Files
  gzipped = insert (layer_tmp dir) (compressed t path fs) fs

  read_gzipped : read_file (layer_tmp dir) gzipped ≡ ok (compressed t path fs)
  unfolding read_file
  read_gzipped = rw (read_file, ==_refl (layer_tmp dir)) refl

  gzip_file_lem : gzip_file t path (layer_tmp dir) fs ≡ ok gzipped
  unfolding gzip_file write_file
  gzip_file_lem = rw (free (layer_tmp dir)) refl

  rename_file_lem :
      rename_file t (layer_tmp dir) (layer_path dir (t.sha256_hex (compressed t path fs))) gzipped
      ≡ ok (stored t path dir fs)
  unfolding rename_file write_file
  rename_file_lem =
      rw (read_gzipped, free (layer_path dir (t.sha256_hex (compressed t path fs)))) refl

  compress_layer_lem :
      compress_layer t path dir fs
      ≡ ok (
        stored t path dir fs,
        (length (compressed t path fs), t.sha256_hex (compressed t path fs)),
      )
  unfolding compress_layer sha256_file file_size
  compress_layer_lem = rw (gzip_file_lem, read_gzipped, rename_file_lem) refl

-- A blob stands under its digest.
abbrev pub IsHeld : Tools → Bytes → Files → Bytes → Type 0
IsHeld t dir fs digest =
    (blob : Bytes) × (fs (layer_path dir digest) ≡ some blob) × (t.sha256_hex blob ≡ digest)

stored-IsHeld :
    (t : Tools) (path dir digest : Bytes) (fs : Files)
    → IsHeld t dir fs digest
    → IsHeld t dir (stored t path dir fs) digest
stored-IsHeld t path dir digest fs (blob, e, h) =
    let new = compressed t path fs in
    elim (Bool-cases (layer_path dir (t.sha256_hex new) == layer_path dir digest)) [
      | inl same ↦ (
        new,
        rw same refl,
        layer_path-injective dir (t.sha256_hex new) digest ((==_iff _ _).0 same),
      )
      | inr ne ↦ (
        blob,
        rw
            (
              ne,
              ==_ne (layer_tmp dir) (layer_path dir digest)
                  (λ q. layer_path-ne-tmp dir digest (sym q)),
            )
            e,
        h,
      )
    ]

stored-IsHeld_new :
    (t : Tools) (path dir : Bytes) (fs : Files)
    → IsHeld t dir (stored t path dir fs) (t.sha256_hex (compressed t path fs))
stored-IsHeld_new t path dir fs = (
  compressed t path fs,
  rw (==_refl (layer_path dir (t.sha256_hex (compressed t path fs)))) refl,
  refl,
)

-- The descriptor of a layer whose blob stands under its digest.
abbrev pub IsPacked : Tools → Bytes → Files → Option Descriptor → Type 0
IsPacked t dir fs l =
    (size : ℕ) × (digest : Bytes) × (l ≡ some (layer_of size digest)) × IsHeld t dir fs digest

-- The results of the layers: as many as there are, each one packed, and what was held still is.
abbrev IsResult : Tools → Bytes → Files → ℕ → Files → List (Option Descriptor) → Type 0
IsResult t dir fs n fs' ls =
    (length ls ≡ n)
    × All (IsPacked t dir fs') ls
    × ((digest : Bytes) → IsHeld t dir fs digest → IsHeld t dir fs' digest)

abbrev pub some_all : List Bytes → List (Option Bytes)
some_all [] = []
some_all (n ∷ ns) = some n ∷ some_all ns

pub compress_layers-IsResult :
    (t : Tools) (tmp dir : Bytes) (fs : Files) (names : List Bytes)
    → ((p : Bytes) → t.writable p ≡ true)
    → (fs' : Files) × (ls : List (Option Descriptor)) × (compress_layers t tmp dir fs
          (some_all names)
        ≡ ok (fs', ls))
      × IsResult t dir fs (length names) fs' ls
unfolding compress_layers
compress_layers-IsResult t tmp dir fs [] free = (fs, [], refl, (refl, tt, λ digest h. h))
compress_layers-IsResult t tmp dir fs (n ∷ names) free =
    let path : Bytes = tmp ++ b'/' ∷ n in
    let one : Files = stored t path dir fs in
    let (fs', ls, e, (size, packed, kept)) = compress_layers-IsResult t tmp dir one names free in
    (
      fs',
      some (layer_of (length (compressed t path fs)) (t.sha256_hex (compressed t path fs))) ∷ ls,
      rw (compress_layer_lem t path dir fs free, e) refl,
      (
        rw size refl,
        ((_, _, refl, kept _ (stored-IsHeld_new t path dir fs)), packed),
        λ digest h. kept digest (stored-IsHeld t path dir digest fs h),
      ),
    )
