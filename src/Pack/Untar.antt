-- ===== src/Pack/Untar.antt =====
-- registry/registry.go: untar. The archive is the list of what the tar reader gives.
use ipdr.Prelude.{
  ◌≡◌, ◌≢◌, refl, ◌∙◌, Bool, true, some, Result, ok, err, ◌>>=◌, List, [], ◌∷◌, ◌++◌, Bytes, codes,
  All, insert, drop, length, if◌then◌else◌, get_or_nil, ==_ne, ==_refl,
}
use ipdr.Strings.{path_join}
use ipdr.Pack.{Files}

-- A header, with the contents of a regular file, whose copy may fail.
pub data Entry : Type 0 where
  directory : Bytes → Entry
  regular : Bytes → Result Bytes → Entry
  other : Bytes → Entry

-- What the file system takes: files, and directories that are there or can be made.
pub record Disk : Type 0 where
  pub writable : Bytes → Bool
  pub makes_dir : Bytes → Bool

-- filepath.Join(dst, header.Name)
unfoldable pub entry_path : Bytes → Bytes → Bytes
entry_path dst name = path_join (dst ∷ name ∷ [])

-- The file is opened without truncation: what it held stays behind the new contents.
unfoldable pub overwrite : Bytes → Bytes → Bytes
overwrite new old = new ++ drop (length new) old

unfoldable pub extract : Disk → Bytes → Entry → Files → Result Files
extract d dst (directory name) fs =
    if d.makes_dir (entry_path dst name) then ok fs else err (codes "cannot make the directory")
extract d dst (regular name content) fs =
    if d.writable (entry_path dst name)
    then (do
      new ← content
      ok (insert (entry_path dst name) (overwrite new (get_or_nil (fs (entry_path dst name)))) fs))
    else err (codes "cannot open the file")
extract d dst (other name) fs = ok fs

unfoldable pub untar : Disk → Bytes → List (Result Entry) → Files → Result Files
untar d dst [] fs = ok fs
untar d dst (err e ∷ es) fs = err e
untar d dst (ok entry ∷ es) fs = do next ← extract d dst entry fs; untar d dst es next

-- An entry that can be read and that leaves the file `p` alone.
abbrev Spares : Bytes → Bytes → Result Entry → Type 0
Spares dst p (err e) = ⊥
Spares dst p (ok (directory name)) = Unit
Spares dst p (ok (other name)) = Unit
Spares dst p (ok (regular name (err e))) = ⊥
Spares dst p (ok (regular name (ok content))) = entry_path dst name ≢ p

module _ (d : Disk) (dst : Bytes) (free : (p : Bytes) → d.writable p ≡ true)
    (makes : (p : Bytes) → d.makes_dir p ≡ true) where
  extract-Spares :
      (p : Bytes) (e : Entry) (fs : Files)
      → Spares dst p (ok e)
      → (fs' : Files) × (extract d dst e fs ≡ ok fs') × (fs' p ≡ fs p)
  unfolding extract
  extract-Spares p (directory name) fs h = (fs, rw makes refl, refl)
  extract-Spares p (other name) fs h = (fs, refl, refl)
  extract-Spares p (regular name (err e)) fs h = absurd h
  extract-Spares p (regular name (ok content)) fs h = (
    insert (entry_path dst name) (overwrite content (get_or_nil (fs (entry_path dst name)))) fs,
    rw free refl,
    rw (==_ne (entry_path dst name) p h) refl,
  )

  untar-Spares :
      (p : Bytes) (es : List (Result Entry)) (fs : Files)
      → All (Spares dst p) es
      → (fs' : Files) × (untar d dst es fs ≡ ok fs') × (fs' p ≡ fs p)
  unfolding untar
  untar-Spares p [] fs h = (fs, refl, refl)
  untar-Spares p (err e ∷ es) fs h = absurd h.0
  untar-Spares p (ok e ∷ es) fs (h, hs) =
      let (next, f, same) = extract-Spares p e fs h in
      let (fs', g, same') = untar-Spares p es next hs in (fs', rw (f, g) refl, same' ∙ same)

  -- On a disk that takes everything, an entry of an archive whose other entries can be read and
  -- lead to other paths is extracted: its file holds the contents, and behind them what a longer
  -- file held there before.
  pub untar-regular :
      (name content : Bytes) (before after : List (Result Entry)) (fs : Files)
      → All (Spares dst (entry_path dst name)) before
      → All (Spares dst (entry_path dst name)) after
      → (fs' : Files) × (untar d dst (before ++ ok (regular name (ok content)) ∷ after) fs ≡ ok fs')
        × (fs' (entry_path dst name)
            ≡ some (content ++ drop (length content) (get_or_nil (fs (entry_path dst name)))))
  unfolding untar extract overwrite
  untar-regular name content [] after fs hs ks =
      let p = entry_path dst name in
      let next : Files = insert p (overwrite content (get_or_nil (fs p))) fs in
      let (fs', f, same) = untar-Spares p after next ks in
      (fs', rw (free, f) refl, same ∙ rw (==_refl p) refl)
  untar-regular name content (err e ∷ before) after fs hs ks = absurd hs.0
  untar-regular name content (ok e ∷ before) after fs (h, hs) ks =
      let p = entry_path dst name in
      let (next, f, same) = extract-Spares p e fs h in
      let (fs', g, found) = untar-regular name content before after next hs ks in
      (fs', rw (f, g) refl, found ∙ rw same refl)
