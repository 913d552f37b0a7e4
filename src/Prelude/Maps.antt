-- ===== src/Prelude/Maps.antt =====
-- Go maps with string keys. The code never depends on the order of a map's entries.
use mathlib.Core.Option.{Option, none, some}
use mathlib.Core.List.{List, []}
use ipdr.Prelude.Tests.{Bytes, ◌==◌, if◌then◌else◌}

abbrev pub Map {ℓ} : Type ℓ → Type ℓ
Map V = Bytes → Option V

module _ {ℓ} {V : Type ℓ} where
  abbrev pub empty : Map V
  empty k = none

  -- m[k] = v
  abbrev pub insert : Bytes → V → Map V → Map V
  insert k v m j = if k == j then some v else m j

  -- delete(m, k)
  abbrev pub delete : Bytes → Map V → Map V
  delete k m j = if k == j then none else m j

-- m[k] at a missing key: the zero value of a slice or a string
abbrev pub get_or_nil {ℓ} : {A : Type ℓ} → Option (List A) → List A
get_or_nil none = []
get_or_nil (some l) = l
