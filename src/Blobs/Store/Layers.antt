-- ===== src/Blobs/Store/Layers.antt =====
-- When the layers of a repository are found, and what removing them does to the others.
use ipdr.Prelude.{
  ◌≡◌, ◌≢◌, refl, true, false, some, none, List, [], ◌∷◌, Bytes, Map, empty, insert, delete, arith,
  All, ◌==◌, ==_iff, if◌then◌else◌, Option-cases, inl, inr,
}
use ipdr.Strings.Laws.Sort.{contains_str}
use ipdr.Blobs.Store.{Blobs, collect_layers, get, remove_all, remove}

pub remove_all_at :
    (d : Bytes) (ds : List Bytes) (contents : Map Bytes)
    → remove_all ds contents d ≡ (if contains_str d ds then none else contents d)
unfolding remove_all contains_str
remove_all_at d [] contents = refl
remove_all_at d (e ∷ ds) contents =
    ground (arith, remove_all_at d ds (delete e contents), ==_iff e d, ==_iff d e)

collect_layers-none :
    (d : Bytes) (ds : List Bytes) (contents layers : Map Bytes)
    → contains_str d ds ≡ true
    → contents d ≡ none
    → collect_layers contents ds layers ≡ none
unfolding collect_layers contains_str
collect_layers-none d [] contents layers h e = cc
collect_layers-none d (x ∷ ds) contents layers h e = elim (Option-cases (contents x)) [
  | inl n ↦ rw (n, collect_layers) refl
  | inr (blob, f) ↦
      rw (f, collect_layers)
        (collect_layers-none d ds contents (insert x blob layers) (ground (arith, ==_iff d x)) e)
]

-- What `get` collects: every digest of the list with its content, over the layers before.
collect_layers-some :
    (ds : List Bytes) (contents layers : Map Bytes)
    → All (λ d. contents d ≢ none) ds
    → (found : Map Bytes) × (collect_layers contents ds layers ≡ some found)
      × ((d : Bytes) → found d ≡ (if contains_str d ds then contents d else layers d))
unfolding collect_layers contains_str
collect_layers-some [] contents layers h = (layers, refl, λ d. refl)
collect_layers-some (x ∷ ds) contents layers (hx, h) = elim (Option-cases (contents x)) [
  | inl n ↦ absurd (hx n)
  | inr (blob, f) ↦
      let (found, e, at) = collect_layers-some ds contents (insert x blob layers) h in
      (found, rw (f, collect_layers) e, λ d. ground (arith, at d, ==_iff x d, ==_iff d x))
]

-- Every digest that a repository lists has a content.
abbrev pub IsComplete : Blobs → Type 0
IsComplete b =
    (repo : Bytes) (ds : List Bytes) → b.layers repo ≡ some ds → All (λ d. b.contents d ≢ none) ds

-- In a complete store with the lock free, `get` finds the layers of a repository that lists any: it
-- changes nothing and gives each listed digest its content, and nothing else.
pub get-some :
    (b : Blobs) (repo : Bytes) (ds : List Bytes)
    → b.lock ≡ false
    → IsComplete b
    → b.layers repo ≡ some ds
    → (layers : Map Bytes) × (get b repo ≡ some (b, some layers))
      × ((d : Bytes) → layers d ≡ (if contains_str d ds then b.contents d else none))
unfolding get
get-some b repo ds free complete listed =
    let (found, e, at) = collect_layers-some ds b.contents empty (complete repo ds listed) in
    (found, ground arith, at)

-- With the lock free, removing a repository takes away the content of each digest that it lists,
-- also where another repository lists it too: the layers of the other one are then not found, and
-- `get` returns with the lock held.
pub get-remove_shared :
    (b : Blobs) (repo other d : Bytes) (ds es : List Bytes)
    → b.lock ≡ false
    → (repo == other) ≡ false
    → b.layers repo ≡ some ds
    → b.layers other ≡ some es
    → contains_str d ds ≡ true
    → contains_str d es ≡ true
    → (b' : Blobs) × (remove b repo ≡ some b')
      × (get b' other ≡ some (record b' { lock = true }, none))
unfolding remove get
get-remove_shared b repo other d ds es free ne listed listed' h h' =
    let gone =
      collect_layers-none d es (remove_all ds b.contents) empty h'
        (rw (remove_all_at d ds b.contents, h) refl) in
    (
      record b { contents = remove_all ds b.contents; layers = delete repo b.layers },
      ground arith,
      ground arith,
    )
