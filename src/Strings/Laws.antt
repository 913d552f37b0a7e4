-- ===== src/Strings/Laws.antt =====
-- Laws of splitting, joining and prefixes.
mod Tests
pub mod Clean
pub mod Sort
use ipdr.Prelude.{
  ℕ, ◌≡◌, ◌≢◌, refl, Bool, true, false, List, [], ◌∷◌, ◌++◌, Bytes, arith, append-nil, append_assoc,
  eqb, All, if◌then◌else◌, length, drop, codes,
}
use ipdr.Strings.{has_prefix, trim_prefix, grow, split, split_n2, join}

-- No byte of the text is the separator.
abbrev pub Lacks : ℕ → Bytes → Type 0
Lacks sep = All (λ c. c ≢ sep)

pub split-ne-nil : (s : Bytes) (sep : ℕ) → split s sep ≢ []
unfolding split
split-ne-nil [] sep = cc
split-ne-nil (x ∷ s) sep = grind (arith, split-ne-nil s sep)

-- Splitting a text that lacks the separator, before one separator.
split-append :
    (p rest : Bytes) (sep : ℕ) → Lacks sep p → split (p ++ sep ∷ rest) sep ≡ p ∷ split rest sep
unfolding split
split-append [] rest sep h = ground arith
split-append (x ∷ p) rest sep (hx, hp) = rw (split-append p rest sep hp) (ground arith)

split-Lacks : (p : Bytes) (sep : ℕ) → Lacks sep p → split p sep ≡ p ∷ []
unfolding split
split-Lacks [] sep h = refl
split-Lacks (x ∷ p) sep (hx, hp) = rw (split-Lacks p sep hp) (ground arith)

-- Splitting the join of parts that lack the separator gives the parts.
pub split-join :
    (p : Bytes) (ps : List Bytes) (sep : ℕ)
    → All (Lacks sep) (p ∷ ps)
    → split (join (p ∷ ps) (sep ∷ [])) sep ≡ p ∷ ps
unfolding join
split-join p [] sep h = split-Lacks p sep h.0
split-join p (q ∷ ps) sep (hp, h) = rw (split-append p _ sep hp, split-join q ps sep h)

pub split_n2-append :
    (p rest : Bytes) (sep : ℕ) → Lacks sep p → split_n2 (p ++ sep ∷ rest) sep ≡ p ∷ rest ∷ []
unfolding split_n2
split_n2-append [] rest sep h = ground arith
split_n2-append (x ∷ p) rest sep (hx, hp) = rw (split_n2-append p rest sep hp) (ground arith)

has_prefix-append : (p s : Bytes) → has_prefix (p ++ s) p ≡ true
unfolding has_prefix
has_prefix-append [] s = refl
has_prefix-append (x ∷ p) s = ground (arith, has_prefix-append p s)
