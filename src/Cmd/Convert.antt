-- ===== src/Cmd/Convert.antt =====
-- The command `convert`.
use ipdr.Prelude.{
  ◌≡◌, ◌≢◌, ◌⊎◌, ◌↔◌, inl, inr, refl, none, some, ok, List, [], ◌∷◌, ◌++◌, Bytes, codes, arith,
  ◌==◌, ==_iff, Bool-cases,
}
use ipdr.External.{Codecs}
use ipdr.Regutil.{dockerize_hash, ipfsify_hash}
use ipdr.Cmd.{Flags, check_one, check_convert, check_args, first_arg, run_convert, convert_command}

abbrev pub IsFormat : Bytes → Type 0
IsFormat format = (format ≡ codes "docker") ⊎ (format ≡ codes "ipfs")

-- `ipdr convert` never panics, whatever its flags and its arguments, and it prints a text exactly when
-- it has one argument and the format is "docker" or "ipfs".
pub convert_command_iff :
    (c : Codecs) (f : Flags) (args : List Bytes)
    → (convert_command c f args ≢ none)
      × (((out : Bytes) × (convert_command c f args ≡ some (ok out)))
          ↔ ((a : Bytes) × (args ≡ a ∷ []) × IsFormat f.format))
unfolding convert_command check_args check_convert check_one run_convert first_arg
convert_command_iff c f [] = ground arith
convert_command_iff c f (a ∷ []) = elim (Bool-cases (f.format == codes "docker")) [
  | inl e ↦ (
    ground arith,
    (
      λ _. (a, refl, inl ((==_iff f.format (codes "docker")).0 e)),
      λ _. (dockerize_hash c a ++ 10 ∷ [], ground arith),
    ),
  )
  | inr n ↦ elim (Bool-cases (f.format == codes "ipfs")) [
    | inl e ↦ (
      ground arith,
      (
        λ _. (a, refl, inr ((==_iff f.format (codes "ipfs")).0 e)),
        λ _. (ipfsify_hash c a ++ 10 ∷ [], ground arith),
      ),
    )
    | inr m ↦
        let d = ==_iff f.format (codes "docker") in
        let i = ==_iff f.format (codes "ipfs") in
        (ground arith, (ground (arith, d, i), ground (arith, d, i)))
  ]
]
convert_command_iff c f (a ∷ b ∷ args) = ground arith
