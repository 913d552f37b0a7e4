-- ===== src/Pack/Names.antt =====
-- The names that an image is looked for, stored and published under.
use ipdr.Prelude.{
  Bool, true, false, ◌||◌, ◌==◌, ℕ, zero, suc, ◌≡◌, inl, inr, ◌↔◌, refl, none, ok, Result-cases,
  List, [], ◌∷◌, ◌++◌, Bytes, codes, arith, All, take, ==_iff,
}
use ipdr.Strings.{contains, has_prefix}
use ipdr.Strings.Laws.{Lacks, split_n2-append}
use ipdr.Docker.{ImageSummary}
use ipdr.Pack.{ref}
use ipdr.Pack.Upload.{
  match_tags, match_images, tag_to_image_id, Daemon, add_dir, first_ref, upload_dir,
}

-- The tag of a name without a digest is everything behind the first colon, also where the colon
-- stands before the port of a host.
pub ref-append :
    (name tag : Bytes)
    → Lacks b':' name
    → contains (name ++ b':' ∷ tag) (codes "sha256:") ≡ false
    → ref (name ++ b':' ∷ tag) ≡ tag
unfolding ref
ref-append name tag h plain = ground (arith, split_n2-append name tag b':' h)

first_ref-nil : (n : ℕ) → first_ref n [] ≡ none
unfolding first_ref
first_ref-nil zero = refl
first_ref-nil (suc n) = first_ref-nil n

first_ref-eq-none_iff :
    (n : ℕ) (refs : List Bytes) → (first_ref n refs ≡ none) ↔ All (λ r. r ≡ []) (take n refs)
unfolding first_ref
first_ref-eq-none_iff zero refs = ground arith
first_ref-eq-none_iff (suc n) [] = ground (arith, first_ref-nil n)
first_ref-eq-none_iff (suc n) (r ∷ refs) = ground (arith, first_ref-eq-none_iff n refs, ==_iff r [])

-- The tag is the name, or the name with `latest`.
abbrev pub names : Bytes → Bytes → Bool
names name tag = tag == name || tag == name ++ codes ":latest"

-- No tag of the image is the name.
abbrev IsSilent : Bytes → ImageSummary → Type 0
IsSilent name i = All (λ tag. names name tag ≡ false) i.tags

abbrev any_names : Bytes → List Bytes → Bool
any_names name [] = false
any_names name (tag ∷ tags) = names name tag || any_names name tags

match_tags_self : (id : Bytes) (tags : List Bytes) → match_tags id tags id ≡ id
unfolding match_tags
match_tags_self id [] = refl
match_tags_self id (tag ∷ tags) = ground (arith, match_tags_self id tags)

match_tags-silent :
    (id name : Bytes) (tags : List Bytes)
    → All (λ tag. names name tag ≡ false) tags
    → match_tags id tags name ≡ name
unfolding match_tags
match_tags-silent id name [] h = refl
match_tags-silent id name (tag ∷ tags) (h, hs) = rw h (match_tags-silent id name tags hs)

match_tags-any :
    (id name : Bytes) (tags : List Bytes)
    → any_names name tags ≡ true
    → match_tags id tags name ≡ id
unfolding match_tags
match_tags-any id name [] h = cc
match_tags-any id name (tag ∷ tags) h =
    ground (arith, match_tags-any id name tags, match_tags_self id tags)

match_images-silent :
    (is : List ImageSummary) (name : Bytes) → All (IsSilent name) is → match_images is name ≡ name
unfolding match_images
match_images-silent [] name h = refl
match_images-silent (i ∷ is) name (h, hs) =
    ground (arith, match_tags-silent i.id name i.tags h, match_images-silent is name hs)

match_images-tagged :
    (before after : List ImageSummary) (i : ImageSummary) (name : Bytes)
    → All (λ j. (has_prefix j.id name ≡ false) × IsSilent name j) before
    → has_prefix i.id name ≡ false
    → any_names name i.tags ≡ true
    → All (IsSilent i.id) after
    → match_images (before ++ i ∷ after) name ≡ i.id
unfolding match_images
match_images-tagged [] after i name h p tagged hs =
    rw (p, match_tags-any i.id name i.tags tagged) (match_images-silent after i.id hs)
match_images-tagged (j ∷ before) after i name ((q, h), k) p tagged hs =
    rw (q, match_tags-silent j.id name j.tags h)
      (match_images-tagged before after i name k p tagged hs)

-- TagToImageID finds the identifier of the image whose tags hold the name, alone or with `latest`, if
-- no identifier up to that image starts with the name, no image before it is tagged with the name,
-- and no later one is tagged with the identifier.
pub tag_to_image_id-tagged :
    (before after : List ImageSummary) (i : ImageSummary) (name : Bytes)
    → All (λ j. (has_prefix j.id name ≡ false) × IsSilent name j) before
    → has_prefix i.id name ≡ false
    → any_names name i.tags ≡ true
    → All (IsSilent i.id) after
    → tag_to_image_id (ok (before ++ i ∷ after)) name ≡ ok i.id
unfolding tag_to_image_id
tag_to_image_id-tagged before after i name h p tagged hs =
    rw (match_images-tagged before after i name h p tagged hs) refl

-- uploadDir ends the program exactly when the directory is added, its references are asked for, and
-- the first ten of them, as far as there are any, are empty.
upload_dir-eq-none_iff :
    (d : Daemon) (root : Bytes)
    → (upload_dir d root ≡ none) ↔ (
        (hash : Bytes) × (refs : List Bytes) × (add_dir d root ≡ ok hash)
        × (d.refs hash ≡ ok refs)
        × All (λ r. r ≡ []) (take 10 refs))
unfolding upload_dir
upload_dir-eq-none_iff d root = elim (Result-cases (add_dir d root)) [
  | inr (e, f) ↦ ground arith
  | inl (hash, f) ↦ elim (Result-cases (d.refs hash)) [
    | inr (e, g) ↦ ground arith
    | inl (refs, g) ↦ ground (arith, first_ref-eq-none_iff 10 refs)
  ]
]
