-- ===== src/Docker/Removal.antt =====
-- When RemoveAllImages succeeds.
use ipdr.Prelude.{
  ◌≡◌, ◌↔◌, inl, inr, refl, true, false, Option, none, ok, List, [], ◌∷◌, Bytes, arith, ==_refl,
  ==_iff, List-cases,
}
use ipdr.Strings.Laws.Sort.{contains_str}
use ipdr.Docker.{
  ImageSummary, Daemon, list_images, remove_image, remove_each, remove_all_images, or_last,
}

-- The identifiers of a listing.
abbrev pub ids : List ImageSummary → List Bytes
ids [] = []
ids (i ∷ is) = i.id ∷ ids is

abbrev pub Lists : List ImageSummary → Bytes → Type 0
Lists is x = contains_str x (ids is) ≡ true

-- A daemon whose listings do not fail, where a removal brings no image, and one that succeeds takes
-- its image away.
pub record IsSound {S : Type 0} (d : Daemon S) (images : S → List ImageSummary) : Type 0 where
  pub listing : (s : S) → list_images d s ≡ ok (images s)
  pub brings_none :
      (x y : Bytes) (s : S) → Lists (images (remove_image d x s).0) y → Lists (images s) y
  pub takes :
      (x : Bytes) (s : S)
      → (remove_image d x s).1 ≡ none
      → contains_str x (ids (images (remove_image d x s).0)) ≡ false

module _ {S : Type 0} (d : Daemon S) (images : S → List ImageSummary)
    (sound : IsSound d images) where
  -- The loop brings no image.
  remove_each-brings_none :
      (is : List ImageSummary) (s : S) (last : Option Bytes) (y : Bytes)
      → Lists (images (remove_each d is s last).0) y
      → Lists (images s) y
  unfolding remove_each
  remove_each-brings_none [] s last y h = h
  remove_each-brings_none (i ∷ is) s last y h = sound.brings_none i.id y s (
      remove_each-brings_none is (remove_image d i.id s).0
        (or_last d (remove_image d i.id s).1 last) y h)

  -- Without an error, the loop has taken every image of its list away.
  remove_each-takes :
      (is : List ImageSummary) (s : S) (last : Option Bytes) (y : Bytes)
      → (remove_each d is s last).1 ≡ none
      → Lists (images (remove_each d is s last).0) y
      → (last ≡ none) × (contains_str y (ids is) ≡ false)
  unfolding remove_each contains_str
  remove_each-takes [] s last y e h = (e, refl)
  remove_each-takes (i ∷ is) s last y e h =
      let s' : S = (remove_image d i.id s).0 in
      let (l, gone) = remove_each-takes is s' (or_last d (remove_image d i.id s).1 last) y e h in
      let there : Lists (images s') y =
        remove_each-brings_none is s' (or_last d (remove_image d i.id s).1 last) y h in
      ground (arith, ==_iff y i.id, sound.takes i.id s)

  -- RemoveAllImages succeeds exactly when no image is left, on a daemon whose listings do not fail,
  -- where a removal brings no image, and one that succeeds takes its image away.
  pub remove_all_images-eq-none_iff :
      (s : S) → ((remove_all_images d s).1 ≡ none) ↔ (images (remove_all_images d s).0 ≡ [])
  unfolding remove_all_images
  remove_all_images-eq-none_iff s = elim (List-cases (images (remove_each d (images s) s none).0)) [
    | inl e ↦ rw (remove_all_images, sound.listing, sound.listing, e) (λ h. refl, λ h. refl)
    | inr (i, is, e) ↦
        let end = remove_each d (images s) s none in
        let first : Lists (images end.0) i.id =
          rw e (unfold contains_str in ground (arith, ==_refl i.id)) in
        rw (remove_all_images, sound.listing, sound.listing, e)
          (
            λ last. absurd (
                ground (
                  arith,
                  remove_each-takes (images s) s none i.id last first,
                  remove_each-brings_none (images s) s none i.id first,
                )),
            λ h. absurd (cc),
          )
  ]
