-- ===== src/Strings/Laws/Clean.antt =====
-- Joining and cleaning the parts of a path that is clean.
use ipdr.Prelude.{
  ◌≡◌, ◌≢◌, refl, sym, ap, Bool, false, List, [], ◌∷◌, ◌++◌, Bytes, codes, arith, append_assoc, All,
  All-append, ==_ne,
}
use ipdr.Strings.{
  has_prefix, join, clean_step, clean_from, reverse_onto, or_dot, clean, non_empty,
  clean_unless_empty, path_join,
}
use ipdr.Strings.Laws.{Lacks, split-join}

-- An element of a path that `path.Clean` keeps as it is.
abbrev pub IsPart : Bytes → Type 0
IsPart p = (p ≢ []) × (p ≢ codes ".") × (p ≢ codes "..") × Lacks b'/' p

clean_from-IsPart :
    (rooted : Bool) (stack parts : List Bytes)
    → All IsPart parts
    → clean_from rooted stack parts ≡ reverse_onto parts stack
unfolding clean_from reverse_onto clean_step
clean_from-IsPart rooted stack [] h = refl
clean_from-IsPart rooted stack (p ∷ ps) ((a, b, d, l), h) =
    rw (==_ne p [] a, ==_ne p (codes ".") b, ==_ne p (codes "..") d)
      (clean_from-IsPart rooted (p ∷ stack) ps h)

reverse_onto-reverse_onto :
    (ps qs : List Bytes) → reverse_onto (reverse_onto ps qs) [] ≡ reverse_onto qs ps
unfolding reverse_onto
reverse_onto-reverse_onto [] qs = refl
reverse_onto-reverse_onto (p ∷ ps) qs = reverse_onto-reverse_onto ps (p ∷ qs)

pub All-Lacks : (ps : List Bytes) → All IsPart ps → All (Lacks b'/') ps
All-Lacks [] h = tt
All-Lacks (p ∷ ps) ((a, b, d, l), h) = (l, All-Lacks ps h)

-- The text of the parts starts with no slash and is not empty.
join-IsPart :
    (p : Bytes) (ps : List Bytes)
    → IsPart p
    → (has_prefix (join (p ∷ ps) (codes "/")) (codes "/") ≡ false)
      × (or_dot (join (p ∷ ps) (codes "/")) ≡ join (p ∷ ps) (codes "/"))
unfolding join has_prefix or_dot
join-IsPart [] ps (a, b, d, l) = absurd (a refl)
join-IsPart (x ∷ p) [] (a, b, d, l) = (ground arith, refl)
join-IsPart (x ∷ p) (q ∷ ps) (a, b, d, l) = (ground arith, refl)

clean-join :
    (p : Bytes) (ps : List Bytes)
    → All IsPart (p ∷ ps)
    → clean (join (p ∷ ps) (codes "/")) ≡ join (p ∷ ps) (codes "/")
unfolding clean join
clean-join p ps h =
    rw
      (
        clean,
        (join-IsPart p ps h.0).0,
        split-join p ps b'/' (All-Lacks (p ∷ ps) h),
        clean_from-IsPart false [] (p ∷ ps) h,
        reverse_onto-reverse_onto (p ∷ ps) [],
      )
      (unfold reverse_onto in (join-IsPart p ps h.0).1)

join-append :
    (p : Bytes) (ps : List Bytes) (q : Bytes) (qs : List Bytes) (sep : Bytes)
    → join ((p ∷ ps) ++ q ∷ qs) sep ≡ join (p ∷ ps) sep ++ (sep ++ join (q ∷ qs) sep)
unfolding join
join-append p [] q qs sep = refl
join-append p (r ∷ ps) q qs sep = simp (join-append r ps q qs sep, append_assoc)

non_empty-IsPart : (ps : List Bytes) → All IsPart ps → non_empty ps ≡ ps
unfolding non_empty
non_empty-IsPart [] h = refl
non_empty-IsPart ([] ∷ ps) ((a, b, d, l), h) = absurd (a refl)
non_empty-IsPart ((x ∷ p) ∷ ps) (hp, h) = ap (λ qs. (x ∷ p) ∷ qs) (non_empty-IsPart ps h)

path_join-IsPart :
    (p : Bytes) (ps : List Bytes)
    → All IsPart (p ∷ ps)
    → path_join (p ∷ ps) ≡ join (p ∷ ps) (codes "/")
unfolding path_join
path_join-IsPart p ps h =
    rw (non_empty-IsPart (p ∷ ps) h) (unfold clean_unless_empty in clean-join p ps h)

non_empty_filled :
    (j id : Bytes)
    → j ≢ []
    → id ≢ []
    → non_empty (codes "v2" ∷ j ∷ codes "blobs/uploads" ∷ id ∷ [])
      ≡ codes "v2" ∷ j ∷ codes "blobs/uploads" ∷ id ∷ []
unfolding non_empty
non_empty_filled [] id h k = absurd (h refl)
non_empty_filled (x ∷ j) [] h k = absurd (k refl)
non_empty_filled (x ∷ j) (y ∷ id) h k = refl

join-ne-nil : (p : Bytes) (ps : List Bytes) → IsPart p → join (p ∷ ps) (codes "/") ≢ []
unfolding join
join-ne-nil [] ps (a, b, d, l) = absurd (a refl)
join-ne-nil (x ∷ p) [] h = cc
join-ne-nil (x ∷ p) (q ∷ ps) h = cc

join-upload :
    (n : Bytes) (ns : List Bytes) (id : Bytes)
    → join (codes "v2" ∷ join (n ∷ ns) (codes "/") ∷ codes "blobs/uploads" ∷ id ∷ []) (codes "/")
      ≡ join (codes "v2" ∷ (n ∷ ns) ++ codes "blobs" ∷ codes "uploads" ∷ id ∷ []) (codes "/")
unfolding join
join-upload n ns id =
    ap (λ s. codes "v2/" ++ s)
      (sym (join-append n ns (codes "blobs") (codes "uploads" ∷ id ∷ []) (codes "/")))

v2-IsPart : IsPart (codes "v2")
v2-IsPart = (cc, cc, cc, omega arith)

blobs-IsPart : IsPart (codes "blobs")
blobs-IsPart = (cc, cc, cc, omega arith)

uploads-IsPart : IsPart (codes "uploads")
uploads-IsPart = (cc, cc, cc, omega arith)

-- path.Join("v2", path.Join(name...), "blobs/uploads", id) is the text of all the parts.
pub path_join-upload :
    (n : Bytes) (ns : List Bytes) (id : Bytes)
    → All IsPart (n ∷ ns)
    → IsPart id
    → path_join (codes "v2" ∷ path_join (n ∷ ns) ∷ codes "blobs/uploads" ∷ id ∷ [])
      ≡ join (codes "v2" ∷ (n ∷ ns) ++ codes "blobs" ∷ codes "uploads" ∷ id ∷ []) (codes "/")
path_join-upload n ns id h k = rw (path_join-IsPart n ns h) (
    unfold path_join clean_unless_empty in
    rw
      (
        non_empty_filled (join (n ∷ ns) (codes "/")) id (join-ne-nil n ns h.0) k.0,
        join-upload n ns id,
      )
      (clean-join (codes "v2") ((n ∷ ns) ++ codes "blobs" ∷ codes "uploads" ∷ id ∷ []) (
        v2-IsPart,
        All-append IsPart (n ∷ ns) (codes "blobs" ∷ codes "uploads" ∷ id ∷ []) h
            (blobs-IsPart, (uploads-IsPart, (k, tt))),
      )))
