-- ===== src/Resolver/Laws.antt =====
-- What the resolvers find together.
use ipdr.Prelude.{
  ◌≡◌, ◌≢◌, ◌↔◌, refl, ◌∙◌, not, ◌&&◌, List, [], ◌∷◌, ◌++◌, Bytes, arith, ==_iff, ==_ne, ==_refl,
  append-nil, append_assoc, ap, All, List-cases, inl, inr,
}
use ipdr.Strings.{sort_strings}
use ipdr.Strings.Laws.Sort.{
  contains_str, IsSorted, IsDistinct, sort_strings-IsSorted, sort_strings-IsDistinct,
  contains_str-sort_strings,
}
use ipdr.External.{World}
use ipdr.Resolver.{Resolver, resolve_one, uniq_from, uniq, collect, resolve_all}

contains_str-uniq_from :
    (x : Bytes) (seen l : List Bytes)
    → contains_str x (uniq_from seen l) ≡ (contains_str x l && not (contains_str x seen))
unfolding uniq_from contains_str
contains_str-uniq_from x seen [] = refl
contains_str-uniq_from x seen (s ∷ l) =
    ground
      (arith, contains_str-uniq_from x seen l, contains_str-uniq_from x (s ∷ seen) l, ==_iff x s)

contains_str-uniq : (x : Bytes) (l : List Bytes) → contains_str x (uniq l) ≡ contains_str x l
unfolding uniq contains_str
contains_str-uniq x l = ground (arith, contains_str-uniq_from x [] l)

uniq_from-IsDistinct : (seen l : List Bytes) → IsDistinct (uniq_from seen l)
unfolding uniq_from contains_str
uniq_from-IsDistinct seen [] = tt
uniq_from-IsDistinct seen (s ∷ l) = ground (
  arith,
  uniq_from-IsDistinct seen l,
  uniq_from-IsDistinct (s ∷ seen) l,
  contains_str-uniq_from s (s ∷ seen) l,
  ==_iff s s,
)

-- Every answer for a listing, resolver by resolver.
pub all_answers : World → List Resolver → Bytes → List Bytes
all_answers w [] repo = []
all_answers w (r ∷ rs) repo = resolve_one w r repo [] ++ all_answers w rs repo

collect-nil :
    (w : World) (rs : List Resolver) (repo : Bytes) (list : List Bytes)
    → collect w rs repo [] list ≡ sort_strings (uniq (list ++ all_answers w rs repo))
unfolding collect all_answers
collect-nil w [] repo list = rw append-nil
collect-nil w (r ∷ rs) repo list = ground (
  arith,
  ==_refl [],
  collect-nil w rs repo list,
  collect-nil w rs repo (list ++ resolve_one w r repo []),
  append_assoc list (resolve_one w r repo []) (all_answers w rs repo),
  append-nil list,
)

-- A resolver answers, and none before it does.
pub record IsFirst (w : World) (rs : List Resolver) (repo reference : Bytes) (found : List Bytes)
    : Type 0 where
  pub before : List Resolver
  chosen : Resolver
  pub after : List Resolver
  pub order : rs ≡ before ++ chosen ∷ after
  pub silent : All (λ r. resolve_one w r repo reference ≡ []) before
  pub answers : resolve_one w chosen repo reference ≡ found

IsFirst-cons :
    {w : World} {rs : List Resolver} {repo reference : Bytes} {found : List Bytes} (r : Resolver)
    → resolve_one w r repo reference ≡ []
    → IsFirst w rs repo reference found
    → IsFirst w (r ∷ rs) repo reference found
IsFirst-cons r e f = record {
  before = r ∷ f.before;
  chosen = f.chosen;
  after = f.after;
  order = ap (λ qs. r ∷ qs) f.order;
  silent = (e, f.silent);
  answers = f.answers;
}

collect-IsFirst :
    (w : World) (rs : List Resolver) (repo reference x : Bytes) (xs : List Bytes)
    → reference ≢ []
    → collect w rs repo reference [] ≡ x ∷ xs
    → IsFirst w rs repo reference (x ∷ xs)
unfolding collect sort_strings
collect-IsFirst w [] repo reference x xs h e = cc
collect-IsFirst w (r ∷ rs) repo reference x xs h e =
    elim (List-cases (resolve_one w r repo reference)) [
      | inl n ↦ IsFirst-cons r n (collect-IsFirst w rs repo reference x xs h (ground arith))
      | inr (y, ys, f) ↦ record {
        before = [];
        chosen = r;
        after = rs;
        order = refl;
        silent = tt;
        answers = ground (arith, ==_ne reference [] h);
      }
    ]

collect-append :
    (w : World) (before after : List Resolver) (r : Resolver) (repo reference x : Bytes)
    (xs list : List Bytes)
    → reference ≢ []
    → All (λ q. resolve_one w q repo reference ≡ []) before
    → resolve_one w r repo reference ≡ x ∷ xs
    → collect w (before ++ r ∷ after) repo reference list ≡ x ∷ xs
unfolding collect
collect-append w [] after r repo reference x xs list h silent e =
    ground (arith, ==_ne reference [] h)
collect-append w (q ∷ before) after r repo reference x xs list h (s, silent) e =
    ground (arith, collect-append w before after r repo reference x xs list h silent e)

-- With a reference, `Resolve` gives an answer that is not empty exactly when it is the answer of the
-- first resolver that has one.
pub resolve_all-IsFirst_iff :
    (w : World) (rs : List Resolver) (repo reference x : Bytes) (xs : List Bytes)
    → reference ≢ []
    → (resolve_all w rs repo reference ≡ x ∷ xs) ↔ IsFirst w rs repo reference (x ∷ xs)
unfolding resolve_all
resolve_all-IsFirst_iff w rs repo reference x xs h = (
  collect-IsFirst w rs repo reference x xs h,
  λ f.
      rw f.order
        (collect-append w f.before f.after f.chosen repo reference x xs [] h f.silent f.answers),
)

-- Without a reference, `Resolve` lists what any resolver answers, in order and without repetition.
pub resolve_all-listing :
    (w : World) (rs : List Resolver) (repo : Bytes)
    → IsSorted (resolve_all w rs repo [])
      × IsDistinct (resolve_all w rs repo [])
      × ((x : Bytes)
          → contains_str x (resolve_all w rs repo []) ≡ contains_str x (all_answers w rs repo))
unfolding resolve_all uniq
resolve_all-listing w rs repo = rw (collect-nil w rs repo []) (
  sort_strings-IsSorted (uniq (all_answers w rs repo)),
  sort_strings-IsDistinct _ (uniq_from-IsDistinct [] (all_answers w rs repo)),
  λ x. contains_str-sort_strings x _ ∙ contains_str-uniq x (all_answers w rs repo),
)
