-- ===== src/Blobs/Path/Names.antt =====
-- What the handler reads off the paths of the registry's API.
use ipdr.Prelude.{
  ℕ, suc, ◌-◌, ◌≤◌, ◌≡◌, ◌≢◌, refl, ap, some, List, [], ◌∷◌, ◌++◌, Bytes, codes, arith, ◌==◌,
  length, length-append, take, drop, All, All-append, append_assoc,
}
use ipdr.Strings.{split, join}
use ipdr.Strings.Laws.{Lacks, split-join}
use ipdr.Blobs.Path.{at_end, slice?, drop_empty_last, elements, target_of, blob_target, repo_of}

at_end-append : (xs ys : List Bytes) (e : Bytes) → at_end (length ys) (xs ++ e ∷ ys) ≡ some e
unfolding at_end
at_end-append [] ys e = ground arith
at_end-append (x ∷ xs) ys e = ground (arith, at_end-append xs ys e, length-append xs (e ∷ ys))

take-append : (xs ys : List Bytes) → take (length xs) (xs ++ ys) ≡ xs
take-append [] ys = refl
take-append (x ∷ xs) ys = rw (take-append xs ys)

slice?-append :
    (x : Bytes) (xs ys : List Bytes) (hi : ℕ)
    → hi ≡ suc (length xs)
    → slice? 1 hi (x ∷ xs ++ ys) ≡ some xs
unfolding slice?
slice?-append x xs ys hi e = rw e (ground (arith, take-append xs ys, length-append xs ys))

drop_empty_last-append :
    (xs : List Bytes) (e : Bytes) → e ≢ [] → drop_empty_last (xs ++ e ∷ []) ≡ xs ++ e ∷ []
unfolding drop_empty_last
drop_empty_last-append [] [] h = absurd (h refl)
drop_empty_last-append [] (x ∷ e) h = refl
drop_empty_last-append (x ∷ []) e h = ap (λ es. x ∷ es) (drop_empty_last-append [] e h)
drop_empty_last-append (x ∷ y ∷ xs) e h = ap (λ es. x ∷ es) (drop_empty_last-append (y ∷ xs) e h)

-- The path of the elements.
abbrev api_path : List Bytes → Bytes
api_path es = b'/' ∷ join es (codes "/")

split-api_path :
    (e : Bytes) (es : List Bytes)
    → All (Lacks b'/') (e ∷ es)
    → split (api_path (e ∷ es)) b'/' ≡ [] ∷ e ∷ es
split-api_path e es h = unfold join in split-join [] (e ∷ es) b'/' (tt, h)

elements-api_path :
    (v : Bytes) (xs : List Bytes) (e : Bytes)
    → All (Lacks b'/') (v ∷ xs ++ e ∷ [])
    → e ≢ []
    → elements (api_path (v ∷ xs ++ e ∷ [])) ≡ some (v ∷ xs ++ e ∷ [])
unfolding elements
elements-api_path v xs e h filled =
    rw (split-api_path v (xs ++ e ∷ []) h, elements)
      (ap some (drop_empty_last-append (v ∷ xs) e filled))

-- The elements below `/v2`: a name of several parts, and two more.
abbrev named : List Bytes → Bytes → Bytes → List Bytes
named name service target = codes "v2" ∷ name ++ service ∷ target ∷ []

named-append :
    (name : List Bytes) (service target : Bytes)
    → named name service target ≡ codes "v2" ∷ (name ++ service ∷ []) ++ target ∷ []
named-append name service target = rw (append_assoc name (service ∷ []) (target ∷ []))

-- /v2/{name}/blobs/{digest}
abbrev pub blob_path : List Bytes → Bytes → Bytes
blob_path name target = api_path (named name (codes "blobs") target)

-- /v2/{name}/blobs/uploads/{id}
abbrev pub upload_path : List Bytes → Bytes → Bytes
upload_path name id = api_path (named (name ++ codes "blobs" ∷ []) (codes "uploads") id)

module _ (name : List Bytes) (service target : Bytes) where
  at_end-named-1 : at_end 1 (named name service target) ≡ some service
  at_end-named-1 = at_end-append (codes "v2" ∷ name) (target ∷ []) service

  at_end-named-0 : at_end 0 (named name service target) ≡ some target
  at_end-named-0 =
      rw (named-append name service target)
        (at_end-append (codes "v2" ∷ name ++ service ∷ []) [] target)

  above-named :
      slice? 1 (length (named name service target) - 2) (named name service target) ≡ some name
  above-named =
      slice?-append (codes "v2") name (service ∷ target ∷ []) _
        (omega (arith, length-append name (service ∷ target ∷ [])))

target_of-parts :
    (elem : List Bytes) (target service : Bytes) (above upper : List Bytes)
    → 4 ≤ length elem
    → at_end 0 elem ≡ some target
    → at_end 1 elem ≡ some service
    → slice? 1 (length elem - 2) elem ≡ some above
    → slice? 1 (length elem - 3) elem ≡ some upper
    → target_of elem
      ≡ some (
          some (record {
            target = target;
            service = service;
            above = above;
            upper = upper;
            repo = repo_of service above upper;
          }))
unfolding target_of
target_of-parts elem target service above upper long e f g h = ground arith

blob_target-api_path :
    (v : Bytes) (xs : List Bytes) (e : Bytes)
    → All (Lacks b'/') (v ∷ xs ++ e ∷ [])
    → e ≢ []
    → blob_target (api_path (v ∷ xs ++ e ∷ [])) ≡ target_of (v ∷ xs ++ e ∷ [])
unfolding blob_target
blob_target-api_path v xs e h filled = rw (elements-api_path v xs e h filled)

named-Lacks :
    (name : List Bytes) (service target : Bytes)
    → All (Lacks b'/') name
    → Lacks b'/' service
    → Lacks b'/' target
    → All (Lacks b'/') (codes "v2" ∷ (name ++ service ∷ []) ++ target ∷ [])
named-Lacks name service target h k l = (
  omega arith,
  All-append (Lacks b'/') (name ++ service ∷ []) (target ∷ [])
      (All-append (Lacks b'/') name (service ∷ []) h (k, tt)) (l, tt),
)

-- The path /v2/{name}/blobs/uploads/{id} names the upload `id` of the repository `name`, for a name
-- of any number of parts, none of them holding a slash, and an `id` that is not empty.
pub blob_target-upload_path :
    (name : List Bytes) (id : Bytes)
    → All (Lacks b'/') name
    → Lacks b'/' id
    → id ≢ []
    → blob_target (upload_path name id)
      ≡ some (
          some (record {
            target = id;
            service = codes "uploads";
            above = name ++ codes "blobs" ∷ [];
            upper = name;
            repo = join name (codes "/");
          }))
blob_target-upload_path name id h k filled =
    let pre = name ++ codes "blobs" ∷ [] in
    rw
      (
        named-append pre (codes "uploads") id,
        blob_target-api_path (codes "v2") (pre ++ codes "uploads" ∷ []) id
            (named-Lacks pre (codes "uploads") id
              (All-append (Lacks b'/') name (codes "blobs" ∷ []) h (omega arith)) (omega arith) k)
            filled,
      )
      (rw (← named-append pre (codes "uploads") id) (
        unfold ◌==◌ in
        target_of-parts (named pre (codes "uploads") id) id (codes "uploads") pre name
          (omega (
            arith,
            length-append pre (codes "uploads" ∷ id ∷ []),
            length-append name (codes "blobs" ∷ []),
          ))
          (at_end-named-0 pre (codes "uploads") id) (at_end-named-1 pre (codes "uploads") id)
          (above-named pre (codes "uploads") id)
          (rw (append_assoc name (codes "blobs" ∷ []) (codes "uploads" ∷ id ∷ [])) (
            slice?-append (codes "v2") name (codes "blobs" ∷ codes "uploads" ∷ id ∷ []) _
              (omega (arith, length-append name (codes "blobs" ∷ codes "uploads" ∷ id ∷ [])))))))

slice?-some :
    (lo hi : ℕ) (xs : List Bytes)
    → lo ≤ hi
    → hi ≤ length xs
    → slice? lo hi xs ≡ some (take (hi - lo) (drop lo xs))
unfolding slice?
slice?-some lo hi xs h k = ground arith

-- The path /v2/{name}/blobs/{target} names the blob `target` of the repository `name`, for a name of
-- one part or more, none of them holding a slash, and a target that is not empty.
pub blob_target-blob_path :
    (n : Bytes) (ns : List Bytes) (target : Bytes)
    → All (Lacks b'/') (n ∷ ns)
    → Lacks b'/' target
    → target ≢ []
    → (upper : List Bytes) × (blob_target (blob_path (n ∷ ns) target)
        ≡ some (
            some (record {
              target = target;
              service = codes "blobs";
              above = n ∷ ns;
              upper = upper;
              repo = join (n ∷ ns) (codes "/");
            })))
blob_target-blob_path n ns target h k filled =
    let elem : List Bytes = named (n ∷ ns) (codes "blobs") target in
    let long = length-append (n ∷ ns) (codes "blobs" ∷ target ∷ []) in
    (
      take (length elem - 3 - 1) (drop 1 elem),
      rw
          (
            named-append (n ∷ ns) (codes "blobs") target,
            blob_target-api_path (codes "v2") ((n ∷ ns) ++ codes "blobs" ∷ []) target
                (named-Lacks (n ∷ ns) (codes "blobs") target h (omega arith) k) filled,
          )
          (rw (← named-append (n ∷ ns) (codes "blobs") target) (
            unfold ◌==◌ in
            target_of-parts elem target (codes "blobs") (n ∷ ns) _ (omega (arith, long))
              (at_end-named-0 (n ∷ ns) (codes "blobs") target)
              (at_end-named-1 (n ∷ ns) (codes "blobs") target)
              (above-named (n ∷ ns) (codes "blobs") target)
              (slice?-some 1 (length elem - 3) elem (omega (arith, long)) (omega arith)))),
    )
