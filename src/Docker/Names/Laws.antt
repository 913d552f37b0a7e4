-- ===== src/Docker/Names/Laws.antt =====
-- What the names of images are cut down to.
use ipdr.Prelude.{
  ℕ, zero, suc, ◌≤◌, ◌≡◌, ◌≢◌, refl, Bool, true, false, ◌||◌, none, some, [], ◌∷◌, ◌++◌, Bytes,
  codes, arith, All, All-append, append-nil, Bool-cases, drop, eqb, if◌then◌else◌, length, inl, inr,
  take,
}
use ipdr.Strings.{has_prefix, trim_prefix}
use ipdr.Strings.Laws.{Lacks}
use ipdr.Regutil.{first_line}
use ipdr.Docker.Names.{
  after_slash, after_host, without_host, strip_image_tag_host, is_alnum, take_alnum, after_line,
  match_short, replace_short, short_image_id,
}

-- The text holds the byte.
abbrev pub holds : ℕ → Bytes → Bool
holds x [] = false
holds x (y ∷ s) = eqb y x || holds x s

first_line-Lacks : (s : Bytes) → Lacks 10 s → first_line s ≡ s
unfolding first_line
first_line-Lacks [] h = refl
first_line-Lacks (x ∷ s) (h, hs) = ground (arith, first_line-Lacks s hs)

after_slash-append :
    (host name : Bytes)
    → Lacks b'/' host
    → Lacks 10 host
    → after_slash (host ++ b'/' ∷ name) ≡ some name
unfolding after_slash
after_slash-append [] name h k = refl
after_slash-append (x ∷ host) name (h, hs) (k, ks) =
    ground (arith, after_slash-append host name hs ks)

-- Whatever dots the host has, only the name is behind its slash.
after_host-append :
    (host name : Bytes)
    → Lacks b'/' host
    → Lacks 10 host
    → after_host name ≡ none
    → after_host (host ++ b'/' ∷ name) ≡ (if holds b'.' host then some name else none)
unfolding after_host
after_host-append [] name h k plain = ground arith
after_host-append (x ∷ host) name (h, hs) (k, ks) plain =
    ground (arith, after_host-append host name hs ks plain, after_slash-append host name hs ks)

-- A host with a dot is cut off a name with its slash, and so is "library/" behind it, if the name is
-- one line and no dot of it has a slash behind it. A first part without a dot stays.
strip_image_tag_host-append :
    (host name : Bytes)
    → Lacks b'/' host
    → Lacks 10 host
    → Lacks 10 name
    → after_host name ≡ none
    → strip_image_tag_host (host ++ b'/' ∷ name)
      ≡ trim_prefix (if holds b'.' host then name else host ++ b'/' ∷ name) (codes "library/")
unfolding strip_image_tag_host without_host
strip_image_tag_host-append host name h k l plain =
    let all : Lacks 10 (host ++ b'/' ∷ name) =
      All-append (λ c. c ≢ 10) host (b'/' ∷ name) k (omega arith, l) in
    elim (Bool-cases (holds b'.' host)) [
      | inl dot ↦
          rw
            (
              strip_image_tag_host,
              without_host,
              after_host-append host name h k plain,
              dot,
              first_line-Lacks name l,
            )
            refl
      | inr plain_host ↦
          rw
            (
              strip_image_tag_host,
              without_host,
              after_host-append host name h k plain,
              plain_host,
              first_line-Lacks (host ++ b'/' ∷ name) all,
            )
            refl
    ]

abbrev IsAlnum : ℕ → Type 0
IsAlnum x = is_alnum x ≡ true

take_alnum-All :
    (n : ℕ) (s : Bytes) → All IsAlnum s → n ≤ length s → take_alnum n s ≡ some (take n s, drop n s)
unfolding take_alnum
take_alnum-All zero s h k = refl
take_alnum-All (suc n) [] h k = absurd (omega arith)
take_alnum-All (suc n) (x ∷ s) (h, hs) k = rw (h, take_alnum-All n s hs (omega arith)) refl

after_line-drop : (n : ℕ) (s : Bytes) → All IsAlnum s → after_line (drop n s) ≡ []
unfolding after_line
after_line-drop zero [] h = refl
after_line-drop zero (x ∷ s) (h, hs) = ground (arith, after_line-drop zero s hs)
after_line-drop (suc n) [] h = refl
after_line-drop (suc n) (x ∷ s) (h, hs) = after_line-drop n s hs

has_prefix-All : (s p : Bytes) → All IsAlnum s → has_prefix s p ≡ true → All IsAlnum p
unfolding has_prefix
has_prefix-All s [] h e = tt
has_prefix-All [] (y ∷ p) h e = cc
has_prefix-All (x ∷ s) (y ∷ p) (h, hs) e = ground (arith, has_prefix-All s p hs)

no_colon : ¬ All IsAlnum (codes "sha256:")
no_colon (a, (b, (c, (d, (e, (f, (g, _))))))) = cc

no_tag : (s : Bytes) → All IsAlnum s → has_prefix s (codes "sha256:") ≡ false
no_tag s h = elim (Bool-cases (has_prefix s (codes "sha256:"))) [
  | inr e ↦ e
  | inl e ↦ absurd (no_colon (has_prefix-All s (codes "sha256:") h e))
]

match_short-All : (s : Bytes) → All IsAlnum s → 12 ≤ length s → match_short s ≡ some (take 12 s, [])
unfolding match_short
match_short-All s h k =
    rw (match_short, no_tag s h, take_alnum-All 12 s h k, after_line-drop 12 s h) refl

match_short-tagged :
    (s : Bytes)
    → All IsAlnum s
    → 12 ≤ length s
    → match_short (codes "sha256:" ++ s) ≡ some (take 12 s, [])
unfolding match_short has_prefix trim_prefix take_alnum
match_short-tagged s h k = rw (take_alnum-All 12 s h k, after_line-drop 12 s h) refl

replace_end : (f : ℕ) (r : Bytes) → r ++ replace_short f [] ≡ r
unfolding replace_short
replace_end zero r = append-nil r
replace_end (suc f) r = append-nil r

-- The short form of an identifier of twelve letters and digits or more is its first twelve, with
-- "sha256:" before it or without.
short_image_id_lem :
    (id : Bytes)
    → All IsAlnum id
    → 12 ≤ length id
    → (short_image_id id ≡ take 12 id) × (short_image_id (codes "sha256:" ++ id) ≡ take 12 id)
unfolding short_image_id replace_short
short_image_id_lem [] h k = absurd (omega arith)
short_image_id_lem (x ∷ s) h k = (
  rw (short_image_id, replace_short, match_short-All (x ∷ s) h k)
      (replace_end (length s) (x ∷ take 11 s)),
  rw (short_image_id, replace_short, match_short-tagged (x ∷ s) h k) (append-nil (x ∷ take 11 s)),
)
