-- ===== src/Resolver.antt =====
-- server/registry/resolv.go. A resolver's result is nil exactly when it is empty.
pub mod Laws
use ipdr.Prelude.{
  Bool, true, false, ◌||◌, Option, none, some, Result, ok, err, ◌>>=◌, List, [], ◌∷◌, ◌++◌, Bytes,
  codes, if◌then◌else◌, ◌==◌,
}
use ipdr.Strings.{has_prefix, trim_prefix, trim_right, trim_space, to_lower, clean, sort_strings}
use ipdr.Strings.Laws.Sort.{contains_str}
use ipdr.External.{World}

pub data Resolver : Type 0 where
  file : Bytes → Resolver
  ipfs : Bytes → Resolver
  dnslink : Resolver → Resolver

-- The loop over the TXT records: the first that is not empty.
first_txt : List Bytes → Result Bytes
first_txt [] = err (codes "invalid TXT record")
first_txt (txt ∷ txts) =
    if txt == [] then first_txt txts else ok (trim_prefix txt (codes "dnslink="))

-- The domain that is asked for.
unfoldable pub dnslink_domain : Bytes → Bytes
dnslink_domain domain =
    let d = to_lower (trim_space domain) in
    if has_prefix d (codes "_dnslink.") then d else codes "_dnslink." ++ d

unfoldable pub lookup : World → Bytes → Result Bytes
unfolding first_txt
lookup w domain = do txts ← w.lookup_txt (dnslink_domain domain); first_txt txts

unfoldable pub new_file_resolver : Bytes → Resolver
new_file_resolver uri = file (clean (trim_prefix uri (codes "file:")))

unfoldable pub new_ipfs_resolver : Bytes → Resolver
new_ipfs_resolver root = ipfs (trim_right (trim_prefix root (codes "/ipfs/")) b'/')

-- The switch on the record's text.
dnslink_of : Bytes → Result Resolver
unfolding new_file_resolver new_ipfs_resolver
dnslink_of txt =
    if has_prefix txt (codes "file:")
    then ok (dnslink (new_file_resolver txt))
    else if has_prefix txt (codes "/ipfs/")
    then ok (dnslink (new_ipfs_resolver txt))
    else err (codes "not supported: " ++ txt)

unfoldable pub new_dnslink_resolver : World → Bytes → Result Resolver
unfolding dnslink_of
new_dnslink_resolver w domain = do txt ← lookup w domain; dnslink_of txt

-- The loop of `NewResolver`: what cannot be resolved is left out.
unfoldable pub new_resolvers : World → List Bytes → List Resolver
unfolding new_file_resolver new_ipfs_resolver
new_resolvers w [] = []
new_resolvers w (l ∷ ls) =
    let rest = new_resolvers w ls in
    if has_prefix l (codes "file:")
    then new_file_resolver l ∷ rest
    else if has_prefix l (codes "/ipfs/")
    then new_ipfs_resolver l ∷ rest
    else elim (new_dnslink_resolver w l) [ ok r ↦ r ∷ rest | err e ↦ rest ]

regular_names : List (Bytes × Bool) → List Bytes
regular_names [] = []
regular_names ((name, regular) ∷ fs) =
    let rest = regular_names fs in if regular then name ∷ rest else rest

abbrev slashed : Bytes → Bytes → Bytes
slashed a b = a ++ b'/' ∷ b

-- An error gives nil.
abbrev or_nil : Result (List Bytes) → List Bytes
or_nil (ok l) = l
or_nil (err e) = []

unfoldable pub file_resolve : World → Bytes → Bytes → Bytes → List Bytes
unfolding regular_names
file_resolve w root repo reference =
    if reference == []
    then or_nil (do files ← w.read_dir (slashed root repo); ok (regular_names files))
    else or_nil (do b ← w.read_file (slashed (slashed root repo) reference); ok (trim_space b ∷ []))

unfoldable pub ipfs_content : World → Bytes → Bytes → Bytes → Result Bytes
ipfs_content w cid repo reference = do rd ← w.ipfs_cat (slashed (slashed cid repo) reference); rd

unfoldable pub ipfs_resolve : World → Bytes → Bytes → Bytes → List Bytes
unfolding ipfs_content
ipfs_resolve w cid repo reference =
    if reference == []
    then or_nil (w.ipfs_list (slashed cid repo))
    else or_nil (do b ← ipfs_content w cid repo reference; ok (trim_space b ∷ []))

unfoldable pub resolve_one : World → Resolver → Bytes → Bytes → List Bytes
unfolding file_resolve ipfs_resolve
resolve_one w (file root) repo reference = file_resolve w root repo reference
resolve_one w (ipfs cid) repo reference = ipfs_resolve w cid repo reference
resolve_one w (dnslink r) repo reference = resolve_one w r repo reference

-- The loop of `uniq` over the keys seen so far.
uniq_from : List Bytes → List Bytes → List Bytes
uniq_from seen [] = []
uniq_from seen (s ∷ sa) =
    let known = uniq_from seen sa in
    let new = uniq_from (s ∷ seen) sa in if contains_str s seen then known else s ∷ new

unfoldable pub uniq : List Bytes → List Bytes
unfolding uniq_from
uniq sa = uniq_from [] sa

-- The loop of `resolver.Resolve`: an early return, or the collected list.
unfoldable pub collect : World → List Resolver → Bytes → Bytes → List Bytes → List Bytes
unfolding uniq
collect w [] repo reference list = sort_strings (uniq list)
collect w (re ∷ res) repo reference list =
    let next = collect w res repo reference list in
    let result = resolve_one w re repo reference in
    let more = collect w res repo reference (list ++ result) in
    elim result [ [] ↦ next | r ∷ rs ↦ if reference == [] then more else r ∷ rs ]

unfoldable pub resolve_all : World → List Resolver → Bytes → Bytes → List Bytes
unfolding collect
resolve_all w resolvers repo reference = collect w resolvers repo reference []
