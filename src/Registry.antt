-- ===== src/Registry.antt =====
-- server/registry/registry.go: the root handler, and the registry that it starts from.
pub mod Dig
pub mod Answers
pub mod Reach
use ipdr.Prelude.{
  ℕ, Bool, true, false, not, ◌&&◌, ◌||◌, Option, none, some, Result, ok, err, List, [], ◌∷◌, ◌++◌,
  Bytes, codes, Map, if◌then◌else◌, ◌==◌,
}
use ipdr.Strings.{split_n2}
use ipdr.External.{Codecs, World}
use ipdr.Http.{
  Request, get_query, Writer, set_header, write_header, write_body, write_error, RegError,
  reg_error, Outcome, returned, panicked, blocked, map_state,
}
use ipdr.Cids.{new_cid_store}
use ipdr.Resolver.{new_resolvers}
use ipdr.Site.{Site, resolve}
use ipdr.Blobs
use ipdr.Blobs.{Blobs, is_blob, no_blobs}
use ipdr.Manifests
use ipdr.Manifests.{Registry, no_manifests, is_manifest, get_manifest}

abbrev handle_blobs : Codecs → World → Registry → Request → Writer → Outcome Registry
handle_blobs c w r req wr =
    map_state (λ (b : Blobs). record r { blobs = b }) (Blobs.handle c w r.site r.blobs req wr)

-- The version check, and what no handler takes.
unfoldable pub version_check : Registry → Request → Writer → Outcome Registry
unfolding write_header
version_check r req wr =
    let wr' : Writer =
      set_header (codes "Docker-Distribution-API-Version") (codes "registry/2.0") wr in
    if not (req.path == codes "/v2/") && not (req.path == codes "/v2")
    then returned r wr'
        (reg_error 404 (codes "METHOD_UNKNOWN") (codes "We don't understand your method + url"))
    else returned r (write_header 200 wr') none

unfoldable pub v2 : Codecs → World → Registry → Request → Writer → Outcome Registry
unfolding version_check
v2 c w r req wr = elim (is_blob req.path) [
  | none ↦ panicked r wr
  | some true ↦ handle_blobs c w r req wr
  | some false ↦ elim (is_manifest req.path) [
    | none ↦ panicked r wr
    | some true ↦ Manifests.handle c w r req wr
    | some false ↦ version_check r req wr
  ]
]

unfoldable pub is_dig : Bytes → Bool
is_dig path = path == codes "/dig/" || path == codes "/dig"

-- strconv.ParseBool, an error being false
unfoldable pub parse_bool : Bytes → Bool
parse_bool s =
    s == codes "1"
    || s == codes "t"
    || s == codes "T"
    || s == codes "TRUE"
    || s == codes "true"
    || s == codes "True"

-- A name and a tag, which may be missing.
unfoldable pub split_name : Bytes → Bytes × Bytes
split_name s = elim (split_n2 s b':') [
  | [] ↦ ([], [])
  | name ∷ rest ↦ elim rest [ [] ↦ (name, []) | tag ∷ more ↦ (name, tag) ]
]

-- fmt.Fprintln(resp, s)
abbrev println : Bytes → Writer → Writer
println s wr = write_body (s ++ 10 ∷ []) wr

print_all : List Bytes → Writer → Writer
print_all [] wr = wr
print_all (l ∷ ls) wr = print_all ls (println l wr)

-- The answer of `dig` for a name with a tag.
dig_tagged : Codecs → World → Site → Bool → Bytes → Bytes → Writer → Writer
dig_tagged c w s short cid tag wr =
    if short
    then println cid wr
    else elim (get_manifest c w s cid tag) [ err e ↦ wr | ok mf ↦ println mf.blob wr ]

unfoldable pub dig : Codecs → World → Site → Request → Writer → Writer
unfolding print_all dig_tagged write_header write_body
dig c w s req wr =
    let short = parse_bool (get_query req (codes "short")) in
    let (name, tag) = split_name (get_query req (codes "q")) in
    if name == []
    then println (codes "Required parameter 'q' missing. /dig?q=name:tag&short=true")
        (write_header 400 wr)
    else elim (resolve c w s name tag) [
      | [] ↦ write_header 404 wr
      | cid ∷ cids ↦
          if tag == []
          then print_all (cid ∷ cids) (write_header 200 wr)
          else dig_tagged c w s short cid tag
              (set_header (codes "X-Docker-Content-ID") cid (write_header 200 wr))
    ]

-- An error of the handler becomes the response.
abbrev report : Codecs → Outcome Registry → Outcome Registry
report c (returned r wr (some e)) = returned r (write_error c e wr) none
report c o = o

unfoldable pub root : Codecs → World → Registry → Request → Writer → Outcome Registry
unfolding write_error
root c w r req wr =
    if is_dig req.path then returned r (dig c w r.site req wr) none else report c (v2 c w r req wr)

-- The configuration of the handler.
pub record Config : Type 0 where
  pub ipfs_gateway : Bytes
  pub cid_resolvers : List Bytes
  pub cid_store_path : Bytes

-- `New`: the handler's first state, over the files that the CID store finds.
unfoldable pub new : World → Config → Map Bytes → Registry
new w config files = record {
  blobs = no_blobs;
  manifests = no_manifests;
  site = record {
    gateway = config.ipfs_gateway;
    cids = new_cid_store config.cid_store_path files;
    resolvers = new_resolvers w config.cid_resolvers;
  };
}
