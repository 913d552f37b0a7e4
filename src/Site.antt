-- ===== src/Site.antt =====
-- How a repository and a reference lead to a CID (server/registry/registry.go and util.go): the
-- configuration, the CID store and the resolvers, which the handlers share.
use ipdr.Prelude.{
  none, some, Result, ok, err, ◌>>=◌, List, [], ◌∷◌, ◌++◌, Bytes, codes, eqb, if◌then◌else◌, ◌||◌,
  ◌==◌,
}
use ipdr.External.{Codecs, World}
use ipdr.Regutil.{ipfs_url, to_b32, ipfsify_hash}
use ipdr.Cids
use ipdr.Cids.{CidStore}
use ipdr.Resolver.{Resolver, resolve_all}

pub record Site : Type 0 where
  pub gateway : Bytes
  pub cids : CidStore
  pub resolvers : List Resolver

-- The part of `resolve` behind the store: a repository that is a CID, a hash, or the lookup.
unfoldable pub resolve_repo : Codecs → World → Site → Bytes → Bytes → List Bytes
resolve_repo c w s repo reference =
    let cid = to_b32 c repo in
    let hash = ipfsify_hash c repo in
    let hash_cid = to_b32 c hash in
    if cid == []
    then (if hash == [] || hash_cid == []
        then resolve_all w s.resolvers repo reference
        else hash_cid ∷ [])
    else cid ∷ []

unfoldable pub resolve : Codecs → World → Site → Bytes → Bytes → List Bytes
resolve c w s repo reference = elim (Cids.get s.cids repo reference) [
  | some cid ↦ cid ∷ []
  | none ↦ resolve_repo c w s repo reference
]

or_latest : Bytes → Bytes
or_latest [] = codes "latest"
or_latest (x ∷ r) = x ∷ r

unfoldable pub resolve_cid : Codecs → World → Site → Bytes → Bytes → Result Bytes
unfolding or_latest
resolve_cid c w s repo reference = elim (resolve c w s repo (or_latest reference)) [
  | cid ∷ cids ↦ ok cid
  | [] ↦ err (codes "cannot resolve CID: " ++ (repo ++ b':' ∷ or_latest reference))
]

-- registry.ipfsURL
unfoldable pub site_url : Site → List Bytes → Bytes
site_url s parts = ipfs_url s.gateway parts

-- util.go: getContent
unfoldable pub get_content : World → Bytes → Bytes → List Bytes → Result Bytes
get_content w gw cid s = do
  resp ← w.http_get (ipfs_url gw (cid ∷ s))
  if eqb resp.status_code 200 then resp.body else err (codes "cid: " ++ (cid ++ 32 ∷ resp.status))

-- manifest.go: computeDigest, which the blob handler writes out
unfoldable pub compute_digest : Codecs → Bytes → Bytes
compute_digest c b = codes "sha256:" ++ c.sha256_hex b
