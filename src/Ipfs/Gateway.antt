-- ===== src/Ipfs/Gateway.antt =====
-- What the URL of a gateway becomes.
use ipdr.Prelude.{◌≡◌, ◌≢◌, refl, true, none, some, ok, [], ◌∷◌, ◌++◌, Bytes, codes, ==_ne, ◌==◌}
use ipdr.Strings.{has_prefix}
use ipdr.Ipfs.Client.{Url, Host, with_scheme, normalize_gateway_url}

-- The gateway's URL keeps its user, its host and its port, and nothing else: whatever its scheme was,
-- https too, it becomes http.
normalize_gateway_url_lem :
    (h : Host) (url : Bytes) (u : Url)
    → h.parse_url (with_scheme url) ≡ ok u
    → u.scheme ≢ []
    → u.hostname ≢ []
    → u.port ≢ []
    → u.user ≡ none
    → normalize_gateway_url h url ≡ some (codes "http://" ++ (u.hostname ++ b':' ∷ u.port))
unfolding normalize_gateway_url
normalize_gateway_url_lem h url u e s n p user =
    rw
      (
        normalize_gateway_url,
        e,
        ==_ne u.scheme [] s,
        ==_ne u.hostname [] n,
        ==_ne u.port [] p,
        user,
      )
      refl

-- A host whose name starts with "http" and that stands alone is not given a scheme, so that it is
-- parsed as a path, and its URL becomes that of no host: "://ipfs.io".
normalize_gateway_url-http_name :
    (h : Host) (name : Bytes)
    → has_prefix name (codes "http") ≡ true
    → h.parse_url name ≡ ok (record { scheme = []; user = none; hostname = []; port = [] })
    → normalize_gateway_url h name ≡ some (codes "://ipfs.io")
unfolding normalize_gateway_url with_scheme ◌==◌
normalize_gateway_url-http_name h name p e = rw (normalize_gateway_url, with_scheme, p, e) refl
