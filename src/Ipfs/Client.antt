-- ===== src/Ipfs/Client.antt =====
-- ipfs/ipfs.go: the client, the gateway's URL, and references over the HTTP API.
use ipdr.Prelude.{
  ℕ, Bool, true, false, Option, none, some, Result, ok, err, ◌>>=◌, List, [], ◌∷◌, ◌++◌, Bytes,
  codes, eqb, if◌then◌else◌, ◌==◌,
}
use ipdr.Strings.{has_prefix, trim_space, split}

-- What net/url reads in a URL; `user` is printed already.
pub record Url : Type 0 where
  pub scheme : Bytes
  pub user : Option Bytes
  pub hostname : Bytes
  pub port : Bytes

-- The host: url.Parse, and the output of `ipfs config`.
pub record Host : Type 0 where
  pub parse_url : Bytes → Result Url
  pub ipfs_config : Bytes → Result Bytes

-- The text after the last slash.
last_part : Bytes → List Bytes → Result Bytes
last_part p [] = ok p
last_part p (q ∷ ps) = last_part q ps

or_not_found : List Bytes → Result Bytes
unfolding last_part
or_not_found [] = err (codes "[ipfs] gateway config not found")
or_not_found (p ∷ ps) = last_part p ps

-- getIpfsGatewayPort
unfoldable pub gateway_port : Host → Result Bytes
unfolding or_not_found
gateway_port h = do
  out ← h.ipfs_config (codes "Addresses.Gateway")
  or_not_found (split (trim_space out) b'/')

-- getIpfsAPIURL
unfoldable pub api_url : Host → Result Bytes
api_url h = do out ← h.ipfs_config (codes "Addresses.API"); ok (trim_space out)

unfoldable pub host_gateway_url : Host → Result Bytes
host_gateway_url h = do port ← gateway_port h; ok (codes "http://127.0.0.1:" ++ port)

-- if !strings.HasPrefix(urlstr, "http") { urlstr = "http://" + urlstr }
unfoldable pub with_scheme : Bytes → Bytes
with_scheme url = if has_prefix url (codes "http") then url else codes "http://" ++ url

abbrev scheme_of : Url → Bytes
scheme_of u = if u.scheme == [] then [] else codes "http"

abbrev host_of : Url → Bytes
host_of u = if u.hostname == [] then codes "ipfs.io" else u.hostname

abbrev user_of : Url → Bytes
user_of u = elim u.user [ none ↦ [] | some s ↦ s ++ codes "@" ]

abbrev port_of : Url → Bytes
port_of u = if u.port == [] then [] else b':' ∷ u.port

-- `none` is the panic of a URL that cannot be parsed.
unfoldable pub normalize_gateway_url : Host → Bytes → Option Bytes
normalize_gateway_url h url = elim (h.parse_url (with_scheme url)) [
  | err e ↦ none
  | ok u ↦ some (scheme_of u ++ (codes "://" ++ (user_of u ++ (host_of u ++ port_of u))))
]

-- `shell` is the address that api.NewShell was given.
pub record Client : Type 0 where
  pub shell : Bytes
  pub is_remote : Bool
  pub host : Bytes
  pub gateway_url : Bytes

pub record ClientConfig : Type 0 where
  pub host : Bytes
  pub gateway_url : Bytes

abbrev no_config : ClientConfig
no_config = record { host = []; gateway_url = [] }

abbrev or_default : Option ClientConfig → ClientConfig
or_default none = no_config
or_default (some c) = c

abbrev remote_client : Bytes → Bytes → Bytes → Client
remote_client shell host gateway_url = record {
  shell = shell;
  is_remote = true;
  host = host;
  gateway_url = gateway_url;
}

-- NewClient, with what RunDaemon returns; `none` is the end of the program by log.Fatal.
unfoldable pub new_client : Option Bytes → Host → Option Client
new_client (some e) h = none
new_client none h = elim (api_url h) [
  | err e ↦ none
  | ok url ↦ some (record { shell = url; is_remote = false; host = url; gateway_url = [] })
]

-- `none` is the end of the program by log.Fatal.
unfoldable pub new_remote_client : Host → Option ClientConfig → Option Client
new_remote_client h config =
    let c = or_default config in
    if c.host == []
    then elim (api_url h) [ err e ↦ none | ok url ↦ some (remote_client c.host url c.gateway_url) ]
    else some (remote_client c.host c.host c.gateway_url)

-- GatewayURL
unfoldable pub gateway_url : Host → Client → Option Bytes
gateway_url h client =
    let given = normalize_gateway_url h client.gateway_url in
    if client.gateway_url == []
    then elim (host_gateway_url h) [ ok url ↦ some url | err e ↦ given ]
    else given

-- An answer to POST /api/v0/refs: its status, and its body as a stream of objects, each with a field
-- `Ref` or without one, that ends or breaks with the first text that cannot be decoded.
pub record RefsReply : Type 0 where
  pub status_code : ℕ
  pub status : Bytes
  pub refs : List (Result (Option Bytes))

abbrev depth : Bool → Bytes
depth true = codes "-1"
depth false = codes "1"

unfoldable pub refs_url : Client → Bytes → Bool → Bytes
refs_url client hash recursive =
    codes "http://"
    ++ (client.host
        ++ (codes "/api/v0/refs?arg=" ++ (hash ++ (codes "&max-depth=" ++ depth recursive))))

-- json.Decode into a variable of the loop's outside: without the field it keeps its value.
abbrev pub decoded : Option Bytes → Bytes → Bytes
decoded none ref = ref
decoded (some r) ref = r

-- The goroutine's loop: what it sends until it closes the channel.
unfoldable pub sent_refs : Bytes → List (Result (Option Bytes)) → List Bytes
sent_refs ref [] = []
sent_refs ref (err e ∷ rs) = []
sent_refs ref (ok o ∷ rs) =
    let next = decoded o ref in
    let rest = sent_refs next rs in if next == [] then rest else next ∷ rest

unfoldable pub remote_refs :
    (Bytes → Result RefsReply) → Client → Bytes → Bool → Result (List Bytes)
remote_refs post client hash recursive = do
  resp ← post (refs_url client hash recursive)
  if eqb resp.status_code 200
      then ok (sent_refs [] resp.refs)
      else err (codes "Error: " ++ resp.status)

-- Refs; `shell` is the same call of the library for a client that is not remote.
unfoldable pub refs :
    (Bytes → Result RefsReply)
    → (Bytes → Bool → Result (List Bytes))
    → Client
    → Bytes
    → Bool
    → Result (List Bytes)
refs post shell client hash recursive =
    if client.is_remote then remote_refs post client hash recursive else shell hash recursive
