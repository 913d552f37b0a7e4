-- ===== src/Server.antt =====
-- server/server.go: a server, its start and its stop. The patterns that net/http has are those of the
-- whole process.
pub mod Mux
pub mod Lifecycle
use ipdr.Prelude.{
  ◌≡◌, ◌≢◌, ap, arith, ℕ, Bool, true, false, not, ◌&&◌, ◌||◌, Option, none, some, List, [], ◌∷◌,
  ◌++◌, Bytes, codes, eqb, if◌then◌else◌, ◌==◌, Map,
}
use ipdr.Decimal.{print}
use ipdr.External.{World}
use ipdr.Ipfs.Client.{Host, normalize_gateway_url, new_remote_client}
use ipdr.Manifests.{Registry}
use ipdr.Registry
use ipdr.Registry.{new}

-- What net.Listen returned, before and after its Close.
pub data Listener : Type 0 where
  listening : Listener
  closed : Listener

pub record Server : Type 0 where
  pub debug : Bool
  pub listener : Option Listener
  pub host : Bytes
  pub ipfs_host : Bytes
  pub ipfs_gateway : Bytes
  pub cid_resolvers : List Bytes
  pub cid_store_path : Bytes
  pub tls_cert_path : Bytes
  pub tls_key_path : Bytes

pub record Config : Type 0 where
  pub debug : Bool
  pub port : ℕ
  pub ipfs_host : Bytes
  pub ipfs_gateway : Bytes
  pub cid_resolvers : List Bytes
  pub cid_store_path : Bytes
  pub tls_cert_path : Bytes
  pub tls_key_path : Bytes

abbrev no_config : Config
no_config = record {
  debug = false;
  port = 0;
  ipfs_host = [];
  ipfs_gateway = [];
  cid_resolvers = [];
  cid_store_path = [];
  tls_cert_path = [];
  tls_key_path = [];
}

abbrev or_default : Option Config → Config
or_default none = no_config
or_default (some c) = c

abbrev pub server_of : Config → Bytes → Server
server_of c gateway = record {
  debug = c.debug;
  listener = none;
  host = codes "0.0.0.0:" ++ print (if eqb c.port 0 then 5000 else c.port);
  ipfs_host = c.ipfs_host;
  ipfs_gateway = gateway;
  cid_resolvers = c.cid_resolvers;
  cid_store_path = c.cid_store_path;
  tls_cert_path = c.tls_cert_path;
  tls_key_path = c.tls_key_path;
}

-- A port that is given is the one to listen on.
pub server_of-host :
    (c : Config) (gateway : Bytes)
    → c.port ≢ 0
    → (server_of c gateway).host ≡ codes "0.0.0.0:" ++ print c.port
server_of-host c gateway h = ap (λ (n : ℕ). codes "0.0.0.0:" ++ print n) (ground arith)

-- `none` is the panic of NormalizeGatewayURL.
unfoldable pub new_server : Host → Option Config → Option Server
new_server h config =
    let c = or_default config in
    elim (normalize_gateway_url h c.ipfs_gateway) [
      | none ↦ none
      | some gateway ↦ some (server_of c gateway)
    ]

-- What a start meets: the host, the network, the CID store's files, net.Listen with its error, and
-- the error of reading a certificate and its key, if there is one.
pub record Machine : Type 0 where
  pub host : Host
  pub world : World
  pub files : Map Bytes
  pub listen : Bytes → Option Bytes
  pub load_key_pair : Bytes → Bytes → Option Bytes

-- http.DefaultServeMux, with the registry behind the pattern "/".
pub record Process : Type 0 where
  pub patterns : List Bytes
  pub registry : Option Registry

abbrev pub first_process : Process
first_process = record { patterns = []; registry = none }

unfoldable pub is_registered : Bytes → List Bytes → Bool
is_registered pattern [] = false
is_registered pattern (p ∷ ps) = pattern == p || is_registered pattern ps

-- http.Handle and http.HandleFunc; `none` is the panic of a pattern that is there already.
unfoldable pub register : Bytes → Process → Option Process
unfolding is_registered
register pattern p =
    if is_registered pattern p.patterns
    then none
    else some (record p { patterns = pattern ∷ p.patterns })

-- How `Start` goes: it returns nil at once, it panics, the program ends by log.Fatal, net.Listen
-- fails, http.ServeTLS fails since it cannot read the certificate, or it serves, with TLS or without,
-- until the listener is closed.
pub data Started : Type 0 where
  already : Started
  panicked : Started
  exited : Started
  refused : Bytes → Started
  unserved : Bytes → Started
  serving : Bool → Started

abbrev has_tls : Server → Bool
has_tls s = not (s.tls_key_path == []) && not (s.tls_cert_path == [])

-- http.ServeTLS or http.Serve.
unfoldable pub serve : Machine → Server → Started
serve m s =
    if has_tls s
    then elim (m.load_key_pair s.tls_cert_path s.tls_key_path) [
      | some e ↦ unserved e
      | none ↦ serving true
    ]
    else serving false

-- From net.Listen on; `s.listener` is nil where that fails, and stays open where serving does.
unfoldable pub listen_on : Machine → Process → Server → Started × (Process × Server)
unfolding serve
listen_on m p s = elim (m.listen s.host) [
  | some e ↦ (refused e, (p, s))
  | none ↦ (serve m s, (p, record s { listener = some listening }))
]

-- registry.New, behind the pattern "/".
unfoldable pub register_root : Machine → Process → Server → Started × (Process × Server)
unfolding register listen_on
register_root m p s =
    let config : Registry.Config = record {
      ipfs_gateway = s.ipfs_gateway;
      cid_resolvers = s.cid_resolvers;
      cid_store_path = s.cid_store_path;
    } in
    let client =
      new_remote_client m.host
        (some (record { host = s.ipfs_host; gateway_url = s.ipfs_gateway })) in
    elim client [
      | none ↦ (exited, (p, s))
      | some c ↦ elim (register (codes "/") p) [
        | none ↦ (panicked, (p, s))
        | some p' ↦ listen_on m (record p' { registry = some (new m.world config m.files) }) s
      ]
    ]

unfoldable pub start : Machine → Process → Server → Started × (Process × Server)
unfolding register_root
start m p s = elim s.listener [
  | some l ↦ (already, (p, s))
  | none ↦ elim (register (codes "/health") p) [
    | none ↦ (panicked, (p, s))
    | some p' ↦ register_root m p' s
  ]
]

unfoldable pub stop : Server → Server
stop s = elim s.listener [ none ↦ s | some l ↦ record s { listener = some closed } ]
