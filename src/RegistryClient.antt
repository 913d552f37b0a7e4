-- ===== src/RegistryClient.antt =====
-- registry/registry.go: the client that pushes images to IPFS and pulls them from a local registry,
-- over the Docker client, the IPFS client, the layout of an archive, and the server.
pub mod Serving
pub mod Pushing
use ipdr.Prelude.{
  ℕ, Bool, true, false, Option, none, some, Result, ok, err, ◌>>=◌, List, [], ◌∷◌, ◌++◌, Bytes,
  codes, eqb, if◌then◌else◌, ◌==◌,
}
use ipdr.Netutil.{Ip, local_ip}
use ipdr.Netutil.Port.{extract_port}
use ipdr.Docker
use ipdr.Docker.{Daemon, list_images, read_image, tag_image, remove_image}
use ipdr.Ipfs.Client.{Host, Client, RefsReply, new_remote_client, gateway_url, refs}
use ipdr.Pack.{Files, Tools}
use ipdr.Pack.Untar.{Entry, Disk, untar}
use ipdr.Pack.Prep.{ipfs_prep}
use ipdr.Pack.Upload
use ipdr.Pack.Upload.{tag_to_image_id, upload_dir}
use ipdr.Server
use ipdr.Server.{Server, new_server}

pub record Registry : Type 0 where
  pub docker_local_registry_host : Bytes
  pub docker_client : Docker.Client
  pub ipfs_client : Client
  pub debug : Bool

pub record Config : Type 0 where
  pub docker_local_registry_host : Bytes
  pub ipfs_host : Bytes
  pub ipfs_gateway : Bytes
  pub debug : Bool

-- What the client asks of its surroundings: the environment variable DOCKER_LOCAL_REGISTRY_HOST, the
-- interfaces with the text of an address, and whether the Docker client can be made.
pub record Setting : Type 0 where
  pub host : Host
  pub registry_host : Bytes
  pub interfaces : Result (List (Result (List Ip)))
  pub ip_string : Ip → Bytes
  pub docker_error : Option Bytes

abbrev no_config : Config
no_config = record {
  docker_local_registry_host = [];
  ipfs_host = [];
  ipfs_gateway = [];
  debug = false;
}

abbrev or_default : Option Config → Config
or_default none = no_config
or_default (some c) = c

-- The registry's host: the configuration's, the environment's, or the address of this machine.
unfoldable pub registry_host : Setting → Bytes → Result Bytes
registry_host s given =
    let found : Result Bytes = local_ip s.interfaces >>= (λ ip. ok (s.ip_string ip)) in
    if given == [] then (if s.registry_host == [] then found else ok s.registry_host) else ok given

-- `none` is the end of the program by log.Fatal.
unfoldable pub new_registry : Setting → Option Config → Option Registry
new_registry s config =
    let c = or_default config in
    elim (registry_host s c.docker_local_registry_host) [
      | err e ↦ none
      | ok host ↦
          elim (new_remote_client s.host
            (some (record { host = c.ipfs_host; gateway_url = c.ipfs_gateway }))) [
              | none ↦ none
              | some client ↦
                  elim (Docker.new_client s.docker_error (some (record { debug = c.debug }))) [
                    | none ↦ none
                    | some docker ↦ some (record {
                      docker_local_registry_host = host;
                      docker_client = docker;
                      ipfs_client = client;
                      debug = c.debug;
                    })
                  ]
            ]
    ]

-- What a push works with: the two directories that ioutil.TempDir makes, the disk, the libraries,
-- tar.Reader, and IPFS, where what is added depends on the files.
pub record Workshop : Type 0 where
  pub tmp : Result Bytes
  pub root : Result Bytes
  pub disk : Disk
  pub tools : Tools
  pub entries : Bytes → List (Result Entry)
  pub ipfs : Files → Upload.Daemon
  pub post : Bytes → Result RefsReply
  pub shell_refs : Bytes → Bool → Result (List Bytes)

-- IPFS, as the registry's client sees it.
abbrev pub client_daemon : Workshop → Registry → Files → Upload.Daemon
client_daemon w r fs = record (w.ipfs fs) {
  refs = λ hash. refs w.post w.shell_refs r.ipfs_client hash false;
}

-- The rest of a function that fails with an error, ends the program or goes on.
infixl 5 ◌then◌
abbrev pub ◌then◌ {ℓ κ} :
    {A : Type ℓ} {B : Type κ} → Option (Result A) → (A → Option (Result B)) → Option (Result B)
none then f = none
some (err e) then f = some (err e)
some (ok a) then f = f a

-- PushImage; `none` is a panic or the end of the program by log.Fatal.
unfoldable pub push_image : Workshop → Registry → Bytes → Bytes → Files → Option (Result Bytes)
push_image w r reader image_id fs = some w.tmp then (λ tmp.
    some (untar w.disk tmp (w.entries reader) fs) then (λ files. some w.root then (λ root.
      ipfs_prep w.tools tmp root image_id files
      then (λ prepared. upload_dir (client_daemon w r prepared) root))))

-- PushImageByID
unfoldable pub push_image_by_id :
    {S : Type 0} → Daemon S → Workshop → Registry → Bytes → S → Files → Option (Result Bytes)
push_image_by_id d w r image_id s fs =
    some (tag_to_image_id (list_images d s) image_id)
    then (λ id. some (read_image d id s) then (λ reader. push_image w r reader image_id fs))

-- DownloadImage; `get` is the call of the IPFS library.
unfoldable pub download_image : Result Bytes → (Bytes → Bytes → Option Bytes) → Bytes → Result Bytes
download_image mktmp get hash = do
  tmp ← mktmp
  let path = tmp ++ (b'/' ∷ (hash ++ codes ".tar"))
  elim (get hash path) [ some e ↦ err e | none ↦ ok path ]

-- http.Client.Get of the address of /health gives a status code or an error.
abbrev pub healthy : Result ℕ → Bool
healthy (err e) = false
healthy (ok code) = eqb code 200

abbrev pub health_url : Registry → Bytes
health_url r = codes "http://" ++ (r.docker_local_registry_host ++ codes "/health")

abbrev pub server_config : Registry → Bytes → Server.Config
server_config r gateway = record {
  debug = r.debug;
  port = extract_port r.docker_local_registry_host;
  ipfs_host = [];
  ipfs_gateway = gateway;
  cid_resolvers = [];
  cid_store_path = [];
  tls_cert_path = [];
  tls_key_path = [];
}

-- runServer: the server that a goroutine starts, if one is needed; outside, `none` is a panic.
unfoldable pub run_server : Host → (Bytes → Result ℕ) → Registry → Option (Option Server)
run_server h get r =
    let host = r.docker_local_registry_host in
    if healthy (get (health_url r)) then some none else elim (gateway_url h r.ipfs_client) [
      | none ↦ none
      | some gateway ↦ elim (new_server h (some (server_config r gateway))) [
        | none ↦ none
        | some srv ↦ some (some srv)
      ]
    ]

abbrev pub pull_id : Registry → Bytes → Bytes
pull_id r hash = r.docker_local_registry_host ++ b'/' ∷ hash

abbrev pub pulled : {S : Type 0} → Bytes → S × Option Bytes → S × Result Bytes
pulled id (s, none) = (s, ok id)
pulled id (s, some e) = (s, err e)

-- PullImage: the server that was started, the daemon's state, and the answer.
unfoldable pub pull_image :
    {S : Type 0}
    → Daemon S
    → Host
    → (Bytes → Result ℕ)
    → Registry
    → Bytes
    → S
    → Option (Option Server × (S × Result Bytes))
unfolding run_server
pull_image d h get r hash s = elim (run_server h get r) [
  | none ↦ none
  | some srv ↦ some (srv, pulled (pull_id r hash) (Docker.pull_image d (pull_id r hash) s))
]

unfoldable pub retag : {S : Type 0} → Daemon S → Bytes → Bytes → S → S × Option Bytes
retag d pull_image_id dockerized_hash s =
    let (s', e) = tag_image d pull_image_id dockerized_hash s in
    elim e [ some m ↦ (s', some m) | none ↦ remove_image d pull_image_id s' ]
