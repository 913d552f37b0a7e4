-- ===== src/Cmd.antt =====
-- cmd/ipdr/ipdr.go: the commands. Cobra, which reads the flags, gives `Flags` and the arguments.
pub mod Convert
use ipdr.Prelude.{
  ℕ, Bool, true, false, Option, none, some, Result, ok, err, List, [], ◌∷◌, ◌++◌, Bytes, codes,
  ◌||◌, if◌then◌else◌, ◌==◌,
}
use ipdr.Strings.{path_join}
use ipdr.External.{Codecs, World}
use ipdr.Regutil.{dockerize_hash, ipfsify_hash, dig}
use ipdr.Ipfs.Client.{Host}
use ipdr.Docker
use ipdr.Pack.{Files}
use ipdr.Server
use ipdr.Server.{
  Server, Started, already, panicked, exited, refused, serving, new_server, Machine, Process, start,
}
use ipdr.RegistryClient
use ipdr.RegistryClient.{
  Registry, Setting, Workshop, new_registry, push_image_by_id, pull_image, ◌then◌,
}

-- The variables that the flags of all commands share.
pub record Flags : Type 0 where
  pub ipfs_host : Bytes
  pub ipfs_gateway : Bytes
  pub format : Bytes
  pub docker_registry_host : Bytes
  pub port : ℕ
  pub tls_cert_path : Bytes
  pub tls_key_path : Bytes
  pub silent : Bool
  pub cid_resolvers : List Bytes
  pub cid_store_path : Bytes
  pub short_format : Bool

-- Where CIDs are kept, below the home directory, which may be unknown.
unfoldable pub default_cid_store : Bytes → Bytes
default_cid_store [] = []
default_cid_store (x ∷ home) = path_join ((x ∷ home) ∷ codes ".ipdr/cids" ∷ [])

unfoldable pub default_flags : Bytes → Flags
default_flags home = record {
  ipfs_host = codes "127.0.0.1:5001";
  ipfs_gateway = codes "127.0.0.1:8080";
  format = [];
  docker_registry_host = codes "docker.local:5000";
  port = 5000;
  tls_cert_path = [];
  tls_key_path = [];
  silent = false;
  cid_resolvers = (codes "file:" ++ default_cid_store home) ∷ [];
  cid_store_path = default_cid_store home;
  short_format = true;
}

pub data Command : Type 0 where
  push : Command
  pull : Command
  server : Command
  convert : Command
  dig_name : Command

abbrev image_id_required : Bytes
image_id_required = codes "image hash or name is required"

abbrev only_one_argument_required : Bytes
only_one_argument_required = codes "only one argument is required"

abbrev invalid_convert_format : Bytes
invalid_convert_format = codes "convert format must be either \"docker\" or \"ipfs\""

-- The checks of `push` and of `pull`.
unfoldable pub check_image_id : List Bytes → Option Bytes
check_image_id [] = some image_id_required
check_image_id (a ∷ []) = none
check_image_id (a ∷ b ∷ args) = some only_one_argument_required

unfoldable pub check_one : List Bytes → Option Bytes
check_one [] = some only_one_argument_required
check_one (a ∷ []) = none
check_one (a ∷ b ∷ args) = some only_one_argument_required

-- The check of `convert`.
unfoldable pub check_convert : Flags → List Bytes → Option Bytes
check_convert f args = elim (check_one args) [
  | some e ↦ some e
  | none ↦
      if f.format == codes "docker" || f.format == codes "ipfs"
      then none
      else some invalid_convert_format
]

-- `Args` of the five commands; `server` has none.
unfoldable pub check_args : Command → Flags → List Bytes → Option Bytes
unfolding check_image_id check_one check_convert
check_args push f args = check_image_id args
check_args pull f args = check_image_id args
check_args server f args = none
check_args convert f args = check_convert f args
check_args dig_name f args = check_one args

-- What the commands run with; `green` colours a text, and `mkdir` is os.MkdirAll.
pub record Shell (S : Type 0) : Type 0 where
  pub codecs : Codecs
  pub world : World
  pub setting : Setting
  pub workshop : Workshop
  pub docker : Docker.Daemon S
  pub health : Bytes → Result ℕ
  pub green : Bytes → Bytes
  pub mkdir : Bytes → Option Bytes
  pub machine : Machine

abbrev registry_config : Flags → RegistryClient.Config
registry_config f = record {
  docker_local_registry_host = f.docker_registry_host;
  ipfs_host = f.ipfs_host;
  ipfs_gateway = f.ipfs_gateway;
  debug = if f.silent then false else true;
}

-- fmt.Println of a text, or of a message before it in green
abbrev pub printed : {S : Type 0} → Shell S → Flags → Bytes → Bytes → Bytes
printed sh f message s = (if f.silent then s else sh.green (message ++ s)) ++ 10 ∷ []

-- args[0]
unfoldable pub first_arg : List Bytes → Option Bytes
first_arg [] = none
first_arg (a ∷ args) = some a

-- What a command prints, or the error that it returns; `none` is a panic or the end by log.Fatal.
unfoldable pub run_push :
    {S : Type 0} → Shell S → Flags → List Bytes → S → Files → Option (Result Bytes)
run_push sh f args s fs = elim (new_registry sh.setting (some (registry_config f))) [
  | none ↦ none
  | some reg ↦ elim (first_arg args) [
    | none ↦ none
    | some image_id ↦ push_image_by_id sh.docker sh.workshop reg image_id s fs then (λ hash.
        some (ok (printed sh f (codes "\nSuccessfully pushed Docker image to IPFS:\n/ipfs/") hash)))
  ]
]

unfoldable pub run_pull : {S : Type 0} → Shell S → Flags → List Bytes → S → Option (Result Bytes)
run_pull sh f args s = elim (new_registry sh.setting (some (registry_config f))) [
  | none ↦ none
  | some reg ↦ elim (first_arg args) [
    | none ↦ none
    | some hash ↦ elim (pull_image sh.docker sh.setting.host sh.health reg hash s) [
      | none ↦ none
      | some (srv, (s', r)) ↦ some r then (λ tag.
          some (ok (printed sh f (codes "\nSuccessfully pulled Docker image from IPFS:\n") tag)))
    ]
  ]
]

unfoldable pub ensure_cid_store_path : {S : Type 0} → Shell S → Bytes → Option Bytes
ensure_cid_store_path sh location = sh.mkdir location

abbrev pub server_config : Flags → Server.Config
server_config f = record {
  debug = if f.silent then false else true;
  port = f.port;
  ipfs_host = f.ipfs_host;
  ipfs_gateway = f.ipfs_gateway;
  cid_resolvers = f.cid_resolvers;
  cid_store_path = f.cid_store_path;
  tls_cert_path = f.tls_cert_path;
  tls_key_path = f.tls_key_path;
}

-- The error, or how the start of the server goes.
unfoldable pub run_server :
    {S : Type 0} → Shell S → Flags → Process → Option (Result (Started × (Process × Server)))
unfolding ensure_cid_store_path
run_server sh f p = elim (ensure_cid_store_path sh f.cid_store_path) [
  | some e ↦ some (err e)
  | none ↦ elim (new_server sh.setting.host (some (server_config f))) [
    | none ↦ none
    | some srv ↦ some (ok (start sh.machine p srv))
  ]
]

unfoldable pub run_convert : Codecs → Flags → List Bytes → Option (Result Bytes)
run_convert c f args = elim (first_arg args) [
  | none ↦
      if f.format == codes "docker" || f.format == codes "ipfs"
      then none
      else some (err invalid_convert_format)
  | some hash ↦
      if f.format == codes "docker"
      then some (ok (dockerize_hash c hash ++ 10 ∷ []))
      else if f.format == codes "ipfs"
      then some (ok (ipfsify_hash c hash ++ 10 ∷ []))
      else some (err invalid_convert_format)
]

-- An error of the registry is printed, and the command succeeds.
unfoldable pub run_dig : World → Flags → List Bytes → Option (Result Bytes)
run_dig w f args = elim (first_arg args) [
  | none ↦ none
  | some name ↦ elim (dig w f.docker_registry_host f.short_format name) [
    | err e ↦ some (ok (e ++ 10 ∷ []))
    | ok s ↦ some (ok s)
  ]
]

-- os.Exit(1) where the command returns an error.
unfoldable pub exit_code : {A : Type 0} → Result A → ℕ
exit_code (ok a) = 0
exit_code (err e) = 1

-- `ipdr convert`: the check, and the run.
unfoldable pub convert_command : Codecs → Flags → List Bytes → Option (Result Bytes)
unfolding check_args run_convert
convert_command c f args = elim (check_args convert f args) [
  | some e ↦ some (err e)
  | none ↦ run_convert c f args
]
