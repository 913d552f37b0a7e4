-- ===== src/Tests/Servers.antt =====
-- Servers, their starts, and what they are asked.
use ipdr.Prelude.{
  ◌⊎◌, All, ◌≡◌, ◌≢◌, refl, true, false, none, some, ok, err, List, [], ◌∷◌, Bytes, codes, empty,
  arith, ◌==◌,
}
use ipdr.Decimal.{print}
use ipdr.Strings.{trim_space, has_prefix, clean, split, join}
use ipdr.Blobs.{is_blob, blob_target}
use ipdr.Manifests.{is_manifest, manifest_target}
use ipdr.Ipfs.Client.{Url, Host, new_remote_client, api_url, normalize_gateway_url, with_scheme}
use ipdr.Ipfs.Launch.{Commands, receivable, is_running, run_daemon, run_daemon-receivable}
use ipdr.Server.{
  Server, Machine, first_process, start, unserved, panicked, listening, register, register_root,
  listen_on, is_registered,
}
use ipdr.Server.Mux.{route, clean_path, match_path, route_registry}
use ipdr.Server.Lifecycle.{
  Operation, starts, stops, perform_all, next_all, idle, phase_of, perform_all-refines,
  start-second, IsIdle, start-unserved,
}
use ipdr.Tests.{quiet}

-- A URL of a name and a port.
abbrev address : Url
address = record {
  scheme = codes "http";
  user = none;
  hostname = codes "127.0.0.1";
  port = codes "8080";
}

abbrev pub host : Host
host = record {
  parse_url = λ url. ok address;
  ipfs_config = λ key. ok (codes "/ip4/127.0.0.1/tcp/8080");
}

abbrev pub machine : Machine
machine = record {
  host = host;
  world = quiet;
  files = empty;
  load_key_pair = λ cert key. none;
  listen = λ address. none;
}

abbrev server : Server
server = record {
  debug = false;
  listener = none;
  host = codes "0.0.0.0:5000";
  ipfs_host = codes "127.0.0.1:5001";
  ipfs_gateway = codes "http://127.0.0.1:8080";
  cid_resolvers = [];
  cid_store_path = codes "/c";
  tls_cert_path = [];
  tls_key_path = [];
}

abbrev other_server : Server
other_server = record server { host = codes "0.0.0.0:5001" }

abbrev operations : List Operation
operations = starts machine ∷ stops ∷ starts machine ∷ []

perform_all-refines_example :
    phase_of (perform_all operations (some (first_process, server)))
    ≡ next_all server operations idle
perform_all-refines_example = perform_all-refines server operations refl

start-second_example :
    (start machine (start machine first_process server).1.0 other_server).0 ≡ panicked
unfolding start register register_root listen_on is_registered new_remote_client ◌==◌
start-second_example = start-second machine machine first_process server other_server refl refl (cc)

-- The certificate and the key are not there.
abbrev tls_server : Server
tls_server = record server { tls_cert_path = codes "cert.pem"; tls_key_path = codes "key.pem" }

abbrev no_certificate : Machine
no_certificate = record machine { load_key_pair = λ cert key. some (codes "no such file") }

start-unserved_example :
    ((start no_certificate first_process tls_server).0 ≡ unserved (codes "no such file"))
    × ((start no_certificate first_process tls_server).1.1.listener ≡ some listening)
    × ((ops : List Operation)
        → IsIdle
            (start no_certificate first_process tls_server).1.0
            (perform_all ops (some (start no_certificate first_process tls_server).1)))
unfolding new_remote_client api_url trim_space print has_prefix normalize_gateway_url with_scheme
    ◌==◌
start-unserved_example =
    start-unserved no_certificate first_process tls_server (codes "no such file")
      (record {
        shell = codes "127.0.0.1:5001";
        is_remote = true;
        host = codes "127.0.0.1:5001";
        gateway_url = codes "http://127.0.0.1:8080";
      })
      refl refl refl refl (ground arith) (ground arith) refl

route_registry_example :
    (is_blob (codes "/v2/a/blobs/x") ≢ none)
    × (is_manifest (codes "/v2/a/blobs/x") ≢ none)
    × ((is_blob (codes "/v2/a/blobs/x") ≡ some false)
        ⊎ (blob_target (codes "/v2/a/blobs/x") ≢ none))
    × ((is_manifest (codes "/v2/a/blobs/x") ≡ some false)
        ⊎ (manifest_target (codes "/v2/a/blobs/x") ≢ none))
unfolding route clean_path match_path has_prefix clean split join ◌==◌
route_registry_example = route_registry (codes "GET") (codes "/v2/a/blobs/x") refl

-- IPFS does not run, and its daemon runs without an end.
abbrev commands : Commands
commands = record { pgrep = err (codes "exit status 1"); daemon = none }

run_daemon-receivable_example :
    (receivable commands ≢ [])
    × (All (λ v. run_daemon v ≡ none) (receivable commands)
        ⊎ ((is_running commands ≡ false) × (e : Bytes) × (commands.daemon ≡ some (some e))))
run_daemon-receivable_example = run_daemon-receivable commands
