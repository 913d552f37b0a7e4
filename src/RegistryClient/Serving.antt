-- ===== src/RegistryClient/Serving.antt =====
-- The server that a pull starts, and the address that Docker is told to pull from.
use ipdr.Prelude.{ℕ, ◌≡◌, false, some, Result, ◌++◌, Bytes, codes}
use ipdr.Decimal.{print}
use ipdr.Docker
use ipdr.Docker.{Daemon}
use ipdr.Ipfs.Client.{Host, Client}
use ipdr.Server.{listening, Machine, first_process, serving, start, Server}
use ipdr.RegistryClient.{Registry, pull_id, pulled, pull_image}

module _ {S : Type 0} (d : Daemon S) (h : Host) (get : Bytes → Result ℕ) (r : Registry)
    (hash : Bytes) (s : S) where
  -- The server that is started listens on the port that was read, and Docker is told to pull.
  abbrev pub Starts : ℕ → Bytes → Type 0
  Starts n url =
      (srv : Server) × (pull_image d h get r hash s
        ≡ some (some srv, pulled (pull_id r hash) (Docker.pull_image d (pull_id r hash) s)))
      × (srv.host ≡ codes "0.0.0.0:" ++ print n)
      × (srv.ipfs_gateway ≡ url)

  -- The same, and the server that is started is the first of its program: it serves, without TLS.
  abbrev pub Serves : Machine → ℕ → Bytes → Type 0
  Serves m n url =
      (srv : Server) × (pull_image d h get r hash s
        ≡ some (some srv, pulled (pull_id r hash) (Docker.pull_image d (pull_id r hash) s)))
      × (srv.host ≡ codes "0.0.0.0:" ++ print n)
      × (srv.ipfs_gateway ≡ url)
      × ((start m first_process srv).0 ≡ serving false)
      × ((start m first_process srv).1.1.listener ≡ some listening)
