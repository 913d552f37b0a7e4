-- ===== src/Lib.antt =====
-- Verification library of the IPFS-backed Docker registry.
--
-- The program. `ipdr` is a Docker registry whose images live on IPFS. The server
-- (server/registry) speaks the registry protocol over HTTP: blobs and manifests that are pushed stay
-- in memory until a manifest is put, which sends the image to IPFS; what is pulled is read from an
-- IPFS gateway under a CID that the CID store or a resolver finds for a repository and a reference.
-- The registry's client (registry) takes an image out of Docker, lays its archive out as a registry
-- would serve it and adds it to IPFS; to pull, it starts a server, unless one answers, and tells
-- Docker to pull from it. The commands (cmd/ipdr) call the client, the server and the conversions.
--
-- The files, and the code they model (paths from the root of the repository):
--   Prelude         tests on bytes, lists, maps as functions, and results
--   Strings         the functions of Go's strings, sort and path packages that the code calls
--   Decimal         fmt.Sprint of an int and fmt.Sscanf of "%d-%d"
--   Base32          encoding/base32, which regutil calls
--   External        what is not implemented here: `Codecs` (SHA-256, JSON, CIDs, base58) and `World`
--                   (gateway, IPFS API, DNS, files), parameters of every definition
--   Http            requests, the response writer, and server/registry/error.go
--   Image           server/registry/image/manifest.go: Manifest, Digests
--   Regutil         regutil/regutil.go, all of it
--   Ipfs            ipfs/ipfs.go: AddImage; Client has the constructors, the URLs and Refs, Launch
--                   RunDaemon, and Gateway is about NormalizeGatewayURL
--   Cids            server/registry/cids.go: cidStore with Add, Get and its files
--   Resolver        server/registry/resolv.go: the resolvers, NewResolver and Resolve
--   Site            server/registry/registry.go: resolve, resolveCID, ipfsURL; util.go: getContent;
--                   manifest.go: computeDigest
--   Blobs           server/registry/blobs.go: Path is the parsing of the URL (isBlob, the start of
--                   handle), Store the state with get and remove, Handle one function for each
--                   method of handle
--   Manifests       server/registry/manifest.go: State is the store, Fetch has getManifest, fetch and
--                   the GET and HEAD handlers, Put the PUT handler, Handle the dispatch
--   Registry        server/registry/registry.go: v2, dig, root and New; Reach is the relation of the
--                   states that sequences of requests lead to
--   Pack            registry/registry.go, the push of an image archive: compressLayer, makeV2Manifest
--                   and writeManifest in Pack, untar in Untar, ipfsPrep in Prep, TagToImageID and
--                   uploadDir (with AddDir of ipfs/ipfs.go) in Upload; Offered leads from there to
--                   the registry's server
--   Netutil         netutil/netutil.go: LocalIP and isPrivateIP; Port has ExtractPort
--   Docker          docker/docker.go over the Docker daemon, whose state is a parameter; Names has
--                   docker/util.go
--   Server          server/server.go: NewServer, Start and Stop; Mux says what net/http passes on to
--                   the registry, and Lifecycle gives the phases of a server
--   RegistryClient  registry/registry.go: NewRegistry, the push and the pull as a whole, over Pack,
--                   Docker, Ipfs and Server
--   Cmd             cmd/ipdr/ipdr.go: the commands
--   Tests           concrete inputs
--
-- How it is modelled. A handler takes the state, the request and the response writer to an `Outcome`:
-- it returns with an error or none, panics, or waits for ever for a mutex. A mutex is a flag of the
-- state that `with_lock` takes and gives back; the code that forgets to unlock leaves it set. The
-- writer keeps the headers apart from those that were sent with the status, so that a header that is
-- set too late is lost. Slices out of range and nil pointers are panics. Maps are functions with
-- optional values, whose order the code never observes where it is modelled. Pack takes the disk to
-- the disk, a map from paths to contents; an error drops the temporary directory.
-- Where a function of the clients or of the server may end the program, by a panic or by log.Fatal,
-- its result is optional. The goroutines of RunDaemon are the values that each sends, of which the
-- first of either may be received; the goroutine of runServer is the server that it starts. A server's
-- listener is there, closed or missing, and the patterns of net/http are a state of the process.
-- Whether a certificate can be read is a parameter of a start.
--
-- Fuel and bounds. `print` runs with one unit of fuel more than its number, which is enough since
-- each step divides by ten. Everything else recurs on its input. Scanned integers are the int of 64
-- bits, which is `2 ^ 63` in Decimal; lengths are natural numbers, and the length less one in the
-- Range header of an empty upload is -1, as in the code.
--
-- What is not modelled. Requests are handled one after the other; the order in which mutexes are
-- taken inside one request is that of the code. One request sees one `World`, and the next one any
-- other. The RWMutex of cidStore is released on every path and is not a part of its state. Lower
-- and upper case, and white space, are those of ASCII. The file resolver reads a tree of its own,
-- apart from the files of the CID store. Logs are left out, and so are the transport of HTTP with
-- its timeouts, the reading of flags, and the type InfoResponse, which nothing uses. A call of the
-- network always answers: the wait for a gateway that does not, which has no timeout and holds the
-- blob mutex (http.Head in blobs.go), is not a part of the model. The calls of the Docker API, of
-- go-ipfs-api, of net/url and of the shell are parameters. The vendored libraries
-- are not modelled.
pub mod Prelude
pub mod Strings
pub mod Decimal
pub mod Base32
pub mod External
pub mod Http
pub mod Image
pub mod Regutil
pub mod Ipfs
pub mod Cids
pub mod Resolver
pub mod Site
pub mod Blobs
pub mod Manifests
pub mod Registry
pub mod Server
pub mod Netutil
pub mod Docker
pub mod Pack
pub mod RegistryClient
pub mod Cmd
pub mod Tests
