-- ===== src/External.antt =====
-- What the program uses and does not implement: hashes, JSON and CID libraries, which are fixed
-- functions (`Codecs`), and the network and the file system (`World`), which each request sees anew.
use ipdr.Prelude.{ℕ, Bool, List, Option, Bytes, Map, Result}
use ipdr.Image.{ImageManifest}

pub record Codecs : Type 0 where
  -- hex.EncodeToString(sha256.Sum256(b))
  pub sha256_hex : Bytes → Bytes
  -- json.Unmarshal into image.Manifest
  pub decode_manifest : Bytes → Result ImageManifest
  -- the digests of v1.ParseIndexManifest(b).Manifests
  pub parse_index : Bytes → Result (List Bytes)
  -- %q of fmt, and the text that encoding/json gives for a string
  pub quote : Bytes → Bytes
  pub json_string : Bytes → Bytes
  -- go-cid, whose Cid is a string of bytes
  pub cid_decode : Bytes → Result Bytes
  pub cid_type : Bytes → ℕ
  pub cid_hash : Bytes → Bytes
  pub new_cid_v0 : Bytes → Bytes
  pub new_cid_v1 : ℕ → Bytes → Bytes
  pub string_of_base32 : Bytes → Result Bytes
  -- go-base58
  pub base58_decode : Bytes → Bytes
  pub base58_encode : Bytes → Bytes

-- An HTTP response; reading its body may fail.
pub record HttpReply : Type 0 where
  pub status_code : ℕ
  pub status : Bytes
  pub body : Result Bytes

-- The directory that is sent to IPFS.
pub record ImageDir : Type 0 where
  pub blobs : Map Bytes
  pub manifests : Map Bytes

-- What the IPFS API answers to `add`: the request may fail, the response may hold an error, and its
-- output is a stream of objects, each the hash of one file or a decoding error.
pub data AddReply : Type 0 where
  send_failed : Bytes → AddReply
  replied : Option Bytes → List (Result Bytes) → AddReply

pub record World : Type 0 where
  pub http_head : Bytes → Result HttpReply
  pub http_get : Bytes → Result HttpReply
  pub ipfs_add : ImageDir → AddReply
  pub ipfs_list : Bytes → Result (List Bytes)
  -- opening may fail, and so may reading
  pub ipfs_cat : Bytes → Result (Result Bytes)
  pub lookup_txt : Bytes → Result (List Bytes)
  -- name, and whether the file is a regular one
  pub read_dir : Bytes → Result (List (Bytes × Bool))
  pub read_file : Bytes → Result Bytes
  -- whether the directory of a path can be made and the file written
  pub writable : Bytes → Bool
  -- rand.Int63()
  pub random : ℕ
