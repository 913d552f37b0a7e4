-- ===== src/Regutil.antt =====
-- regutil/regutil.go
pub mod Hashes
use ipdr.Prelude.{
  ◌∷◌, Bool, true, false, eqb, if◌then◌else◌, Result, ok, err, ◌>>=◌, List, [], ◌++◌, Bytes, codes,
}
use ipdr.Strings.{join, to_upper, to_lower, trim_prefix}
use ipdr.Base32.{encode, decode_string}
use ipdr.External.{Codecs, World}

unfoldable pub ipfs_url : Bytes → List Bytes → Bytes
ipfs_url gw s = gw ++ (codes "/ipfs/" ++ join s (codes "/"))

unfoldable pub to_cid_v1 : Codecs → Bytes → Result Bytes
to_cid_v1 c cid = ok (c.new_cid_v1 (c.cid_type cid) (c.cid_hash cid))

-- The empty text stands for an error.
abbrev pub or_empty : Result Bytes → Bytes
or_empty (ok s) = s
or_empty (err e) = []

unfoldable pub to_b32 : Codecs → Bytes → Bytes
unfolding to_cid_v1
to_b32 c s = or_empty (do cid ← c.cid_decode s; v1 ← to_cid_v1 c cid; c.string_of_base32 v1)

unfoldable pub ipfsify_hash : Codecs → Bytes → Bytes
unfolding decode_string
ipfsify_hash c s = or_empty (do b ← decode_string (to_upper s ++ codes "="); ok (c.base58_encode b))

-- `.` of a regular expression is any byte but the end of a line.
unfoldable pub first_line : Bytes → Bytes
first_line [] = []
first_line (x ∷ s) = let rest = first_line s in if eqb x 10 then [] else x ∷ rest

-- The last match of `(/ipfs/)?(.*)`
unfoldable pub hash_of : Bytes → Bytes
hash_of s = first_line (trim_prefix s (codes "/ipfs/"))

-- b32str[0:end]
unfoldable pub drop_last : Bytes → Bytes
drop_last [] = []
drop_last (x ∷ []) = []
drop_last (x ∷ y ∷ s) = x ∷ drop_last (y ∷ s)

unfoldable pub dockerize_hash : Codecs → Bytes → Bytes
dockerize_hash c hash = to_lower (drop_last (encode (c.base58_decode (hash_of hash))))

-- A CID of version 0 is that of a node in protobuf, whose type is 112.
unfoldable pub to_cid_v0 : Codecs → Bytes → Result Bytes
to_cid_v0 c cid =
    if eqb (c.cid_type cid) 112
    then ok (c.new_cid_v0 (c.cid_hash cid))
    else err (codes "can't convert non-protobuf nodes to cidv0")

unfoldable pub to_b58 : Codecs → Bytes → Bytes
to_b58 c s = or_empty (do cid ← c.cid_decode s; ok (c.base58_encode (c.cid_hash cid)))

abbrev bool_text : Bool → Bytes
bool_text true = codes "true"
bool_text false = codes "false"

-- The query that the registry server's /dig answers.
unfoldable pub dig_url : Bytes → Bool → Bytes → Bytes
dig_url gw short name =
    codes "http://" ++ (gw ++ (codes "/dig?q=" ++ (name ++ (codes "&short=" ++ bool_text short))))

unfoldable pub dig : World → Bytes → Bool → Bytes → Result Bytes
dig w gw short name = do
  resp ← w.http_get (dig_url gw short name)
  if eqb resp.status_code 200 then resp.body else err resp.status
