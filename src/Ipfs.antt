-- ===== src/Ipfs.antt =====
-- ipfs/ipfs.go: adding an image; the children have the rest of the client.
pub mod Client
pub mod Gateway
pub mod Launch
use ipdr.Prelude.{Result, ok, err, ◌>>=◌, List, [], ◌∷◌, none, some, Bytes, codes, Map}
use ipdr.External.{World, AddReply, send_failed, replied}

-- The loop over the decoder: the last hash counts.
unfoldable pub final_hash : Bytes → List (Result Bytes) → Result Bytes
final_hash final [] = ok final
final_hash final (ok h ∷ out) = final_hash h out
final_hash final (err e ∷ out) = err e

unfoldable pub or_no_results : Bytes → Result Bytes
or_no_results [] = err (codes "no results received")
or_no_results (x ∷ h) = ok (x ∷ h)

-- `if err != nil { return "", nil }`: a request that could not be sent is no error here.
unfoldable pub read_add : AddReply → Result Bytes
unfolding final_hash or_no_results
read_add (send_failed e) = ok []
read_add (replied (some e) out) = err e
read_add (replied none out) = do final ← final_hash [] out; or_no_results final

unfoldable pub add_image : World → Map Bytes → Map Bytes → Result Bytes
add_image w manifest layers =
    read_add (w.ipfs_add (record { blobs = layers; manifests = manifest }))
