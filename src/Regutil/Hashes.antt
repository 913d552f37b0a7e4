-- ===== src/Regutil/Hashes.antt =====
-- The two conversions of hashes undo each other.
use ipdr.Prelude.{ℕ, ◌%◌, ◌≡◌, ◌≢◌, refl, [], ◌∷◌, ◌++◌, Bytes, codes, arith, All, length}
use ipdr.Strings.{to_upper, to_lower}
use ipdr.External.{Codecs}
use ipdr.Base32.{letter, encode}
use ipdr.Base32.RoundTrip.{IsByte, IsLetter, encode-IsLetter, decode_string-encode}
use ipdr.Regutil.{hash_of, drop_last, dockerize_hash, ipfsify_hash}

to_upper-to_lower : (s : Bytes) → All IsLetter s → to_upper (to_lower s) ≡ s
unfolding to_upper to_lower
to_upper-to_lower [] h = refl
to_upper-to_lower (x ∷ s) (h, hs) = ground (arith, to_upper-to_lower s hs)

drop_last-All : (s : Bytes) → All IsLetter s → All IsLetter (drop_last s)
unfolding drop_last
drop_last-All [] h = tt
drop_last-All (x ∷ []) h = tt
drop_last-All (x ∷ y ∷ s) (h, hs) = (h, drop_last-All (y ∷ s) hs)

drop_last-cons : (x : ℕ) (s : Bytes) → s ≢ [] → drop_last (x ∷ s) ≡ x ∷ drop_last s
unfolding drop_last
drop_last-cons x [] h = absurd (h refl)
drop_last-cons x (y ∷ s) h = refl

encode-ne-nil : (x : ℕ) (s : Bytes) → encode (x ∷ s) ≢ []
unfolding encode
encode-ne-nil a [] = cc
encode-ne-nil a (b ∷ []) = cc
encode-ne-nil a (b ∷ c ∷ []) = cc
encode-ne-nil a (b ∷ c ∷ d ∷ []) = cc
encode-ne-nil a (b ∷ c ∷ d ∷ e ∷ s) = cc

-- Bytes that leave a last group unfilled are encoded with a pad at the end.
drop_last-encode : (b : Bytes) → length b % 5 ≢ 0 → drop_last (encode b) ++ codes "=" ≡ encode b
unfolding drop_last encode
drop_last-encode [] h = absurd (h refl)
drop_last-encode (a ∷ []) h = refl
drop_last-encode (a ∷ b ∷ []) h = refl
drop_last-encode (a ∷ b ∷ c ∷ []) h = refl
drop_last-encode (a ∷ b ∷ c ∷ d ∷ []) h = refl
drop_last-encode (a ∷ b ∷ c ∷ d ∷ e ∷ []) h = absurd (h refl)
drop_last-encode (a ∷ b ∷ c ∷ d ∷ e ∷ f ∷ s) h =
    rw
      (
        drop_last-cons (letter (e % 32)) (encode (f ∷ s)) (encode-ne-nil f s),
        drop_last-encode (f ∷ s) (omega arith),
      )
      refl

-- A hash that Docker can take as a name is turned back into the hash that it was made of, if the
-- hash is printed as it is read, its bytes leave a last group of five unfilled, as the 34 of a
-- SHA-256 multihash do, and it stands alone or behind "/ipfs/".
pub ipfsify_hash-dockerize_hash :
    (c : Codecs) (text hash : Bytes)
    → hash_of text ≡ hash
    → All IsByte (c.base58_decode hash)
    → length (c.base58_decode hash) % 5 ≢ 0
    → c.base58_encode (c.base58_decode hash) ≡ hash
    → ipfsify_hash c (dockerize_hash c text) ≡ hash
unfolding ipfsify_hash dockerize_hash
ipfsify_hash-dockerize_hash c text hash read bytes unfilled printed =
    let b = c.base58_decode hash in
    rw
      (
        read,
        to_upper-to_lower (drop_last (encode b))
            (drop_last-All (encode b) (encode-IsLetter b bytes)),
        drop_last-encode b unfilled,
        decode_string-encode b bytes,
      )
      printed
