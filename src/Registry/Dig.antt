-- ===== src/Registry/Dig.antt =====
-- What the endpoint /dig answers.
use ipdr.Prelude.{
  ℕ, ◌≡◌, refl, Bool, some, none, empty, Bool-cases, List-cases, inl, inr, List, [], ◌∷◌, Bytes,
  codes, arith, Map, if◌then◌else◌, ◌==◌,
}
use ipdr.External.{Codecs, World}
use ipdr.Http.{
  Request, get_query, Writer, fresh, set_header, write_header, write_body, status_of, sent_header,
}
use ipdr.Site.{Site, resolve}
use ipdr.Registry.{split_name, parse_bool, print_all, dig_tagged, dig}

print_all-sent :
    (ls : List Bytes) (wr : Writer) (s : ℕ × Map Bytes)
    → wr.sent ≡ some s
    → (print_all ls wr).sent ≡ some s
unfolding print_all write_body
print_all-sent [] wr s h = h
print_all-sent (l ∷ ls) wr s h = print_all-sent ls _ s (ground arith)

-- The status that the query and the resolution lead to.
abbrev pub dig_status : Codecs → World → Site → Request → ℕ
dig_status c w s req =
    let (name, tag) = split_name (get_query req (codes "q")) in
    if name == [] then 400 else elim (resolve c w s name tag) [ [] ↦ 404 | cid ∷ cids ↦ 200 ]

dig_tagged-sent :
    (c : Codecs) (w : World) (site : Site) (short : Bool) (cid tag : Bytes) (wr : Writer)
    (s : ℕ × Map Bytes)
    → wr.sent ≡ some s
    → (dig_tagged c w site short cid tag wr).sent ≡ some s
unfolding dig_tagged write_body
dig_tagged-sent c w site short cid tag wr s h = ground arith

-- The status is sent before any header is set.
dig-sent :
    (c : Codecs) (w : World) (s : Site) (req : Request)
    → (dig c w s req fresh).sent ≡ some (dig_status c w s req, empty)
unfolding dig write_header
dig-sent c w s req =
    let (name, tag) = split_name (get_query req (codes "q")) in
    let short = parse_bool (get_query req (codes "short")) in
    elim (Bool-cases (name == [])) [
      | inl e ↦ ground arith
      | inr e ↦ elim (List-cases (resolve c w s name tag)) [
        | inl n ↦ ground arith
        | inr (cid, cids, f) ↦ ground (
          arith,
          print_all-sent (cid ∷ cids) (write_header 200 fresh) (200, empty) refl,
          dig_tagged-sent c w s short cid tag
              (set_header (codes "X-Docker-Content-ID") cid (write_header 200 fresh)) (200, empty)
              refl,
        )
      ]
    ]

-- /dig answers 400 for a query without a name, 404 where nothing is found and 200 otherwise, and no
-- answer carries the header X-Docker-Content-ID, although the code sets it.
pub dig_answer :
    (c : Codecs) (w : World) (s : Site) (req : Request)
    → (status_of (dig c w s req fresh) ≡ some (dig_status c w s req))
      × (sent_header (dig c w s req fresh) (codes "X-Docker-Content-ID") ≡ none)
dig_answer c w s req = rw dig-sent (refl, refl)
