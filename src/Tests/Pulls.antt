-- ===== src/Tests/Pulls.antt =====
-- GETs of manifests, sequences of requests, the CID store and the resolvers.
use ipdr.Prelude.{
  ◌≡◌, ◌≢◌, ◌↔◌, All, inl, inr, refl, true, false, none, some, ok, List, [], ◌∷◌, Bytes, codes,
  empty, insert, arith, ◌==◌, ==_iff,
}
use ipdr.Strings.{has_prefix, path_join, clean, join, split, split_n2}
use ipdr.Strings.Laws.Sort.{contains_str, IsSorted, IsDistinct}
use ipdr.External.{Codecs}
use ipdr.Image.{Descriptor}
use ipdr.Http.{Request, fresh, Returns, state_of, status_of, sent_header, panicked}
use ipdr.Cids
use ipdr.Cids.{key, file_path}
use ipdr.Cids.Laws.Log.{Entry, add_all, latest, get-add_all}
use ipdr.Cids.Laws.{get-restart}
use ipdr.Resolver.{Resolver, file, ipfs, resolve_all}
use ipdr.Resolver.Laws.{IsFirst, all_answers, resolve_all-IsFirst_iff, resolve_all-listing}
use ipdr.Site.{compute_digest, resolve, resolve_cid, get_content}
use ipdr.Blobs.Handle.Addressed.{IsAddressed}
use ipdr.Manifests.{Registry, Manifest, manifests_of, fetch, get_manifest}
use ipdr.Manifests.State.{release}
use ipdr.Manifests.Fetch.{fetch_remote, get_handler, learn}
use ipdr.Manifests.Fetch.Lookup.{fetch_again, locked, get_handler_found, get_handler_nil}
use ipdr.Registry.{Config, root, new, dig}
use ipdr.Registry.Answers.{Ends, root-Ends}
use ipdr.Registry.Reach.{start, step, Reach-IsAddressed}
use ipdr.Registry.Dig.{dig_status, dig_answer}
use ipdr.Tests.{image, toy, quiet, gateway, no_cids, site, fresh_registry, pushed, ask}

-- The CID store knows the CID of `a:t`.
abbrev known : Registry
known = record fresh_registry {
  site = record site { cids = record no_cids { cids = insert (codes "a:t") (codes "bafy") empty } };
}

abbrev read : Manifest
read = record { content_type = codes "m"; blob = codes "{}"; digest = codes "sha256:{}" }

abbrev after : Registry
after = learn gateway (codes "a") (codes "t") (codes "bafy") read (record (locked known) {
  manifests = record { manifests = insert (codes "a") empty empty; lock = true };
})

fetched : fetch toy gateway (locked known) (codes "a") (codes "t") ≡ (after, ok read)
unfolding fetch fetch_remote get_manifest get_content compute_digest resolve_cid resolve Cids.get
    Cids.key ◌==◌
fetched = refl

-- A codec that reads a manifest list as an image without a configuration.
abbrev list_codec : Codecs
list_codec = record toy { decode_manifest = λ b. ok (record image { config = none }) }

resolved_after : resolve_cid toy gateway after.site (codes "a") (codes "t") ≡ ok (codes "bafy")
unfolding resolve_cid resolve Cids.get Cids.add Cids.write_cid Cids.key has_prefix ◌==◌
resolved_after = refl

resolved_list :
    resolve_cid list_codec gateway after.site (codes "a") (codes "t") ≡ ok (codes "bafy")
unfolding resolve_cid resolve Cids.get Cids.add Cids.write_cid Cids.key has_prefix ◌==◌
resolved_list = refl

fetch_again_example :
    ((fetch toy quiet after (codes "a") (codes "t")).1 ≡ ok read)
    × ((fetch toy quiet after (codes "a") (codes "t")).0.site ≡ after.site)
    × ((other ref : Bytes)
        → manifests_of (fetch toy quiet after (codes "a") (codes "t")).0 other ref
          ≡ manifests_of after other ref)
fetch_again_example =
    fetch_again toy gateway quiet (locked known) after (codes "a") (codes "t") read fetched

-- The layer of the image.
abbrev layer : Descriptor
layer = record { media_type = codes "l"; size = 1; digest = codes "sha256:l" }

get_handler_found_example :
    Returns
      (λ s wr e.
        (e ≡ none)
        × (status_of wr ≡ some 200)
        × (wr.body ≡ read.blob)
        × (sent_header wr (codes "Docker-Content-Digest") ≡ some read.digest)
        × (sent_header wr (codes "X-Docker-Content-ID") ≡ some (codes "bafy"))
        × (s.manifests.lock ≡ false)
        × (Cids.get s.site.cids (codes "a") (codes "sha256:c") ≡ some (codes "bafy"))
        × All (λ l. Cids.get s.site.cids (codes "a") l.digest ≡ some (codes "bafy")) (layer ∷ []))
      (get_handler toy gateway known (codes "a") (codes "t") fresh)
get_handler_found_example =
    get_handler_found toy gateway known after (codes "a") (codes "t") read (codes "bafy") image refl
      fetched resolved_after refl
      (record { media_type = codes "c"; size = 1; digest = codes "sha256:c" }) (layer ∷ []) refl
      refl

fetched_list : fetch list_codec gateway (locked known) (codes "a") (codes "t") ≡ (after, ok read)
unfolding fetch fetch_remote get_manifest get_content compute_digest resolve_cid resolve Cids.get
    Cids.key ◌==◌
fetched_list = refl

get_handler_nil_example :
    get_handler list_codec gateway known (codes "a") (codes "t") fresh
    ≡ panicked (release after) fresh
get_handler_nil_example =
    get_handler_nil list_codec gateway known after (codes "a") (codes "t") read (codes "bafy")
      (record image { config = none }) refl fetched_list resolved_list refl refl

abbrev config : Config
config = record { ipfs_gateway = codes "http://g"; cid_resolvers = []; cid_store_path = codes "/c" }

abbrev post_blob : Request
post_blob = record (ask (codes "POST") (codes "/v2/a/blobs/uploads/") (codes "l")) {
  query = insert (codes "digest") (codes "sha256:l") empty;
}

abbrev posted : Registry
posted = state_of (root toy quiet (new quiet config empty) post_blob fresh)

Reach-IsAddressed_example : IsAddressed toy posted.blobs
Reach-IsAddressed_example =
    Reach-IsAddressed toy posted (step quiet post_blob fresh (start quiet config empty))

root-Ends_example :
    Ends (root toy quiet pushed (ask (codes "GET") (codes "/v2/a/manifests/t") []) fresh)
root-Ends_example =
    root-Ends toy quiet pushed (ask (codes "GET") (codes "/v2/a/manifests/t") []) fresh (refl, refl)

abbrev query : Request
query = record (ask (codes "GET") (codes "/dig") []) {
  query = insert (codes "q") (codes "a:t") empty;
}

dig_answer_example :
    (status_of (dig toy gateway known.site query fresh)
      ≡ some (dig_status toy gateway known.site query))
    × (sent_header (dig toy gateway known.site query fresh) (codes "X-Docker-Content-ID") ≡ none)
dig_answer_example = dig_answer toy gateway known.site query

differ : (s t : Bytes) → (s == t) ≡ false → s ≢ t
differ s t h e = ground (arith, ==_iff s t)

-- Two tags of one repository, the first one added twice.
abbrev entries : List Entry
entries =
    record { repo = codes "a"; reference = codes "t"; cid = codes "old" }
    ∷ record { repo = codes "a"; reference = codes "u"; cid = codes "other" }
    ∷ record { repo = codes "a"; reference = codes "t"; cid = codes "bafy" }
    ∷ []

other_path :
    file_path (codes "/c") (key (codes "a") (codes "u"))
    ≢ file_path (codes "/c") (key (codes "a") (codes "t"))
unfolding file_path key path_join clean join split split_n2 ◌==◌
other_path = differ _ _ refl

get-add_all_example :
    Cids.get (add_all (λ p. true) no_cids entries) (codes "a") (codes "t")
    ≡ latest entries (codes "a") (codes "t") (Cids.get no_cids (codes "a") (codes "t"))
get-add_all_example =
    get-add_all (λ p. true) entries no_cids (codes "a") (codes "t")
      (omega arith, (omega arith, (omega arith, tt))) (omega arith)
      (inl (refl, refl), (inr other_path, (inl (refl, refl), tt)))

get-restart_example :
    Cids.get
      (Cids.new_cid_store
        (codes "/c")
        (Cids.add (λ p. true) no_cids (codes "a") (codes "t") (codes "bafy")).files)
      (codes "a")
      (codes "t")
    ≡ some (codes "bafy")
unfolding has_prefix
get-restart_example =
    get-restart (λ p. true) no_cids (codes "a") (codes "t") (codes "bafy") (cc) refl refl

abbrev two : List Resolver
two = ipfs (codes "root") ∷ file (codes "/r") ∷ []

resolve_all-listing_example :
    IsSorted (resolve_all gateway two (codes "a") [])
    × IsDistinct (resolve_all gateway two (codes "a") [])
    × ((x : Bytes)
        → contains_str x (resolve_all gateway two (codes "a") [])
          ≡ contains_str x (all_answers gateway two (codes "a")))
resolve_all-listing_example = resolve_all-listing gateway two (codes "a")

resolve_all-IsFirst_iff_example :
    (resolve_all gateway two (codes "a") (codes "t") ≡ codes "bafy" ∷ [])
    ↔ IsFirst gateway two (codes "a") (codes "t") (codes "bafy" ∷ [])
resolve_all-IsFirst_iff_example =
    resolve_all-IsFirst_iff gateway two (codes "a") (codes "t") (codes "bafy") [] (cc)
