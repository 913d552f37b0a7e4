-- ===== src/Http.antt =====
-- Requests, the response writer of net/http, and the errors of server/registry/error.go.
use ipdr.Prelude.{
  ℕ, Option, none, some, [], ◌∷◌, ◌++◌, Bytes, codes, Map, empty, insert, get_or_nil,
}
use ipdr.External.{Codecs}

pub record Request : Type 0 where
  pub method : Bytes
  pub path : Bytes
  pub query : Map Bytes
  pub header : Map Bytes
  pub body : Bytes

-- req.URL.Query().Get(k) and req.Header.Get(k)
abbrev pub get_query : Request → Bytes → Bytes
get_query req k = get_or_nil (req.query k)

abbrev pub get_header : Request → Bytes → Bytes
get_header req k = get_or_nil (req.header k)

-- The headers are sent with the status; what is set later is lost.
pub record Writer : Type 0 where
  pub header : Map Bytes
  pub sent : Option (ℕ × Map Bytes)
  pub body : Bytes

abbrev pub fresh : Writer
fresh = record { header = empty; sent = none; body = [] }

-- resp.Header().Set(k, v)
abbrev pub set_header : Bytes → Bytes → Writer → Writer
set_header k v w = record w { header = insert k v w.header }

-- resp.WriteHeader(n): the first call counts
unfoldable pub write_header : ℕ → Writer → Writer
write_header n w = elim w.sent [ none ↦ record w { sent = some (n, w.header) } | some _ ↦ w ]

-- resp.Write(b)
unfoldable pub write_body : Bytes → Writer → Writer
unfolding write_header
write_body b w = let w' = write_header 200 w in record w' { body = w'.body ++ b }

-- The status and a header that the client receives.
abbrev pub status_of : Writer → Option ℕ
status_of w = elim w.sent [ none ↦ none | some s ↦ some s.0 ]

abbrev pub sent_header : Writer → Bytes → Option Bytes
sent_header w k = elim w.sent [ none ↦ none | some s ↦ s.1 k ]

pub record RegError : Type 0 where
  pub status : ℕ
  pub code : Bytes
  pub message : Bytes

abbrev pub reg_error : ℕ → Bytes → Bytes → Option RegError
reg_error s c m = some (record { status = s; code = c; message = m })

-- regError.Write
unfoldable pub write_error : Codecs → RegError → Writer → Writer
unfolding write_header write_body
write_error c e w =
    write_body
      (codes "{\"errors\":[{\"code\":"
        ++ c.json_string e.code
        ++ codes ",\"message\":"
        ++ c.json_string e.message
        ++ codes "}]}"
        ++ 10 ∷ [])
      (write_header e.status w)

-- How a handler ends: it returns, with an error or none; it panics, and net/http recovers; or it
-- waits for ever for a lock that nobody releases.
pub data Outcome (S : Type 0) : Type 0 where
  returned : S → Writer → Option RegError → Outcome S
  panicked : S → Writer → Outcome S
  blocked : S → Outcome S

abbrev pub state_of : {S : Type 0} → Outcome S → S
state_of (returned s w e) = s
state_of (panicked s w) = s
state_of (blocked s) = s

-- Applies a change of the state to the outcome.
abbrev pub map_state : {S T : Type 0} → (S → T) → Outcome S → Outcome T
map_state f (returned s w e) = returned (f s) w e
map_state f (panicked s w) = panicked (f s) w
map_state f (blocked s) = blocked (f s)

-- The request is answered, and the answer has the property.
abbrev pub Returns : {S : Type 0} → (S → Writer → Option RegError → Type 0) → Outcome S → Type 0
Returns P (returned s w e) = P s w e
Returns P (panicked s w) = ⊥
Returns P (blocked s) = ⊥
