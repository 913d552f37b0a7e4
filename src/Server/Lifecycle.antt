-- ===== src/Server/Lifecycle.antt =====
-- What becomes of a server that is started and stopped, as a machine of five phases.
use ipdr.Prelude.{
  ◌≡◌, ◌≢◌, refl, ◌⊎◌, inl, true, false, Option, none, some, List, [], ◌∷◌, Bytes, codes, arith,
  ◌==◌, ==_ne, ap, ◌∙◌,
}
use ipdr.Ipfs.Client.{Client, new_remote_client}
use ipdr.Server.{
  listening, closed, Server, Machine, Process, first_process, is_registered, register, Started,
  already, panicked, exited, refused, unserved, serving, serve, listen_on, register_root, start,
  stop,
}

pub data Operation : Type 0 where
  starts : Machine → Operation
  stops : Operation

-- A panic and log.Fatal end the program.
abbrev after : Started × (Process × Server) → Option (Process × Server)
after (panicked, s) = none
after (exited, s) = none
after (already, s) = some s
after (refused e, s) = some s
after (unserved e, s) = some s
after (serving tls, s) = some s

-- The program's state after an operation, `none` where it has ended.
unfoldable pub perform : Operation → Option (Process × Server) → Option (Process × Server)
perform op none = none
perform (starts m) (some (p, s)) = after (start m p s)
perform stops (some (p, s)) = some (p, stop s)

unfoldable pub perform_all : List Operation → Option (Process × Server) → Option (Process × Server)
unfolding perform
perform_all [] s = s
perform_all (op ∷ ops) s = perform_all ops (perform op s)

pub data Phase : Type 0 where
  idle : Phase
  listens : Phase
  stopped : Phase
  broken : Phase
  ended : Phase

-- The first start of a server that has neither been started nor stopped.
abbrev first_start : Machine → Bytes → Bytes → Bytes → Phase
first_start m host ipfs_host gateway =
    elim (new_remote_client m.host (some (record { host = ipfs_host; gateway_url = gateway }))) [
      | none ↦ ended
      | some c ↦ elim (m.listen host) [ none ↦ listens | some e ↦ broken ]
    ]

-- The machine: a server listens at most once, and where net.Listen failed at its first start, the
-- second one ends the program. A server whose certificate cannot be read listens without serving.
unfoldable pub next : Server → Operation → Phase → Phase
next s (starts m) idle = first_start m s.host s.ipfs_host s.ipfs_gateway
next s (starts m) listens = listens
next s (starts m) stopped = stopped
next s (starts m) broken = ended
next s (starts m) ended = ended
next s stops idle = idle
next s stops listens = stopped
next s stops stopped = stopped
next s stops broken = broken
next s stops ended = ended

unfoldable pub next_all : Server → List Operation → Phase → Phase
unfolding next
next_all s [] phase = phase
next_all s (op ∷ ops) phase = next_all s ops (next s op phase)

-- The phase that a state shows.
unfoldable pub phase_of : Option (Process × Server) → Phase
phase_of none = ended
phase_of (some (p, s)) = elim s.listener [
  | some listening ↦ listens
  | some closed ↦ stopped
  | none ↦ elim (is_registered (codes "/health") p.patterns) [ true ↦ broken | false ↦ idle ]
]

-- The addresses do not change, and "/" is registered with "/health" only.
abbrev Agrees : Server → Option (Process × Server) → Type 0
Agrees s₀ none = Unit
Agrees s₀ (some (p, s)) =
    (s.host ≡ s₀.host)
    × (s.ipfs_host ≡ s₀.ipfs_host)
    × (s.ipfs_gateway ≡ s₀.ipfs_gateway)
    × ((p.patterns ≡ []) ⊎ (is_registered (codes "/health") p.patterns ≡ true))

perform-Agrees :
    (s₀ : Server) (op : Operation) (s : Option (Process × Server))
    → Agrees s₀ s
    → Agrees s₀ (perform op s)
unfolding perform start register_root register listen_on serve stop is_registered ◌==◌
perform-Agrees s₀ op none h = tt
perform-Agrees s₀ stops (some (p, s)) h = ground arith
perform-Agrees s₀ (starts m) (some (p, s)) h = ground arith

phase_of-perform :
    (s₀ : Server) (op : Operation) (s : Option (Process × Server))
    → Agrees s₀ s
    → phase_of (perform op s) ≡ next s₀ op (phase_of s)
unfolding perform phase_of next start register_root register listen_on serve stop is_registered ◌==◌
phase_of-perform s₀ (starts m) none h = refl
phase_of-perform s₀ stops none h = refl
phase_of-perform s₀ stops (some (p, s)) h = ground arith
phase_of-perform s₀ (starts m) (some (p, s)) h = ground arith

perform_all-Agrees :
    (s₀ : Server) (ops : List Operation) (s : Option (Process × Server))
    → Agrees s₀ s
    → phase_of (perform_all ops s) ≡ next_all s₀ ops (phase_of s)
unfolding perform_all next_all
perform_all-Agrees s₀ [] s h = refl
perform_all-Agrees s₀ (op ∷ ops) s h =
    perform_all-Agrees s₀ ops (perform op s) (perform-Agrees s₀ op s h)
    ∙ ap (next_all s₀ ops) (phase_of-perform s₀ op s h)

-- The server refines the machine of the phases: after any starts and stops, from a server without a
-- listener in a program without patterns, each start with a host and a net.Listen of its own, the
-- state shows the phase that the machine has reached. So a stopped server never listens again.
pub perform_all-refines :
    (s : Server) (ops : List Operation)
    → s.listener ≡ none
    → phase_of (perform_all ops (some (first_process, s))) ≡ next_all s ops idle
unfolding phase_of is_registered
perform_all-refines s ops h =
    perform_all-Agrees s ops (some (first_process, s)) (refl, refl, refl, inl refl)
    ∙ ap (next_all s ops) (ground arith)

-- After the start of a server without a listener, unless that ends the program by log.Fatal, the
-- start of any server without a listener panics, whatever it meets: the patterns are registered once
-- in a program.
pub start-second :
    (m m' : Machine) (p : Process) (s s' : Server)
    → s.listener ≡ none
    → s'.listener ≡ none
    → (start m p s).0 ≢ exited
    → (start m' (start m p s).1.0 s').0 ≡ panicked
unfolding start register_root register listen_on serve is_registered ◌==◌
start-second m m' p s s' h h' e = ground arith

-- The program goes on, and a start of the server returns nil at once and changes nothing.
abbrev pub IsIdle : Process → Option (Process × Server) → Type 0
IsIdle p state =
    (s : Server) × (state ≡ some (p, s)) × ((m : Machine) → start m p s ≡ (already, (p, s)))

perform_all-IsIdle :
    (ops : List Operation) (p : Process) (s : Server)
    → s.listener ≢ none
    → IsIdle p (perform_all ops (some (p, s)))
unfolding perform_all perform start stop
perform_all-IsIdle [] p s h = (s, refl, λ m. ground arith)
perform_all-IsIdle (starts m ∷ ops) p s h =
    let out : after (start m p s) ≡ some (p, s) = ground arith in
    rw out (perform_all-IsIdle ops p s h)
perform_all-IsIdle (stops ∷ ops) p s h = perform_all-IsIdle ops p (stop s) (ground arith)

module _ (m : Machine) (p : Process) (s : Server) (e : Bytes) (client : Client)
    (unset : s.listener ≡ none) (clean : p.patterns ≡ [])
    (made : new_remote_client m.host
        (some (record { host = s.ipfs_host; gateway_url = s.ipfs_gateway }))
      ≡ some client)
    (takes : m.listen s.host ≡ none) (key_given : s.tls_key_path ≢ [])
    (cert_given : s.tls_cert_path ≢ [])
    (unread : m.load_key_pair s.tls_cert_path s.tls_key_path ≡ some e) where
  start_fails : ((start m p s).0 ≡ unserved e) × ((start m p s).1.1.listener ≡ some listening)
  unfolding start register_root register listen_on serve is_registered ◌==◌
  start_fails =
      ground (arith, ==_ne s.tls_key_path [] key_given, ==_ne s.tls_cert_path [] cert_given)

  -- The first start of a program, of a server without a listener and with both TLS paths, where the
  -- registry's IPFS client can be made and net.Listen takes the host, but the certificate cannot be
  -- read: it returns that error with the listener open, and after any starts and stops that follow,
  -- whatever they meet, each start returns nil at once and changes nothing.
  pub start-unserved :
      ((start m p s).0 ≡ unserved e)
      × ((start m p s).1.1.listener ≡ some listening)
      × ((ops : List Operation) → IsIdle (start m p s).1.0 (perform_all ops (some (start m p s).1)))
  start-unserved =
      let (failed, left_open) = start_fails in
      (
        failed,
        left_open,
        λ ops. perform_all-IsIdle ops (start m p s).1.0 (start m p s).1.1 (ground arith),
      )
