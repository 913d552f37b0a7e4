-- ===== src/Ipfs/Launch.antt =====
-- ipfs/ipfs.go: RunDaemon and spawnIpfsDaemon, two goroutines that send on one channel, of which the
-- first value counts.
use ipdr.Prelude.{
  ◌++◌, take, All, ◌⊎◌, ◌≡◌, ◌≢◌, Bool, true, false, not, Option, none, some, Result, ok, err, List,
  [], ◌∷◌, Bytes, codes, arith, if◌then◌else◌, ◌==◌,
}
use ipdr.Strings.{trim_space}

-- What pgrep prints, and how `ipfs daemon` ends, if it does: without an error or with one.
pub record Commands : Type 0 where
  pub pgrep : Result Bytes
  pub daemon : Option (Option Bytes)

unfoldable pub is_running : Commands → Bool
is_running c = elim c.pgrep [ err e ↦ false | ok out ↦ not (trim_space out == []) ]

-- What the goroutine of spawnIpfsDaemon sends, in order.
unfoldable pub spawn_sends : Commands → List Bool
spawn_sends c =
    if is_running c
    then true ∷ []
    else elim c.daemon [ none ↦ [] | some none ↦ true ∷ [] | some (some e) ↦ false ∷ [] ]

-- What the goroutine that sleeps for ten seconds sends, where there is one.
unfoldable pub timer_sends : Commands → List Bool
timer_sends c = if is_running c then [] else true ∷ []

-- The values that RunDaemon may receive: the first of each of the two.
unfoldable pub receivable : Commands → List Bool
receivable c = take 1 (spawn_sends c) ++ take 1 (timer_sends c)

unfoldable pub run_daemon : Bool → Option Bytes
run_daemon true = none
run_daemon false = some (codes "failed to start IPFS daemon")

-- RunDaemon always has a value to receive, also where the daemon runs on without an end, and returns
-- nil for each that it may receive; or else IPFS did not run, and its daemon ended with an error.
pub run_daemon-receivable :
    (c : Commands)
    → (receivable c ≢ [])
      × (All (λ v. run_daemon v ≡ none) (receivable c)
          ⊎ ((is_running c ≡ false) × (e : Bytes) × (c.daemon ≡ some (some e))))
unfolding receivable run_daemon spawn_sends timer_sends
run_daemon-receivable c = ground arith
