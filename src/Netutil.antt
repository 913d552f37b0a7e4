-- ===== src/Netutil.antt =====
-- netutil/netutil.go: LocalIP and isPrivateIP; the child has ExtractPort.
pub mod Port
use ipdr.Prelude.{
  ℕ, ◌+◌, ◌*◌, ◌-◌, ◌/◌, ◌^◌, ◌≤◌, ◌<◌, ◌≡◌, ◌⊎◌, inl, inr, ◌↔◌, refl, Bool, true, false, ◌||◌,
  Result, ok, err, List, [], ◌∷◌, Bytes, codes, arith, All, eqb, if◌then◌else◌,
}

-- net.IP: an address of version 4 as a number, in either of its forms; any other one; or nil.
pub data Ip : Type 0 where
  v4 : ℕ → Ip
  v6 : Bytes → Ip
  nil : Ip

-- a.b.0.0
abbrev address : ℕ → ℕ → ℕ
address a b = a * 2 ^ 24 + b * 2 ^ 16

-- The network and its number of bits.
abbrev private_blocks : List (ℕ × ℕ)
private_blocks = (address 10 0, 8) ∷ (address 172 16, 12) ∷ (address 192 168, 16) ∷ []

-- IPNet.Contains: the leading bits agree.
unfoldable pub block_contains : ℕ × ℕ → Ip → Bool
block_contains (base, bits) (v4 n) = eqb (n / 2 ^ (32 - bits)) (base / 2 ^ (32 - bits))
block_contains block (v6 b) = false
block_contains block nil = false

unfoldable pub any_contains : List (ℕ × ℕ) → Ip → Bool
any_contains [] ip = false
any_contains (b ∷ bs) ip = block_contains b ip || any_contains bs ip

unfoldable pub is_private_ip : Ip → Bool
unfolding any_contains block_contains
is_private_ip ip = any_contains private_blocks ip

-- The addresses of one interface.
unfoldable pub find_private : List Ip → List Ip
find_private [] = []
find_private (ip ∷ ips) = let rest = find_private ips in if is_private_ip ip then ip ∷ [] else rest

-- The loop over the interfaces, whose addresses may not be there.
unfoldable pub search_interfaces : List (Result (List Ip)) → Result Ip
search_interfaces [] = err (codes "no IP")
search_interfaces (err e ∷ is) = err e
search_interfaces (ok ips ∷ is) =
    let rest = search_interfaces is in elim (find_private ips) [ [] ↦ rest | ip ∷ more ↦ ok ip ]

unfoldable pub local_ip : Result (List (Result (List Ip))) → Result Ip
local_ip (err e) = err e
local_ip (ok is) = search_interfaces is

-- An address of version 4 is private exactly when it lies in one of the three ranges of RFC 1918:
-- 10.0.0.0 to 10.255.255.255, 172.16.0.0 to 172.31.255.255, 192.168.0.0 to 192.168.255.255.
pub is_private_ip_iff :
    (n : ℕ)
    → (is_private_ip (v4 n) ≡ true) ↔ (
        ((10 * 2 ^ 24 ≤ n) × (n < 11 * 2 ^ 24))
        ⊎ (((172 * 2 ^ 24 + 16 * 2 ^ 16 ≤ n) × (n < 172 * 2 ^ 24 + 32 * 2 ^ 16))
            ⊎ ((192 * 2 ^ 24 + 168 * 2 ^ 16 ≤ n) × (n < 192 * 2 ^ 24 + 169 * 2 ^ 16))))
unfolding is_private_ip
is_private_ip_iff n = ground arith

-- No address of the list is private.
abbrev NonePrivate : List Ip → Type 0
NonePrivate = All (λ x. is_private_ip x ≡ false)

find_private-cases :
    (ips : List Ip)
    → ((find_private ips ≡ []) × NonePrivate ips)
      ⊎ ((ip : Ip) × (find_private ips ≡ ip ∷ []) × (is_private_ip ip ≡ true))
unfolding find_private
find_private-cases [] = inl (refl, tt)
find_private-cases (ip ∷ ips) = ground (arith, find_private-cases ips)

-- Every interface tells its addresses.
abbrev all_ok : List (List Ip) → List (Result (List Ip))
all_ok [] = []
all_ok (ips ∷ is) = ok ips ∷ all_ok is

-- Where every interface tells its addresses, LocalIP finds a private address, or no interface has
-- one and it answers with an error.
local_ip-cases :
    (is : List (List Ip))
    → ((ip : Ip) × (local_ip (ok (all_ok is)) ≡ ok ip) × (is_private_ip ip ≡ true))
      ⊎ ((local_ip (ok (all_ok is)) ≡ err (codes "no IP")) × All NonePrivate is)
unfolding local_ip search_interfaces
local_ip-cases [] = inr (refl, tt)
local_ip-cases (ips ∷ is) = ground (arith, find_private-cases ips, local_ip-cases is)
