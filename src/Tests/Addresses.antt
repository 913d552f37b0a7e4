-- ===== src/Tests/Addresses.antt =====
-- The addresses of the host.
use ipdr.Prelude.{◌+◌, ◌*◌, ◌^◌, ◌≤◌, ◌<◌, ◌≡◌, ◌⊎◌, ◌↔◌, true, List, [], ◌∷◌, codes}
use ipdr.Netutil.{Ip, v4, v6, is_private_ip, is_private_ip_iff}

is_private_ip_iff_example : (is_private_ip (v4 3232235777) ≡ true) ↔ (
    ((10 * 2 ^ 24 ≤ 3232235777) × (3232235777 < 11 * 2 ^ 24))
    ⊎ (((172 * 2 ^ 24 + 16 * 2 ^ 16 ≤ 3232235777) × (3232235777 < 172 * 2 ^ 24 + 32 * 2 ^ 16))
        ⊎ ((192 * 2 ^ 24 + 168 * 2 ^ 16 ≤ 3232235777)
            × (3232235777 < 192 * 2 ^ 24 + 169 * 2 ^ 16))))
is_private_ip_iff_example = is_private_ip_iff 3232235777

abbrev interfaces : List (List Ip)
interfaces = (v4 2130706433 ∷ []) ∷ (v6 (codes "x") ∷ v4 3232235777 ∷ []) ∷ []
