-- ===== src/Proxy/ClientIp/Tests.antt =====
-- A forged header, a front end on this machine, and a list that fails to refresh.
use debuginfod_pwndbg_re.Prelude.{
  ℕ, ◌+◌, ◌*◌, ◌^◌, true, List, [], ◌∷◌, Option, none, some, Bytes, codes, bytes_eq, ◌≡◌, refl,
  if◌then◌else◌,
}
use debuginfod_pwndbg_re.Proxy.Ranges.{Addr, unmap, Prefix, masked}
use debuginfod_pwndbg_re.Proxy.ClientIp.{
  new_manager, CfipResponse, parse_cidrs, take_response, refresh, refreshes, loopback, is_loopback,
  prefix_contains, any_contains, is_trusted, get_real_ip, get_cf_country,
}
use debuginfod_pwndbg_re.Proxy.ClientIp.Trust.{IsHonest, get_real_ip-IsHonest}

program : Unit {0}
unfolding unmap masked parse_cidrs take_response refresh refreshes loopback is_loopback
    prefix_contains any_contains is_trusted get_real_ip get_cf_country bytes_eq
program = tt

abbrev localhost : Addr
localhost = Addr.v6 (65535 * 2 ^ 32 + 127 * 2 ^ 24 + 1)

abbrev parse_addr : Bytes → Option Addr
parse_addr s = if bytes_eq s (codes "192.0.2.1") then some (Addr.v4 3221225985) else none

believed :
    get_real_ip parse_addr new_manager (some localhost) (codes "192.0.2.1")
    ≡ some (Addr.v4 3221225985)
unfolding program
believed = refl

forged :
    get_real_ip parse_addr new_manager (some (Addr.v4 7)) (codes "192.0.2.1") ≡ some (Addr.v4 7)
unfolding program
forged = refl

get_real_ip-IsHonest_example :
    IsHonest new_manager (Addr.v4 7) parse_addr (codes "192.0.2.1") (codes "PL")
get_real_ip-IsHonest_example =
    get_real_ip-IsHonest new_manager (Addr.v4 7) parse_addr (codes "192.0.2.1") (codes "PL")

abbrev parse : Bytes → Option Prefix
parse s = some (record { is4 = true; bits = 8; addr = 104 * 2 ^ 24 })

abbrev ticks : List (ℕ × Option CfipResponse)
ticks =
    (1, none)
    ∷ (2, some (record { ipv4_cidrs = codes "104.0.0.0/8" ∷ []; ipv6_cidrs = []; success = true }))
    ∷ (3, none)
    ∷ []

from_the_list : is_trusted (refreshes parse ticks new_manager) (Addr.v4 (104 * 2 ^ 24 + 9)) ≡ true
unfolding program
from_the_list = refl
