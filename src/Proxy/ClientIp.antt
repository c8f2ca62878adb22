-- ===== src/Proxy/ClientIp.antt =====
-- cmd/proxy/cfip.go: the address and the country of a client. Both may come from headers, which
-- are believed only from a peer that is Cloudflare or this machine. The parsers of netip are
-- arguments, and addresses carry no zone.
use debuginfod_pwndbg_re.Prelude.{
  ℕ, ◌+◌, ◌*◌, ◌/◌, ◌^◌, Bool, true, false, ◌&&◌, ◌||◌, not, List, [], ◌∷◌, ◌++◌, Option, none,
  some, Bytes, bytes_eq, ltb, leb, ◌==◌, if◌then◌else◌,
}
use debuginfod_pwndbg_re.Proxy.Finder.{hour}
use debuginfod_pwndbg_re.Proxy.Ranges.{Addr, unmap, Prefix, masked, width_of}
pub mod Trust
mod Tests

-- CFIPManager; `none` is the zero time.
pub record CfipManager : Type 0 where
  pub prefixes : List Prefix
  pub last_updated : Option ℕ

abbrev pub new_manager : CfipManager
new_manager = record { prefixes = []; last_updated = none }

-- The decoded answer of Cloudflare's API.
pub record CfipResponse : Type 0 where
  pub ipv4_cidrs : List Bytes
  pub ipv6_cidrs : List Bytes
  pub success : Bool

-- The loop over one list of ranges; what does not parse is skipped.
unfoldable pub parse_cidrs : (Bytes → Option Prefix) → List Bytes → List Prefix
parse_cidrs parse [] = []
parse_cidrs parse (c ∷ rest) = elim (parse c) [
  | none ↦ parse_cidrs parse rest
  | some p ↦ p ∷ parse_cidrs parse rest
]

abbrev pub is_fresh : ℕ → Option ℕ → Bool
is_fresh now none = false
is_fresh now (some t) = ltb now (t + 24 * hour)

unfoldable pub take_response :
    (Bytes → Option Prefix) → ℕ → Option CfipResponse → CfipManager → CfipManager
take_response parse now none m = m
take_response parse now (some r) m =
    if r.success
    then record {
      prefixes = parse_cidrs parse r.ipv4_cidrs ++ parse_cidrs parse r.ipv6_cidrs;
      last_updated = some now;
    }
    else m

-- refresh; `none` is an error of the request, of its status or of the decoding.
unfoldable pub refresh :
    (Bytes → Option Prefix) → ℕ → Option CfipResponse → CfipManager → CfipManager
refresh parse now response m =
    if is_fresh now m.last_updated then m else take_response parse now response m

-- Worker: a refresh at every tick.
unfoldable pub refreshes :
    (Bytes → Option Prefix) → List (ℕ × Option CfipResponse) → CfipManager → CfipManager
refreshes parse [] m = m
refreshes parse ((now, response) ∷ rest) m = refreshes parse rest (refresh parse now response m)

unfoldable pub loopback : Addr → Bool
loopback Addr.invalid = false
loopback (Addr.v4 n) = n / 2 ^ 24 == 127
loopback (Addr.v6 n) = n == 1

-- netip.Addr.IsLoopback, which takes an IPv4-mapped address as the IPv4 one.
unfoldable pub is_loopback : Addr → Bool
is_loopback ip = loopback (unmap ip)

abbrev pub contains_bits : Bool → ℕ → Prefix → Bool
contains_bits is4 n p =
    leb p.bits (width_of is4)
    && (masked (width_of is4) p.bits n == masked (width_of is4) p.bits p.addr)

-- netip.Prefix.Contains, false across the families.
unfoldable pub prefix_contains : Prefix → Addr → Bool
prefix_contains p Addr.invalid = false
prefix_contains p (Addr.v4 n) = p.is4 && contains_bits true n p
prefix_contains p (Addr.v6 n) = not p.is4 && contains_bits false n p

unfoldable pub any_contains : List Prefix → Addr → Bool
any_contains [] ip = false
any_contains (p ∷ rest) ip = prefix_contains p ip || any_contains rest ip

-- IsTrusted
unfoldable pub is_trusted : CfipManager → Addr → Bool
is_trusted m ip = is_loopback ip || any_contains m.prefixes ip

-- getRealIP; `remote` is the parsed RemoteAddr and `header` CF-Connecting-IP.
unfoldable pub get_real_ip : (Bytes → Option Addr) → CfipManager → Option Addr → Bytes → Option Addr
get_real_ip parse_addr m none header = none
get_real_ip parse_addr m (some remote) header =
    let claimed : Option Addr = elim (parse_addr header) [
      | none ↦ some remote
      | some client ↦ some client
    ] in
    if not (bytes_eq header []) && is_trusted m remote then claimed else some remote

-- getCFCountry; `country` is CF-IPCountry.
unfoldable pub get_cf_country : CfipManager → Option Addr → Bytes → Bytes
get_cf_country m none country = []
get_cf_country m (some remote) country = if is_trusted m remote then country else []
