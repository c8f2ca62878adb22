-- ===== src/Proxy/Ranges.antt =====
-- cmd/proxy/ghranges.go: the set of GitHub's address ranges, bucketed by the length of the mask,
-- and the tags of a client. netip.ParsePrefix is the argument `parse`. The maps are lists of
-- buckets, one per length, so that neither the order in which Go ranges over a map nor the
-- stability of the sort shows in the sorted buckets.
use debuginfod_pwndbg_re.Prelude.{
  ℕ, ◌-◌, ◌*◌, ◌/◌, ◌%◌, ◌^◌, Bool, true, false, List, [], ◌∷◌, ◌++◌, Option, none, some, Bytes,
  codes, bytes_eq, ltb, leb, ◌==◌, if◌then◌else◌, sort,
}
pub mod Longest
mod Tests

-- netip.Addr, without the zone, which Unmap and Prefix drop.
pub data Addr : Type 0 where
  invalid : Addr
  v4 v6 : ℕ → Addr

-- `::ffff:0:0/96` holds the IPv4 addresses.
unfoldable pub unmap : Addr → Addr
unmap (Addr.v6 n) = if n / 2 ^ 32 == 65535 then Addr.v4 (n % 2 ^ 32) else Addr.v6 n
unmap ip = ip

-- netip.Prefix.
pub record Prefix : Type 0 where
  pub is4 : Bool
  pub bits : ℕ
  pub addr : ℕ

pub record GhPrefix : Type 0 where
  pub prefix : Bytes
  pub service : Bytes

-- The top `bits` of the `width` bits of an address.
unfoldable pub masked : ℕ → ℕ → ℕ → ℕ
masked width bits n = n / 2 ^ (width - bits) * 2 ^ (width - bits)

abbrev pub width_of : Bool → ℕ
width_of true = 32
width_of false = 128

-- lenBucket.
pub record LenBucket : Type 0 where
  pub bits : ℕ
  pub addrs : ℕ → Option Bytes

unfoldable pub put_addr : ℕ → ℕ → Bytes → List LenBucket → List LenBucket
put_addr bits network tag [] =
    record { bits = bits; addrs = λ a. if a == network then some tag else none } ∷ []
put_addr bits network tag (b ∷ rest) =
    let later = b ∷ put_addr bits network tag rest in
    if b.bits == bits
    then record b { addrs = λ a. if a == network then some tag else b.addrs a } ∷ rest
    else later

pub record IpTagSet : Type 0 where
  pub v4 : List LenBucket
  pub v6 : List LenBucket

unfoldable pub put_prefix : Prefix → Bytes → IpTagSet → IpTagSet
put_prefix p tag s =
    let network = masked (width_of p.is4) p.bits p.addr in
    if p.is4
    then record s { v4 = put_addr p.bits network tag s.v4 }
    else record s { v6 = put_addr p.bits network tag s.v6 }

-- The loop over the prefixes.
unfoldable pub put_prefixes : (Bytes → Option Prefix) → List GhPrefix → IpTagSet → IpTagSet
put_prefixes parse [] s = s
put_prefixes parse (p ∷ rest) s = elim (parse p.prefix) [
  | none ↦ put_prefixes parse rest s
  | some prefix ↦ put_prefixes parse rest (put_prefix prefix p.service s)
]

abbrev pub longer : LenBucket → LenBucket → Bool
longer a b = ltb b.bits a.bits

abbrev pub empty_set : IpTagSet
empty_set = record { v4 = []; v6 = [] }

unfoldable pub new_ip_tag_set : (Bytes → Option Prefix) → List GhPrefix → IpTagSet
new_ip_tag_set parse prefixes =
    let by_len = put_prefixes parse prefixes empty_set in
    record { v4 = sort longer by_len.v4; v6 = sort longer by_len.v6 }

-- What one bucket has for an address. A length beyond the address is an error of Prefix.
unfoldable pub bucket_tag : ℕ → ℕ → LenBucket → Option Bytes
bucket_tag width n b = if leb b.bits width then b.addrs (masked width b.bits n) else none

-- The loop over the buckets.
unfoldable pub first_tag : ℕ → ℕ → List LenBucket → Bytes
first_tag width n [] = []
first_tag width n (b ∷ rest) = elim (bucket_tag width n b) [
  | none ↦ first_tag width n rest
  | some tag ↦ tag
]

unfoldable pub lookup_addr : IpTagSet → Addr → Bytes
lookup_addr s Addr.invalid = []
lookup_addr s (Addr.v4 n) = first_tag 32 n s.v4
lookup_addr s (Addr.v6 n) = first_tag 128 n s.v6

-- Lookup, where `none` is a nil set.
unfoldable pub lookup_tag : Option IpTagSet → Addr → Bytes
lookup_tag none ip = []
lookup_tag (some s) ip = lookup_addr s (unmap ip)

-- ghTagsFor.
unfoldable pub gh_tags_for : Option IpTagSet → Addr → List Bytes
gh_tags_for none ip = codes "unclassified" ∷ []
gh_tags_for (some s) ip =
    let tag = lookup_tag (some s) ip in
    if bytes_eq tag [] then codes "direct" ∷ [] else (codes "github_" ++ tag) ∷ []
