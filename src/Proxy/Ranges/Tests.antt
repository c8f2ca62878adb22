-- ===== src/Proxy/Ranges/Tests.antt =====
-- Nested ranges, and the lookup at an IPv4-mapped address.
use debuginfod_pwndbg_re.Prelude.{
  ◌+◌, ◌*◌, ◌^◌, true, List, [], ◌∷◌, Option, none, some, Bytes, codes, bytes_eq, if◌then◌else◌,
  sort, insert_sorted, ◌≡◌, refl,
}
use debuginfod_pwndbg_re.Proxy.Ranges.{
  Addr, unmap, Prefix, GhPrefix, masked, put_addr, IpTagSet, put_prefix, put_prefixes,
  new_ip_tag_set, bucket_tag, first_tag, lookup_addr, lookup_tag, gh_tags_for,
}
use debuginfod_pwndbg_re.Proxy.Ranges.Longest.{scan_prefixes, scan_addr, lookup_tag-scan}

program : Unit {0}
unfolding unmap masked put_addr put_prefix put_prefixes new_ip_tag_set bucket_tag first_tag
    lookup_addr lookup_tag gh_tags_for scan_prefixes sort insert_sorted bytes_eq
program = tt

parse_prefix : Bytes → Option Prefix
parse_prefix s =
    if bytes_eq s (codes "10.0.0.0/8")
    then some (record { is4 = true; bits = 8; addr = 10 * 2 ^ 24 })
    else if bytes_eq s (codes "10.1.0.0/16")
    then some (record { is4 = true; bits = 16; addr = 10 * 2 ^ 24 + 2 ^ 16 })
    else none

abbrev listed : List GhPrefix
listed =
    record { prefix = codes "10.1.0.0/16"; service = codes "actions" }
    ∷ record { prefix = codes "bad"; service = codes "web" }
    ∷ record { prefix = codes "10.0.0.0/8"; service = codes "hooks" }
    ∷ []

-- ::ffff:10.1.0.5
abbrev mapped : Addr
mapped = Addr.v6 (65535 * 2 ^ 32 + 10 * 2 ^ 24 + 2 ^ 16 + 5)

abbrev tags : IpTagSet
tags = new_ip_tag_set parse_prefix listed

longest_wins : gh_tags_for (some tags) mapped ≡ codes "github_actions" ∷ []
unfolding program parse_prefix
longest_wins = refl

outer : gh_tags_for (some tags) (Addr.v4 (10 * 2 ^ 24 + 7)) ≡ codes "github_hooks" ∷ []
unfolding program parse_prefix
outer = refl

direct : gh_tags_for (some tags) (Addr.v4 5) ≡ codes "direct" ∷ []
unfolding program parse_prefix
direct = refl

not_loaded : gh_tags_for none mapped ≡ codes "unclassified" ∷ []
unfolding program
not_loaded = refl

lookup_tag-scan_example :
    lookup_tag (some (new_ip_tag_set parse_prefix listed)) mapped
    ≡ scan_addr parse_prefix listed (unmap mapped)
lookup_tag-scan_example = lookup_tag-scan parse_prefix listed mapped
