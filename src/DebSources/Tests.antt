-- ===== src/DebSources/Tests.antt =====
-- Headers of debuginfod.debian.net, a full volume, and an index that outlives its tree.
use debuginfod_pwndbg_re.Prelude.{
  ℕ, true, false, List, [], ◌∷◌, Option, none, some, Bytes, codes, bytes_eq, has_prefix, has_suffix,
  drop_leading, sort, sort-perm, insert_sorted, arith, ◌≡◌, refl,
}
use debuginfod_pwndbg_re.SrcIndex.{
  Entry, Index, WalkItem, add_entry, add_item, add_items, add_tree, add_trees, new, split,
  clean_step, clean_parts, reversed_path, common_prefix_len, replaces, choose, find,
}
use debuginfod_pwndbg_re.DebSources.{
  PkgRef, strip_bin_nmu, index_of, last_index_of, version_of, parse_file, parse_archive, ask_debian,
  resolve_package, package_key, empty_srv, touch, store_index, forget, index_for, source_status,
  handle_source, UnpackedTree, Srv, evict_loop, evict_trees, used_before, bytes_lt,
}
use debuginfod_pwndbg_re.DebSources.Race.{Setting, System, start_system, Reach}
use debuginfod_pwndbg_re.DebSources.Race.Stale.{IsStale, stale_forever, IsStale-reachable}

program : Unit {0}
unfolding strip_bin_nmu index_of last_index_of version_of parse_file parse_archive ask_debian
    resolve_package package_key touch store_index forget index_for source_status handle_source
    evict_loop evict_trees used_before bytes_lt bytes_eq has_prefix has_suffix drop_leading sort
    insert_sorted split clean_step clean_parts reversed_path common_prefix_len replaces choose find
    add_entry add_item add_items add_tree add_trees new
program = tt

abbrev glibc : PkgRef
glibc = record {
  source = codes "glibc";
  version = codes "2.41-12+deb13u3";
  component = codes "main";
}

libc6 :
    parse_archive
      (codes "/srv/mirror/debian-debug/dbg-main/g/glibc/libc6-dbg_2.41-12+deb13u3_amd64.deb")
    ≡ some glibc
unfolding program
libc6 = refl

rebuilt :
    parse_archive (codes "x/dbg-main/g/glibc/libc6-dbg_2.41-12+deb13u3+b11_amd64.deb/") ≡ some glibc
unfolding program
rebuilt = refl

not_a_deb : parse_archive (codes "a/main/g/glibc/libc6_2.41_amd64.rpm") ≡ none
unfolding program
not_a_deb = refl

no_version : parse_archive (codes "a/main/g/glibc/libc6_2.41.deb") ≡ none
unfolding program
no_version = refl

abbrev trees : List UnpackedTree
trees =
    record { key = codes "a"; bytes = 60; modified = 5 }
    ∷ record { key = codes "b"; bytes = 30; modified = 2 }
    ∷ []

abbrev by_time : (Bytes → Option ℕ) → List UnpackedTree → List UnpackedTree
by_time used = sort (used_before used)

-- A request uses the tree "a" while the unpacker deletes.
abbrev busy : UnpackedTree → Srv → Srv
busy t s = touch 9 (codes "a") s

abbrev quiet : Srv → Srv
quiet s = s

oldest_goes :
    (evict_trees by_time (λ _. true) busy quiet 70 (some trees) empty_srv).removed
    ≡ record { key = codes "b"; bytes = 30; modified = 2 } ∷ []
unfolding program
oldest_goes = refl

abbrev rtld : Entry
rtld = record { root = codes "/src/glibc"; parts = codes "rtld.c" ∷ codes "elf" ∷ []; prio = 0 }

-- The tree of glibc holds one file.
abbrev rtld_item : WalkItem
rtld_item = record { name = codes "rtld.c"; regular = true; rel = some (codes "elf/rtld.c") }

abbrev setting : Setting
setting = record {
  tree_of = λ key. record { root = codes "/src/glibc"; resolved = some (rtld_item ∷ []) };
  size_of = λ key. 90;
  budget = 70;
  sort = by_time;
}

by_time_single : (used : Bytes → Option ℕ) (t : UnpackedTree) → by_time used (t ∷ []) ≡ t ∷ []
unfolding sort insert_sorted
by_time_single used t = refl

abbrev glibc_index : Index
glibc_index = new (setting.tree_of (package_key glibc) ∷ [])

finds : find glibc_index (codes "/build/elf/rtld.c") ≡ some rtld
unfolding program
finds = refl

IsStale-reachable_example :
    (s : System) × Reach setting start_system s × IsStale (package_key glibc) glibc_index s
IsStale-reachable_example =
    IsStale-reachable setting (package_key glibc) by_time_single (omega arith)

abbrev stale_system : System
stale_system = IsStale-reachable_example.0

stale_forever_example :
    (stale_system.on_disk (package_key glibc) ≡ false)
    × (handle_source 9 (some glibc) none (λ _. false) (codes "/build/elf/rtld.c") stale_system.srv
        ≡ (502, touch 9 (package_key glibc) stale_system.srv))
stale_forever_example =
    stale_forever setting (λ used. sort-perm (used_before used)) glibc glibc_index stale_system
      stale_system IsStale-reachable_example.2 Reach.here 9 none (λ _. false)
      (codes "/build/elf/rtld.c") rtld finds (λ h. absurd (cc))
