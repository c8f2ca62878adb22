-- ===== src/SrcIndex/Tests.antt =====
-- An index over an overlay and a source tree, and the theorems at it.
use debuginfod_pwndbg_re.Prelude.{
  true, List, [], ◌∷◌, none, some, Bytes, codes, bytes_eq, ◌≡◌, refl, ◌⊎◌,
}
use debuginfod_pwndbg_re.SrcIndex.{
  Entry, WalkItem, Tree, reversed_path, add_entry, add_item, add_items, add_tree, add_trees, new,
  common_prefix_len, replaces, choose, find,
}
use debuginfod_pwndbg_re.SrcIndex.Best.{IsBest, find-IsBest}
use debuginfod_pwndbg_re.SrcIndex.Origin.{IsWalked, find-IsWalked}

program : Unit {0}
unfolding bytes_eq reversed_path add_entry add_item add_items add_tree add_trees new
    common_prefix_len replaces choose find
program = tt

abbrev walk_item : Bytes → Bytes → WalkItem
walk_item name rel = record { name = name; regular = true; rel = some rel }

abbrev overlay : Tree
overlay = record {
  root = codes "/overlay";
  resolved = some (walk_item (codes "x.c") (codes "other/x.c") ∷ []);
}

abbrev sources : Tree
sources = record {
  root = codes "/source";
  resolved = some (walk_item (codes "x.c") (codes "glibc-2.42/sysdeps/x.c") ∷ []);
}

abbrev missing : Tree
missing = record { root = codes "/gone"; resolved = none }

abbrev trees : List Tree
trees = overlay ∷ sources ∷ missing ∷ []

abbrev request : Bytes
request = codes "/build/elf/../sysdeps/x.c"

abbrev answer : Entry
answer = record {
  root = codes "/source";
  parts = codes "x.c" ∷ codes "sysdeps" ∷ codes "glibc-2.42" ∷ [];
  prio = 1;
}

cleaned : reversed_path request ≡ codes "x.c" ∷ codes "sysdeps" ∷ codes "build" ∷ []
unfolding program
cleaned = refl

-- The longer match wins, although the overlay comes first.
finds : find (new trees) request ≡ some answer
unfolding program
finds = refl

skips : (new trees).skipped ≡ codes "/gone" ∷ []
unfolding program
skips = refl

find-IsBest_example :
    ((find (new trees) request ≡ none) × ((new trees).by_base (codes "x.c") ≡ []))
    ⊎ ((b : Entry) × (find (new trees) request ≡ some b)
        × IsBest
            (codes "x.c" ∷ codes "sysdeps" ∷ codes "build" ∷ [])
            ((new trees).by_base (codes "x.c"))
            b)
find-IsBest_example =
    find-IsBest (new trees) request (codes "x.c") (codes "sysdeps" ∷ codes "build" ∷ []) cleaned

find-IsWalked_example : IsWalked trees answer
find-IsWalked_example = find-IsWalked trees request answer finds
