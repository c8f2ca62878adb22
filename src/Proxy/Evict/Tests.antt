-- ===== src/Proxy/Evict/Tests.antt =====
-- Runs of evictOnce on a small directory, and its theorems at that directory.
use debuginfod_pwndbg_re.Prelude.{
  ℕ, ◌*◌, ◌/◌, ◌<◌, ◌≤◌, true, false, List, [], ◌∷◌, some, codes, sort, sort-perm, sort-IsSorted,
  insert_sorted, IsSorted, All, ◌≡◌, refl, arith, contains, has_prefix, has_suffix, bytes_eq, base,
  pos,
}
use debuginfod_pwndbg_re.Proxy.Finder.{minute, since}
use debuginfod_pwndbg_re.Proxy.Evict.{
  CacheFile, Visit, Scan, Eviction, empty_scan, no_removals, remove_with, visit_file, walk,
  delete_loop, evict_scanned, evict_once, is_blob_name,
}
use debuginfod_pwndbg_re.Proxy.Evict.Scope.{RemovesOwn, evict_once-RemovesOwn}
use debuginfod_pwndbg_re.Proxy.Evict.Order.{older, Evicts, evict_once-Evicts}

program : Unit {0}
unfolding visit_file walk remove_with delete_loop evict_scanned evict_once is_blob_name sort
    insert_sorted contains has_prefix has_suffix bytes_eq base since
program = tt

abbrev new_blob : CacheFile
new_blob = record {
  path = codes "/c/aa/aa/aaaaaaaaaaaaaaaaaaaaaaaaaaaaaaaaaaaaaaaaaaaaaaaaaaaaaaaaaaaaaaaa";
  size = 50;
  mod_time = 900;
}

abbrev old_blob : CacheFile
old_blob = record {
  path = codes "/c/00/00/000000000000000000000000000000000000000000000000000000000000000b";
  size = 30;
  mod_time = 200;
}

abbrev meta : CacheFile
meta = record {
  path = codes "/c/00/00/000000000000000000000000000000000000000000000000000000000000000b.meta";
  size = 5;
  mod_time = 200;
}

abbrev abandoned : CacheFile
abandoned = record {
  path = codes "/c/cc/cc/cccccccccccccccccccccccccccccccccccccccccccccccccccccccccccccccc.tmp-1";
  size = 70;
  mod_time = 0;
}

abbrev foreign : CacheFile
foreign = record { path = codes "/c/notes.txt"; size = 9; mod_time = 0 }

abbrev visits : List Visit
visits =
    Visit.directory
    ∷ Visit.file foreign
    ∷ Visit.file new_blob
    ∷ Visit.unreadable false true
    ∷ Visit.file abandoned
    ∷ Visit.file old_blob
    ∷ Visit.file meta
    ∷ []

abbrev scanned : Scan
scanned = record {
  files = new_blob ∷ old_blob ∷ [];
  total = 85;
  skipped = 0;
  removed = abandoned ∷ [];
}

abbrev evicted : Eviction
evicted = record {
  scan = scanned;
  removed = record { blobs = old_blob ∷ []; metas = meta.path ∷ [] };
}

abbrev now : ℕ
now = 40 * minute

evicts : evict_once (sort older) (λ n. n * 9 / 10) (λ _. true) now (pos 80) visits ≡ some evicted
unfolding program
evicts = refl

unlimited :
    evict_once (sort older) (λ n. n * 9 / 10) (λ _. true) now (pos 0) visits
    ≡ some (record { scan = empty_scan; removed = no_removals })
unfolding program
unlimited = refl

older-IsSorted : (files : List CacheFile) → IsSorted older (sort older files)
older-IsSorted = sort-IsSorted older (λ f g h. ground arith) (λ f g h p q. ground arith)

evict_once-RemovesOwn_example : RemovesOwn now evicted
evict_once-RemovesOwn_example =
    evict_once-RemovesOwn (sort older) (sort-perm older) (λ n. n * 9 / 10) (λ _. true) now (pos 80)
      visits evicted evicts

evict_once-Evicts_example :
    (walk (λ _. true) now visits empty_scan ≡ some scanned)
    × All (λ f. contains (base f.path) (codes ".tmp-") ≡ true) (abandoned ∷ [])
    × (85 ≤ 80 → evicted.removed ≡ no_removals)
    × (80 < 85 → Evicts (λ _. true) 80 72 (sort older scanned.files) evicted)
evict_once-Evicts_example =
    evict_once-Evicts (sort older) older-IsSorted (λ n. n * 9 / 10) (λ _. true) now 79 visits
      evicted evicts
