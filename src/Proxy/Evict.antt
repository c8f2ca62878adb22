-- ===== src/Proxy/Evict.antt =====
-- cmd/proxy/filecache.go: evictOnce, the walk of the cache directory and the removal of the
-- least recently used blobs, and isBlobName. The outcome of a removal is the argument `remove`,
-- the order that sort.Slice leaves is `sort`, and `target` is the float product of the limit
-- and cacheEvictTarget.
use debuginfod_pwndbg_re.Prelude.{
  ℕ, zero, suc, ◌+◌, ◌-◌, ◌*◌, Bool, true, false, ◌&&◌, ◌||◌, not, List, [], ◌∷◌, ◌++◌, Option,
  none, some, Bytes, codes, ltb, leb, ◌==◌, if◌then◌else◌, length, all_by, contains, has_suffix,
  base, ℤ, pos, negsuc,
}
use debuginfod_pwndbg_re.Proxy.Finder.{minute, since}
pub mod Scope
pub mod Order
mod Tests

abbrev pub cache_fetch_timeout : ℕ
cache_fetch_timeout = 30 * minute

unfoldable pub is_hex : ℕ → Bool
is_hex c = (leb b'0' c && leb c b'9') || (leb b'a' c && leb c b'f')

-- A sha256 in hex.
unfoldable pub is_blob_name : Bytes → Bool
unfolding is_hex
is_blob_name name = length name == 64 && all_by is_hex name

pub record CacheFile : Type 0 where
  pub path : Bytes
  pub size : ℕ
  pub mod_time : ℕ

-- What filepath.Walk hands to the callback.
pub data Visit : Type 0 where
  -- an error, with whether the path is the root and whether os.IsNotExist holds
  unreadable : Bool → Bool → Visit
  directory : Visit
  file : CacheFile → Visit

-- The variables of the walk; `removed` are the abandoned downloads that are gone.
pub record Scan : Type 0 where
  pub files : List CacheFile
  pub total : ℕ
  pub skipped : ℕ
  pub removed : List CacheFile

abbrev pub empty_scan : Scan
empty_scan = record { files = []; total = 0; skipped = 0; removed = [] }

-- The callback, for an entry that is a file.
unfoldable pub visit_file : (Bytes → Bool) → ℕ → CacheFile → Scan → Scan
visit_file remove now f scan =
    if contains (base f.path) (codes ".tmp-")
    then (if ltb cache_fetch_timeout (since now f.mod_time)
        then (if remove f.path then record scan { removed = scan.removed ++ f ∷ [] } else scan)
        else record scan { total = scan.total + f.size })
    else if has_suffix f.path (codes ".meta")
    then record scan { total = scan.total + f.size }
    else if not (is_blob_name (base f.path))
    then scan
    else record scan { files = scan.files ++ f ∷ []; total = scan.total + f.size }

-- The walk; `none` is the error of an unreadable root.
unfoldable pub walk : (Bytes → Bool) → ℕ → List Visit → Scan → Option Scan
walk remove now [] scan = some scan
walk remove now (Visit.unreadable true _ ∷ rest) scan = none
walk remove now (Visit.unreadable false true ∷ rest) scan = walk remove now rest scan
walk remove now (Visit.unreadable false false ∷ rest) scan =
    walk remove now rest (record scan { skipped = scan.skipped + 1 })
walk remove now (Visit.directory ∷ rest) scan = walk remove now rest scan
walk remove now (Visit.file f ∷ rest) scan = walk remove now rest (visit_file remove now f scan)

-- `f.path + ".meta"`
abbrev pub meta_path : CacheFile → Bytes
meta_path f = f.path ++ codes ".meta"

-- The blobs that are gone, and the .meta files that went with them.
pub record Removals : Type 0 where
  pub blobs : List CacheFile
  pub metas : List Bytes

abbrev pub no_removals : Removals
no_removals = record { blobs = []; metas = [] }

-- Behind the removal of a blob, that of its .meta, whose error is dropped.
unfoldable pub remove_with : (Bytes → Bool) → CacheFile → Removals → Removals
remove_with remove f r = record {
  blobs = f ∷ r.blobs;
  metas = if remove (meta_path f) then meta_path f ∷ r.metas else r.metas;
}

-- The loop over the sorted files: what it removes when `freed` bytes are already gone.
unfoldable pub delete_loop : (Bytes → Bool) → ℕ → ℕ → ℕ → List CacheFile → Removals
delete_loop remove total target freed [] = no_removals
delete_loop remove total target freed (f ∷ rest) =
    let failed = delete_loop remove total target freed rest in
    let done = remove_with remove f (delete_loop remove total target (freed + f.size) rest) in
    if leb (total - freed) target then no_removals else if remove f.path then done else failed

pub record Eviction : Type 0 where
  pub scan : Scan
  pub removed : Removals

-- Behind the walk.
unfoldable pub evict_scanned :
    (List CacheFile → List CacheFile) → (Bytes → Bool) → ℕ → ℕ → Scan → Eviction
evict_scanned sort remove max_bytes target scan =
    let oldest = delete_loop remove scan.total target 0 (sort scan.files) in
    record { scan = scan; removed = if leb scan.total max_bytes then no_removals else oldest }

-- `none` is an error, and a limit that is not positive disables the eviction.
unfoldable pub evict_once :
    (List CacheFile → List CacheFile)
    → (ℕ → ℕ)
    → (Bytes → Bool)
    → ℕ
    → ℤ
    → List Visit
    → Option Eviction
evict_once sort target remove now (negsuc _) visits =
    some (record { scan = empty_scan; removed = no_removals })
evict_once sort target remove now (pos zero) visits =
    some (record { scan = empty_scan; removed = no_removals })
evict_once sort target remove now (pos (suc n)) visits = elim (walk remove now visits empty_scan) [
  | none ↦ none
  | some scan ↦ some (evict_scanned sort remove (suc n) (target (suc n)) scan)
]
