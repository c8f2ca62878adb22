-- ===== src/Proxy/Evict/Scope.antt =====
-- What evictOnce (cmd/proxy/filecache.go) may remove.
use debuginfod_pwndbg_re.Prelude.{
  ℕ, zero, suc, ◌+◌, ◌<◌, Bool, true, false, List, [], ◌∷◌, some, Bytes, codes, ltb, leb, All,
  All-append, All-map, Member, ◌++◌, All-all_by, all_by-All, perm-all_by, ◌≡◌, refl, ◌∙◌, inl, inr,
  Option-cases, contains, base, has_suffix, not, if_intro, ltb→lt, sym, subst, ◌-◌, ℤ, pos, negsuc,
}
use mathlib.Core.List.{Perm}
use mathlib.Core.Option.{some-injective}
use debuginfod_pwndbg_re.Proxy.Finder.{since}
use debuginfod_pwndbg_re.Proxy.Evict.{
  CacheFile, Visit, Scan, Eviction, Removals, remove_with, empty_scan, visit_file, walk,
  delete_loop, evict_scanned, evict_once, is_blob_name, cache_fetch_timeout,
}

-- An abandoned download: a temporary file that no download can still be writing.
abbrev pub IsAbandoned : ℕ → CacheFile → Type 0
IsAbandoned now f =
    (contains (base f.path) (codes ".tmp-") ≡ true) × (cache_fetch_timeout < since now f.mod_time)

abbrev pub IsBlob : CacheFile → Type 0
IsBlob f = is_blob_name (base f.path) ≡ true

-- The candidates are blobs, and what is gone already was an abandoned download.
pub record IsOwn (now : ℕ) (scan : Scan) : Type 0 where
  pub candidates : All IsBlob scan.files
  pub abandoned : All (IsAbandoned now) scan.removed

visit_file-IsOwn :
    (remove : Bytes → Bool) (now : ℕ) (f : CacheFile) (scan : Scan)
    → IsOwn now scan
    → IsOwn now (visit_file remove now f scan)
unfolding visit_file
visit_file-IsOwn remove now f scan own =
    if_intro (IsOwn now) (contains (base f.path) (codes ".tmp-"))
      (λ tmp.
        if_intro (IsOwn now) (ltb cache_fetch_timeout (since now f.mod_time))
          (λ old.
            if_intro (IsOwn now) (remove f.path)
              (λ _. record {
                candidates = own.candidates;
                abandoned =
                    All-append (IsAbandoned now) scan.removed (f ∷ []) own.abandoned
                      ((tmp, ltb→lt _ _ old), tt);
              })
              (λ _. own))
          (λ _. record { candidates = own.candidates; abandoned = own.abandoned }))
      (λ _.
        if_intro (IsOwn now) (has_suffix f.path (codes ".meta"))
          (λ _. record { candidates = own.candidates; abandoned = own.abandoned })
          (λ _.
            if_intro (IsOwn now) (not (is_blob_name (base f.path))) (λ _. own)
              (λ blob. record {
                candidates =
                    All-append IsBlob scan.files (f ∷ []) own.candidates
                      (not_false (is_blob_name (base f.path)) blob, tt);
                abandoned = own.abandoned;
              })))
  where
    not_false : (b : Bool) → not b ≡ false → b ≡ true
    not_false true _ = refl
    not_false false h = sym h

walk-IsOwn :
    (remove : Bytes → Bool) (now : ℕ) (visits : List Visit) (scan scan' : Scan)
    → IsOwn now scan
    → walk remove now visits scan ≡ some scan'
    → IsOwn now scan'
unfolding walk
walk-IsOwn remove now [] scan scan' own h = subst (IsOwn now) (some-injective _ _ h) own
walk-IsOwn remove now (Visit.unreadable true _ ∷ rest) scan scan' own h = cc
walk-IsOwn remove now (Visit.unreadable false true ∷ rest) scan scan' own h =
    walk-IsOwn remove now rest scan scan' own h
walk-IsOwn remove now (Visit.unreadable false false ∷ rest) scan scan' own h =
    walk-IsOwn remove now rest _ scan'
      (record { candidates = own.candidates; abandoned = own.abandoned }) h
walk-IsOwn remove now (Visit.directory ∷ rest) scan scan' own h =
    walk-IsOwn remove now rest scan scan' own h
walk-IsOwn remove now (Visit.file f ∷ rest) scan scan' own h =
    walk-IsOwn remove now rest _ scan' (visit_file-IsOwn remove now f scan own) h

pub walk_removed :
    (remove : Bytes → Bool) (now : ℕ) (visits : List Visit) (scan : Scan)
    → walk remove now visits empty_scan ≡ some scan
    → All (λ f. contains (base f.path) (codes ".tmp-") ≡ true) scan.removed
walk_removed remove now visits scan h =
    All-map (λ f a. a.0) scan.removed
      (walk-IsOwn remove now visits empty_scan scan (record { candidates = tt; abandoned = tt })
        h).abandoned

delete_loop-All :
    (P : CacheFile → Type 0) (remove : Bytes → Bool) (total target freed : ℕ)
    (files : List CacheFile)
    → All P files
    → All P (delete_loop remove total target freed files).blobs
unfolding delete_loop remove_with
delete_loop-All P remove total target freed [] _ = tt
delete_loop-All P remove total target freed (f ∷ rest) (p, ps) =
    if_intro (λ (r : Removals). All P r.blobs) (leb (total - freed) target) (λ _. tt)
      (λ _.
        if_intro (λ (r : Removals). All P r.blobs) (remove f.path)
          (λ _. (p, delete_loop-All P remove total target (freed + f.size) rest ps))
          (λ _. delete_loop-All P remove total target freed rest ps))

-- The .meta file of one of some blobs.
abbrev pub IsMetaOf : List CacheFile → Bytes → Type 0
IsMetaOf blobs p = (f : CacheFile) × Member f blobs × (p ≡ f.path ++ codes ".meta")

IsMetaOf-more :
    (f : CacheFile) (blobs : List CacheFile) (metas : List Bytes)
    → All (IsMetaOf blobs) metas
    → All (IsMetaOf (f ∷ blobs)) metas
IsMetaOf-more f blobs metas all = All-map (λ p m. (m.0, inr m.1, m.2)) metas all

delete_loop-metas :
    (remove : Bytes → Bool) (total target freed : ℕ) (files : List CacheFile)
    → let r = delete_loop remove total target freed files in All (IsMetaOf r.blobs) r.metas
unfolding delete_loop remove_with
delete_loop-metas remove total target freed [] = tt
delete_loop-metas remove total target freed (f ∷ rest) =
    let own = λ (r : Removals). All (IsMetaOf r.blobs) r.metas in
    let later = delete_loop remove total target (freed + f.size) rest in
    let more =
      IsMetaOf-more f later.blobs later.metas
        (delete_loop-metas remove total target (freed + f.size) rest) in
    if_intro own (leb (total - freed) target) (λ _. tt)
      (λ _.
        if_intro own (remove f.path)
          (λ _.
            if_intro (All (IsMetaOf (f ∷ later.blobs))) (remove (f.path ++ codes ".meta"))
              (λ _. ((f, inl refl, refl), more)) (λ _. more))
          (λ _. delete_loop-metas remove total target freed rest))

-- What an eviction has removed: blobs, their .meta files, and abandoned downloads.
abbrev pub RemovesOwn : ℕ → Eviction → Type 0
RemovesOwn now e =
    All IsBlob e.removed.blobs
    × All (IsMetaOf e.removed.blobs) e.removed.metas
    × All (IsAbandoned now) e.scan.removed

evict_scanned-RemovesOwn :
    (sort : List CacheFile → List CacheFile)
    → ((files : List CacheFile) → Perm (sort files) files)
    → (remove : Bytes → Bool) (now max_bytes target : ℕ) (scan : Scan) → IsOwn now scan
    → RemovesOwn now (evict_scanned sort remove max_bytes target scan)
unfolding evict_scanned
evict_scanned-RemovesOwn sort perm remove now max_bytes target scan own = (
  if_intro (λ (r : Removals). All IsBlob r.blobs) (leb scan.total max_bytes) (λ _. tt)
      (λ _. delete_loop-All IsBlob remove scan.total target 0 (sort scan.files) (
        all_by-All (λ f. is_blob_name (base f.path)) (sort scan.files)
          (perm-all_by (λ f. is_blob_name (base f.path)) (sort scan.files) scan.files
              (perm scan.files)
            ∙ All-all_by (λ f. is_blob_name (base f.path)) scan.files own.candidates))),
  if_intro (λ (r : Removals). All (IsMetaOf r.blobs) r.metas) (leb scan.total max_bytes) (λ _. tt)
      (λ _. delete_loop-metas remove scan.total target 0 (sort scan.files)),
  own.abandoned,
)

-- Eviction removes nothing but files named like its own blobs, the .meta files beside the blobs
-- that it removed, and temporary files older than any download can last, whatever else the
-- operator's directory holds, for every order that sorting leaves and every outcome of the removals.
pub evict_once-RemovesOwn :
    (sort : List CacheFile → List CacheFile)
    → ((files : List CacheFile) → Perm (sort files) files)
    → (target : ℕ → ℕ) (remove : Bytes → Bool) (now : ℕ) (limit : ℤ) (visits : List Visit)
      (e : Eviction)
    → evict_once sort target remove now limit visits ≡ some e
    → RemovesOwn now e
unfolding evict_once
evict_once-RemovesOwn sort perm target remove now (negsuc _) visits e h =
    subst (RemovesOwn now) (some-injective _ _ h) (tt, tt, tt)
evict_once-RemovesOwn sort perm target remove now (pos zero) visits e h =
    subst (RemovesOwn now) (some-injective _ _ h) (tt, tt, tt)
evict_once-RemovesOwn sort perm target remove now (pos (suc n)) visits e h =
    elim (Option-cases (walk remove now visits empty_scan)) [
      | inl failed ↦ cc (rw (failed, evict_once) at h)
      | inr (scan, walked) ↦
          subst (RemovesOwn now) (some-injective _ _ (rw (walked, evict_once) at h)) (
            evict_scanned-RemovesOwn sort perm remove now (suc n) (target (suc n)) scan (
              walk-IsOwn remove now visits empty_scan scan
                (record { candidates = tt; abandoned = tt }) walked))
    ]
