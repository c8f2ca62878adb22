-- ===== src/Proxy/Evict/Order.antt =====
-- Which blobs evictOnce (cmd/proxy/filecache.go) removes, and how many.
use debuginfod_pwndbg_re.Prelude.{
  ℕ, zero, suc, ◌+◌, ◌-◌, ◌≤◌, ◌<◌, Bool, true, false, List, [], ◌∷◌, Bytes, ltb, leb, All, All-map,
  filter, take, drop, sum_by, IsSorted, ◌≡◌, refl, ◌⊎◌, inl, inr, arith, if_intro, All-drop, map,
  some, codes, contains, base, pos, subst, Option-cases,
}
use mathlib.Core.Option.{some-injective}
use debuginfod_pwndbg_re.Proxy.Evict.{
  CacheFile, Scan, Visit, Eviction, Removals, no_removals, remove_with, meta_path, empty_scan, walk,
  delete_loop, evict_scanned, evict_once,
}
use debuginfod_pwndbg_re.Proxy.Evict.Scope.{walk_removed}

-- `files[i].modTime.Before(files[j].modTime)`
abbrev pub older : CacheFile → CacheFile → Bool
older f g = ltb f.mod_time g.mod_time

abbrev pub removable : (Bytes → Bool) → CacheFile → Bool
removable remove f = remove f.path

-- The loop stops after the first `k` files: it removed those of them that can be removed, it
-- needed each step, and it stopped for lack of need or of files.
pub record Stops (remove : Bytes → Bool) (total target freed : ℕ) (files : List CacheFile)
    (removed : Removals) : Type 0 where
  pub k : ℕ
  pub removed_eq : removed.blobs ≡ filter (removable remove) (take k files)
  pub metas_eq : removed.metas ≡ filter remove (map meta_path removed.blobs)
  pub enough : (total - (freed + sum_by (λ f. f.size) removed.blobs) ≤ target) ⊎ (drop k files ≡ [])
  pub needed :
      (j : ℕ)
      → j < k
      → target < total - (freed + sum_by (λ f. f.size) (filter (removable remove) (take j files)))

module _ (remove : Bytes → Bool) (total target freed : ℕ) (f : CacheFile) (rest : List CacheFile)
    (high : target < total - freed) where
  Stops-gone :
      (removed : Removals)
      → remove f.path ≡ true
      → Stops remove total target (freed + f.size) rest removed
      → Stops remove total target freed (f ∷ rest) (remove_with remove f removed)
  unfolding remove_with
  Stops-gone removed gone r = record {
    k = suc r.k;
    removed_eq = ground (arith, r.removed_eq);
    metas_eq = ground (arith, r.metas_eq);
    enough = elim r.enough [ inl h ↦ inl (omega arith) | inr e ↦ inr e ];
    needed = needed;
  }
    where
      needed :
          (j : ℕ)
          → j < suc r.k
          → target
            < total - (freed + sum_by (λ f. f.size) (filter (removable remove) (take j (f ∷ rest))))
      needed zero h = omega arith
      needed (suc j) h = simp gone (omega (arith, r.needed j (omega arith)))

  Stops-stays :
      (removed : Removals)
      → remove f.path ≡ false
      → Stops remove total target freed rest removed
      → Stops remove total target freed (f ∷ rest) removed
  Stops-stays removed stays r = record {
    k = suc r.k;
    removed_eq = ground (arith, r.removed_eq);
    metas_eq = r.metas_eq;
    enough = r.enough;
    needed = needed;
  }
    where
      needed :
          (j : ℕ)
          → j < suc r.k
          → target
            < total - (freed + sum_by (λ f. f.size) (filter (removable remove) (take j (f ∷ rest))))
      needed zero h = omega arith
      needed (suc j) h = simp stays (r.needed j (omega arith))

pub delete_loop-Stops :
    (remove : Bytes → Bool) (total target freed : ℕ) (files : List CacheFile)
    → Stops remove total target freed files (delete_loop remove total target freed files)
unfolding delete_loop
delete_loop-Stops remove total target freed [] = record {
  k = 0;
  removed_eq = refl;
  metas_eq = refl;
  enough = inr refl;
  needed = λ j h. elim h [ ];
}
delete_loop-Stops remove total target freed (f ∷ rest) =
    if_intro (Stops remove total target freed (f ∷ rest)) (leb (total - freed) target)
      (λ low. record {
        k = 0;
        removed_eq = refl;
        metas_eq = refl;
        enough = inl (ground arith);
        needed = λ j h. elim h [ ];
      })
      (λ high.
        if_intro (Stops remove total target freed (f ∷ rest)) (remove f.path)
          (λ gone.
            Stops-gone remove total target freed f rest (ground arith) _ gone
              (delete_loop-Stops remove total target (freed + f.size) rest))
          (λ stays.
            Stops-stays remove total target freed f rest (ground arith) _ stays
              (delete_loop-Stops remove total target freed rest)))

-- The least recently used go first: no file that is left alone by the loop was used before one
-- that it reached.
IsSorted-split :
    (k : ℕ) (files : List CacheFile)
    → IsSorted older files
    → All (λ f. All (λ g. f.mod_time ≤ g.mod_time) (drop k files)) (take k files)
IsSorted-split zero files s = tt
IsSorted-split (suc k) [] s = tt
IsSorted-split (suc k) (f ∷ rest) (low, s) = (
  All-map (λ g h. ground arith) (drop k rest) (All-drop (λ g. older g f ≡ false) k rest low),
  IsSorted-split k rest s,
)

All-filter :
    (P : CacheFile → Type 0) (p : CacheFile → Bool) (files : List CacheFile)
    → All P files
    → All P (filter p files)
All-filter P p [] _ = tt
All-filter P p (f ∷ rest) (h, hs) =
    if_intro (All P) (p f) (λ _. (h, All-filter P p rest hs)) (λ _. All-filter P p rest hs)

-- What an eviction over the limit does to the scanned files. It goes through them from the least
-- recently used on, and stops after `k` of them.
pub record Evicts (remove : Bytes → Bool) (max_bytes target : ℕ) (sorted : List CacheFile)
    (e : Eviction) : Type 0 where
  pub loop : Stops remove e.scan.total target 0 sorted e.removed
  pub oldest_first :
      All (λ f. All (λ g. f.mod_time ≤ g.mod_time) (drop loop.k sorted)) e.removed.blobs

evict_scanned-Evicts :
    (sort : List CacheFile → List CacheFile)
    → ((files : List CacheFile) → IsSorted older (sort files))
    → (remove : Bytes → Bool) (max_bytes target : ℕ) (scan : Scan)
    → (scan.total ≤ max_bytes
        → (evict_scanned sort remove max_bytes target scan).removed ≡ no_removals)
      × (max_bytes < scan.total
          → Evicts remove max_bytes target
              (sort scan.files)
              (evict_scanned sort remove max_bytes target scan))
unfolding evict_scanned
evict_scanned-Evicts sort sorts remove max_bytes target scan = (
  λ fits. ground arith,
  λ over.
      let loop = delete_loop-Stops remove scan.total target 0 (sort scan.files) in
      let off : leb scan.total max_bytes ≡ false = ground arith in
      simp off (record {
        loop = loop;
        oldest_first = rw loop.removed_eq (
            All-filter _ (removable remove) (take loop.k (sort scan.files))
              (IsSorted-split loop.k (sort scan.files) (sorts scan.files)));
      }),
)

-- An eviction under a positive limit that returns no error, if the sort leaves the files in the order
-- of their last use: its walk of the directory went through,
-- and removed only files with ".tmp-" in their names. If the walk counted no more than the limit, the
-- eviction removes nothing else. If it counted more, the eviction removes the least recently used blobs: it takes them
-- in the order of their last use, goes on while the directory is above the target and only then,
-- skips those that cannot be removed, and no blob that it never reached was used before one that it
-- removed; and with each blob it removes the .meta beside it, if that can be removed.
pub evict_once-Evicts :
    (sort : List CacheFile → List CacheFile)
    → ((files : List CacheFile) → IsSorted older (sort files))
    → (target : ℕ → ℕ) (remove : Bytes → Bool) (now n : ℕ) (visits : List Visit) (e : Eviction)
    → evict_once sort target remove now (pos (suc n)) visits ≡ some e
    → (walk remove now visits empty_scan ≡ some e.scan)
      × All (λ f. contains (base f.path) (codes ".tmp-") ≡ true) e.scan.removed
      × (e.scan.total ≤ suc n → e.removed ≡ no_removals)
      × (suc n < e.scan.total → Evicts remove (suc n) (target (suc n)) (sort e.scan.files) e)
unfolding evict_once
evict_once-Evicts sort sorts target remove now n visits e h =
    elim (Option-cases (walk remove now visits empty_scan)) [
      | inl failed ↦ cc (rw (failed, evict_once) at h)
      | inr (scan, walked) ↦
          let parts = evict_scanned-Evicts sort sorts remove (suc n) (target (suc n)) scan in
          let tmp = walk_removed remove now visits scan walked in
          subst
            (λ (x : Eviction).
              (walk remove now visits empty_scan ≡ some x.scan)
              × All (λ f. contains (base f.path) (codes ".tmp-") ≡ true) x.scan.removed
              × (x.scan.total ≤ suc n → x.removed ≡ no_removals)
              × (suc n < x.scan.total
                  → Evicts remove (suc n) (target (suc n)) (sort x.scan.files) x))
            (some-injective _ _ (rw (walked, evict_once) at h))
            (unfold evict_scanned in (walked, tmp, parts.0, parts.1))
    ]
