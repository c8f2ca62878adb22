-- ===== src/DebSources/Evictions.antt =====
-- evictOnce of cmd/deb-debuginfod/evict.go: which trees it deletes, and what it has forgotten when it
-- asks for that.
use debuginfod_pwndbg_re.Prelude.{
  ℕ, ◌+◌, ◌-◌, ◌≤◌, ◌<◌, Bool, List, [], none, Bytes, map, sum_by, filter, take, drop, All, ◌≡◌,
  ◌⊎◌,
}
use debuginfod_pwndbg_re.DebSources.{Srv, UnpackedTree, Pass}

abbrev size_of : UnpackedTree → ℕ
size_of t = t.bytes

abbrev deletable : (Bytes → Bool) → UnpackedTree → Bool
deletable deletes t = deletes t.key

-- Neither an index nor a use of the tree is left.
pub record IsForgotten (t : UnpackedTree) (s : Srv) : Type 0 where
  pub no_index : s.indexes t.key ≡ none
  pub no_use : s.last_used t.key ≡ none

module _ (deletes : Bytes → Bool) (others : UnpackedTree → Srv → Srv) (total budget : ℕ) where
  -- The pass goes through the first `k` trees: it asks for the deletion of each, forgotten before;
  -- it needed each step, and it stopped for lack of need or of trees.
  pub record Stops (freed : ℕ) (ts : List UnpackedTree) (r : Pass) : Type 0 where
    pub k : ℕ
    pub asked_eq : map (λ a. a.0) r.asked ≡ take k ts
    pub removed_eq : r.removed ≡ filter (deletable deletes) (take k ts)
    pub forgotten : All (λ a. IsForgotten a.0 a.1) r.asked
    pub enough : (total - (freed + sum_by size_of r.removed) ≤ budget) ⊎ (drop k ts ≡ [])
    pub needed :
        (j : ℕ)
        → j < k
        → budget < total - (freed + sum_by size_of (filter (deletable deletes) (take j ts)))
