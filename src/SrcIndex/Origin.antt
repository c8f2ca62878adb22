-- ===== src/SrcIndex/Origin.antt =====
-- Find (srcindex/srcindex.go) answers with files that walking the trees produced.
use debuginfod_pwndbg_re.Prelude.{
  ℕ, suc, true, List, [], ◌∷◌, some, Bytes, bytes_eq, All, All-append, All-Member, Member, ◌≡◌,
  refl, subst, inl, inr, Option-cases, if_intro,
}
use debuginfod_pwndbg_re.SrcIndex.{
  Entry, Index, WalkItem, Tree, reversed_path, add_entry, add_item, add_items, add_tree, add_trees,
  empty_index, new, find,
}
use debuginfod_pwndbg_re.SrcIndex.Best.{find-IsBest}

-- The entry is a regular file of a tree that could be read, under that tree's root.
pub record IsWalked (trees : List Tree) (e : Entry) : Type 0 where
  pub tree : Tree
  pub given : Member tree trees
  pub items : List WalkItem
  pub readable : tree.resolved ≡ some items
  pub item : WalkItem
  pub walked : Member item items
  pub regular : item.regular ≡ true
  pub rel : Bytes
  pub rel_eq : item.rel ≡ some rel
  pub same_root : e.root ≡ tree.root
  pub same_path : e.parts ≡ reversed_path rel

abbrev Holds : (Entry → Type 0) → Index → Type 0
Holds P ix = (key : Bytes) → All P (ix.by_base key)

module _ (P : Entry → Type 0) where
  add_entry-Holds :
      (name : Bytes) (e : Entry) (ix : Index) → P e → Holds P ix → Holds P (add_entry name e ix)
  unfolding add_entry
  add_entry-Holds name e ix p h key =
      if_intro (All P) (bytes_eq name key)
        (λ _. All-append P (ix.by_base key) (e ∷ []) (h key) (p, tt)) (λ _. h key)

  abbrev Adds : Bytes → ℕ → WalkItem → Type 0
  Adds root prio item =
      (rel : Bytes)
      → item.regular ≡ true
      → item.rel ≡ some rel
      → P (record { root = root; parts = reversed_path rel; prio = prio })

  add_item-Holds :
      (root : Bytes) (prio : ℕ) (item : WalkItem) (ix : Index)
      → Adds root prio item
      → Holds P ix
      → Holds P (add_item root prio item ix)
  unfolding add_item
  add_item-Holds root prio item ix p h =
      if_intro (Holds P) item.regular
        (λ r. elim (Option-cases item.rel) [
          | inl absent ↦ simp absent h
          | inr (rel, found) ↦ simp found (add_entry-Holds item.name _ ix (p rel r found) h)
        ])
        (λ _. h)

  add_items-Holds :
      (root : Bytes) (prio : ℕ) (items : List WalkItem) (ix : Index)
      → All (Adds root prio) items
      → Holds P ix
      → Holds P (add_items root prio items ix)
  unfolding add_items
  add_items-Holds root prio [] ix _ h = h
  add_items-Holds root prio (item ∷ rest) ix (p, ps) h =
      add_items-Holds root prio rest _ ps (add_item-Holds root prio item ix p h)

  abbrev AddsTree : Tree → Type 0
  AddsTree tree =
      (items : List WalkItem) (prio : ℕ)
      → tree.resolved ≡ some items
      → All (Adds tree.root prio) items

  add_tree-Holds :
      (prio : ℕ) (tree : Tree) (ix : Index)
      → AddsTree tree
      → Holds P ix
      → Holds P (add_tree prio tree ix)
  unfolding add_tree
  add_tree-Holds prio tree ix p h = elim (Option-cases tree.resolved) [
    | inl absent ↦ rw (absent, add_tree) h
    | inr (items, found) ↦
        rw (found, add_tree) (add_items-Holds tree.root prio items ix (p items prio found) h)
  ]

  add_trees-Holds :
      (prio : ℕ) (trees : List Tree) (ix : Index)
      → All AddsTree trees
      → Holds P ix
      → Holds P (add_trees prio trees ix)
  unfolding add_trees
  add_trees-Holds prio [] ix _ h = h
  add_trees-Holds prio (tree ∷ rest) ix (p, ps) h =
      add_trees-Holds (suc prio) rest _ ps (add_tree-Holds prio tree ix p h)

All-Members : {A : Type 0} (P : A → Type 0) (xs : List A) → ((x : A) → Member x xs → P x) → All P xs
All-Members P [] h = tt
All-Members P (x ∷ xs) h = (h x (inl refl), All-Members P xs (λ y m. h y (inr m)))

new-IsWalked : (trees : List Tree) (key : Bytes) → All (IsWalked trees) ((new trees).by_base key)
unfolding new
new-IsWalked trees =
    add_trees-Holds (IsWalked trees) 0 trees empty_index
      (All-Members (AddsTree (IsWalked trees)) trees (λ tree m items prio readable.
        All-Members (Adds (IsWalked trees) tree.root prio) items (λ item m' rel regular found.
          record {
            tree = tree;
            given = m;
            items = items;
            readable = readable;
            item = item;
            walked = m';
            regular = regular;
            rel = rel;
            rel_eq = found;
            same_root = refl;
            same_path = refl;
          })))
      (λ key. tt)

-- Whatever a request contains, the answer is a regular file that walking one of the given trees
-- produced, under that tree's root: a request cannot name a file outside the trees.
pub find-IsWalked :
    (trees : List Tree) (req_path : Bytes) (e : Entry)
    → find (new trees) req_path ≡ some e
    → IsWalked trees e
unfolding find
find-IsWalked trees req_path e h = go (reversed_path req_path) refl
  where
    go : (want : List Bytes) → reversed_path req_path ≡ want → IsWalked trees e
    go [] w = cc (rw (w, find) at h)
    go (name ∷ dirs) w = elim (find-IsBest (new trees) req_path name dirs w) [
      | inl (nothing, _) ↦ cc
      | inr (b, found, best) ↦
          let same : b ≡ e = cc in
          subst (IsWalked trees) same (
            All-Member (IsWalked trees) b ((new trees).by_base name) (new-IsWalked trees name)
              best.found)
    ]
