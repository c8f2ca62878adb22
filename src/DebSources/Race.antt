-- ===== src/DebSources/Race.antt =====
-- cmd/deb-debuginfod: an eviction and requests side by side. The mutex is held for one step at a
-- time, and the calls to the unpacker run without it.
use debuginfod_pwndbg_re.Prelude.{
  ℕ, ◌+◌, ◌-◌, ◌≤◌, ◌<◌, Bool, true, false, not, ◌&&◌, List, [], ◌∷◌, Option, none, Bytes, bytes_eq,
  Member, All, sum_by, leb, ◌≡◌, ◌⊎◌, if◌then◌else◌,
}
use debuginfod_pwndbg_re.SrcIndex.{Tree, new}
use debuginfod_pwndbg_re.DebSources.{Srv, empty_srv, touch, store_index, forget, UnpackedTree}
pub mod Stale

-- The unpacker's volume by keys (the tree that New walks, and its size in the list), the budget, and
-- the order that sort.Slice leaves under the uses.
pub record Setting : Type 0 where
  pub tree_of : Bytes → Tree
  pub size_of : Bytes → ℕ
  pub budget : ℕ
  pub sort : (Bytes → Option ℕ) → List UnpackedTree → List UnpackedTree

-- Where evictOnce stands: `total` and `freed`, and the trees that are left; while it deletes, the
-- tree that it asks the unpacker to delete.
pub data Evictor : Type 0 where
  resting : Evictor
  sweeping : ℕ → ℕ → List UnpackedTree → Evictor
  deleting : ℕ → ℕ → UnpackedTree → List UnpackedTree → Evictor

-- `on_disk` is the volume; `waiting` holds a key for each request that has found no index and waits
-- for the unpacker, and `pending` one for each whose tree the unpacker has returned and whose index
-- is not stored yet.
pub record System : Type 0 where
  pub srv : Srv
  pub on_disk : Bytes → Bool
  pub waiting : List Bytes
  pub pending : List Bytes
  pub evictor : Evictor

abbrev pub start_system : System
start_system = record {
  srv = empty_srv;
  on_disk = λ _. false;
  waiting = [];
  pending = [];
  evictor = resting;
}

-- One of them less.
unfoldable pub remove_one : Bytes → List Bytes → List Bytes
remove_one key [] = []
remove_one key (k ∷ rest) =
    let others = k ∷ remove_one key rest in if bytes_eq key k then rest else others

-- Behind the list of the unpacker: evictOnce rests within the budget, and sorts if over it.
unfoldable pub start_sweep : Setting → (Bytes → Option ℕ) → List UnpackedTree → Evictor
start_sweep env used trees =
    let total = sum_by (λ t. t.bytes) trees in
    if leb total env.budget then resting else sweeping total 0 (env.sort used trees)

-- An entry of the unpacker's list.
abbrev pub IsListed : Setting → System → UnpackedTree → Type 0
IsListed env s t = (s.on_disk t.key ≡ true) × (t.bytes ≡ env.size_of t.key)

pub data Step (env : Setting) : System → System → Type 0 where
  -- a request notes the use of its package
  use_package :
      (now : ℕ) (key : Bytes) (s : System) → Step env s (record s { srv = touch now key s.srv })
  -- indexFor finds no index
  miss :
      (key : Bytes) (s : System)
      → s.srv.indexes key ≡ none
      → Step env s (record s { waiting = key ∷ s.waiting })
  -- the unpacker has the tree, or makes it; or it fails
  unpack :
      (key : Bytes) (s : System)
      → Member key s.waiting
      → Step env s (record s {
        on_disk = λ k. if bytes_eq key k then true else s.on_disk k;
        waiting = remove_one key s.waiting;
        pending = key ∷ s.pending;
      })
  give_up :
      (key : Bytes) (s : System)
      → Member key s.waiting
      → Step env s (record s { waiting = remove_one key s.waiting })
  -- the index of the tree is stored
  index :
      (key : Bytes) (s : System)
      → Member key s.pending
      → Step env s (record s {
        srv = store_index key (new (env.tree_of key ∷ [])) s.srv;
        pending = remove_one key s.pending;
      })
  -- evictOnce lists the trees of the volume and takes the uses
  list :
      (trees : List UnpackedTree) (s : System)
      → s.evictor ≡ resting
      → All (IsListed env s) trees
      → Step env s (record s { evictor = start_sweep env s.srv.last_used trees })
  -- it is over the budget, and forgets the next tree
  drop :
      (total freed : ℕ) (t : UnpackedTree) (rest : List UnpackedTree) (s : System)
      → s.evictor ≡ sweeping total freed (t ∷ rest)
      → env.budget < total - freed
      → Step env s (record s { srv = forget t.key s.srv; evictor = deleting total freed t rest })
  -- deleteTree succeeds or fails
  delete :
      (total freed : ℕ) (t : UnpackedTree) (rest : List UnpackedTree) (deleted : Bool) (s : System)
      → s.evictor ≡ deleting total freed t rest
      → Step env s (record s {
        on_disk = λ k. if bytes_eq t.key k then not deleted && s.on_disk k else s.on_disk k;
        evictor = sweeping total (if deleted then freed + t.bytes else freed) rest;
      })
  -- it is within the budget, or out of trees
  finish :
      (total freed : ℕ) (rest : List UnpackedTree) (s : System)
      → s.evictor ≡ sweeping total freed rest
      → (total - freed ≤ env.budget) ⊎ (rest ≡ [])
      → Step env s (record s { evictor = resting })

pub data Reach (env : Setting) (s : System) : System → Type 0 where
  here : Reach env s s
  next : {t u : System} → Reach env s t → Step env t u → Reach env s u
