-- ===== src/NixStore.antt =====
-- cmd/nix-debuginfod/store.go: the lazy resolution of paths that lead into the nix store. A store
-- path is mounted at its canonical place when something first needs it. The kernel, the fetcher
-- and mkfs.erofs answer through the record `World`; strings.ToLower is the argument `to_lower`.
use debuginfod_pwndbg_re.Prelude.{
  ℕ, zero, suc, Bool, true, false, ◌&&◌, ◌||◌, List, [], ◌∷◌, ◌++◌, Option, none, some, Bytes,
  codes, bytes_eq, length, all_by, ◌==◌, if◌then◌else◌,
}
use mathlib.Core.List.{reverse}
use debuginfod_pwndbg_re.SrcIndex.{reversed_path}
pub mod Paths
pub mod Opening
pub mod Images
mod Tests

abbrev pub max_resolve_hops : ℕ
max_resolve_hops = 16

abbrev pub max_resolve_steps : ℕ
max_resolve_steps = 256

-- strings.ContainsRune for a byte.
unfoldable pub has_byte : ℕ → Bytes → Bool
has_byte c [] = false
has_byte c (b ∷ s) = c == b || has_byte c s

abbrev pub nix_base32 : Bytes
nix_base32 = codes "0123456789abcdfghijklmnpqrsvwxyz"

unfoldable pub is_store_hash : Bytes → Bool
unfolding has_byte
is_store_hash h = length h == 32 && all_by (λ c. has_byte c nix_base32) h

-- strings.CutPrefix
unfoldable pub cut_prefix : Bytes → Bytes → Option Bytes
cut_prefix s [] = some s
cut_prefix [] (c ∷ p) = none
cut_prefix (b ∷ s) (c ∷ p) = elim (b == c) [ true ↦ cut_prefix s p | false ↦ none ]

-- strings.Cut at a byte: what stands before it, and what stands behind it if it is there.
abbrev before_byte : ℕ → Bytes × Option Bytes → Bytes × Option Bytes
before_byte b r = (b ∷ r.0, r.1)

unfoldable pub cut : ℕ → Bytes → Bytes × Option Bytes
cut sep [] = ([], none)
cut sep (b ∷ s) = let rest = before_byte b (cut sep s) in if b == sep then ([], some s) else rest

abbrev pub or_empty : Option Bytes → Bytes
or_empty none = []
or_empty (some s) = s

-- `filepath.Join(s.mountRoot, hash+"-"+pkg)`, where the mount root is clean.
unfoldable pub store_path : Bytes → Bytes → Bytes → Bytes
store_path root hash pkg = root ++ b'/' ∷ (hash ++ b'-' ∷ pkg)

-- splitStorePath; `none` is the pair of empty texts.
unfoldable pub split_name :
    (Bytes → Bytes) → Bytes → Bytes × Option Bytes → Bytes → Option (Bytes × Bytes)
split_name to_lower root (hash, none) rest = none
split_name to_lower root (hash, some pkg) rest =
    if is_store_hash (to_lower hash) then some (store_path root (to_lower hash) pkg, rest) else none

unfoldable pub split_store_path : (Bytes → Bytes) → Bytes → Bytes → Option (Bytes × Bytes)
split_store_path to_lower root target = elim (cut_prefix target (root ++ b'/' ∷ [])) [
  | none ↦ none
  | some tail ↦ split_name to_lower root (cut b'-' (cut b'/' tail).0) (or_empty (cut b'/' tail).1)
]

-- storePathOf
unfoldable pub store_path_of : (Bytes → Bytes) → Bytes → Bytes → Option Bytes
store_path_of to_lower root target = elim (split_store_path to_lower root target) [
  | none ↦ none
  | some (sp, _) ↦ some sp
]

-- What Lstat and Readlink say of a path.
pub data Entry : Type 0 where
  absent : Entry
  link_unreadable : Entry
  link : Bytes → Entry
  plain : Entry

-- What os.Open says.
pub data Opened (File : Type 0) : Type 0 where
  file : File → Opened File
  not_exist : Opened File
  open_error : Opened File

abbrev pub Mounted : Type 0
Mounted = List Bytes

unfoldable pub is_mounted : Bytes → Mounted → Bool
is_mounted point [] = false
is_mounted point (p ∷ rest) = bytes_eq p point || is_mounted point rest

-- The file system under a set of mounts, and whether a store path can be built and mounted.
pub record World (File : Type 0) : Type 0 where
  pub lstat : Mounted → Bytes → Entry
  pub open_file : Mounted → Bytes → Opened File
  pub builds : Mounted → Bytes → Bool
  pub mounts : Mounted → Bytes → Bool

-- The components of a cleaned path, and the path of components.
abbrev pub split_path : Bytes → List Bytes
split_path p = reverse (reversed_path p)

unfoldable pub join_parts : List Bytes → Bytes
join_parts [] = []
join_parts (p ∷ rest) = b'/' ∷ (p ++ join_parts rest)

-- `filepath.Join(cur, part)` for a clean `cur` and one component.
unfoldable pub child : Bytes → Bytes → Bytes
child cur part = if bytes_eq cur (codes "/") then b'/' ∷ part else cur ++ b'/' ∷ part

-- A link's target, from where the link stands.
unfoldable pub absolute : Bytes → Bytes → Bytes
absolute cur [] = join_parts (split_path cur)
absolute cur (c ∷ target) =
    if c == b'/' then c ∷ target else join_parts (split_path (cur ++ b'/' ∷ (c ∷ target)))

-- The result of Open, with the number of hops.
pub data Resolved (File : Type 0) : Type 0 where
  resolved : File → ℕ → Resolved File
  failed : ℕ → Resolved File

module _ {File : Type 0} (w : World File) (to_lower : Bytes → Bytes) (root : Bytes) where
  -- A store path that is not mounted.
  unfoldable pub unmounted : Mounted → Option Bytes → Option Bytes
  unmounted m none = none
  unmounted m (some sp) = if is_mounted sp m then none else some sp

  unfoldable pub store_missing : Mounted → Bytes → Option Bytes
  store_missing m target = unmounted m (store_path_of to_lower root target)

  -- The loop of missingFor, by the steps that are left.
  unfoldable pub missing_from : ℕ → Mounted → List Bytes → Bytes → Option Bytes
  missing_from zero m parts cur = none
  missing_from (suc steps) m [] cur = none
  missing_from (suc steps) m (part ∷ rest) cur = elim (w.lstat m (child cur part)) [
    | absent ↦ store_missing m (child cur part)
    | link_unreadable ↦ none
    | link target ↦ elim (store_missing m (absolute cur target)) [
      | some sp ↦ some sp
      | none ↦ missing_from steps m (split_path (absolute cur target) ++ rest) (codes "/")
    ]
    | plain ↦ missing_from steps m rest (child cur part)
  ]

  unfoldable pub missing_for : Mounted → Bytes → Option Bytes
  missing_for m path = missing_from max_resolve_steps m (split_path path) (codes "/")

  -- Ensure: whether the path is mounted at the end, and the mounts.
  unfoldable pub ensure : Mounted → Bytes → Bool × Mounted
  ensure m sp =
      if is_mounted sp m
      then (true, m)
      else if w.builds m sp
      then (if w.mounts m sp then (true, sp ∷ m) else (false, m))
      else (false, m)

  unfoldable pub open_hops : ℕ → ℕ → Mounted → Bytes → Resolved File × Mounted
  open_hops zero hop m path = (failed hop, m)
  open_hops (suc left) hop m path = elim (w.open_file m path) [
    | file f ↦ (resolved f hop, m)
    | open_error ↦ (failed hop, m)
    | not_exist ↦ elim (missing_for m path) [
      | none ↦ (failed hop, m)
      | some sp ↦ elim (ensure m sp).0 [
        | true ↦ open_hops left (suc hop) (ensure m sp).1 path
        | false ↦ (failed hop, (ensure m sp).1)
      ]
    ]
  ]

  -- Open
  unfoldable pub open_path : Mounted → Bytes → Resolved File × Mounted
  open_path m path = open_hops max_resolve_hops 0 m path
