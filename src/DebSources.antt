-- ===== src/DebSources.antt =====
-- cmd/deb-debuginfod: sources of Debian packages. The archive header of a build id (archive.go),
-- the handler with its package cache and its indexes (main.go), and the eviction of unpacked trees
-- (evict.go). What the unpacker, debuginfod.debian.net and the file system answer are arguments;
-- so is the bounded cache of resolved packages.
use debuginfod_pwndbg_re.Prelude.{
  ℕ, suc, ◌+◌, ◌-◌, Bool, true, false, ◌&&◌, List, [], ◌∷◌, ◌++◌, Option, none, some, Bytes, codes,
  bytes_eq, length, take, drop, drop_leading, has_prefix, has_suffix, sum_by, ltb, leb, ◌==◌,
  if◌then◌else◌,
}
use mathlib.Core.List.{reverse}
use debuginfod_pwndbg_re.SrcIndex.{Entry, Index, Tree, split, new, find}
pub mod Evictions
pub mod Race
mod Tests

pub record PkgRef : Type 0 where
  pub source : Bytes
  pub version : Bytes
  pub component : Bytes

is_digit : ℕ → Bool
is_digit c = leb b'0' c && leb c b'9'

-- Behind the digits of a reversed version: the "b" and the "+" of a rebuild.
abbrev behind_digits : Bytes → Option Bytes
behind_digits [] = none
behind_digits (c ∷ []) = none
behind_digits (c ∷ d ∷ rest) = if c == b'b' && d == b'+' then some rest else none

skip_digits : Bytes → Bytes
unfolding is_digit
skip_digits [] = []
skip_digits (c ∷ s) = let rest = skip_digits s in if is_digit c then rest else c ∷ s

abbrev nmu_base : Bytes → Option Bytes
unfolding is_digit skip_digits
nmu_base [] = none
nmu_base (c ∷ s) = if is_digit c then behind_digits (skip_digits s) else none

-- binNMU.ReplaceAllString(version, "")
unfoldable pub strip_bin_nmu : Bytes → Bytes
unfolding nmu_base
strip_bin_nmu version = elim (nmu_base (reverse version)) [
  | none ↦ version
  | some rest ↦ reverse rest
]

-- strings.Index and strings.LastIndex of a byte.
unfoldable pub index_of : ℕ → Bytes → Option ℕ
index_of sep [] = none
index_of sep (c ∷ s) = elim (c == sep) [
  | true ↦ some 0
  | false ↦ elim (index_of sep s) [ none ↦ none | some i ↦ some (suc i) ]
]

unfoldable pub last_index_of : ℕ → Bytes → Option ℕ
last_index_of sep [] = none
last_index_of sep (c ∷ s) = elim (last_index_of sep s) [
  | none ↦ if c == sep then some 0 else none
  | some i ↦ some (suc i)
]

-- `name[first+1:last]`
unfoldable pub version_of : Bytes → Option Bytes
version_of name = elim (index_of b'_' name) [
  | none ↦ none
  | some first ↦ elim (last_index_of b'_' name) [
    | none ↦ none
    | some last ↦
        if leb last first
        then none
        else some (strip_bin_nmu (take (last - (first + 1)) (drop (first + 1) name)))
  ]
]

abbrev trim_suffix : Bytes → ℕ → Bytes
trim_suffix s n = take (length s - n) s

unfoldable pub parse_file : Bytes → Bytes → Bytes → Option PkgRef
parse_file component source file =
    let component' = if has_prefix component (codes "dbg-") then drop 4 component else component in
    let pkg : Option PkgRef = elim (version_of (trim_suffix file 4)) [
      | none ↦ none
      | some version ↦ some (record { source = source; version = version; component = component' })
    ] in
    if has_suffix file (codes ".deb") then pkg else none

abbrev last_four : List Bytes → Option PkgRef
last_four (component ∷ shard ∷ source ∷ file ∷ []) = parse_file component source file
last_four _ = none

-- parseArchive
unfoldable pub parse_archive : Bytes → Option PkgRef
parse_archive header =
    let trimmed = reverse (drop_leading b'/' (reverse (drop_leading b'/' header))) in
    let parts = split trimmed in
    if ltb (length parts) 4 then none else last_four (drop (length parts - 4) parts)

-- The answer of debuginfod.debian.net: none is an error of the transport.
pub record Answer : Type 0 where
  pub status : ℕ
  pub archive : Bytes

-- askDebian, without the texts of its errors.
unfoldable pub ask_debian : Option Answer → Option PkgRef
ask_debian none = none
ask_debian (some a) =
    if a.status == 200
    then (if bytes_eq a.archive [] then none else parse_archive a.archive)
    else none

-- resolve, with what it adds to the cache: `cached` is what the cache has.
unfoldable pub resolve_package : Option PkgRef → Option Answer → Option PkgRef × Option PkgRef
resolve_package (some pkg) answer = (some pkg, none)
resolve_package none answer = (ask_debian answer, ask_debian answer)

unfoldable pub package_key : PkgRef → Bytes
package_key pkg = pkg.component ++ b'/' ∷ (pkg.source ++ b'_' ∷ pkg.version)

pub record Srv : Type 0 where
  pub indexes : Bytes → Option Index
  pub last_used : Bytes → Option ℕ

abbrev pub empty_srv : Srv
empty_srv = record { indexes = λ _. none; last_used = λ _. none }

unfoldable pub touch : ℕ → Bytes → Srv → Srv
touch now key s = record s { last_used = λ k. if bytes_eq key k then some now else s.last_used k }

unfoldable pub store_index : Bytes → Index → Srv → Srv
store_index key ix s = record s { indexes = λ k. if bytes_eq key k then some ix else s.indexes k }

-- `delete(s.indexes, key)` and `delete(s.lastUsed, key)`
unfoldable pub forget : Bytes → Srv → Srv
forget key s = record {
  indexes = λ k. if bytes_eq key k then none else s.indexes k;
  last_used = λ k. if bytes_eq key k then none else s.last_used k;
}

-- indexFor; `unpacked` is the tree that the unpacker returns.
unfoldable pub index_for : Bytes → Option Tree → Srv → Option Index × Srv
index_for key unpacked s = elim (s.indexes key) [
  | some ix ↦ (some ix, s)
  | none ↦ elim unpacked [
    | none ↦ (none, s)
    | some tree ↦ (some (new (tree ∷ [])), store_index key (new (tree ∷ [])) s)
  ]
]

-- The end of handleSource; `opens` is whether a file can be opened and measured.
unfoldable pub source_status : (Entry → Bool) → Bytes → Option Index → ℕ
source_status opens req_path none = 502
source_status opens req_path (some ix) = elim (find ix req_path) [
  | none ↦ 404
  | some e ↦ if opens e then 200 else 502
]

-- handleSource for a build id: the status of the answer.
unfoldable pub handle_source :
    ℕ → Option PkgRef → Option Tree → (Entry → Bool) → Bytes → Srv → ℕ × Srv
handle_source now none unpacked opens req_path s = (404, s)
handle_source now (some pkg) unpacked opens req_path s =
    let (ix, s') = index_for (package_key pkg) unpacked (touch now (package_key pkg) s) in
    (source_status opens req_path ix, s')

-- A tree as the unpacker lists it.
pub record UnpackedTree : Type 0 where
  pub key : Bytes
  pub bytes : ℕ
  pub modified : ℕ

-- Go's `<` on strings.
unfoldable pub bytes_lt : Bytes → Bytes → Bool
bytes_lt [] [] = false
bytes_lt [] (b ∷ t) = true
bytes_lt (a ∷ s) [] = false
bytes_lt (a ∷ s) (b ∷ t) = let rest = bytes_lt s t in if a == b then rest else ltb a b

abbrev pub use_time : (Bytes → Option ℕ) → UnpackedTree → ℕ
use_time used t = elim (used t.key) [ none ↦ t.modified | some u ↦ u ]

-- The comparison that evictOnce sorts by.
unfoldable pub used_before : (Bytes → Option ℕ) → UnpackedTree → UnpackedTree → Bool
used_before used a b =
    if use_time used a == use_time used b
    then bytes_lt a.key b.key
    else ltb (use_time used a) (use_time used b)

-- What a pass has done: each tree that it asked the unpacker to delete, with the indexes and uses of
-- that moment; the trees that were deleted; and what is left of the indexes and uses.
pub record Pass : Type 0 where
  pub asked : List (UnpackedTree × Srv)
  pub removed : List UnpackedTree
  pub srv : Srv

abbrev pub no_pass : Srv → Pass
no_pass s = record { asked = []; removed = []; srv = s }

-- deleteTree behind which `rest` follows.
abbrev pub ask : UnpackedTree → Srv → Pass → Pass
ask t s rest = record rest { asked = (t, s) ∷ rest.asked }

abbrev pub ask_deleted : UnpackedTree → Srv → Pass → Pass
ask_deleted t s rest = record rest { asked = (t, s) ∷ rest.asked; removed = t ∷ rest.removed }

-- The loop over the sorted trees. `others` is what requests do to the indexes and uses from the
-- moment when the mutex is released behind the removal of a tree's index to the next lock.
unfoldable pub evict_loop :
    (Bytes → Bool) → (UnpackedTree → Srv → Srv) → ℕ → ℕ → ℕ → List UnpackedTree → Srv → Pass
evict_loop deletes others total budget freed [] s = no_pass s
evict_loop deletes others total budget freed (t ∷ rest) s =
    let forgot = forget t.key s in
    let failed =
      ask t forgot (evict_loop deletes others total budget freed rest (others t forgot)) in
    let done =
      ask_deleted t forgot
        (evict_loop deletes others total budget (freed + t.bytes) rest (others t forgot)) in
    if leb (total - freed) budget then no_pass s else if deletes t.key then done else failed

-- evictOnce; `none` is a list that could not be read. `sort` gets the uses of `s`, and `before` is
-- what requests do between the copy of the uses and the first tree.
unfoldable pub evict_trees :
    ((Bytes → Option ℕ) → List UnpackedTree → List UnpackedTree)
    → (Bytes → Bool)
    → (UnpackedTree → Srv → Srv)
    → (Srv → Srv)
    → ℕ
    → Option (List UnpackedTree)
    → Srv
    → Pass
evict_trees sort deletes others before budget none s = no_pass s
evict_trees sort deletes others before budget (some trees) s =
    let total = sum_by (λ t. t.bytes) trees in
    let swept = evict_loop deletes others total budget 0 (sort s.last_used trees) (before s) in
    if leb total budget then no_pass s else swept
