-- ===== src/SrcIndex.antt =====
-- srcindex/srcindex.go: the index of source files by basename, and the search for the file that
-- shares the most trailing components with a requested path.
use debuginfod_pwndbg_re.Prelude.{
  ℕ, suc, ◌+◌, Bool, true, false, ◌||◌, List, [], ◌∷◌, ◌++◌, Option, none, some, Bytes, codes,
  bytes_eq, length, ltb, ◌==◌, if◌then◌else◌,
}
use mathlib.Core.List.{reverse}
pub mod Best
pub mod Origin
mod Tests

cons_head : ℕ → List Bytes → List Bytes
cons_head c [] = (c ∷ []) ∷ []
cons_head c (p ∷ ps) = (c ∷ p) ∷ ps

-- `strings.SplitSeq(s, "/")`
unfoldable pub split : Bytes → List Bytes
unfolding cons_head
split [] = [] ∷ []
split (c ∷ s) = let rest = split s in if c == b'/' then [] ∷ rest else cons_head c rest

-- What ".." does in filepath.Clean to the components before it, the last one first.
go_up : Bool → List Bytes → List Bytes
go_up rooted [] = if rooted then [] else codes ".." ∷ []
go_up rooted (p ∷ out) = if bytes_eq p (codes "..") then codes ".." ∷ p ∷ out else out

unfoldable pub clean_step : Bool → List Bytes → Bytes → List Bytes
unfolding go_up
clean_step rooted out part =
    if bytes_eq part [] || bytes_eq part (codes ".")
    then out
    else if bytes_eq part (codes "..")
    then go_up rooted out
    else part ∷ out

unfoldable pub clean_parts : Bool → List Bytes → List Bytes → List Bytes
clean_parts rooted out [] = out
clean_parts rooted out (part ∷ rest) = clean_parts rooted (clean_step rooted out part) rest

abbrev is_rooted : Bytes → Bool
is_rooted [] = false
is_rooted (c ∷ _) = c == b'/'

-- The components of filepath.Clean(p), the last one first: `splitPath` and `slices.Reverse`.
-- Neither an empty component nor "." is left of a cleaned path but where it is "." itself.
unfoldable pub reversed_path : Bytes → List Bytes
unfolding split clean_step clean_parts
reversed_path p = clean_parts (is_rooted p) [] (split p)

pub record Entry : Type 0 where
  pub root : Bytes
  pub parts : List Bytes
  pub prio : ℕ

-- byBase as a function, and the trees that could not be read.
pub record Index : Type 0 where
  pub by_base : Bytes → List Entry
  pub skipped : List Bytes

-- What filepath.WalkDir hands to the callback: its name, whether it is a regular file that could
-- be read, and its path relative to the tree if filepath.Rel gives one.
pub record WalkItem : Type 0 where
  pub name : Bytes
  pub regular : Bool
  pub rel : Option Bytes

-- A root, with the walk of what its symlinks resolve to.
pub record Tree : Type 0 where
  pub root : Bytes
  pub resolved : Option (List WalkItem)

unfoldable pub add_entry : Bytes → Entry → Index → Index
add_entry name e ix = record ix {
  by_base = λ key. if bytes_eq name key then ix.by_base key ++ e ∷ [] else ix.by_base key;
}

unfoldable pub add_item : Bytes → ℕ → WalkItem → Index → Index
add_item root prio item ix =
    let add : Index = elim item.rel [
      | none ↦ ix
      | some rel ↦
          add_entry item.name (record { root = root; parts = reversed_path rel; prio = prio }) ix
    ] in
    if item.regular then add else ix

unfoldable pub add_items : Bytes → ℕ → List WalkItem → Index → Index
add_items root prio [] ix = ix
add_items root prio (item ∷ rest) ix = add_items root prio rest (add_item root prio item ix)

unfoldable pub add_tree : ℕ → Tree → Index → Index
add_tree prio tree ix = elim tree.resolved [
  | none ↦ record ix { skipped = ix.skipped ++ tree.root ∷ [] }
  | some items ↦ add_items tree.root prio items ix
]

unfoldable pub add_trees : ℕ → List Tree → Index → Index
add_trees prio [] ix = ix
add_trees prio (tree ∷ rest) ix = add_trees (suc prio) rest (add_tree prio tree ix)

abbrev pub empty_index : Index
empty_index = record { by_base = λ _. []; skipped = [] }

unfoldable pub new : List Tree → Index
new roots = add_trees 0 roots empty_index

unfoldable pub common_prefix_len : List Bytes → List Bytes → ℕ
common_prefix_len [] b = 0
common_prefix_len (x ∷ a) [] = 0
common_prefix_len (x ∷ a) (y ∷ b) = if bytes_eq x y then suc (common_prefix_len a b) else 0

-- The `switch` on a candidate, when `best` with its score is the best so far.
unfoldable pub replaces : ℕ → Entry → ℕ → Entry → Bool
replaces score cand best_score best =
    if ltb best_score score
    then true
    else if ltb score best_score
    then false
    else if cand.prio == best.prio
    then ltb (length cand.parts) (length best.parts)
    else ltb cand.prio best.prio

unfoldable pub choose : List Bytes → Option Entry → List Entry → Option Entry
choose want best [] = best
choose want none (cand ∷ rest) = choose want (some cand) rest
choose want (some best) (cand ∷ rest) =
    let score = common_prefix_len cand.parts want in
    let best_score = common_prefix_len best.parts want in
    choose want (if replaces score cand best_score best then some cand else some best) rest

-- Find; the answer is the entry whose root and components filepath.Join puts together.
unfoldable pub find : Index → Bytes → Option Entry
find ix req_path = elim (reversed_path req_path) [
  | [] ↦ none
  | name ∷ dirs ↦ choose (name ∷ dirs) none (ix.by_base name)
]
