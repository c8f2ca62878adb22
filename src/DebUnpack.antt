-- ===== src/DebUnpack.antt =====
-- cmd/deb-unpack: a Debian source package becomes a tree on a shared volume. The names that requests
-- and downloaded files may give (main.go, trees.go), and the list of the trees with the sweep of
-- what a killed process left behind (trees.go).
use debuginfod_pwndbg_re.Prelude.{
  ℕ, suc, ◌+◌, ◌-◌, ◌*◌, Bool, true, false, not, ◌&&◌, ◌||◌, List, [], ◌∷◌, ◌++◌, Option, none,
  some, Bytes, codes, bytes_eq, base, length, take, has_prefix, has_suffix, sum_by, filter, ltb,
  leb, ◌==◌, if◌then◌else◌,
}
pub mod Names
pub mod Volume
pub mod Listing
mod Tests

abbrev between : ℕ → ℕ → ℕ → Bool
between lo hi c = leb lo c && leb c hi

abbrev lower_or_digit : ℕ → Bool
lower_or_digit c = between b'a' b'z' c || between b'0' b'9' c

abbrev letter_or_digit : ℕ → Bool
letter_or_digit c = lower_or_digit c || between b'A' b'Z' c

abbrev package_char : ℕ → Bool
package_char c = lower_or_digit c || c == b'+' || c == b'.' || c == b'-'

abbrev version_char : ℕ → Bool
version_char c = letter_or_digit c || c == b'.' || c == b'+' || c == b'~' || c == b'-'

unfoldable pub all_chars : (ℕ → Bool) → Bytes → Bool
all_chars p [] = true
all_chars p (c ∷ s) = p c && all_chars p s

-- A first character of one class and up to 63 more, at least `least`, of another.
unfoldable pub is_name : (ℕ → Bool) → (ℕ → Bool) → ℕ → Bytes → Bool
unfolding all_chars
is_name first others least [] = false
is_name first others least (c ∷ s) =
    first c && all_chars others s && leb least (length s) && leb (length s) 63

-- rePackage, reVersion and reComp
abbrev pub is_package : Bytes → Bool
is_package s = is_name lower_or_digit package_char 1 s

abbrev pub is_version : Bytes → Bool
is_version s = is_name letter_or_digit version_char 0 s

unfoldable pub is_component : Bytes → Bool
is_component s =
    bytes_eq s (codes "main")
    || bytes_eq s (codes "contrib")
    || bytes_eq s (codes "non-free")
    || bytes_eq s (codes "non-free-firmware")

pub record UnpackRequest : Type 0 where
  pub source : Bytes
  pub version : Bytes
  pub component : Bytes

-- The component that a request leaves out.
unfoldable pub with_component : UnpackRequest → UnpackRequest
with_component r = if bytes_eq r.component [] then record r { component = codes "main" } else r

unfoldable pub is_valid : UnpackRequest → Bool
is_valid r = is_package r.source && is_version r.version && is_component r.component

-- The directory of a package below its component.
unfoldable pub tree_name : UnpackRequest → Bytes
tree_name r = r.source ++ b'_' ∷ r.version

unfoldable pub pool_dir : Bytes → Bytes
pool_dir source =
    if has_prefix source (codes "lib") && ltb 3 (length source)
    then take 4 source
    else take 1 source

abbrev pub starts_with_dot : Bytes → Bool
starts_with_dot [] = false
starts_with_dot (c ∷ s) = c == b'.'

unfoldable pub safe_key : Bytes → Bytes → Bool
safe_key component name =
    is_component component
    && not (bytes_eq name [])
    && bytes_eq name (base name)
    && not (starts_with_dot name)

cons_head : ℕ → List Bytes → List Bytes
cons_head c [] = (c ∷ []) ∷ []
cons_head c (p ∷ ps) = (c ∷ p) ∷ ps

-- strings.Split by one byte.
unfoldable pub split_on : (ℕ → Bool) → Bytes → List Bytes
unfolding cons_head
split_on sep [] = [] ∷ []
split_on sep (c ∷ s) = let rest = split_on sep s in if sep c then [] ∷ rest else cons_head c rest

unfoldable pub is_space : ℕ → Bool
is_space c = c == b' ' || between 9 13 c

-- strings.Fields of an ASCII text.
unfoldable pub fields : Bytes → List Bytes
unfolding split_on is_space
fields s = filter (λ p. not (bytes_eq p [])) (split_on is_space s)

-- One line of the stanza with what the lines behind it give; `none` is the refusal.
unfoldable pub file_line : List Bytes → Option (List Bytes) → Option (List Bytes)
file_line (sum ∷ size ∷ name ∷ []) rest = elim rest [
  | none ↦ none
  | some names ↦
      if not (bytes_eq name (base name)) || has_prefix name (codes ".")
      then none
      else some (name ∷ names)
]
file_line _ rest = rest

unfoldable pub stanza : Bool → List Bytes → Option (List Bytes)
unfolding file_line
stanza in_files [] = some []
stanza in_files (line ∷ lines) =
    let indented = has_prefix line (codes " ") in
    let in_files' = if indented then in_files else has_prefix line (codes "Files:") in
    let rest = stanza in_files' lines in
    if indented && in_files then file_line (fields line) rest else rest

unfoldable pub files_from_dsc : Bytes → Option (List Bytes)
files_from_dsc raw = elim (stanza false (split_on (λ c. c == 10) raw)) [
  | none ↦ none
  | some [] ↦ none
  | some (name ∷ names) ↦ some (name ∷ names)
]

-- A regular file of a tree.
pub record SourceFile : Type 0 where
  pub path : Bytes
  pub size : ℕ

-- The files of a tree, and whether .unpack-complete, which is empty, is among them.
pub record Tree : Type 0 where
  pub files : List SourceFile
  pub marker : Bool

-- measure
unfoldable pub measure : Tree → ℕ × ℕ
measure t = (length t.files + (if t.marker then 1 else 0), sum_by (λ f. f.size) t.files)

unfoldable pub stale_unpack_age : ℕ
stale_unpack_age = 2 * 3600 * 1000000000

-- The two shapes of a name that no finished tree has.
unfoldable pub is_deleting : Bytes → Bool
is_deleting name = has_suffix name (codes ".deleting")

-- sweepStale on one directory: whether it is removed.
unfoldable pub is_abandoned : ℕ → ℕ → Bytes → Option ℕ → Bool
unfolding is_deleting
is_abandoned now stale_after name modified = elim modified [
  | none ↦ false
  | some m ↦ (starts_with_dot name || is_deleting name) && leb stale_after (now - m)
]
