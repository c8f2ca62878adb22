-- ===== src/Releases.antt =====
-- cmd/releases/assets.go: the class of a release asset by its name.
use debuginfod_pwndbg_re.Prelude.{
  ℕ, ◌-◌, Bool, true, false, ◌||◌, List, [], ◌∷◌, ◌++◌, Option, none, some, Bytes, codes, bytes_eq,
  has_prefix, has_suffix, length, take, drop, ◌==◌, if◌then◌else◌,
}
pub mod Classes
mod Tests

pub record AssetClass : Type 0 where
  pub variant : Bytes
  pub platform : Bytes
  pub format : Bytes

abbrev pub unknown_bucket : Bytes
unknown_bucket = codes "other"

-- knownVariants, where what is not in the map keeps the unknown bucket.
unfoldable pub variant_of : Bytes → Bytes
variant_of part =
    if bytes_eq part (codes "pwndbg") || bytes_eq part (codes "pwndbg-gdb")
    then codes "pwndbg-gdb"
    else if bytes_eq part (codes "pwndbg-lldb")
    then codes "pwndbg-lldb"
    else unknown_bucket

abbrev pub known_formats : List Bytes
known_formats =
    codes ".tar.xz"
    ∷ codes ".tar.gz"
    ∷ codes ".tar.zst"
    ∷ codes ".tar.bz2"
    ∷ codes ".AppImage"
    ∷ codes ".sha256"
    ∷ codes ".deb"
    ∷ codes ".rpm"
    ∷ codes ".apk"
    ∷ codes ".zip"
    ∷ codes ".sig"
    ∷ []

abbrev pub trim_suffix : Bytes → Bytes → Bytes
trim_suffix s p = if has_suffix s p then take (length s - length p) s else s

-- The loop over the formats: the format with what stands before it.
unfoldable pub format_of : Bytes → List Bytes → Bytes × Bytes
format_of name [] = (unknown_bucket, name)
format_of name (f ∷ rest) =
    let later = format_of name rest in if has_suffix name f then (f, trim_suffix name f) else later

abbrev pub cons_first : ℕ → List Bytes → List Bytes
cons_first c [] = (c ∷ []) ∷ []
cons_first c (p ∷ ps) = (c ∷ p) ∷ ps

-- `strings.Split(s, "_")` and `strings.Join(parts, "_")`
unfoldable pub split_words : Bytes → List Bytes
split_words [] = [] ∷ []
split_words (c ∷ s) = let rest = split_words s in if c == b'_' then [] ∷ rest else cons_first c rest

unfoldable pub join_words : List Bytes → Bytes
join_words [] = []
join_words (p ∷ []) = p
join_words (p ∷ q ∷ rest) = p ++ b'_' ∷ join_words (q ∷ rest)

-- The operating system with what is left of the platform.
unfoldable pub os_of : Bytes → Bytes × Bytes
os_of plat =
    if has_prefix plat (codes "macos_")
    then (codes "macos", drop 6 plat)
    else if has_prefix plat (codes "darwin_")
    then (codes "macos", drop 7 plat)
    else (codes "linux", plat)

-- The `switch` on the machine.
unfoldable pub machine_of : Bytes → Bytes → Bytes
machine_of os plat =
    if bytes_eq plat (codes "x86_64")
      || bytes_eq plat (codes "amd64")
      || bytes_eq plat (codes "x64")
    then os ++ codes "/x86_64"
    else if bytes_eq plat (codes "arm64") || bytes_eq plat (codes "aarch64")
    then os ++ codes "/arm64"
    else if bytes_eq plat []
    then codes "any"
    else unknown_bucket

unfoldable pub platform_of : List Bytes → Bytes
platform_of (variant ∷ version ∷ p ∷ rest) =
    let (os, plat) = os_of (trim_suffix (join_words (p ∷ rest)) (codes "-portable")) in
    machine_of os plat
platform_of _ = unknown_bucket

abbrev first_part : List Bytes → Bytes
first_part [] = []
first_part (p ∷ _) = p

-- classifyAsset
unfoldable pub classify_asset : Bytes → AssetClass
classify_asset [] = record {
  variant = unknown_bucket;
  platform = unknown_bucket;
  format = unknown_bucket;
}
classify_asset (c ∷ name) =
    let (format, base) = format_of (c ∷ name) known_formats in
    record {
      variant = variant_of (first_part (split_words base));
      platform = platform_of (split_words base);
      format = format;
    }
