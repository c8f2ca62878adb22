-- ===== src/NixStore/Tests.antt =====
-- A file in a store path that has to be fetched first.
use debuginfod_pwndbg_re.Prelude.{
  ℕ, ◌+◌, ◌&&◌, true, [], ◌∷◌, ◌++◌, none, some, Bytes, codes, bytes_eq, leb, map, ◌≡◌, refl, arith,
  if◌then◌else◌,
}
use debuginfod_pwndbg_re.SrcIndex.{split, clean_step, clean_parts, reversed_path}
use debuginfod_pwndbg_re.NixStore.{
  has_byte, is_store_hash, cut_prefix, cut, store_path, split_name, split_store_path, store_path_of,
  Entry, Opened, is_mounted, World, join_parts, child, absolute, unmounted, store_missing,
  missing_from, missing_for, ensure, resolved, open_hops, open_path,
}
use debuginfod_pwndbg_re.NixStore.Paths.{IsStorePath}
use debuginfod_pwndbg_re.NixStore.Opening.{IsMissing, Grows, missing_for-IsMissing, open_path-Grows}

program : Unit {0}
unfolding has_byte is_store_hash cut_prefix cut store_path split_name split_store_path store_path_of
    is_mounted join_parts child absolute unmounted store_missing missing_from missing_for ensure
    open_hops open_path bytes_eq split clean_step clean_parts reversed_path
program = tt

lower : ℕ → ℕ
lower c = if leb b'A' c && leb c b'Z' then c + 32 else c

to_lower : Bytes → Bytes
unfolding lower
to_lower s = map lower s

abbrev root : Bytes
root = codes "/nix/store"

abbrev glibc : Bytes
glibc = codes "/nix/store/0123456789abcdfghijklmnpqrsvwxyz-glibc-2.42"

abbrev rtld : Bytes
rtld = glibc ++ codes "/rtld.c"

-- The store path is below /nix/store once it is mounted, and its file with it.
world : World (Unit {0})
world = record {
  lstat = λ m p.
      if bytes_eq p (codes "/nix")
      then Entry.plain
      else if bytes_eq p root
      then Entry.plain
      else if is_mounted glibc m
      then Entry.plain
      else Entry.absent;
  open_file =
      λ m p. if is_mounted glibc m && bytes_eq p rtld then Opened.file tt else Opened.not_exist;
  builds = λ m sp. true;
  mounts = λ m sp. true;
}

names_glibc : missing_for world to_lower root [] rtld ≡ some glibc
unfolding program world to_lower
names_glibc = refl

fetches : open_path world to_lower root [] rtld ≡ (resolved tt 1, glibc ∷ [])
unfolding program world to_lower
fetches = refl

upper_case :
    store_path_of to_lower root (codes "/nix/store/0123456789ABCDFGHIJKLMNPQRSVWXYZ-glibc-2.42/x")
    ≡ some glibc
unfolding program to_lower
upper_case = refl

junk : store_path_of to_lower root (codes "/nix/store/eeee-glibc") ≡ none
unfolding program to_lower
junk = refl

missing_for-IsMissing_example : IsMissing world to_lower root [] glibc
missing_for-IsMissing_example = missing_for-IsMissing world to_lower root [] rtld glibc names_glibc

-- The image of an entry is mounted beside the store.
abbrev entry_mount : Bytes
entry_mount = codes "/var/lib/entries/0123456789abcdfghijklmnpqrsvwxyz"

open_path-Grows_example :
    Grows world to_lower root 16 0
      (entry_mount ∷ [])
      (open_path world to_lower root (entry_mount ∷ []) rtld)
open_path-Grows_example = open_path-Grows world to_lower root (entry_mount ∷ []) rtld

glibc-IsStorePath : IsStorePath root glibc
unfolding store_path is_store_hash has_byte
glibc-IsStorePath = record {
  hash = codes "0123456789abcdfghijklmnpqrsvwxyz";
  pkg = codes "glibc-2.42";
  path_eq = refl;
  hash_valid = refl;
  one_component = omega arith;
}
