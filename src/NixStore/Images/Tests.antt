-- ===== src/NixStore/Images/Tests.antt =====
-- Tests for the images of nix-debuginfod, with the examples of their theorems.
use debuginfod_pwndbg_re.Prelude.{
  true, false, none, some, Bytes, codes, bytes_eq, base, drop_leading, ◌≡◌, refl,
}
use debuginfod_pwndbg_re.SrcIndex.{clean_parts, clean_step, reversed_path, split}
use debuginfod_pwndbg_re.NixStore.{or_empty, cut, cut_prefix}
use debuginfod_pwndbg_re.NixStore.Images.{
  is_archive_key, key_from_image_name, archive_key, image_name, is_key_char, member_base,
  join_relative, record_link, ask_archive, archive_from, remembered, archive_for, known_archive,
  build, build_once, mount_image, entry_built, entry_found, ImageStore, archive_of, ImageWorld, ok,
  member_in, entry,
}
use debuginfod_pwndbg_re.NixStore.Images.Warm.{entry-again}
use debuginfod_pwndbg_re.NixStore.Images.Named.{IsNamed, entry-IsNamed}

abbrev glibc_key : Bytes
glibc_key = codes "1rnrd5kkc7hzd5x1ykwkgqz0sbp8"

abbrev glibc_archive : Bytes
glibc_archive = codes "nar/1rnrd5kkc7hzd5x1ykwkgqz0sbp8.nar.xz"

abbrev glibc_member : Bytes
glibc_member = codes "lib/debug/.build-id/8a/e0b6.debug"

abbrev empty_store : ImageStore
empty_store = record {
  links = λ _. none;
  names = λ _. none;
  images = λ _. false;
  made_from = λ _. none;
  mounted = λ _. false;
}

abbrev healthy : ImageWorld
healthy = record {
  meta = λ _. archive_of glibc_archive;
  makes_directory = true;
  links_made = true;
  slot = true;
  makes_temp = true;
  fetches = λ _. true;
  writes_name = true;
  renames = true;
  mounts = λ _. true;
  has_member = λ key path. bytes_eq path glibc_member;
}

-- Nothing of the network or the disk answers.
abbrev offline : ImageWorld
offline = record healthy {
  makes_directory = false;
  links_made = false;
  slot = false;
  fetches = λ _. false;
  mounts = λ _. false;
}

archive_key-glibc : archive_key glibc_archive ≡ some glibc_key
unfolding archive_key is_archive_key cut base
archive_key-glibc = refl

key_from_image_name-bare : key_from_image_name glibc_key ≡ none
unfolding key_from_image_name cut_prefix
key_from_image_name-bare = refl

served_once :
    (entry healthy (codes "8ae0b6") empty_store).result
    ≡ ok (glibc_key, glibc_member, glibc_archive)
unfolding entry entry_found archive_for archive_from remembered ask_archive record_link archive_key
    is_archive_key cut base entry_built build_once build known_archive mount_image member_in
    bytes_eq image_name is_key_char member_base join_relative drop_leading clean_parts clean_step
    reversed_path split
served_once = refl

entry-again_example :
    entry offline (codes "8ae0b6") (entry healthy (codes "8ae0b6") empty_store).store ≡ record {
      result = ok (
        glibc_key,
        glibc_member,
        or_empty ((entry healthy (codes "8ae0b6") empty_store).store.names glibc_key),
      );
      calls = 0;
      store = (entry healthy (codes "8ae0b6") empty_store).store;
    }
entry-again_example =
    entry-again healthy offline (codes "8ae0b6") empty_store glibc_key glibc_member glibc_archive
      refl refl served_once

empty_store-IsNamed : IsNamed empty_store
unfolding IsNamed
empty_store-IsNamed key h = absurd cc

entry-IsNamed_example : IsNamed (entry healthy (codes "8ae0b6") empty_store).store
entry-IsNamed_example = entry-IsNamed healthy (codes "8ae0b6") empty_store empty_store-IsNamed
