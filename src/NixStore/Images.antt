-- ===== src/NixStore/Images.antt =====
-- cmd/nix-debuginfod/store.go: entry, with archiveFor, buildOnce and memberIn. One image serves all build
-- ids of an archive; a symlink per build id and a file per archive spare the network. The binary
-- cache, mkfs.erofs and the file system answer through `ImageWorld`.
use debuginfod_pwndbg_re.Prelude.{
  ℕ, suc, ◌+◌, Bool, true, false, not, ◌&&◌, ◌||◌, List, [], ◌∷◌, ◌++◌, Option, none, some, Bytes,
  codes, bytes_eq, base, length, take, drop, all_by, ltb, leb, if◌then◌else◌,
}
use mathlib.Core.List.{reverse}
use debuginfod_pwndbg_re.SrcIndex.{reversed_path}
use debuginfod_pwndbg_re.NixStore.{cut_prefix, cut, or_empty}
pub mod Links
pub mod Warm
pub mod Named
pub mod Tests

unfoldable pub is_key_char : ℕ → Bool
is_key_char c = leb b'0' c && leb c b'9' || leb b'a' c && leb c b'z'

-- archiveKeyRe
unfoldable pub is_archive_key : Bytes → Bool
unfolding is_key_char
is_archive_key s = leb 20 (length s) && leb (length s) 60 && all_by is_key_char s

unfoldable pub image_name : Bytes → Bytes
image_name key = codes "archive-" ++ key ++ codes ".erofs"

-- strings.CutSuffix
unfoldable pub cut_suffix : Bytes → Bytes → Option Bytes
cut_suffix s p = elim (cut_prefix (reverse s) (reverse p)) [
  | none ↦ none
  | some r ↦ some (reverse r)
]

abbrev checked_key : Option Bytes → Option Bytes
checked_key none = none
checked_key (some key) = if is_archive_key key then some key else none

unfoldable pub key_from_image_name : Bytes → Option Bytes
key_from_image_name name = elim (cut_prefix name (codes "archive-")) [
  | none ↦ none
  | some rest ↦ checked_key (cut_suffix rest (codes ".erofs"))
]

unfoldable pub archive_key : Bytes → Option Bytes
archive_key archive = checked_key (some (cut b'.' (base archive)).0)

-- The image directory with the mounts of entry images: the symlink of a build id, the archive's name
-- beside an image, the images, what each was made from (the archive that the fetcher handed to
-- mkfs.erofs), and the keys whose image is mounted.
pub record ImageStore : Type 0 where
  pub links : Bytes → Option Bytes
  pub names : Bytes → Option Bytes
  pub images : Bytes → Bool
  pub made_from : Bytes → Option Bytes
  pub mounted : Bytes → Bool

abbrev pub insert : {A : Type 0} → Bytes → A → (Bytes → A) → Bytes → A
insert key v m = λ k. if bytes_eq key k then v else m k

-- DebuginfoMeta: the archive of a build id.
pub data MetaAnswer : Type 0 where
  archive_of : Bytes → MetaAnswer
  unknown : MetaAnswer
  lookup_failed : MetaAnswer

pub data EntryError : Type 0 where
  too_short : EntryError
  not_in_cache : EntryError
  bad_lookup : EntryError
  bad_archive : EntryError
  no_directory : EntryError
  not_built : EntryError
  not_mounted : EntryError
  no_member : EntryError

-- `has_member` is what Lstat says of a path in a mounted image.
pub record ImageWorld : Type 0 where
  pub meta : Bytes → MetaAnswer
  pub makes_directory : Bool
  pub links_made : Bool
  pub slot : Bool
  pub makes_temp : Bool
  pub fetches : Bytes → Bool
  pub writes_name : Bool
  pub renames : Bool
  pub mounts : Bytes → Bool
  pub has_member : Bytes → Bytes → Bool

pub data Result (A : Type 0) : Type 0 where
  ok : A → Result A
  err : EntryError → Result A

-- A result with the number of calls of the binary cache and what is left behind.
pub record Done (A : Type 0) : Type 0 where
  pub result : Result A
  pub calls : ℕ
  pub store : ImageStore

abbrev link_target : Bytes → Bytes
link_target key = codes "../" ++ image_name key

-- What the symlink of a build id remembers.
unfoldable pub remembered : Bytes → ImageStore → Option Bytes
remembered build_id s = elim (s.links build_id) [
  | none ↦ none
  | some target ↦ key_from_image_name (base target)
]

unfoldable pub join_relative : List Bytes → Bytes
join_relative [] = codes "."
join_relative (p ∷ []) = p
join_relative (p ∷ q ∷ rest) = p ++ b'/' ∷ join_relative (q ∷ rest)

-- `filepath.Join("lib", "debug", ".build-id", buildID[:2], buildID[2:])`
unfoldable pub member_base : Bytes → Bytes
unfolding join_relative
member_base build_id = join_relative (
    reverse
      (reversed_path (codes "lib/debug/.build-id/" ++ take 2 build_id ++ b'/' ∷ drop 2 build_id)))

module _ (w : ImageWorld) where
  -- The answer of the cache under its key, with the symlink of the build id.
  unfoldable pub record_link : Bytes → Bytes → ImageStore → Option Bytes → Done (Bytes × Bytes)
  record_link build_id archive s none = record { result = err bad_archive; calls = 1; store = s }
  record_link build_id archive s (some key) =
      if not w.makes_directory
      then record { result = err no_directory; calls = 1; store = s }
      else record {
        result = ok (key, archive);
        calls = 1;
        store =
            if w.links_made
            then record s { links = insert build_id (some (link_target key)) s.links }
            else s;
      }

  unfoldable pub ask_archive : Bytes → ImageStore → MetaAnswer → Done (Bytes × Bytes)
  ask_archive build_id s unknown = record { result = err not_in_cache; calls = 1; store = s }
  ask_archive build_id s lookup_failed = record { result = err bad_lookup; calls = 1; store = s }
  ask_archive build_id s (archive_of archive) = record_link build_id archive s (archive_key archive)

  unfoldable pub archive_from : Bytes → ImageStore → Option Bytes → Done (Bytes × Bytes)
  archive_from build_id s (some key) = record {
    result = ok (key, or_empty (s.names key));
    calls = 0;
    store = s;
  }
  archive_from build_id s none = ask_archive build_id s (w.meta build_id)

  -- archiveFor: the key, and the archive if it is known.
  unfoldable pub archive_for : Bytes → ImageStore → Done (Bytes × Bytes)
  archive_for build_id s = archive_from build_id s (remembered build_id s)

  -- The archive that is fetched; a name that is not known is asked for.
  unfoldable pub known_archive : Bytes → Bytes → Result Bytes × ℕ
  known_archive build_id [] = elim (w.meta build_id) [
    | unknown ↦ (err not_in_cache, 1)
    | lookup_failed ↦ (err bad_lookup, 1)
    | archive_of archive ↦ (ok archive, 1)
  ]
  known_archive build_id (c ∷ archive) = (ok (c ∷ archive), 0)

  -- The function that entry hands to buildOnce, and the rename behind it.
  unfoldable pub build : Bytes → ImageStore → Result Bytes × ℕ → Done Bytes
  build key s (err e, calls) = record { result = err e; calls = calls; store = s }
  build key s (ok archive, calls) =
      let named = record s { names = insert key (some archive) s.names } in
      if not (w.fetches archive)
      then record { result = err not_built; calls = calls + 1; store = s }
      else if not w.writes_name
      then record { result = err not_built; calls = calls + 1; store = s }
      else if not w.renames
      then record { result = err not_built; calls = calls + 1; store = named }
      else record {
        result = ok archive;
        calls = calls + 1;
        store = record named {
          images = insert key true named.images;
          made_from = insert key (some archive) named.made_from;
        };
      }

  -- buildOnce for an entry image: the archive as it is known behind it.
  unfoldable pub build_once : Bytes → Bytes → Bytes → ImageStore → Done Bytes
  build_once build_id key archive s =
      if s.images key
      then record { result = ok archive; calls = 0; store = s }
      else if not (w.slot && w.makes_temp)
      then record { result = err not_built; calls = 0; store = s }
      else build key s (known_archive build_id archive)

  unfoldable pub mount_image : Bytes → ImageStore → Result (Unit {0}) × ImageStore
  mount_image key s =
      if s.mounted key
      then (ok tt, s)
      else if w.mounts key
      then (ok tt, record s { mounted = insert key true s.mounted })
      else (err not_mounted, s)

  -- memberIn
  unfoldable pub member_in : Bytes → Bytes → Result Bytes
  member_in key build_id =
      let file = member_base build_id in
      if w.has_member key (file ++ codes ".debug")
      then ok (file ++ codes ".debug")
      else if w.has_member key file
      then ok file
      else err no_member

  abbrev entry_member : Bytes → Bytes → Bytes → Result Bytes → Result (Bytes × Bytes × Bytes)
  entry_member build_id key archive (err e) = err e
  entry_member build_id key archive (ok member) = ok (key, member, archive)

  abbrev entry_mounted :
      Bytes → Bytes → Bytes → ℕ → Result (Unit {0}) × ImageStore → Done (Bytes × Bytes × Bytes)
  entry_mounted build_id key archive calls (err e, s) = record {
    result = err e;
    calls = calls;
    store = s;
  }
  entry_mounted build_id key archive calls (ok _, s) = record {
    result = entry_member build_id key archive (member_in key build_id);
    calls = calls;
    store = s;
  }

  unfoldable pub entry_built :
      Bytes → Bytes → ℕ → Result Bytes → ImageStore → ℕ → Done (Bytes × Bytes × Bytes)
  entry_built build_id key calls (err e) s more = record {
    result = err e;
    calls = calls + more;
    store = s;
  }
  entry_built build_id key calls (ok archive) s more =
      entry_mounted build_id key archive (calls + more) (mount_image key s)

  unfoldable pub entry_found :
      Bytes → Result (Bytes × Bytes) → ImageStore → ℕ → Done (Bytes × Bytes × Bytes)
  entry_found build_id (err e) s calls = record { result = err e; calls = calls; store = s }
  entry_found build_id (ok (key, archive)) s calls =
      let built = build_once build_id key archive s in
      entry_built build_id key calls built.result built.store built.calls

  -- entry: the key of the mount point, the member and the archive.
  unfoldable pub entry : Bytes → ImageStore → Done (Bytes × Bytes × Bytes)
  entry build_id s =
      let found = archive_for build_id s in
      if ltb (length build_id) 3
      then record { result = err too_short; calls = 0; store = s }
      else entry_found build_id found.result found.store found.calls
