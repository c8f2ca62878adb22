-- ===== src/NixStore/Images/Warm.antt =====
-- cmd/nix-debuginfod/store.go: what entry leaves behind. A second request for a build id needs no
-- network, and an image never lacks the name of its archive.
use debuginfod_pwndbg_re.Prelude.{
  ℕ, ◌+◌, true, false, not, ◌&&◌, Option, none, some, Bytes, base, length, ltb, ◌≡◌, refl, ◌∙◌,
  subst, arith,
}
use debuginfod_pwndbg_re.NixStore.{cut, or_empty}
use debuginfod_pwndbg_re.NixStore.Images.{
  record_link, archive_from, is_archive_key, archive_key, ImageStore, insert, MetaAnswer,
  archive_of, unknown, lookup_failed, EntryError, too_short, not_mounted, not_built, no_directory,
  ImageWorld, Result, ok, err, Done, link_target, remembered, ask_archive, archive_for,
  known_archive, build, build_once, mount_image, member_in, entry_member, entry_mounted,
  entry_built, entry_found, entry,
}
use debuginfod_pwndbg_re.NixStore.Images.Links.{
  link_target-key, checked_key-valid, insert_self, both, IsWarm,
}

failed : {A : Type 0} {P : Type 0} (e : EntryError) (x : A) → err e ≡ ok x → P
failed e x h = absurd cc

ok_key :
    {k a key b : Bytes}
    → ◌≡◌ {A = Result (Bytes × Bytes)} (ok (k, a)) (ok (key, b))
    → some k ≡ some key
ok_key h = cc

remembered-link :
    (build_id key : Bytes) (s : ImageStore)
    → is_archive_key key ≡ true
    → remembered build_id (record s { links = insert build_id (some (link_target key)) s.links })
      ≡ some key
unfolding remembered
remembered-link build_id key s v =
    rw (remembered, insert_self build_id (some (link_target key)) s.links) (link_target-key key v)

remembered_links :
    (build_id : Bytes) (s t : ImageStore)
    → t.links ≡ s.links
    → remembered build_id t ≡ remembered build_id s
unfolding remembered
remembered_links build_id s t e = rw (remembered, e) refl

member_in_same :
    (v w : ImageWorld) (key build_id : Bytes)
    → v.has_member ≡ w.has_member
    → member_in v key build_id ≡ member_in w key build_id
unfolding member_in
member_in_same v w key build_id e = rw (member_in, e) refl

module _ (w : ImageWorld) where
  record_link-remembered :
      (build_id archive : Bytes) (s : ImageStore) (o : Option Bytes) (key : Bytes) (found : Bytes)
      → w.links_made ≡ true
      → ((k : Bytes) → o ≡ some k → is_archive_key k ≡ true)
      → (record_link w build_id archive s o).result ≡ ok (key, found)
      → remembered build_id (record_link w build_id archive s o).store ≡ some key
  unfolding record_link remembered
  record_link-remembered build_id archive s none key found l v h = absurd cc
  record_link-remembered build_id archive s (some k) key found l v h =
      both
        (λ (d : Done (Bytes × Bytes)).
          d.result ≡ ok (key, found) → remembered build_id d.store ≡ some key)
        (not w.makes_directory) (λ _. failed no_directory (key, found))
        (λ _ e. rw (l, remembered-link build_id k s (v k refl)) (ok_key e)) h

  ask_archive-remembered :
      (build_id : Bytes) (s : ImageStore) (a : MetaAnswer) (key archive : Bytes)
      → w.links_made ≡ true
      → (ask_archive w build_id s a).result ≡ ok (key, archive)
      → remembered build_id (ask_archive w build_id s a).store ≡ some key
  unfolding ask_archive archive_key
  ask_archive-remembered build_id s unknown key archive l h = absurd cc
  ask_archive-remembered build_id s lookup_failed key archive l h = absurd cc
  ask_archive-remembered build_id s (archive_of a) key archive l h =
      record_link-remembered build_id a s (archive_key a) key archive l
        (checked_key-valid (some (cut b'.' (base a)).0)) h

  archive_from-remembered :
      (build_id : Bytes) (s : ImageStore) (o : Option Bytes) (key archive : Bytes)
      → w.links_made ≡ true
      → remembered build_id s ≡ o
      → (archive_from w build_id s o).result ≡ ok (key, archive)
      → remembered build_id (archive_from w build_id s o).store ≡ some key
  unfolding archive_from
  archive_from-remembered build_id s (some k) key archive l e h = e ∙ ok_key h
  archive_from-remembered build_id s none key archive l e h =
      ask_archive-remembered build_id s (w.meta build_id) key archive l h

  archive_for-remembered :
      (build_id : Bytes) (s : ImageStore) (key archive : Bytes)
      → w.links_made ≡ true
      → (archive_for w build_id s).result ≡ ok (key, archive)
      → remembered build_id (archive_for w build_id s).store ≡ some key
  unfolding archive_for
  archive_for-remembered build_id s key archive l =
      archive_from-remembered build_id s (remembered build_id s) key archive l refl

  build-image :
      (key : Bytes) (s : ImageStore) (r : Result Bytes × ℕ) (archive : Bytes)
      → (build w key s r).result ≡ ok archive
      → (build w key s r).store.images key ≡ true
  unfolding build
  build-image key s (err e, calls) archive h = absurd cc
  build-image key s (ok a, calls) archive h =
      both (λ (d : Done Bytes). d.result ≡ ok archive → d.store.images key ≡ true)
        (not (w.fetches a)) (λ _. failed not_built archive)
        (λ _.
          both (λ (d : Done Bytes). d.result ≡ ok archive → d.store.images key ≡ true)
            (not w.writes_name) (λ _. failed not_built archive)
            (λ _.
              both (λ (d : Done Bytes). d.result ≡ ok archive → d.store.images key ≡ true)
                (not w.renames) (λ _. failed not_built archive)
                (λ _ e. insert_self key true s.images)))
        h

  build_once-image :
      (build_id key archive : Bytes) (s : ImageStore) (found : Bytes)
      → (build_once w build_id key archive s).result ≡ ok found
      → (build_once w build_id key archive s).store.images key ≡ true
  unfolding build_once
  build_once-image build_id key archive s found h =
      both (λ (d : Done Bytes). d.result ≡ ok found → d.store.images key ≡ true) (s.images key)
        (λ there e. there)
        (λ _.
          both (λ (d : Done Bytes). d.result ≡ ok found → d.store.images key ≡ true)
            (not (w.slot && w.makes_temp)) (λ _. failed not_built found)
            (λ _. build-image key s (known_archive w build_id archive) found))
        h

  build-links :
      (key : Bytes) (s : ImageStore) (r : Result Bytes × ℕ)
      → (build w key s r).store.links ≡ s.links
  unfolding build
  build-links key s (err e, calls) = refl
  build-links key s (ok a, calls) = ground arith

  build_once-links :
      (build_id key archive : Bytes) (s : ImageStore)
      → (build_once w build_id key archive s).store.links ≡ s.links
  unfolding build_once
  build_once-links build_id key archive s =
      ground (arith, build-links key s (known_archive w build_id archive))

  mount_image-IsWarm :
      (build_id key : Bytes) (s : ImageStore)
      → remembered build_id s ≡ some key
      → s.images key ≡ true
      → (mount_image w key s).0 ≡ ok tt
      → IsWarm build_id key (mount_image w key s).1
  unfolding mount_image remembered IsWarm
  mount_image-IsWarm build_id key s r i h =
      both (λ (p : Result (Unit {0}) × ImageStore). p.0 ≡ ok tt → IsWarm build_id key p.1)
        (s.mounted key) (λ there _. (r, i, there))
        (λ _.
          both (λ (p : Result (Unit {0}) × ImageStore). p.0 ≡ ok tt → IsWarm build_id key p.1)
            (w.mounts key) (λ _ _. (r, i, insert_self key true s.mounted))
            (λ _. failed not_mounted tt))
        h

  entry_member-ok :
      (build_id key archive : Bytes) (r : Result Bytes) (k member a : Bytes)
      → entry_member w build_id key archive r ≡ ok (k, member, a)
      → (key ≡ k) × (r ≡ ok member)
  entry_member-ok build_id key archive (err e) k member a h = absurd cc
  entry_member-ok build_id key archive (ok m) k member a h = (cc, cc)

  entry_mounted-IsWarm :
      (build_id key archive : Bytes) (calls : ℕ) (m : Result (Unit {0}) × ImageStore)
      (k member a : Bytes)
      → (m.0 ≡ ok tt → IsWarm build_id key m.1)
      → (entry_mounted w build_id key archive calls m).result ≡ ok (k, member, a)
      → IsWarm build_id k (entry_mounted w build_id key archive calls m).store
        × (member_in w k build_id ≡ ok member)
  entry_mounted-IsWarm build_id key archive calls (err e, s) k member a v h = absurd cc
  entry_mounted-IsWarm build_id key archive calls (ok tt, s) k member a v h =
      let (same, found) =
        entry_member-ok build_id key archive (member_in w key build_id) k member a h in
      subst (λ x. IsWarm build_id x s × (member_in w x build_id ≡ ok member)) same (v refl, found)

  entry_built-IsWarm :
      (build_id key : Bytes) (calls : ℕ) (r : Result Bytes) (s : ImageStore) (more : ℕ)
      (k member a : Bytes)
      → remembered build_id s ≡ some key
      → ((b : Bytes) → r ≡ ok b → s.images key ≡ true)
      → (entry_built w build_id key calls r s more).result ≡ ok (k, member, a)
      → IsWarm build_id k (entry_built w build_id key calls r s more).store
        × (member_in w k build_id ≡ ok member)
  unfolding entry_built
  entry_built-IsWarm build_id key calls (err e) s more k member a m i h = absurd cc
  entry_built-IsWarm build_id key calls (ok b) s more k member a m i h =
      entry_mounted-IsWarm build_id key b (calls + more) (mount_image w key s) k member a
        (mount_image-IsWarm build_id key s m (i b refl)) h

  entry_found-IsWarm :
      (build_id : Bytes) (r : Result (Bytes × Bytes)) (s : ImageStore) (calls : ℕ)
      (k member a : Bytes)
      → ((key b : Bytes) → r ≡ ok (key, b) → remembered build_id s ≡ some key)
      → (entry_found w build_id r s calls).result ≡ ok (k, member, a)
      → IsWarm build_id k (entry_found w build_id r s calls).store
        × (member_in w k build_id ≡ ok member)
  unfolding entry_found
  entry_found-IsWarm build_id (err e) s calls k member a m h = absurd cc
  entry_found-IsWarm build_id (ok (key, b)) s calls k member a m h =
      entry_built-IsWarm build_id key calls (build_once w build_id key b s).result
        (build_once w build_id key b s).store (build_once w build_id key b s).calls k member a
        (remembered_links build_id s (build_once w build_id key b s).store
            (build_once-links build_id key b s)
          ∙ m key b refl)
        (build_once-image build_id key b s) h

  entry-IsWarm :
      (build_id : Bytes) (s : ImageStore) (k member a : Bytes)
      → w.links_made ≡ true
      → (entry w build_id s).result ≡ ok (k, member, a)
      → IsWarm build_id k (entry w build_id s).store × (member_in w k build_id ≡ ok member)
  unfolding entry
  entry-IsWarm build_id s k member a l h =
      both
        (λ (d : Done (Bytes × Bytes × Bytes)).
          d.result ≡ ok (k, member, a)
          → IsWarm build_id k d.store × (member_in w k build_id ≡ ok member))
        (ltb (length build_id) 3) (λ _. failed too_short (k, member, a))
        (λ _.
          entry_found-IsWarm build_id (archive_for w build_id s).result
            (archive_for w build_id s).store (archive_for w build_id s).calls k member a
            (λ key b. archive_for-remembered build_id s key b l))
        h

  entry-long :
      (build_id : Bytes) (s : ImageStore) (r : Bytes × Bytes × Bytes)
      → (entry w build_id s).result ≡ ok r
      → ltb (length build_id) 3 ≡ false
  unfolding entry
  entry-long build_id s r h =
      both (λ (d : Done (Bytes × Bytes × Bytes)). d.result ≡ ok r → ltb (length build_id) 3 ≡ false)
        (ltb (length build_id) 3) (λ _. failed too_short r) (λ long _. long) h

  entry_warm :
      (build_id : Bytes) (s : ImageStore) (key member : Bytes)
      → ltb (length build_id) 3 ≡ false
      → IsWarm build_id key s
      → member_in w key build_id ≡ ok member
      → entry w build_id s
        ≡ record { result = ok (key, member, or_empty (s.names key)); calls = 0; store = s }
  unfolding entry IsWarm archive_for archive_from entry_found entry_built build_once mount_image
  entry_warm build_id s key member long (m, i, t) h = rw (entry, archive_for, long, m, i, t, h) refl

-- Once a build id was served and its symlink could be made, whatever the binary cache, mkfs.erofs and
-- mount answer later: the same request asks the network nothing, changes nothing and gives the same
-- key and member, with the recorded name of the archive, as long as the image holds the same members.
pub entry-again :
    (w later : ImageWorld) (build_id : Bytes) (s : ImageStore) (key member archive : Bytes)
    → w.links_made ≡ true
    → later.has_member ≡ w.has_member
    → (entry w build_id s).result ≡ ok (key, member, archive)
    → entry later build_id (entry w build_id s).store ≡ record {
      result = ok (key, member, or_empty ((entry w build_id s).store.names key));
      calls = 0;
      store = (entry w build_id s).store;
    }
entry-again w later build_id s key member archive l same h =
    let (warm, found) = entry-IsWarm w build_id s key member archive l h in
    entry_warm later build_id (entry w build_id s).store key member
      (entry-long w build_id s (key, member, archive) h) warm
      (member_in_same later w key build_id same ∙ found)
