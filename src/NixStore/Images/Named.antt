-- ===== src/NixStore/Images/Named.antt =====
-- cmd/nix-debuginfod/store.go: the order of writes in buildOnce. The name of an archive is written
-- before its image is renamed into place.
use debuginfod_pwndbg_re.Prelude.{
  ℕ, ◌+◌, true, not, ◌&&◌, Option, none, some, Bytes, bytes_eq, bytes_eq_sound, length, ltb, ◌≡◌,
  false, refl, arith, Bool-cases, inl, inr,
}
use debuginfod_pwndbg_re.NixStore.Images.{
  ImageStore, insert, MetaAnswer, archive_of, unknown, lookup_failed, ImageWorld, Result, ok, err,
  Done, record_link, ask_archive, archive_from, remembered, archive_key, archive_for, known_archive,
  build, build_once, mount_image, entry_mounted, entry_built, entry_found, entry,
}
use debuginfod_pwndbg_re.NixStore.Images.Links.{both}

-- Beside every image stands the name of the archive that it was made from.
unfoldable pub IsNamed : ImageStore → Type 0
IsNamed s =
    (key : Bytes)
    → s.images key ≡ true
    → (archive : Bytes) × (s.made_from key ≡ some archive) × (s.names key ≡ some archive)

-- A name that is written where there is no image.
insert-IsNamed :
    (s : ImageStore) (key archive : Bytes)
    → s.images key ≡ false
    → IsNamed s
    → IsNamed (record s { names = insert key (some archive) s.names })
unfolding IsNamed
insert-IsNamed s key archive free n k h = elim (Bool-cases (bytes_eq key k)) [
  | inl e ↦ absurd (ground (arith, h, free, bytes_eq_sound key k e))
  | inr e ↦ rw e (n k h)
]

renamed-IsNamed :
    (s : ImageStore) (key archive : Bytes)
    → IsNamed s
    → IsNamed (record s {
      names = insert key (some archive) s.names;
      images = insert key true s.images;
      made_from = insert key (some archive) s.made_from;
    })
unfolding IsNamed
renamed-IsNamed s key archive n k h = elim (Bool-cases (bytes_eq key k)) [
  | inl e ↦ rw e (archive, refl, refl)
  | inr e ↦ rw e (n k (rw e at h))
]

module _ (w : ImageWorld) where
  record_link-IsNamed :
      (build_id archive : Bytes) (s : ImageStore) (o : Option Bytes)
      → IsNamed s
      → IsNamed (record_link w build_id archive s o).store
  unfolding record_link IsNamed
  record_link-IsNamed build_id archive s none n = n
  record_link-IsNamed build_id archive s (some k) n =
      both (λ (d : Done (Bytes × Bytes)). IsNamed d.store) (not w.makes_directory) (λ _. n)
        (λ _. both IsNamed w.links_made (λ _. n) (λ _. n))

  ask_archive-IsNamed :
      (build_id : Bytes) (s : ImageStore) (a : MetaAnswer)
      → IsNamed s
      → IsNamed (ask_archive w build_id s a).store
  unfolding ask_archive
  ask_archive-IsNamed build_id s unknown n = n
  ask_archive-IsNamed build_id s lookup_failed n = n
  ask_archive-IsNamed build_id s (archive_of a) n =
      record_link-IsNamed build_id a s (archive_key a) n

  archive_from-IsNamed :
      (build_id : Bytes) (s : ImageStore) (o : Option Bytes)
      → IsNamed s
      → IsNamed (archive_from w build_id s o).store
  unfolding archive_from
  archive_from-IsNamed build_id s (some k) n = n
  archive_from-IsNamed build_id s none n = ask_archive-IsNamed build_id s (w.meta build_id) n

  build-IsNamed :
      (key : Bytes) (s : ImageStore) (r : Result Bytes × ℕ)
      → s.images key ≡ false
      → IsNamed s
      → IsNamed (build w key s r).store
  unfolding build
  build-IsNamed key s (err e, calls) free n = n
  build-IsNamed key s (ok a, calls) free n =
      both (λ (d : Done Bytes). IsNamed d.store) (not (w.fetches a)) (λ _. n)
        (λ _.
          both (λ (d : Done Bytes). IsNamed d.store) (not w.writes_name) (λ _. n)
            (λ _.
              both (λ (d : Done Bytes). IsNamed d.store) (not w.renames)
                (λ _. insert-IsNamed s key a free n) (λ _. renamed-IsNamed s key a n)))

  build_once-IsNamed :
      (build_id key archive : Bytes) (s : ImageStore)
      → IsNamed s
      → IsNamed (build_once w build_id key archive s).store
  unfolding build_once
  build_once-IsNamed build_id key archive s n =
      both (λ (d : Done Bytes). IsNamed d.store) (s.images key) (λ _. n)
        (λ free.
          both (λ (d : Done Bytes). IsNamed d.store) (not (w.slot && w.makes_temp)) (λ _. n)
            (λ _. build-IsNamed key s (known_archive w build_id archive) free n))

  mount_image-IsNamed : (key : Bytes) (s : ImageStore) → IsNamed s → IsNamed (mount_image w key s).1
  unfolding mount_image IsNamed
  mount_image-IsNamed key s n =
      both (λ (p : Result (Unit {0}) × ImageStore). IsNamed p.1) (s.mounted key) (λ _. n)
        (λ _.
          both (λ (p : Result (Unit {0}) × ImageStore). IsNamed p.1) (w.mounts key) (λ _. n)
            (λ _. n))

  entry_mounted-IsNamed :
      (build_id key archive : Bytes) (calls : ℕ) (m : Result (Unit {0}) × ImageStore)
      → IsNamed m.1
      → IsNamed (entry_mounted w build_id key archive calls m).store
  entry_mounted-IsNamed build_id key archive calls (err e, s) n = n
  entry_mounted-IsNamed build_id key archive calls (ok _, s) n = n

  entry_built-IsNamed :
      (build_id key : Bytes) (calls : ℕ) (r : Result Bytes) (s : ImageStore) (more : ℕ)
      → IsNamed s
      → IsNamed (entry_built w build_id key calls r s more).store
  unfolding entry_built
  entry_built-IsNamed build_id key calls (err e) s more n = n
  entry_built-IsNamed build_id key calls (ok a) s more n =
      entry_mounted-IsNamed build_id key a (calls + more) (mount_image w key s)
        (mount_image-IsNamed key s n)

  entry_found-IsNamed :
      (build_id : Bytes) (r : Result (Bytes × Bytes)) (s : ImageStore) (calls : ℕ)
      → IsNamed s
      → IsNamed (entry_found w build_id r s calls).store
  unfolding entry_found
  entry_found-IsNamed build_id (err e) s calls n = n
  entry_found-IsNamed build_id (ok (key, b)) s calls n =
      entry_built-IsNamed build_id key calls (build_once w build_id key b s).result
        (build_once w build_id key b s).store (build_once w build_id key b s).calls
        (build_once-IsNamed build_id key b s n)

  -- If beside every image stands the name of the archive that it was made from, so it does after a
  -- request, on every branch: also when a lookup, a fetch, mkfs.erofs, a write, the rename or the
  -- mount fails.
  pub entry-IsNamed :
      (build_id : Bytes) (s : ImageStore) → IsNamed s → IsNamed (entry w build_id s).store
  unfolding entry archive_for
  entry-IsNamed build_id s n =
      both (λ (d : Done (Bytes × Bytes × Bytes)). IsNamed d.store) (ltb (length build_id) 3)
        (λ _. n)
        (λ _.
          entry_found-IsNamed build_id (archive_for w build_id s).result
            (archive_for w build_id s).store (archive_for w build_id s).calls
            (archive_from-IsNamed build_id s (remembered build_id s) n))
