-- ===== src/NixStore/Opening.antt =====
-- missingFor, Ensure and Open (cmd/nix-debuginfod/store.go).
use debuginfod_pwndbg_re.Prelude.{
  ℕ, zero, suc, ◌+◌, ◌≤◌, Bool, true, false, List, [], ◌∷◌, ◌++◌, Option, none, some, Bytes, length,
  codes, ◌≡◌, refl, sym, subst, arith, Bool-cases, inl, inr, ◌⊎◌, ◌∙◌, append_assoc, length-append,
}
use mathlib.Core.Option.{some-injective}
use debuginfod_pwndbg_re.NixStore.{
  World, Entry, Opened, Mounted, is_mounted, split_path, child, absolute, store_path_of, unmounted,
  store_missing, missing_from, missing_for, ensure, Resolved, resolved, failed, open_hops,
  open_path, max_resolve_hops, max_resolve_steps,
}
use debuginfod_pwndbg_re.NixStore.Paths.{IsStorePath, store_path_of-IsStorePath}

module _ {File : Type 0} (w : World File) (to_lower : Bytes → Bytes) (root : Bytes) where
  -- A store path that is worth fetching.
  pub record IsMissing (m : Mounted) (sp : Bytes) : Type 0 where
    pub canonical : IsStorePath root sp
    pub not_yet : is_mounted sp m ≡ false

  store_missing-IsMissing :
      (m : Mounted) (target sp : Bytes)
      → store_missing w to_lower root m target ≡ some sp
      → IsMissing m sp
  unfolding store_missing
  store_missing-IsMissing m target sp h =
      go (store_path_of to_lower root target) (store_path_of-IsStorePath to_lower root target) h
    where
      found :
          (x : Bytes)
          → ((y : Bytes) → some x ≡ some y → IsStorePath root y)
          → is_mounted x m ≡ false
          → some x ≡ some sp
          → IsMissing m sp
      found x canon free e = record {
        canonical = canon sp e;
        not_yet = rw (some-injective _ _ e) at free;
      }

      go :
          (o : Option Bytes)
          → ((x : Bytes) → o ≡ some x → IsStorePath root x)
          → unmounted w to_lower root m o ≡ some sp
          → IsMissing m sp
      go none canon e = unfold unmounted in (cc)
      go (some x) canon e = elim (Bool-cases (is_mounted x m)) [
        | inl there ↦ absurd (unfold unmounted in ground (arith, e, there))
        | inr free ↦ found x canon free (unfold unmounted in rw (free, unmounted) at e)
      ]

  missing_from-IsMissing :
      (steps : ℕ) (m : Mounted) (parts : List Bytes) (cur sp : Bytes)
      → missing_from w to_lower root steps m parts cur ≡ some sp
      → IsMissing m sp
  unfolding missing_from
  missing_from-IsMissing zero m parts cur sp h = cc
  missing_from-IsMissing (suc steps) m [] cur sp h = cc
  missing_from-IsMissing (suc steps) m (part ∷ rest) cur sp h =
      go (w.lstat m (child cur part))
        (λ parts cur' k. missing_from-IsMissing steps m parts cur' sp k) h
    where
      beyond :
          (target : Bytes) (o : Option Bytes)
          → ((parts : List Bytes) (cur' : Bytes)
              → missing_from w to_lower root steps m parts cur' ≡ some sp
              → IsMissing m sp)
          → ((x : Bytes) → o ≡ some x → IsMissing m x)
          → elim o [
            | some x ↦ some x
            | none ↦
                missing_from w to_lower root steps m
                  (split_path (absolute cur target) ++ rest)
                  (codes "/")
          ]
            ≡ some sp
          → IsMissing m sp
      beyond target none ih here e = ih _ _ e
      beyond target (some x) ih here e = here sp e

      go :
          (entry : Entry)
          → ((parts : List Bytes) (cur' : Bytes)
              → missing_from w to_lower root steps m parts cur' ≡ some sp
              → IsMissing m sp)
          → elim entry [
            | Entry.absent ↦ store_missing w to_lower root m (child cur part)
            | Entry.link_unreadable ↦ none
            | Entry.link target ↦ elim (store_missing w to_lower root m (absolute cur target)) [
              | some x ↦ some x
              | none ↦
                  missing_from w to_lower root steps m
                    (split_path (absolute cur target) ++ rest)
                    (codes "/")
            ]
            | Entry.plain ↦ missing_from w to_lower root steps m rest (child cur part)
          ]
            ≡ some sp
          → IsMissing m sp
      go Entry.absent ih e = store_missing-IsMissing m _ sp e
      go Entry.link_unreadable ih e = cc
      go (Entry.link target) ih e =
          beyond target _ ih (λ x q. store_missing-IsMissing m (absolute cur target) x q) e
      go Entry.plain ih e = ih _ _ e

  -- What missingFor names is worth fetching: it is a canonical store path, so that no junk in a
  -- request reaches the fetcher, and it is not mounted yet.
  pub missing_for-IsMissing :
      (m : Mounted) (path sp : Bytes)
      → missing_for w to_lower root m path ≡ some sp
      → IsMissing m sp
  unfolding missing_for
  missing_for-IsMissing m path sp h = missing_from-IsMissing max_resolve_steps m _ _ sp h

  -- Mounts on top of the mounts `m`: each is a canonical store path, and was not mounted before.
  abbrev pub AreNew : Mounted → List Bytes → Type 0
  AreNew m [] = Unit {0}
  AreNew m (sp ∷ added) =
      IsStorePath root sp × (is_mounted sp (added ++ m) ≡ false) × AreNew m added

  AreNew-append :
      (m : Mounted) (sp : Bytes) (added : List Bytes)
      → IsMissing m sp
      → AreNew (sp ∷ m) added
      → AreNew m (added ++ sp ∷ [])
  AreNew-append m sp [] missing new = (missing.canonical, missing.not_yet, tt)
  AreNew-append m sp (x ∷ added) missing (canon, free, new) =
      (canon, rw (append_assoc added (sp ∷ []) m) free, AreNew-append m sp added missing new)

  ensure_missing :
      (m : Mounted) (sp : Bytes)
      → is_mounted sp m ≡ false
      → ((ensure w to_lower root m sp ≡ (true, sp ∷ m))
          ⊎ (ensure w to_lower root m sp ≡ (false, m)))
  unfolding ensure
  ensure_missing m sp h = elim (Bool-cases (w.builds m sp)) [
    | inl b ↦ elim (Bool-cases (w.mounts m sp)) [
      | inl c ↦ inl (rw h (rw b (rw c refl)))
      | inr c ↦ inr (rw h (rw b (rw c refl)))
    ]
    | inr b ↦ inr (rw h (rw b refl))
  ]

  abbrev pub hops_of : Resolved File → ℕ
  hops_of (resolved f hop) = hop
  hops_of (failed hop) = hop

  -- How Open leaves the mounts.
  pub record Grows (left hop : ℕ) (m : Mounted) (r : Resolved File × Mounted) : Type 0 where
    pub added : List Bytes
    pub table : r.1 ≡ added ++ m
    pub new : AreNew m added
    pub counted : hop + length added ≡ hops_of r.0
    pub bounded : hops_of r.0 ≤ hop + left

  stays :
      (left hop : ℕ) (m : Mounted) (r : Resolved File) → hops_of r ≡ hop → Grows left hop m (r, m)
  stays left hop m r e = record {
    added = [];
    table = refl;
    new = tt;
    counted = omega (arith, e);
    bounded = omega (arith, e);
  }

  pulled_in :
      (left hop : ℕ) (m : Mounted) (sp : Bytes) (r : Resolved File × Mounted)
      → IsMissing m sp
      → Grows left (suc hop) (sp ∷ m) r
      → Grows (suc left) hop m r
  pulled_in left hop m sp r missing g = record {
    added = g.added ++ sp ∷ [];
    table = g.table ∙ sym (append_assoc g.added (sp ∷ []) m);
    new = AreNew-append m sp g.added missing g.new;
    counted = omega (arith, g.counted, length-append g.added (sp ∷ []));
    bounded = omega (arith, g.bounded);
  }

  pub open_hops-Grows :
      (left hop : ℕ) (m : Mounted) (path : Bytes)
      → Grows left hop m (open_hops w to_lower root left hop m path)
  unfolding open_hops
  open_hops-Grows zero hop m path = stays zero hop m (failed hop) refl
  open_hops-Grows (suc left) hop m path =
      go (w.open_file m path) (missing_for w to_lower root m path) (missing_for-IsMissing m path)
        (λ m'. open_hops-Grows left (suc hop) m' path)
    where
      after : Bool × Mounted → Resolved File × Mounted
      after r = elim r.0 [
        | true ↦ open_hops w to_lower root left (suc hop) r.1 path
        | false ↦ (failed hop, r.1)
      ]

      mounted :
          (sp : Bytes) (r : Bool × Mounted)
          → IsMissing m sp
          → ((r ≡ (true, sp ∷ m)) ⊎ (r ≡ (false, m)))
          → ((m' : Mounted)
              → Grows left (suc hop) m' (open_hops w to_lower root left (suc hop) m' path))
          → Grows (suc left) hop m (after r)
      mounted sp r missing (inl e) ih =
          subst (λ x. Grows (suc left) hop m (after x)) (sym e)
            (pulled_in left hop m sp _ missing (ih (sp ∷ m)))
      mounted sp r missing (inr e) ih =
          subst (λ x. Grows (suc left) hop m (after x)) (sym e)
            (stays (suc left) hop m (failed hop) refl)

      go :
          (o : Opened File) (missing : Option Bytes)
          → ((sp : Bytes) → missing ≡ some sp → IsMissing m sp)
          → ((m' : Mounted)
              → Grows left (suc hop) m' (open_hops w to_lower root left (suc hop) m' path))
          → Grows (suc left) hop m (elim o [
            | Opened.file f ↦ (resolved f hop, m)
            | Opened.open_error ↦ (failed hop, m)
            | Opened.not_exist ↦ elim missing [
              | none ↦ (failed hop, m)
              | some sp ↦ elim (ensure w to_lower root m sp).0 [
                | true ↦
                    open_hops w to_lower root left (suc hop) (ensure w to_lower root m sp).1 path
                | false ↦ (failed hop, (ensure w to_lower root m sp).1)
              ]
            ]
          ])
      go (Opened.file f) missing worth ih = stays (suc left) hop m (resolved f hop) refl
      go Opened.open_error missing worth ih = stays (suc left) hop m (failed hop) refl
      go Opened.not_exist none worth ih = stays (suc left) hop m (failed hop) refl
      go Opened.not_exist (some sp) worth ih =
          let missing = worth sp refl in
          mounted sp (ensure w to_lower root m sp) missing (ensure_missing m sp missing.not_yet) ih

  -- What Open does to the mounts, whatever these are, and whatever the path, the file system and the
  -- fetcher do, if nothing else mounts or unmounts meanwhile: it takes no mount away, and every
  -- mount that it adds is a canonical store path that was not mounted yet. The hops that it reports
  -- are as many as the store paths that it pulled in, and there are at most sixteen.
  pub open_path-Grows :
      (m : Mounted) (path : Bytes)
      → let r = open_path w to_lower root m path in Grows max_resolve_hops 0 m r
  unfolding open_path
  open_path-Grows m path = open_hops-Grows max_resolve_hops 0 m path
