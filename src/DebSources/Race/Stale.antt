-- ===== src/DebSources/Race/Stale.antt =====
-- cmd/deb-debuginfod: an index whose tree an eviction has deleted (main.go, evict.go).
use debuginfod_pwndbg_re.Prelude.{
  ℕ, ◌+◌, ◌<◌, Bool, true, false, not, List, [], ◌∷◌, Option, none, some, Bytes, bytes_eq,
  bytes_eq_refl, bytes_eq_sound, Member, All, All-map, All-all_by, all_by, all_by-All, perm-all_by,
  sum_by, leb, ◌≡◌, ◌≢◌, refl, subst, ap, ◌∙◌, arith, Bool-cases, inl, inr, if_intro, if◌then◌else◌,
}
use mathlib.Core.List.{Perm}
use debuginfod_pwndbg_re.SrcIndex.{Entry, Index, Tree, new, find}
use debuginfod_pwndbg_re.DebSources.{
  PkgRef, package_key, touch, store_index, forget, index_for, source_status, handle_source,
  UnpackedTree,
}
use debuginfod_pwndbg_re.DebSources.Race.{
  Setting, Evictor, resting, sweeping, deleting, System, start_system, remove_one, start_sweep,
  IsListed, Step, use_package, miss, unpack, give_up, index, list, drop, delete, finish, Reach,
  here, next,
}

abbrev is_other : Bytes → UnpackedTree → Bool
is_other key t = not (bytes_eq t.key key)

-- The eviction in progress, if there is one, is not about this key.
abbrev pub Spares : Bytes → Evictor → Type 0
Spares key resting = Unit {0}
Spares key (sweeping total freed rest) = all_by (is_other key) rest ≡ true
Spares key (deleting total freed t rest) =
    (is_other key t ≡ true) × (all_by (is_other key) rest ≡ true)

-- An index without its tree, that no call in progress is about to change.
pub record IsStale (key : Bytes) (ix : Index) (s : System) : Type 0 where
  pub indexed : s.srv.indexes key ≡ some ix
  pub gone : s.on_disk key ≡ false
  pub unasked : ¬ Member key s.waiting
  pub idle : ¬ Member key s.pending
  pub spared : Spares key s.evictor

Member-remove_one :
    (key other : Bytes) (keys : List Bytes) → Member key (remove_one other keys) → Member key keys
unfolding remove_one
Member-remove_one key other [] m = m
Member-remove_one key other (k ∷ rest) m = elim (Bool-cases (bytes_eq other k)) [
  | inl e ↦ inr (rw e at m)
  | inr e ↦ elim (rw e at m) [ inl q ↦ inl q | inr m' ↦ inr (Member-remove_one key other rest m') ]
]

bytes_differ : (a b : Bytes) → a ≢ b → bytes_eq a b ≡ false
bytes_differ a b n = elim (Bool-cases (bytes_eq a b)) [
  | inl e ↦ absurd (n (bytes_eq_sound a b e))
  | inr e ↦ e
]

apart_from :
    (key k : Bytes) (keys : List Bytes) → ¬ Member key keys → Member k keys → bytes_eq k key ≡ false
apart_from key k keys free m = bytes_differ k key (λ q. free (subst (λ x. Member x keys) q m))

is_other_iff : (key : Bytes) (t : UnpackedTree) → is_other key t ≡ true → bytes_eq t.key key ≡ false
is_other_iff key t h = ground (arith, h)

-- The unpacker does not list a tree that is gone.
listed-is_other :
    (env : Setting) (key : Bytes) (s : System) (trees : List UnpackedTree)
    → s.on_disk key ≡ false
    → All (IsListed env s) trees
    → all_by (is_other key) trees ≡ true
listed-is_other env key s trees gone all = All-all_by (is_other key) trees (All-map other trees all)
  where
    other : (t : UnpackedTree) → IsListed env s t → is_other key t ≡ true
    other t (there, _) = elim (Bool-cases (bytes_eq t.key key)) [
      | inr e ↦ rw e refl
      | inl e ↦
          let same : s.on_disk key ≡ true =
            subst (λ k. s.on_disk k ≡ true) (bytes_eq_sound t.key key e) there in
          absurd (cc)
    ]

module _ (env : Setting)
    (perm : (used : Bytes → Option ℕ) (trees : List UnpackedTree)
      → Perm (env.sort used trees) trees) where
  start_sweep-Spares :
      (key : Bytes) (used : Bytes → Option ℕ) (trees : List UnpackedTree)
      → all_by (is_other key) trees ≡ true
      → Spares key (start_sweep env used trees)
  unfolding start_sweep
  start_sweep-Spares key used trees h =
      if_intro (Spares key) (leb (sum_by (λ t. t.bytes) trees) env.budget) (λ _. tt)
        (λ _. perm-all_by (is_other key) (env.sort used trees) trees (perm used trees) ∙ h)

  Step-IsStale :
      (key : Bytes) (ix : Index) {s t : System} → Step env s t → IsStale key ix s → IsStale key ix t
  unfolding touch store_index forget
  Step-IsStale key ix (use_package now k s) stale = record {
    indexed = stale.indexed;
    gone = stale.gone;
    unasked = stale.unasked;
    idle = stale.idle;
    spared = stale.spared;
  }
  Step-IsStale key ix (miss k s e) stale = record {
    indexed = stale.indexed;
    gone = stale.gone;
    unasked = λ m. elim m [
      | inl q ↦
          let same : s.srv.indexes key ≡ none = subst (λ x. s.srv.indexes x ≡ none) q e in
          let there = stale.indexed in absurd (cc)
      | inr m' ↦ stale.unasked m'
    ];
    idle = stale.idle;
    spared = stale.spared;
  }
  Step-IsStale key ix (unpack k s m) stale = record {
    indexed = stale.indexed;
    gone = rw (apart_from key k s.waiting stale.unasked m) stale.gone;
    unasked = λ m'. stale.unasked (Member-remove_one key k s.waiting m');
    idle = λ m'. elim m' [
      | inl q ↦ stale.unasked (subst (λ x. Member x s.waiting) q m)
      | inr m'' ↦ stale.idle m''
    ];
    spared = stale.spared;
  }
  Step-IsStale key ix (give_up k s m) stale = record {
    indexed = stale.indexed;
    gone = stale.gone;
    unasked = λ m'. stale.unasked (Member-remove_one key k s.waiting m');
    idle = stale.idle;
    spared = stale.spared;
  }
  Step-IsStale key ix (index k s m) stale = record {
    indexed = rw (apart_from key k s.pending stale.idle m) stale.indexed;
    gone = stale.gone;
    unasked = stale.unasked;
    idle = λ m'. stale.idle (Member-remove_one key k s.pending m');
    spared = stale.spared;
  }
  Step-IsStale key ix (list trees s e all) stale = record {
    indexed = stale.indexed;
    gone = stale.gone;
    unasked = stale.unasked;
    idle = stale.idle;
    spared =
        start_sweep-Spares key s.srv.last_used trees
          (listed-is_other env key s trees stale.gone all);
  }
  Step-IsStale key ix (drop total freed t rest s e over) stale =
      let spared : all_by (is_other key) (t ∷ rest) ≡ true = subst (Spares key) e stale.spared in
      let (first, others) = all_by-All (is_other key) (t ∷ rest) spared in
      record {
        indexed = rw (is_other_iff key t first) stale.indexed;
        gone = stale.gone;
        unasked = stale.unasked;
        idle = stale.idle;
        spared = (first, All-all_by (is_other key) rest others);
      }
  Step-IsStale key ix (delete total freed t rest deleted s e) stale =
      let spared : Spares key (deleting total freed t rest) = subst (Spares key) e stale.spared in
      record {
        indexed = stale.indexed;
        gone = rw (is_other_iff key t spared.0) stale.gone;
        unasked = stale.unasked;
        idle = stale.idle;
        spared = spared.1;
      }
  Step-IsStale key ix (finish total freed rest s e done) stale = record {
    indexed = stale.indexed;
    gone = stale.gone;
    unasked = stale.unasked;
    idle = stale.idle;
    spared = tt;
  }

  Reach-IsStale :
      (key : Bytes) (ix : Index) {s t : System}
      → Reach env s t
      → IsStale key ix s
      → IsStale key ix t
  Reach-IsStale key ix here stale = stale
  Reach-IsStale key ix (next r st) stale = Step-IsStale key ix st (Reach-IsStale key ix r stale)

  -- An index that outlives its tree stays, until the process ends: once the tree of an indexed
  -- package is gone, and no call in progress concerns it, then after any requests and evictions the
  -- tree is still gone, so that no eviction lists it; and every request that the index resolves to a
  -- file, if files of the tree open only while the tree is there, fails with 502, does not ask the
  -- unpacker (whatever the unpacker would return), and changes nothing but the time of the use.
  pub stale_forever :
      (pkg : PkgRef) (ix : Index) (s t : System)
      → IsStale (package_key pkg) ix s
      → Reach env s t
      → (now : ℕ) (unpacked : Option Tree) (opens : Entry → Bool) (req_path : Bytes) (e : Entry)
      → find ix req_path ≡ some e
      → (opens e ≡ true → t.on_disk (package_key pkg) ≡ true)
      → (t.on_disk (package_key pkg) ≡ false)
        × (handle_source now (some pkg) unpacked opens req_path t.srv
            ≡ (502, touch now (package_key pkg) t.srv))
  unfolding handle_source index_for source_status touch
  stale_forever pkg ix s t stale r now unpacked opens req_path e found needs =
      let later = Reach-IsStale (package_key pkg) ix r stale in
      let closed : opens e ≡ false = elim (Bool-cases (opens e)) [
        | inr shut ↦ shut
        | inl opened ↦ let there = needs opened in let gone = later.gone in absurd (cc)
      ] in
      (later.gone, rw (later.indexed, index_for) (rw (found, source_status) (rw closed refl)))

-- For every package whose tree is larger than the budget, requests and one eviction lead from the
-- start to a state where the index of the tree is stored although the tree is gone, and no call in
-- progress concerns it: a request finds no index, the unpacker makes the tree, the eviction lists
-- it, is over the budget and forgets the tree, the request stores the index, and the tree is deleted.
pub IsStale-reachable :
    (env : Setting) (key : Bytes)
    → ((used : Bytes → Option ℕ) (t : UnpackedTree) → env.sort used (t ∷ []) ≡ t ∷ [])
    → env.budget < env.size_of key
    → (s : System) × Reach env start_system s × IsStale key (new (env.tree_of key ∷ [])) s
unfolding touch store_index forget start_sweep remove_one
IsStale-reachable env key single large =
    let t : UnpackedTree = record { key = key; bytes = env.size_of key; modified = 0 } in
    let self = bytes_eq_refl key in
    let over : leb (env.size_of key + 0) env.budget ≡ false = ground arith in
    let missed : System = record start_system { waiting = key ∷ [] } in
    let made : System = record missed {
      on_disk = λ k. if bytes_eq key k then true else false;
      waiting = remove_one key (key ∷ []);
      pending = key ∷ [];
    } in
    let swept : System = record made { evictor = start_sweep env made.srv.last_used (t ∷ []) } in
    let sweeps : swept.evictor ≡ sweeping (env.size_of key + 0) 0 (t ∷ []) =
      rw over (ap (sweeping (env.size_of key + 0) 0) (single made.srv.last_used t)) in
    (
      _,
      next
          (next
            (next
              (next (next (next here (miss key start_system refl)) (unpack key missed (inl refl)))
                (list (t ∷ []) made refl ((rw self refl, refl), tt)))
              (drop (env.size_of key + 0) 0 t [] swept sweeps (omega arith)))
            (index key _ (inl refl)))
          (delete (env.size_of key + 0) 0 t [] true _ refl),
      record {
        indexed = rw self refl;
        gone = rw self refl;
        unasked = rw self (λ m. m);
        idle = rw self (λ m. m);
        spared = refl;
      },
    )
