-- ===== src/DebUnpack/Listing.antt =====
-- cmd/deb-unpack/trees.go: handleTrees and sweepStale over what os.ReadDir gives, and what a call of
-- handleDelete means for them.
use debuginfod_pwndbg_re.Prelude.{
  ℕ, Bool, true, false, not, ◌&&◌, List, [], ◌∷◌, ◌++◌, Option, none, some, Bytes, codes, bytes_eq,
  bytes_eq_refl, bytes_eq_sound, length, length-append, ◌⊎◌, inl, inr, ◌≡◌, ◌≢◌, refl, sym, ap, ◌∙◌,
  arith, Bool-cases, Option-cases, if◌then◌else◌,
}
use debuginfod_pwndbg_re.DebUnpack.{
  starts_with_dot, is_component, safe_key, SourceFile, Tree, measure, is_abandoned,
}
use debuginfod_pwndbg_re.DebUnpack.Names.{safe_key_iff}
use debuginfod_pwndbg_re.DebUnpack.Volume.{
  Node, Volume, put, same_place, has_marker, doomed_name, withdraw, withdraw_component,
  DeleteAnswers, remove_doomed, handle_delete,
}
use debuginfod_pwndbg_re.DebUnpack.Volume.Places.{
  view, put_self, put_elsewhere, view-put_elsewhere, view-put_self, view-put_hidden, is_lasting,
  doomed-is_deleting, deleting_hidden, same_place_sound,
}
use debuginfod_pwndbg_re.DebUnpack.Volume.Sound.{doomed_shown, withdraw_lem}

-- An entry of a component's directory; `content` is what the marker and measure are read from, and a
-- time that could not be read is left out.
pub record DirEntry : Type 0 where
  pub name : Bytes
  pub is_dir : Bool
  pub content : Tree
  pub modified : Option ℕ

-- An entry of the root; `none` is a directory that could not be read.
pub record ComponentDir : Type 0 where
  pub name : Bytes
  pub is_dir : Bool
  pub entries : Option (List DirEntry)

pub record ListedTree : Type 0 where
  pub key : Bytes
  pub bytes : ℕ
  pub files : ℕ
  pub modified : ℕ

-- The tests of handleTrees on a directory.
unfoldable pub is_listed : Bytes → Bool → Bool
is_listed name marker = not (bytes_eq name []) && not (starts_with_dot name) && marker

unfoldable pub list_tree : Bytes → DirEntry → ListedTree
list_tree component e = record {
  key = component ++ b'/' ∷ e.name;
  bytes = (measure e.content).1;
  files = (measure e.content).0;
  modified = elim e.modified [ none ↦ 0 | some m ↦ m ];
}

unfoldable pub list_entries : Bytes → List DirEntry → List ListedTree
unfolding is_listed list_tree
list_entries component [] = []
list_entries component (e ∷ entries) =
    let rest = list_entries component entries in
    if e.is_dir && is_listed e.name e.content.marker then list_tree component e ∷ rest else rest

unfoldable pub list_components : List ComponentDir → List ListedTree
unfolding list_entries
list_components [] = []
list_components (c ∷ components) =
    let rest = list_components components in
    if c.is_dir
    then elim c.entries [ none ↦ rest | some entries ↦ list_entries c.name entries ++ rest ]
    else rest

-- handleTrees: the status and the list.
unfoldable pub handle_trees : Option (List ComponentDir) → ℕ × List ListedTree
unfolding list_components
handle_trees none = (500, [])
handle_trees (some components) = (200, list_components components)

-- sweepStale: the directories that it removes.
unfoldable pub sweep_entries : ℕ → ℕ → Bytes → List DirEntry → List (Bytes × Bytes)
sweep_entries now stale_after component [] = []
sweep_entries now stale_after component (e ∷ entries) =
    let rest = sweep_entries now stale_after component entries in
    if e.is_dir && is_abandoned now stale_after e.name e.modified
    then (component, e.name) ∷ rest
    else rest

unfoldable pub sweep_stale : ℕ → ℕ → Option (List ComponentDir) → List (Bytes × Bytes)
unfolding sweep_entries
sweep_stale now stale_after none = []
sweep_stale now stale_after (some []) = []
sweep_stale now stale_after (some (c ∷ components)) =
    let rest = sweep_stale now stale_after (some components) in
    elim c.entries [
      | none ↦ rest
      | some entries ↦ sweep_entries now stale_after c.name entries ++ rest
    ]

doomed_name-ne-nil : (n : Bytes) → bytes_eq (doomed_name n) [] ≡ false
unfolding doomed_name bytes_eq
doomed_name-ne-nil [] = refl
doomed_name-ne-nil (c ∷ n) = refl

doomed_name-ne : (n : Bytes) → doomed_name n ≢ n
unfolding doomed_name
doomed_name-ne n e = omega (arith, length-append n (codes ".deleting"), ap length e)

doomed_place : (c n : Bytes) → same_place c (doomed_name n) c n ≡ false
doomed_place c n = elim (Bool-cases (same_place c (doomed_name n) c n)) [
  | inr e ↦ e
  | inl e ↦ absurd (doomed_name-ne n (same_place_sound c (doomed_name n) c n e).1)
]

unmarked_unlisted : (n : Bytes) (marker : Bool) → marker ≡ false → is_listed n marker ≡ false
unfolding is_listed
unmarked_unlisted n marker h = ground (arith, h)

shown_listed :
    (n : Bytes) (marker : Bool)
    → bytes_eq n [] ≡ false
    → starts_with_dot n ≡ false
    → marker ≡ true
    → is_listed n marker ≡ true
unfolding is_listed
shown_listed n marker a b h = rw (a, b, h) refl

-- The rename of handleDelete moves a finished tree in the list: right behind it handleTrees no longer
-- lists the tree under its name, and lists it under the name with ".deleting" behind it.
pub withdraw-listed :
    (c n : Bytes) (v v' : Volume)
    → safe_key c n ≡ true
    → has_marker (v c n) ≡ true
    → withdraw c n v ≡ some v'
    → (is_listed (doomed_name n) (has_marker (v' c (doomed_name n))) ≡ true)
      × (is_listed n (has_marker (v' c n)) ≡ false)
withdraw-listed c n v v' ok m h =
    let (node, there, eq) = withdraw_lem c n v v' h in
    let at_doomed : v' c (doomed_name n) ≡ v c n =
      ap (λ u. u c (doomed_name n)) eq
      ∙ put_self c (doomed_name n) (some node) (put c n none v)
      ∙ sym there in
    let at_key : v' c n ≡ none =
      ap (λ u. u c n) eq
      ∙ put_elsewhere c (doomed_name n) (some node) (put c n none v) c n (doomed_place c n)
      ∙ put_self c n none v in
    (
      shown_listed (doomed_name n) (has_marker (v' c (doomed_name n))) (doomed_name-ne-nil n)
          (doomed_shown c n ok) (ap has_marker at_doomed ∙ m),
      unmarked_unlisted n (has_marker (v' c n)) (ap has_marker at_key),
    )

different : (a b : Bytes) → a ≢ b → bytes_eq a b ≡ false
different a b ne = elim (Bool-cases (bytes_eq a b)) [
  | inr e ↦ e
  | inl e ↦ absurd (ne (bytes_eq_sound a b e))
]

if_none : (b : Bool) → ◌≡◌ {A = Option (List SourceFile)} (if b then none else none) none
if_none true = refl
if_none false = refl

-- Behind a rename and any part of the RemoveAll.
behind_withdraw :
    (c n : Bytes) (remains : Option Node) (v v' : Volume)
    → withdraw c n v ≡ some v'
    → (c' n' : Bytes) → view (put c (doomed_name n) remains v') c' n' ≡ view (put c n none v) c' n'
behind_withdraw c n remains v v' h c' n' =
    let (node, there, eq) = withdraw_lem c n v v' h in
    let hidden = deleting_hidden (doomed_name n) (doomed-is_deleting n) in
    view-put_hidden c (doomed_name n) remains v' hidden c' n'
    ∙ ap (λ u. view u c' n') eq
    ∙ view-put_hidden c (doomed_name n) (some node) (put c n none v) hidden c' n'

view_gone : (v : Volume) (c n : Bytes) → v c n ≡ none → view v c n ≡ none
unfolding view
view_gone v c n h = rw h (if_none (is_lasting n))

-- A request to delete the name "/", which arrives as "%2F", deletes every tree of its component, for
-- every component that the service knows: if os.Stat works and the rename is granted, the key passes
-- the check, the answer is 204, and nothing of the component is offered any more, whatever RemoveAll
-- leaves behind.
pub handle_delete_root :
    (a : DeleteAnswers) (c : Bytes) (v : Volume)
    → is_component c ≡ true
    → a.stats ≡ true
    → a.renames ≡ true
    → ((handle_delete a c (codes "/") v).0 ≡ 204)
      × ((n : Bytes) → view (handle_delete a c (codes "/") v).1 c n ≡ none)
unfolding handle_delete withdraw_component remove_doomed view
handle_delete_root a c v ok stats renames =
    let safe : safe_key c (codes "/") ≡ true = (safe_key_iff c (codes "/")).1 (ok, inl refl) in
    let slash : bytes_eq (codes "/") (codes "/") ≡ true = bytes_eq_refl (codes "/") in
    let apart : bytes_eq (doomed_name c) c ≡ false =
      different (doomed_name c) c (doomed_name-ne c) in
    rw (safe, stats, slash, renames)
      (refl, λ n. rw (apart, bytes_eq_refl c) (if_none (is_lasting n)))

-- handleDelete on any other name. An answer of 204 means that the tree is not offered any more,
-- whether it was there or not, or that os.Stat failed, and then nothing has changed; any other answer
-- leaves the volume as it was; and no other tree is affected.
pub handle_delete-spares :
    (a : DeleteAnswers) (c n : Bytes) (v : Volume)
    → n ≢ codes "/"
    → ((handle_delete a c n v).0 ≡ 204
        → (view (handle_delete a c n v).1 c n ≡ none)
          ⊎ ((a.stats ≡ false) × ((handle_delete a c n v).1 ≡ v)))
      × ((handle_delete a c n v).0 ≢ 204 → (handle_delete a c n v).1 ≡ v)
      × ((c' n' : Bytes)
          → same_place c n c' n' ≡ false
          → view (handle_delete a c n v).1 c' n' ≡ view v c' n')
unfolding handle_delete
handle_delete-spares a c n v ne = elim (Bool-cases (safe_key c n)) [
  | inr e ↦ rw e ((λ h. absurd (omega arith)), (λ _. refl), (λ c' n' _. refl))
  | inl e ↦ elim (Bool-cases a.stats) [
    | inr s ↦ rw (e, s) ((λ _. inr (refl, refl)), (λ h. absurd (h refl)), (λ c' n' _. refl))
    | inl s ↦
        let plain = different n (codes "/") ne in
        elim (Option-cases (v c n)) [
          | inl gone ↦
              rw (e, s, plain, gone)
                ((λ _. inl (view_gone v c n gone)), (λ h. absurd (h refl)), (λ c' n' _. refl))
          | inr (node, there) ↦ elim (Option-cases (withdraw c n v)) [
            | inl busy ↦
                rw (e, s, plain, there, busy)
                  ((λ h. absurd (omega arith)), (λ _. refl), (λ c' n' _. refl))
            | inr (v', moved) ↦ elim (Bool-cases a.renames) [
              | inr r ↦
                  rw (e, s, plain, there, moved, r)
                    ((λ h. absurd (omega arith)), (λ _. refl), (λ c' n' _. refl))
              | inl r ↦
                  rw (e, s, plain, there, moved, r)
                    (
                      (λ _. inl (
                          behind_withdraw c n a.remains v v' moved c n
                          ∙ view-put_self c n none v
                          ∙ if_none (is_lasting n))),
                      (λ h. absurd (h refl)),
                      (λ c' n' f.
                          behind_withdraw c n a.remains v v' moved c' n'
                          ∙ view-put_elsewhere c n none v c' n' f),
                    )
            ]
          ]
        ]
  ]
]
