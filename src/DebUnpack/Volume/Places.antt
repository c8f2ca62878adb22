-- ===== src/DebUnpack/Volume/Places.antt =====
-- cmd/deb-unpack: what a reader of the volume sees, and how a write changes it.
use debuginfod_pwndbg_re.Prelude.{
  Bool, true, false, not, ◌||◌, List, [], ◌∷◌, ◌++◌, Option, none, some, Bytes, codes, bytes_eq,
  bytes_eq_refl, bytes_eq_sound, has_suffix, ◌≡◌, inl, inr, refl, ◌∙◌, subst, arith, Bool-cases,
  if◌then◌else◌,
}
use debuginfod_pwndbg_re.DebUnpack.{SourceFile, starts_with_dot, is_deleting}
use debuginfod_pwndbg_re.DebUnpack.Volume.{
  Node, Volume, staging, tree, same_place, put, doomed_name,
}

-- A name that neither a staging directory nor a tree on its way out has.
abbrev pub is_lasting : Bytes → Bool
is_lasting n = not (starts_with_dot n || is_deleting n)

abbrev pub finished_files : Option Node → Option (List SourceFile)
finished_files none = none
finished_files (some (staging _ _)) = none
finished_files (some (tree _ t)) = if t.marker then some t.files else none

-- The finished trees: under a lasting name, with their marker.
unfoldable pub view : Volume → Bytes → Bytes → Option (List SourceFile)
view v c n = if is_lasting n then finished_files (v c n) else none

pub same_place_sound : (c n c' n' : Bytes) → same_place c n c' n' ≡ true → (c ≡ c') × (n ≡ n')
same_place_sound c n c' n' h = elim (Bool-cases (bytes_eq c c')) [
  | inr e ↦ absurd (cc (rw e at h))
  | inl e ↦ (bytes_eq_sound c c' e, bytes_eq_sound n n' (rw e at h))
]

pub same_place_refl : (c n : Bytes) → same_place c n c n ≡ true
same_place_refl c n = rw (bytes_eq_refl c, bytes_eq_refl n) refl

pub put_self : (c n : Bytes) (x : Option Node) (v : Volume) → put c n x v c n ≡ x
unfolding put
put_self c n x v = rw (same_place_refl c n) refl

pub put_elsewhere :
    (c n : Bytes) (x : Option Node) (v : Volume) (c' n' : Bytes)
    → same_place c n c' n' ≡ false
    → put c n x v c' n' ≡ v c' n'
unfolding put
put_elsewhere c n x v c' n' h = rw h refl

pub view-put_elsewhere :
    (c n : Bytes) (x : Option Node) (v : Volume) (c' n' : Bytes)
    → same_place c n c' n' ≡ false
    → view (put c n x v) c' n' ≡ view v c' n'
unfolding view
view-put_elsewhere c n x v c' n' h = rw (put_elsewhere c n x v c' n' h) refl

pub view-put_self :
    (c n : Bytes) (x : Option Node) (v : Volume)
    → view (put c n x v) c n ≡ (if is_lasting n then finished_files x else none)
unfolding view
view-put_self c n x v = rw (put_self c n x v) refl

pub view_hidden : (v : Volume) (c n : Bytes) → is_lasting n ≡ false → view v c n ≡ none
unfolding view
view_hidden v c n h = rw h refl

pub view_lasting :
    (v : Volume) (c n : Bytes) → is_lasting n ≡ true → view v c n ≡ finished_files (v c n)
unfolding view
view_lasting v c n h = rw h refl

-- A write that a reader does not notice.
pub view-put_same :
    (c n : Bytes) (x : Option Node) (v : Volume)
    → ((if is_lasting n then finished_files x else none) ≡ view v c n)
    → (c' n' : Bytes) → view (put c n x v) c' n' ≡ view v c' n'
view-put_same c n x v keeps c' n' = elim (Bool-cases (same_place c n c' n')) [
  | inr e ↦ view-put_elsewhere c n x v c' n' e
  | inl e ↦
      let (p, q) = same_place_sound c n c' n' e in
      subst (λ d. view (put c n x v) d n' ≡ view v d n') p
        (subst (λ m. view (put c n x v) c m ≡ view v c m) q (view-put_self c n x v ∙ keeps))
]

pub view-put_hidden :
    (c n : Bytes) (x : Option Node) (v : Volume)
    → is_lasting n ≡ false
    → (c' n' : Bytes) → view (put c n x v) c' n' ≡ view v c' n'
view-put_hidden c n x v h = view-put_same c n x v (rw (h, view_hidden v c n h) refl)

pub dotted_hidden : (n : Bytes) → starts_with_dot n ≡ true → is_lasting n ≡ false
dotted_hidden n h = rw h refl

has_suffix-append : (s p : Bytes) → has_suffix (s ++ p) p ≡ true
unfolding has_suffix bytes_eq
has_suffix-append [] [] = refl
has_suffix-append [] (c ∷ p) = rw (bytes_eq_refl (c ∷ p)) refl
has_suffix-append (b ∷ s) p = ground (arith, has_suffix-append s p)

pub doomed-is_deleting : (n : Bytes) → is_deleting (doomed_name n) ≡ true
unfolding is_deleting doomed_name
doomed-is_deleting n = has_suffix-append n (codes ".deleting")

pub deleting_hidden : (n : Bytes) → is_deleting n ≡ true → is_lasting n ≡ false
deleting_hidden n h = ground (arith, h)
