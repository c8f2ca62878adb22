-- ===== src/DebUnpack/Volume/Jobs.antt =====
-- cmd/deb-unpack: one unpack. What holds of its staging directory at every step, and which places of
-- the volume a step can write.
use debuginfod_pwndbg_re.Prelude.{
  ℕ, ◌-◌, ◌<◌, Bool, true, false, ◌&&◌, List, [], ◌∷◌, Option, none, some, Bytes, ◌≡◌, inl, inr,
  refl, sym, ap, ◌∙◌, subst, arith, Bool-cases, Option-cases, if◌then◌else◌,
}
use mathlib.Core.Option.{some-injective}
use debuginfod_pwndbg_re.DebUnpack.{
  UnpackRequest, tree_name, starts_with_dot, files_from_dsc, SourceFile, Tree, stale_unpack_age,
}
use debuginfod_pwndbg_re.DebUnpack.Volume.{
  Node, staging, tree, Volume, put, out_of, with_out, touched, marked, is_free, moved_out, Phase,
  starting, creating, fetching_dsc, fetching, extracting, marking, renaming, rechecking, measuring,
  cleaning, finished, UnpackError, failed, Answers, staging_name, parsed, behind_measure,
  has_marker, measured, advance, work_of, IsYoung,
}
use debuginfod_pwndbg_re.DebUnpack.Volume.Places.{put_self}

-- The phases in which `tree` is what dpkg-source made of the package.
abbrev pub is_ready : Phase → Bool
is_ready (marking _) = true
is_ready (renaming _) = true
is_ready _ = false

abbrev pub OnWork : (Bytes → Type 0) → Option Bytes → Type 0
OnWork P none = Unit
OnWork P (some w) = P w

module _ (extract : Bytes → Bytes → List SourceFile) where
  pub record IsStaged (now : ℕ) (r : UnpackRequest) (p : Phase) (w : Bytes) (node : Option Node)
      : Type 0 where
    pub dotted : starts_with_dot w ≡ true
    pub young : IsYoung now node
    pub ready :
        is_ready p ≡ true
        → (t : Tree) → out_of node ≡ some t
        → t.files ≡ extract r.component (tree_name r)

  abbrev pub Staged : ℕ → UnpackRequest → Phase → Volume → Type 0
  Staged now r p v = OnWork (λ w. IsStaged now r p w (v r.component w)) (work_of p)

young_now : (now : ℕ) → now - now < stale_unpack_age
unfolding stale_unpack_age
young_now now = omega arith

touched-IsYoung : (now : ℕ) (node : Option Node) → IsYoung now node → IsYoung now (touched now node)
touched-IsYoung now none y = tt
touched-IsYoung now (some (staging m out)) y = young_now now
touched-IsYoung now (some (tree m t)) y = y

with_out-IsYoung :
    (now : ℕ) (out : Option Tree) (node : Option Node)
    → IsYoung now node
    → IsYoung now (with_out now out node)
with_out-IsYoung now out none y = tt
with_out-IsYoung now out (some (staging m o)) y = young_now now
with_out-IsYoung now out (some (tree m t)) y = y

marked-IsYoung : (now : ℕ) (node : Option Node) → IsYoung now node → IsYoung now (marked node)
marked-IsYoung now none y = tt
marked-IsYoung now (some (staging m none)) y = y
marked-IsYoung now (some (staging m (some t))) y = y
marked-IsYoung now (some (tree m t)) y = y

pub parsed_work :
    (w : Bytes) (dsc : Option Bytes)
    → (work_of (parsed w dsc) ≡ some w) × (is_ready (parsed w dsc) ≡ false)
parsed_work w none = (refl, refl)
parsed_work w (some raw) =
    elim (files_from_dsc raw)
      as (λ o.
        (work_of (elim o [
          | none ↦ cleaning w (failed UnpackError.bad_dsc)
          | some files ↦ fetching w files
        ])
          ≡ some w)
        × (is_ready (elim o [
          | none ↦ cleaning w (failed UnpackError.bad_dsc)
          | some files ↦ fetching w files
        ])
            ≡ false)) [ none ↦ (refl, refl) | some files ↦ (refl, refl) ]

pub staging_name_dotted :
    (r : UnpackRequest) (random : Bytes) → starts_with_dot (staging_name r random) ≡ true
unfolding staging_name
staging_name_dotted r random = refl

-- A phase that goes on with a staging directory that is not ready.
abbrev IsIdle : Bytes → Phase → Type 0
IsIdle w p = (work_of p ≡ some w) × (is_ready p ≡ false)

if-IsIdle :
    (w : Bytes) (b : Bool) (p q : Phase) → IsIdle w p → IsIdle w q → IsIdle w (if b then p else q)
if-IsIdle w true p q i k = i
if-IsIdle w false p q i k = k

module _ (extract : Bytes → Bytes → List SourceFile) where
  idle-Staged :
      (now : ℕ) (r : UnpackRequest) (p : Phase) (w : Bytes) (v : Volume)
      → IsIdle w p
      → starts_with_dot w ≡ true
      → IsYoung now (v r.component w)
      → Staged extract now r p v
  idle-Staged now r p w v (e, i) d y =
      rw e (record { dotted = d; young = y; ready = λ h. absurd (cc) })

  -- Behind a write to the staging directory.
  written-Staged :
      (now : ℕ) (r : UnpackRequest) (p : Phase) (w : Bytes) (node : Option Node) (v : Volume)
      → work_of p ≡ some w
      → starts_with_dot w ≡ true
      → IsYoung now node
      → (is_ready p ≡ true
          → (t : Tree) → out_of node ≡ some t
          → t.files ≡ extract r.component (tree_name r))
      → Staged extract now r p (put r.component w node v)
  written-Staged now r p w node v e d y ready = rw e (record {
    dotted = d;
    young = subst (IsYoung now) (sym (put_self r.component w node v)) y;
    ready = λ h t o. ready h t (sym (ap out_of (put_self r.component w node v)) ∙ o);
  })

  idle_write :
      (now : ℕ) (r : UnpackRequest) (p : Phase) (w : Bytes) (node : Option Node) (v : Volume)
      → IsIdle w p
      → starts_with_dot w ≡ true
      → IsYoung now node
      → Staged extract now r p (put r.component w node v)
  idle_write now r p w node v (e, i) d y = written-Staged now r p w node v e d y (λ h. absurd (cc))

  with_out-ready :
      (now : ℕ) (files : List SourceFile) (goal : List SourceFile) (node : Option Node) (t : Tree)
      → files ≡ goal
      → out_of (with_out now (some (record { files = files; marker = false })) node) ≡ some t
      → t.files ≡ goal
  with_out-ready now files goal none t e o = cc
  with_out-ready now files goal (some (staging m out)) t e o = ground arith
  with_out-ready now files goal (some (tree m u)) t e o = cc

  marked-ready :
      (goal : List SourceFile) (node : Option Node)
      → ((t : Tree) → out_of node ≡ some t → t.files ≡ goal)
      → (t : Tree) → out_of (marked node) ≡ some t
      → t.files ≡ goal
  marked-ready goal none all t o = cc
  marked-ready goal (some (staging m none)) all t o = cc
  marked-ready goal (some (staging m (some u))) all t o = ground (arith, all u refl)
  marked-ready goal (some (tree m u)) all t o = cc

  behind_measure-Staged :
      (now : ℕ) (r : UnpackRequest) (cached : Bool) (work : Option Bytes) (v : Volume)
      (sizes : ℕ × ℕ)
      → Staged extract now r (measuring cached work) v
      → Staged extract now r (behind_measure cached work sizes) v
  behind_measure-Staged now r cached none v sizes s = tt
  behind_measure-Staged now r cached (some w) v sizes s = record {
    dotted = s.dotted;
    young = s.young;
    ready = λ h. absurd (cc);
  }

  if-Staged :
      (now : ℕ) (r : UnpackRequest) (b : Bool) (p q : Phase) (v : Volume)
      → work_of p ≡ none
      → work_of q ≡ none
      → Staged extract now r (if b then p else q) v
  if-Staged now r true p q v e e' = rw e tt
  if-Staged now r false p q v e e' = rw e' tt

  moved_out_work :
      (now : ℕ) (c final w : Bytes) (v : Volume) (out : Option Tree) (v' : Volume)
      → moved_out now c final w v out ≡ some v'
      → v' c w ≡ some (staging now none)
  moved_out_work now c final w v none v' h = cc
  moved_out_work now c final w v (some t) v' h = elim (Bool-cases (is_free (v c final))) [
    | inr e ↦ absurd (cc (rw e at h))
    | inl e ↦
        subst (λ u. u c w ≡ some (staging now none)) (some-injective _ _ (rw e at h))
          (put_self c w (some (staging now none)) (put c final (some (tree now t)) v))
  ]

  -- One step keeps what is known of the staging directory, if dpkg-source does what it should.
  pub advance-Staged :
      (a : Answers) (now : ℕ) (r : UnpackRequest) (p : Phase) (v : Volume)
      → (a.exits && a.succeeds ≡ true → a.extracted ≡ extract r.component (tree_name r))
      → Staged extract now r p v
      → Staged extract now r (advance a now r p v).0 (advance a now r p v).1
  unfolding advance
  advance-Staged a now r starting v ex s =
      if-Staged now r (has_marker (v r.component (tree_name r))) (measuring true none) creating v
        refl refl
  advance-Staged a now r creating v ex s = elim (Bool-cases a.makes_dirs) [
    | inr e ↦ rw e tt
    | inl e ↦ elim (Option-cases a.temp) [
      | inl n ↦ rw (e, n) tt
      | inr (random, n) ↦
          rw (e, n)
            (idle_write now r (fetching_dsc (staging_name r random)) (staging_name r random)
              (some (staging now none)) v (refl, refl) (staging_name_dotted r random)
              (young_now now))
    ]
  ]
  advance-Staged a now r (fetching_dsc w) v ex s =
      idle_write now r _ w (touched now (v r.component w)) v
        (if-IsIdle w a.fetches _ _ (parsed_work w a.dsc) (refl, refl)) s.dotted
        (touched-IsYoung now (v r.component w) s.young)
  advance-Staged a now r (fetching w []) v ex s =
      idle-Staged now r (extracting w) w v (refl, refl) s.dotted s.young
  advance-Staged a now r (fetching w (f ∷ files)) v ex s =
      idle_write now r _ w (touched now (v r.component w)) v
        (if-IsIdle w a.fetches _ _ (refl, refl) (refl, refl)) s.dotted
        (touched-IsYoung now (v r.component w) s.young)
  advance-Staged a now r (extracting w) v ex s =
      let young =
        with_out-IsYoung now (some (record { files = a.extracted; marker = false }))
          (v r.component w) s.young in
      elim (Bool-cases a.exits) [
        | inr e ↦ rw e (idle_write now r (extracting w) w _ v (refl, refl) s.dotted young)
        | inl e ↦ elim (Bool-cases a.succeeds) [
          | inr e' ↦
              rw (e, e')
                (idle_write now r (cleaning w (failed UnpackError.dpkg_source)) w _ v (refl, refl)
                  s.dotted young)
          | inl e' ↦
              rw (e, e')
                (written-Staged now r (marking w) w _ v refl s.dotted young (λ _ t o.
                  with_out-ready now a.extracted _ (v r.component w) t (ex (rw (e, e') refl)) o))
        ]
      ]
  advance-Staged a now r (marking w) v ex s = elim (Bool-cases a.writes_marker) [
    | inl e ↦ rw e (
        written-Staged now r (renaming w) w (marked (v r.component w)) v refl s.dotted
          (marked-IsYoung now (v r.component w) s.young)
          (λ _. marked-ready _ (v r.component w) (s.ready refl)))
    | inr e ↦ rw e (
        idle-Staged now r (cleaning w (failed UnpackError.no_marker)) w v (refl, refl) s.dotted
          s.young)
  ]
  advance-Staged a now r (renaming w) v ex s =
      let moved = moved_out now r.component (tree_name r) w v (out_of (v r.component w)) in
      let stays = idle-Staged now r (rechecking w) w v (refl, refl) s.dotted s.young in
      elim (Bool-cases a.renames) [
        | inr e ↦ rw e stays
        | inl e ↦ elim (Option-cases moved) [
          | inl n ↦ rw (e, n) stays
          | inr (v', n) ↦
              rw (e, n)
                (idle-Staged now r (measuring false (some w)) w v' (refl, refl) s.dotted
                  (subst (IsYoung now)
                    (sym (
                      moved_out_work now r.component (tree_name r) w v (out_of (v r.component w)) v'
                        n))
                    (young_now now)))
        ]
      ]
  advance-Staged a now r (rechecking w) v ex s =
      idle-Staged now r _ w v
        (if-IsIdle w (has_marker (v r.component (tree_name r))) _ _ (refl, refl) (refl, refl))
        s.dotted s.young
  advance-Staged a now r (measuring cached work) v ex s =
      behind_measure-Staged now r cached work v (measured (v r.component (tree_name r))) s
  advance-Staged a now r (cleaning w outcome) v ex s = tt
  advance-Staged a now r (finished outcome) v ex s = tt
