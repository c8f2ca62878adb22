-- ===== src/DebUnpack/Volume/Writes.antt =====
-- cmd/deb-unpack: the places of the volume that one step of an unpack can write.
use debuginfod_pwndbg_re.Prelude.{
  ℕ, Bool, true, false, not, [], ◌∷◌, Option, none, some, Bytes, ◌≡◌, ◌⊎◌, inl, inr, refl, sym, ◌∙◌,
  subst, Bool-cases, Option-cases, if◌then◌else◌,
}
use mathlib.Core.Option.{some-injective}
use debuginfod_pwndbg_re.DebUnpack.{UnpackRequest, tree_name, Tree}
use debuginfod_pwndbg_re.DebUnpack.Volume.{
  tree, Volume, same_place, put, out_of, is_free, moved_out, Phase, starting, creating,
  fetching_dsc, fetching, extracting, marking, renaming, rechecking, measuring, cleaning, finished,
  Answers, staging_name, behind_measure, has_marker, measured, advance, work_of,
}
use debuginfod_pwndbg_re.DebUnpack.Volume.Places.{put_elsewhere}
use debuginfod_pwndbg_re.DebUnpack.Volume.Jobs.{parsed_work}

-- The staging directory that a step uses: MkdirTemp's, or the one from before.
abbrev pub next_work : Answers → UnpackRequest → Phase → Option Bytes
next_work a r creating = elim a.temp [ none ↦ none | some random ↦ some (staging_name r random) ]
next_work a r p = work_of p

pub next_work-cases :
    (a : Answers) (r : UnpackRequest) (p : Phase) (w : Bytes)
    → next_work a r p ≡ some w
    → (work_of p ≡ some w)
      ⊎ ((random : Bytes) × (a.temp ≡ some random) × (staging_name r random ≡ w))
next_work-cases a r creating w h = elim (Option-cases a.temp) [
  | inl n ↦ absurd (cc (rw n at h))
  | inr (random, n) ↦ inr (random, n, some-injective _ _ (rw n at h))
]
next_work-cases a r starting w h = inl h
next_work-cases a r (fetching_dsc x) w h = inl h
next_work-cases a r (fetching x fs) w h = inl h
next_work-cases a r (extracting x) w h = inl h
next_work-cases a r (marking x) w h = inl h
next_work-cases a r (renaming x) w h = inl h
next_work-cases a r (rechecking x) w h = inl h
next_work-cases a r (measuring b x) w h = inl h
next_work-cases a r (cleaning x o) w h = inl h
next_work-cases a r (finished o) w h = inl h

if_work :
    (b : Bool) (p q : Phase) (o : Option Bytes)
    → work_of p ≡ o
    → work_of q ≡ o
    → work_of (if b then p else q) ≡ o
if_work true p q o e e' = e
if_work false p q o e e' = e'

behind_measure_work :
    (cached : Bool) (work : Option Bytes) (sizes : ℕ × ℕ)
    → work_of (behind_measure cached work sizes) ≡ work
behind_measure_work cached none sizes = refl
behind_measure_work cached (some w) sizes = refl

-- A step takes up no other directory.
pub advance_work :
    (a : Answers) (now : ℕ) (r : UnpackRequest) (p : Phase) (v : Volume) (w : Bytes)
    → work_of (advance a now r p v).0 ≡ some w
    → next_work a r p ≡ some w
unfolding advance
advance_work a now r starting v w h = absurd (
    cc (
      if_work (has_marker (v r.component (tree_name r))) (measuring true none) creating none refl
          refl,
      h,
    ))
advance_work a now r creating v w h = elim (Bool-cases a.makes_dirs) [
  | inr e ↦ absurd (cc (rw e at h))
  | inl e ↦ elim (Option-cases a.temp) [
    | inl n ↦ absurd (cc (rw (e, n) at h))
    | inr (random, n) ↦ rw n (rw (e, n) at h)
  ]
]
advance_work a now r (fetching_dsc x) v w h =
    sym (if_work a.fetches _ _ (some x) (parsed_work x a.dsc).0 refl) ∙ h
advance_work a now r (fetching x []) v w h = h
advance_work a now r (fetching x (f ∷ fs)) v w h =
    sym (if_work a.fetches _ _ (some x) refl refl) ∙ h
advance_work a now r (extracting x) v w h =
    sym (if_work (not a.exits) _ _ (some x) refl (if_work a.succeeds _ _ (some x) refl refl)) ∙ h
advance_work a now r (marking x) v w h = elim (Bool-cases a.writes_marker) [
  | inl e ↦ rw e at h
  | inr e ↦ rw e at h
]
advance_work a now r (renaming x) v w h = elim (Bool-cases a.renames) [
  | inr e ↦ rw e at h
  | inl e ↦
      elim (Option-cases (moved_out now r.component (tree_name r) x v (out_of (v r.component x)))) [
        | inl n ↦ rw (e, n) at h
        | inr (v', n) ↦ rw (e, n) at h
      ]
]
advance_work a now r (rechecking x) v w h =
    sym (if_work (has_marker (v r.component (tree_name r))) _ _ (some x) refl refl) ∙ h
advance_work a now r (measuring b x) v w h =
    sym (behind_measure_work b x (measured (v r.component (tree_name r)))) ∙ h
advance_work a now r (cleaning x o) v w h = cc
advance_work a now r (finished o) v w h = cc

module _ (c' n' : Bytes) where
  moved_out_elsewhere :
      (now : ℕ) (c final w : Bytes) (v : Volume) (out : Option Tree) (v' : Volume)
      → same_place c final c' n' ≡ false
      → same_place c w c' n' ≡ false
      → moved_out now c final w v out ≡ some v'
      → v' c' n' ≡ v c' n'
  moved_out_elsewhere now c final w v none v' f g h = cc
  moved_out_elsewhere now c final w v (some t) v' f g h = elim (Bool-cases (is_free (v c final))) [
    | inr e ↦ absurd (cc (rw e at h))
    | inl e ↦
        subst (λ u. u c' n' ≡ v c' n') (some-injective _ _ (rw e at h))
          (put_elsewhere c w _ (put c final (some (tree now t)) v) c' n' g
            ∙ put_elsewhere c final _ v c' n' f)
  ]

  -- A step writes nothing but its tree and its staging directory.
  pub advance_elsewhere :
      (a : Answers) (now : ℕ) (r : UnpackRequest) (p : Phase) (v : Volume)
      → same_place r.component (tree_name r) c' n' ≡ false
      → ((w : Bytes) → next_work a r p ≡ some w → same_place r.component w c' n' ≡ false)
      → (advance a now r p v).1 c' n' ≡ v c' n'
  unfolding advance
  advance_elsewhere a now r starting v f g = refl
  advance_elsewhere a now r creating v f g = elim (Bool-cases a.makes_dirs) [
    | inr e ↦ rw e refl
    | inl e ↦ elim (Option-cases a.temp) [
      | inl n ↦ rw (e, n) refl
      | inr (random, n) ↦
          rw (e, n) (put_elsewhere r.component (staging_name r random) _ v c' n' (g _ (rw n refl)))
    ]
  ]
  advance_elsewhere a now r (fetching_dsc x) v f g =
      put_elsewhere r.component x _ v c' n' (g x refl)
  advance_elsewhere a now r (fetching x []) v f g = refl
  advance_elsewhere a now r (fetching x (q ∷ fs)) v f g =
      put_elsewhere r.component x _ v c' n' (g x refl)
  advance_elsewhere a now r (extracting x) v f g = put_elsewhere r.component x _ v c' n' (g x refl)
  advance_elsewhere a now r (marking x) v f g = elim (Bool-cases a.writes_marker) [
    | inl e ↦ rw e (put_elsewhere r.component x _ v c' n' (g x refl))
    | inr e ↦ rw e refl
  ]
  advance_elsewhere a now r (renaming x) v f g = elim (Bool-cases a.renames) [
    | inr e ↦ rw e refl
    | inl e ↦
        elim (Option-cases
          (moved_out now r.component (tree_name r) x v (out_of (v r.component x)))) [
            | inl n ↦ rw (e, n) refl
            | inr (v', n) ↦
                rw (e, n)
                  (moved_out_elsewhere now r.component (tree_name r) x v _ v' f (g x refl) n)
          ]
  ]
  advance_elsewhere a now r (rechecking x) v f g = refl
  advance_elsewhere a now r (measuring b x) v f g = refl
  advance_elsewhere a now r (cleaning x o) v f g = put_elsewhere r.component x _ v c' n' (g x refl)
  advance_elsewhere a now r (finished o) v f g = refl
