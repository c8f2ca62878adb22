-- ===== src/DebUnpack/Volume/Whole.antt =====
-- cmd/deb-unpack: trees come and go whole. The volume as a reader sees it against a store of finished
-- trees, under every interleaving of unpacks, deletions, sweeps and crashes.
use debuginfod_pwndbg_re.Prelude.{
  ℕ, Bool, true, false, List, [], ◌∷◌, Option, none, some, Bytes, bytes_eq, bytes_eq_refl,
  bytes_eq_sound, ◌≡◌, inl, inr, refl, sym, ap, ◌∙◌, subst, arith, Bool-cases, Option-cases,
  if◌then◌else◌,
}
use mathlib.Core.Option.{some-injective}
use debuginfod_pwndbg_re.DebUnpack.{
  UnpackRequest, tree_name, starts_with_dot, is_component, SourceFile, Tree, is_abandoned,
}
use debuginfod_pwndbg_re.DebUnpack.Volume.{
  Node, staging, tree, Volume, same_place, put, out_of, is_free, moved_out, Phase, starting,
  creating, fetching_dsc, fetching, extracting, marking, renaming, rechecking, measuring, cleaning,
  finished, Answers, staging_name, advance, doomed_name, Unpacker, Step, arrive, work, crash,
  delete, delete_component, remove_component, withdraw_component, remove_doomed, remove, sweep,
  wait, Reach, here, next, empty_volume,
}
use debuginfod_pwndbg_re.DebUnpack.Volume.Places.{
  is_lasting, finished_files, view, same_place_sound, view-put_elsewhere, view-put_self,
  view_lasting, view-put_same, view-put_hidden, dotted_hidden, doomed-is_deleting, deleting_hidden,
}
use debuginfod_pwndbg_re.DebUnpack.Volume.Jobs.{Staged, staging_name_dotted}
use debuginfod_pwndbg_re.DebUnpack.Volume.Sound.{
  IsSound, Step-IsSound, withdraw_lem, doomed_component,
}

abbrev pub View : Type 0
View = Bytes → Bytes → Option (List SourceFile)

-- What may happen to a store of finished trees: nothing, a whole tree appears where there was none,
-- a whole tree goes, or all trees of a component go.
pub data Change (extract : Bytes → Bytes → List SourceFile) (a b : View) : Type 0 where
  same : ((c n : Bytes) → b c n ≡ a c n) → Change extract a b
  publish :
      (c n : Bytes)
      → a c n ≡ none
      → b c n ≡ some (extract c n)
      → ((c' n' : Bytes) → same_place c n c' n' ≡ false → b c' n' ≡ a c' n')
      → Change extract a b
  retire :
      (c n : Bytes)
      → b c n ≡ none
      → ((c' n' : Bytes) → same_place c n c' n' ≡ false → b c' n' ≡ a c' n')
      → Change extract a b
  clear :
      (c : Bytes)
      → ((n : Bytes) → b c n ≡ none)
      → ((c' n' : Bytes) → bytes_eq c c' ≡ false → b c' n' ≡ a c' n')
      → Change extract a b

-- The finished trees of the volume: with their marker, in the components that the service knows, under
-- a lasting name.
abbrev pub offered : Volume → View
offered v c n = if is_component c then view v c n else none

if_same : (b : Bool) → ◌≡◌ {A = Option (List SourceFile)} (if b then none else none) none
if_same true = refl
if_same false = refl

free_files : (node : Option Node) → is_free node ≡ true → finished_files node ≡ none
free_files none h = refl
free_files (some (staging m o)) h = cc
free_files (some (tree m t)) h = ground (arith, h)

module _ (extract : Bytes → Bytes → List SourceFile) where
  -- A tree is put where nothing was.
  put-Changes :
      (now : ℕ) (c n : Bytes) (t : Tree) (v : Volume)
      → is_free (v c n) ≡ true
      → t.files ≡ extract c n
      → Change extract (view v) (view (put c n (some (tree now t)) v))
  put-Changes now c n t v free e = elim (Bool-cases (is_lasting n)) [
    | inr hidden ↦ Change.same (view-put_hidden c n (some (tree now t)) v hidden)
    | inl lasting ↦
        let before : view v c n ≡ none = view_lasting v c n lasting ∙ free_files (v c n) free in
        elim (Bool-cases t.marker) [
          | inr unmarked ↦
              Change.same
                (view-put_same c n (some (tree now t)) v (rw (lasting, unmarked) (sym before)))
          | inl marked' ↦
              Change.publish c n before
                (view-put_self c n (some (tree now t)) v ∙ rw (lasting, marked') (ap some e))
                (view-put_elsewhere c n (some (tree now t)) v)
        ]
  ]

  -- What a change looks like behind a write that no reader notices.
  unnoticed :
      (a b b' : View) → ((c n : Bytes) → b' c n ≡ b c n) → Change extract a b → Change extract a b'
  unnoticed a b b' e (Change.same s) = Change.same (λ c n. e c n ∙ s c n)
  unnoticed a b b' e (Change.publish c n p q r) =
      Change.publish c n p (e c n ∙ q) (λ c' n' f. e c' n' ∙ r c' n' f)
  unnoticed a b b' e (Change.retire c n q r) =
      Change.retire c n (e c n ∙ q) (λ c' n' f. e c' n' ∙ r c' n' f)
  unnoticed a b b' e (Change.clear c q r) =
      Change.clear c (λ n. e c n ∙ q n) (λ c' n' f. e c' n' ∙ r c' n' f)

  hidden_write :
      (c n : Bytes) (x : Option Node) (v : Volume)
      → is_lasting n ≡ false
      → Change extract (view v) (view (put c n x v))
  hidden_write c n x v h = Change.same (view-put_hidden c n x v h)

  moved_out-Changes :
      (now : ℕ) (c final w : Bytes) (v : Volume) (out : Option Tree) (v' : Volume)
      → starts_with_dot w ≡ true
      → ((t : Tree) → out ≡ some t → t.files ≡ extract c final)
      → moved_out now c final w v out ≡ some v'
      → Change extract (view v) (view v')
  moved_out-Changes now c final w v none v' d ready h = cc
  moved_out-Changes now c final w v (some t) v' d ready h =
      elim (Bool-cases (is_free (v c final))) [
        | inr e ↦ absurd (cc (rw e at h))
        | inl e ↦
            let moved = put c final (some (tree now t)) v in
            subst (λ u. Change extract (view v) (view u)) (some-injective _ _ (rw e at h))
              (unnoticed (view v) (view moved) (view (put c w (some (staging now none)) moved))
                (view-put_hidden c w (some (staging now none)) moved (dotted_hidden w d))
                (put-Changes now c final t v e (ready t refl)))
      ]

  quiet : (v : Volume) → Change extract (view v) (view v)
  quiet v = Change.same (λ c n. refl)

  -- One step of an unpack publishes a whole tree, or no reader notices it.
  advance-Changes :
      (a : Answers) (now : ℕ) (r : UnpackRequest) (p : Phase) (v : Volume)
      → Staged extract now r p v
      → Change extract (view v) (view (advance a now r p v).1)
  unfolding advance
  advance-Changes a now r starting v s = quiet v
  advance-Changes a now r creating v s = elim (Bool-cases a.makes_dirs) [
    | inr e ↦ rw e (quiet v)
    | inl e ↦ elim (Option-cases a.temp) [
      | inl n ↦ rw (e, n) (quiet v)
      | inr (random, n) ↦
          rw (e, n)
            (hidden_write r.component (staging_name r random) _ v
              (dotted_hidden (staging_name r random) (staging_name_dotted r random)))
    ]
  ]
  advance-Changes a now r (fetching_dsc w) v s =
      hidden_write r.component w _ v (dotted_hidden w s.dotted)
  advance-Changes a now r (fetching w []) v s = quiet v
  advance-Changes a now r (fetching w (f ∷ files)) v s =
      hidden_write r.component w _ v (dotted_hidden w s.dotted)
  advance-Changes a now r (extracting w) v s =
      hidden_write r.component w _ v (dotted_hidden w s.dotted)
  advance-Changes a now r (marking w) v s = elim (Bool-cases a.writes_marker) [
    | inl e ↦ rw e (hidden_write r.component w _ v (dotted_hidden w s.dotted))
    | inr e ↦ rw e (quiet v)
  ]
  advance-Changes a now r (renaming w) v s = elim (Bool-cases a.renames) [
    | inr e ↦ rw e (quiet v)
    | inl e ↦
        elim (Option-cases
          (moved_out now r.component (tree_name r) w v (out_of (v r.component w)))) [
            | inl n ↦ rw (e, n) (quiet v)
            | inr (v', n) ↦
                rw (e, n)
                  (moved_out-Changes now r.component (tree_name r) w v _ v' s.dotted (s.ready refl)
                    n)
          ]
  ]
  advance-Changes a now r (rechecking w) v s = quiet v
  advance-Changes a now r (measuring cached w) v s = quiet v
  advance-Changes a now r (cleaning w outcome) v s =
      hidden_write r.component w _ v (dotted_hidden w s.dotted)
  advance-Changes a now r (finished outcome) v s = quiet v

  withdrawn :
      (c n : Bytes) (x : Option Node) (v : Volume)
      → Change extract (view v) (view (put c (doomed_name n) x (put c n none v)))
  withdrawn c n x v =
      let gone = put c n none v in
      unnoticed (view v) (view gone) (view (put c (doomed_name n) x gone))
        (view-put_hidden c (doomed_name n) x gone (deleting_hidden _ (doomed-is_deleting n)))
        (Change.retire c n (view-put_self c n none v ∙ if_same (is_lasting n))
          (view-put_elsewhere c n none v))

  abandoned_hidden :
      (now age : ℕ) (n : Bytes) (m : Option ℕ)
      → is_abandoned now age n m ≡ true
      → is_lasting n ≡ false
  unfolding is_abandoned
  abandoned_hidden now age n none h = cc
  abandoned_hidden now age n (some m) h = ground (arith, h)

  offered_same :
      (v v' : Volume) (c n : Bytes) → view v' c n ≡ view v c n → offered v' c n ≡ offered v c n
  offered_same v v' c n = ap (λ x. if is_component c then x else none)

  unknown_same :
      (v v' : Volume) (c n c' n' : Bytes)
      → is_component c ≡ false
      → (same_place c n c' n' ≡ false → view v' c' n' ≡ view v c' n')
      → offered v' c' n' ≡ offered v c' n'
  unknown_same v v' c n c' n' alien r = elim (Bool-cases (same_place c n c' n')) [
    | inr f ↦ offered_same v v' c' n' (r f)
    | inl e ↦
        let unknown : is_component c' ≡ false =
          subst (λ x. is_component x ≡ false) (same_place_sound c n c' n' e).0 alien in
        rw unknown refl
  ]

  -- A change that is seen where the service looks.
  offered-Changes :
      (v v' : Volume) → Change extract (view v) (view v') → Change extract (offered v) (offered v')
  offered-Changes v v' (Change.same s) = Change.same (λ c n. offered_same v v' c n (s c n))
  offered-Changes v v' (Change.publish c n p q r) = elim (Bool-cases (is_component c)) [
    | inl ok ↦
        Change.publish c n (rw ok p) (rw ok q) (λ c' n' f. offered_same v v' c' n' (r c' n' f))
    | inr alien ↦ Change.same (λ c' n'. unknown_same v v' c n c' n' alien (r c' n'))
  ]
  offered-Changes v v' (Change.retire c n q r) =
      Change.retire c n (ap (λ x. if is_component c then x else none) q ∙ if_same (is_component c))
        (λ c' n' f. offered_same v v' c' n' (r c' n' f))
  offered-Changes v v' (Change.clear c q r) =
      Change.clear c
        (λ n. ap (λ x. if is_component c then x else none) (q n) ∙ if_same (is_component c))
        (λ c' n' f. offered_same v v' c' n' (r c' n' f))

  cleared :
      (c : Bytes) (v : Volume)
      → is_component c ≡ true
      → Change extract (offered v) (offered (withdraw_component c v))
  unfolding withdraw_component view
  cleared c v ok =
      Change.clear c
        (λ n. rw (ok, doomed_component c c ok, bytes_eq_refl c) (if_same (is_lasting n)))
        (λ c' n' f. elim (Bool-cases (is_component c')) [
          | inr alien ↦ rw alien refl
          | inl ok' ↦ rw (ok', doomed_component c c' ok', f) refl
        ])

  removed_unseen :
      (c : Bytes) (remains : Bytes → Option Node) (v : Volume)
      → Change extract (offered v) (offered (remove_doomed c remains v))
  unfolding remove_doomed view
  removed_unseen c remains v = Change.same (λ c' n'. elim (Bool-cases (is_component c')) [
    | inr alien ↦ rw alien refl
    | inl ok' ↦ rw (ok', doomed_component c c' ok') refl
  ])

  Step-Changes :
      {s t : Unpacker}
      → IsSound extract s
      → Step extract s t
      → Change extract (offered s.volume) (offered t.volume)
  Step-Changes {s} h (arrive i r _ ok free) = Change.same (λ c n. refl)
  Step-Changes h (work i j a s e ex fresh) =
      offered-Changes s.volume _
        (advance-Changes a s.now j.request j.phase s.volume (h.staged i j e))
  Step-Changes h (crash s) = Change.same (λ c n. refl)
  Step-Changes h (delete c n v s ok root e) =
      let (node, there, eq) = withdraw_lem c n s.volume v e in
      offered-Changes s.volume v (
        subst (λ u. Change extract (view s.volume) (view u)) (sym eq)
          (withdrawn c n (some node) s.volume))
  Step-Changes h (delete_component c s ok) = cleared c s.volume ok
  Step-Changes h (remove_component c remains s) = removed_unseen c remains s.volume
  Step-Changes h (remove c n remains s del shown) =
      offered-Changes s.volume _ (hidden_write c n remains s.volume (deleting_hidden n del))
  Step-Changes h (sweep c n node remains s there old) =
      offered-Changes s.volume _
        (hidden_write c n remains s.volume (abandoned_hidden s.now _ n _ old))
  Step-Changes h (wait now' s young) = Change.same (λ c n. refl)

  start-IsSound : IsSound extract empty_volume
  start-IsSound = record {
    valid = λ i j e. absurd (cc);
    staged = λ i j e. absurd (cc);
    apart = λ i k j j' c w e. absurd (cc);
  }

  Reach-IsSound : {s : Unpacker} → Reach extract empty_volume s → IsSound extract s
  Reach-IsSound here = start-IsSound
  Reach-IsSound (next r st) = Step-IsSound extract st (Reach-IsSound r)

  -- The volume implements a store of finished trees. In every interleaving of unpacks, deletions
  -- (also of the name "/"), sweeps and crashes that starts with an empty volume, one step changes
  -- what the service offers in no way but four: not at all, by the whole tree of one package that
  -- was not there, by one tree that goes, or by all trees of one component that go. Offered are the
  -- trees with a marker in the components that the service knows, under names that neither start
  -- with a dot nor end in ".deleting". What dpkg-source makes of a package when it succeeds is an
  -- argument.
  pub Reach-Changes :
      {s t : Unpacker}
      → Reach extract empty_volume s
      → Step extract s t
      → Change extract (offered s.volume) (offered t.volume)
  Reach-Changes r st = Step-Changes (Reach-IsSound r) st

  change_whole :
      (a b : View)
      → Change extract a b
      → ((c n : Bytes) (files : List SourceFile) → a c n ≡ some files → files ≡ extract c n)
      → (c n : Bytes) (files : List SourceFile) → b c n ≡ some files
      → files ≡ extract c n
  change_whole a b (Change.same s) all c n files e = all c n files (sym (s c n) ∙ e)
  change_whole a b (Change.publish c' n' p q r) all c n files e =
      elim (Bool-cases (same_place c' n' c n)) [
        | inr f ↦ all c n files (sym (r c n f) ∙ e)
        | inl f ↦
            let (u, w) = same_place_sound c' n' c n f in
            let q' : b c n ≡ some (extract c n) =
              subst (λ d. b d n ≡ some (extract d n)) u
                (subst (λ m. b c' m ≡ some (extract c' m)) w q) in
            some-injective _ _ (sym e ∙ q')
      ]
  change_whole a b (Change.retire c' n' q r) all c n files e =
      elim (Bool-cases (same_place c' n' c n)) [
        | inr f ↦ all c n files (sym (r c n f) ∙ e)
        | inl f ↦
            let (u, w) = same_place_sound c' n' c n f in
            let q' : b c n ≡ none = subst (λ d. b d n ≡ none) u (subst (λ m. b c' m ≡ none) w q) in
            absurd (cc)
      ]
  change_whole a b (Change.clear c' q r) all c n files e = elim (Bool-cases (bytes_eq c' c)) [
    | inr f ↦ all c n files (sym (r c n f) ∙ e)
    | inl f ↦
        let q' : b c n ≡ none = subst (λ d. b d n ≡ none) (bytes_eq_sound c' c f) (q n) in
        absurd (cc)
  ]

  -- A tree with a marker, in a component that the service knows, under a name that neither starts
  -- with a dot nor ends in ".deleting", is complete: however unpacks, deletions (also of the name
  -- "/"), sweeps and crashes interleave, its files are just those that dpkg-source makes of that
  -- package.
  pub Reach-whole :
      {s : Unpacker}
      → Reach extract empty_volume s
      → (c n : Bytes) (files : List SourceFile) → offered s.volume c n ≡ some files
      → files ≡ extract c n
  unfolding view
  Reach-whole here c n files e = ground (arith, e)
  Reach-whole (next {t} {u} r st) c n files e =
      change_whole (offered t.volume) (offered u.volume) (Reach-Changes r st) (Reach-whole r) c n
        files e
