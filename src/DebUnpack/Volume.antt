-- ===== src/DebUnpack/Volume.antt =====
-- cmd/deb-unpack: the volume, and what unpack (main.go), handleDelete and sweepStale (trees.go) do to
-- it, side by side. `advance` is one step of an unpack between two calls that the world answers.
use debuginfod_pwndbg_re.Prelude.{
  ℕ, ◌+◌, ◌-◌, ◌≤◌, ◌<◌, Bool, true, false, not, ◌&&◌, ◌||◌, List, [], ◌∷◌, ◌++◌, Option, none,
  some, Bytes, codes, bytes_eq, ◌==◌, ◌≡◌, ◌≢◌, if◌then◌else◌,
}
use debuginfod_pwndbg_re.DebUnpack.{
  UnpackRequest, with_component, is_valid, tree_name, starts_with_dot, is_component, safe_key,
  files_from_dsc, SourceFile, Tree, measure, stale_unpack_age, is_deleting, is_abandoned,
}
pub mod Places
pub mod Jobs
pub mod Writes
pub mod Sound
pub mod Whole

-- A staging directory with its `tree`, or a tree; each with the time of its last change.
pub data Node : Type 0 where
  staging : ℕ → Option Tree → Node
  tree : ℕ → Tree → Node

-- By component and name.
abbrev pub Volume : Type 0
Volume = Bytes → Bytes → Option Node

abbrev pub same_place : Bytes → Bytes → Bytes → Bytes → Bool
same_place c n c' n' = bytes_eq c c' && bytes_eq n n'

unfoldable pub put : Bytes → Bytes → Option Node → Volume → Volume
put c n x v = λ c' n'. if same_place c n c' n' then x else v c' n'

abbrev pub modified_of : Node → ℕ
modified_of (staging m _) = m
modified_of (tree m _) = m

-- os.Stat of the marker
abbrev pub has_marker : Option Node → Bool
has_marker none = false
has_marker (some (staging _ _)) = false
has_marker (some (tree _ t)) = t.marker

abbrev pub measured : Option Node → ℕ × ℕ
measured none = (0, 0)
measured (some (staging _ _)) = (0, 0)
measured (some (tree _ t)) = measure t

-- `tree` in a staging directory.
abbrev pub out_of : Option Node → Option Tree
out_of none = none
out_of (some (staging _ out)) = out
out_of (some (tree _ _)) = none

-- What is there after `out` is written into a staging directory, if it is still there.
abbrev pub with_out : ℕ → Option Tree → Option Node → Option Node
with_out now out none = none
with_out now out (some (staging m _)) = some (staging now out)
with_out now out (some (tree m t)) = some (tree m t)

-- A download creates a file.
abbrev pub touched : ℕ → Option Node → Option Node
touched now none = none
touched now (some (staging m out)) = some (staging now out)
touched now (some (tree m t)) = some (tree m t)

abbrev pub marked : Option Node → Option Node
marked (some (staging m (some t))) = some (staging m (some (record t { marker = true })))
marked node = node

-- rename(2) replaces nothing but an empty directory.
abbrev is_empty : Tree → Bool
is_empty t = elim t.files [ [] ↦ not t.marker | _ ∷ _ ↦ false ]

abbrev pub is_free : Option Node → Bool
is_free none = true
is_free (some (staging _ _)) = false
is_free (some (tree _ t)) = is_empty t

pub data UnpackError : Type 0 where
  no_dirs : UnpackError
  no_staging : UnpackError
  fetching_failed : Bytes → UnpackError
  bad_dsc : UnpackError
  dpkg_source : UnpackError
  no_marker : UnpackError
  lost_rename : UnpackError

pub data Outcome : Type 0 where
  unpacked : Bool → ℕ × ℕ → Outcome
  failed : UnpackError → Outcome

-- Where an unpack stands; the name is that of its staging directory.
pub data Phase : Type 0 where
  starting : Phase
  creating : Phase
  fetching_dsc : Bytes → Phase
  fetching : Bytes → List Bytes → Phase
  extracting : Bytes → Phase
  marking : Bytes → Phase
  renaming : Bytes → Phase
  rechecking : Bytes → Phase
  measuring : Bool → Option Bytes → Phase
  cleaning : Bytes → Outcome → Phase
  finished : Outcome → Phase

-- What the world answers to the call of a step. dpkg-source runs on unless it `exits`.
pub record Answers : Type 0 where
  pub makes_dirs : Bool
  pub temp : Option Bytes
  pub fetches : Bool
  pub dsc : Option Bytes
  pub exits : Bool
  pub succeeds : Bool
  pub extracted : List SourceFile
  pub writes_marker : Bool
  pub renames : Bool
  pub remains : Option Node

unfoldable pub staging_name : UnpackRequest → Bytes → Bytes
staging_name r random = codes ".tmp-" ++ r.source ++ b'-' ∷ random

abbrev parsed : Bytes → Option Bytes → Phase
parsed w none = cleaning w (failed bad_dsc)
parsed w (some raw) = elim (files_from_dsc raw) [
  | none ↦ cleaning w (failed bad_dsc)
  | some files ↦ fetching w files
]

abbrev behind_measure : Bool → Option Bytes → ℕ × ℕ → Phase
behind_measure cached none sizes = finished (unpacked cached sizes)
behind_measure cached (some w) sizes = cleaning w (unpacked cached sizes)

-- The move of `tree` out of the staging directory, if the kernel grants it.
abbrev moved_out : ℕ → Bytes → Bytes → Bytes → Volume → Option Tree → Option Volume
moved_out now c final w v none = none
moved_out now c final w v (some t) =
    if is_free (v c final)
    then some (put c w (some (staging now none)) (put c final (some (tree now t)) v))
    else none

unfoldable pub advance : Answers → ℕ → UnpackRequest → Phase → Volume → Phase × Volume
advance a now r starting v =
    (if has_marker (v r.component (tree_name r)) then measuring true none else creating, v)
advance a now r creating v =
    if not a.makes_dirs then (finished (failed no_dirs), v) else elim a.temp [
      | none ↦ (finished (failed no_staging), v)
      | some random ↦ (
        fetching_dsc (staging_name r random),
        put r.component (staging_name r random) (some (staging now none)) v,
      )
    ]
advance a now r (fetching_dsc w) v = (
  if a.fetches then parsed w a.dsc else cleaning w (failed (fetching_failed (codes ".dsc"))),
  put r.component w (touched now (v r.component w)) v,
)
advance a now r (fetching w []) v = (extracting w, v)
advance a now r (fetching w (f ∷ files)) v = (
  if a.fetches then fetching w files else cleaning w (failed (fetching_failed f)),
  put r.component w (touched now (v r.component w)) v,
)
advance a now r (extracting w) v = (
  if not a.exits
      then extracting w
      else if a.succeeds
      then marking w
      else cleaning w (failed dpkg_source),
  put r.component w
      (with_out now (some (record { files = a.extracted; marker = false })) (v r.component w)) v,
)
advance a now r (marking w) v =
    if a.writes_marker
    then (renaming w, put r.component w (marked (v r.component w)) v)
    else (cleaning w (failed no_marker), v)
advance a now r (renaming w) v =
    let moved = moved_out now r.component (tree_name r) w v (out_of (v r.component w)) in
    if a.renames
    then elim moved [ none ↦ (rechecking w, v) | some v' ↦ (measuring false (some w), v') ]
    else (rechecking w, v)
advance a now r (rechecking w) v = (
  if has_marker (v r.component (tree_name r))
      then measuring false (some w)
      else cleaning w (failed lost_rename),
  v,
)
advance a now r (measuring cached work) v =
    (behind_measure cached work (measured (v r.component (tree_name r))), v)
advance a now r (cleaning w outcome) v = (finished outcome, put r.component w a.remains v)
advance a now r (finished outcome) v = (finished outcome, v)

-- handleUnpack: the status, by what the body decodes to and how the unpack of its key ends.
unfoldable pub handle_unpack : (UnpackRequest → Outcome) → Option UnpackRequest → ℕ
handle_unpack unpack none = 400
handle_unpack unpack (some r) =
    if not (is_valid (with_component r))
    then 400
    else elim (unpack (with_component r)) [ unpacked _ _ ↦ 200 | failed _ ↦ 502 ]

unfoldable pub doomed_name : Bytes → Bytes
doomed_name n = n ++ codes ".deleting"

-- The rename of handleDelete.
unfoldable pub withdraw : Bytes → Bytes → Volume → Option Volume
withdraw c n v = elim (v c n) [
  | none ↦ none
  | some node ↦
      if is_free (v c (doomed_name n))
      then some (put c (doomed_name n) (some node) (put c n none v))
      else none
]

-- The name "/": the path is that of the component, which is renamed whole.
unfoldable pub withdraw_component : Bytes → Volume → Volume
withdraw_component c v =
    λ c' n. if bytes_eq (doomed_name c) c' then v c n else if bytes_eq c c' then none else v c' n

-- What the file system answers to handleDelete: whether os.Stat works on what is there, whether the
-- kernel grants the rename, and what RemoveAll leaves of the tree, or of the component.
pub record DeleteAnswers : Type 0 where
  pub stats : Bool
  pub renames : Bool
  pub remains : Option Node
  pub component_remains : Bytes → Option Node

-- A RemoveAll of a component that was renamed, complete or on its way.
unfoldable pub remove_doomed : Bytes → (Bytes → Option Node) → Volume → Volume
remove_doomed c remains v = λ c' n. if bytes_eq (doomed_name c) c' then remains n else v c' n

-- handleDelete, from the check of the key on. Any error of os.Stat counts as "already gone".
unfoldable pub handle_delete : DeleteAnswers → Bytes → Bytes → Volume → ℕ × Volume
handle_delete a c n v =
    if not (safe_key c n)
    then (400, v)
    else if not a.stats
    then (204, v)
    else if bytes_eq n (codes "/")
    then (if a.renames
        then (204, remove_doomed c a.component_remains (withdraw_component c v))
        else (500, v))
    else elim (v c n) [
      | none ↦ (204, v)
      | some _ ↦ elim (withdraw c n v) [
        | none ↦ (500, v)
        | some v' ↦ if a.renames then (204, put c (doomed_name n) a.remains v') else (500, v)
      ]
    ]

pub record Job : Type 0 where
  pub request : UnpackRequest
  pub phase : Phase

pub record Unpacker : Type 0 where
  pub volume : Volume
  pub jobs : ℕ → Option Job
  pub now : ℕ

abbrev pub work_of : Phase → Option Bytes
work_of starting = none
work_of creating = none
work_of (fetching_dsc w) = some w
work_of (fetching w _) = some w
work_of (extracting w) = some w
work_of (marking w) = some w
work_of (renaming w) = some w
work_of (rechecking w) = some w
work_of (measuring _ work) = work
work_of (cleaning w _) = some w
work_of (finished _) = none

abbrev pub set_job : ℕ → Option Job → (ℕ → Option Job) → ℕ → Option Job
set_job i job jobs = λ k. if i == k then job else jobs k

-- A directory that changed less than staleUnpackAge ago.
abbrev pub IsYoung : ℕ → Option Node → Type 0
IsYoung now none = Unit {0}
IsYoung now (some node) = now - modified_of node < stale_unpack_age

-- The staging directory that an unpack uses.
abbrev pub Uses : Job → Bytes → Bytes → Type 0
Uses j c w = (work_of j.phase ≡ some w) × (j.request.component ≡ c)

-- `extract` is what dpkg-source makes of a package when it succeeds.
pub data Step (extract : Bytes → Bytes → List SourceFile) : Unpacker → Unpacker → Type 0 where
  arrive :
      (i : ℕ) (r : UnpackRequest) (s : Unpacker)
      → is_valid r ≡ true
      → s.jobs i ≡ none
      → Step extract s
          (record s { jobs = set_job i (some (record { request = r; phase = starting })) s.jobs })
  -- MkdirTemp gives a name that no other unpack uses.
  work :
      (i : ℕ) (j : Job) (a : Answers) (s : Unpacker)
      → s.jobs i ≡ some j
      → (a.exits && a.succeeds ≡ true
          → a.extracted ≡ extract j.request.component (tree_name j.request))
      → ((random : Bytes) (k : ℕ) (other : Job)
          → a.temp ≡ some random
          → s.jobs k ≡ some other
          → ¬ Uses other j.request.component (staging_name j.request random))
      → Step extract s (record s {
        volume = (advance a s.now j.request j.phase s.volume).1;
        jobs =
            set_job i
              (some (record j { phase = (advance a s.now j.request j.phase s.volume).0 }))
              s.jobs;
      })
  -- The process is killed and starts again.
  crash : (s : Unpacker) → Step extract s (record s { jobs = λ _. none })
  delete :
      (c n : Bytes) (v : Volume) (s : Unpacker)
      → safe_key c n ≡ true
      → n ≢ codes "/"
      → withdraw c n s.volume ≡ some v
      → Step extract s (record s { volume = v })
  -- The name "/", with the RemoveAll behind it.
  delete_component :
      (c : Bytes) (s : Unpacker)
      → is_component c ≡ true
      → Step extract s (record s { volume = withdraw_component c s.volume })
  remove_component :
      (c : Bytes) (remains : Bytes → Option Node) (s : Unpacker)
      → Step extract s (record s { volume = remove_doomed c remains s.volume })
  -- A RemoveAll behind the rename of a tree, complete or on its way.
  remove :
      (c n : Bytes) (remains : Option Node) (s : Unpacker)
      → is_deleting n ≡ true
      → starts_with_dot n ≡ false
      → Step extract s (record s { volume = put c n remains s.volume })
  -- A RemoveAll of sweepStale.
  sweep :
      (c n : Bytes) (node : Node) (remains : Option Node) (s : Unpacker)
      → s.volume c n ≡ some node
      → is_abandoned s.now stale_unpack_age n (some (modified_of node)) ≡ true
      → Step extract s (record s { volume = put c n remains s.volume })
  -- Time passes; no unpack leaves its staging directory alone for staleUnpackAge.
  wait :
      (now' : ℕ) (s : Unpacker)
      → ((i : ℕ) (j : Job) (w : Bytes)
          → s.jobs i ≡ some j
          → work_of j.phase ≡ some w
          → IsYoung now' (s.volume j.request.component w))
      → Step extract s (record s { now = now' })

pub data Reach (extract : Bytes → Bytes → List SourceFile) (s : Unpacker) : Unpacker → Type 0 where
  here : Reach extract s s
  next : {t u : Unpacker} → Reach extract s t → Step extract t u → Reach extract s u

abbrev pub empty_volume : Unpacker
empty_volume = record { volume = λ _ _. none; jobs = λ _. none; now = 0 }
