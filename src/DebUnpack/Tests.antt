-- ===== src/DebUnpack/Tests.antt =====
-- The package hello of Debian, from its request to its deletion.
use debuginfod_pwndbg_re.Prelude.{
  ℕ, zero, suc, ◌+◌, true, false, [], ◌∷◌, ◌++◌, List, none, some, Bytes, codes, bytes_eq, base,
  has_prefix, has_suffix, All, ◌≡◌, ◌≢◌, ◌⊎◌, refl, subst, arith,
}
use mathlib.Core.Option.{some-injective}
use debuginfod_pwndbg_re.DebUnpack.{
  all_chars, is_name, is_component, UnpackRequest, with_component, is_valid, tree_name, pool_dir,
  safe_key, split_on, is_space, fields, file_line, stanza, files_from_dsc, SourceFile, measure,
  stale_unpack_age, is_deleting, is_abandoned,
}
use debuginfod_pwndbg_re.DebUnpack.Names.{IsPlainOrRoot, files_from_dsc-plain}
use debuginfod_pwndbg_re.DebUnpack.Volume.{
  Node, Volume, same_place, put, has_marker, Phase, Answers, staging_name, advance, doomed_name,
  withdraw, withdraw_component, DeleteAnswers, remove_doomed, handle_delete, work_of, Job, Unpacker,
  set_job, Outcome, handle_unpack, Step, Reach, empty_volume,
}
use debuginfod_pwndbg_re.DebUnpack.Volume.Places.{view}
use debuginfod_pwndbg_re.DebUnpack.Volume.Whole.{Change, offered, Reach-Changes, Reach-whole}
use debuginfod_pwndbg_re.DebUnpack.Listing.{
  is_listed, handle_trees, sweep_stale, withdraw-listed, handle_delete_root, handle_delete-spares,
}

program : Unit {0}
unfolding bytes_eq base has_prefix has_suffix all_chars is_name is_component with_component is_valid
    tree_name pool_dir safe_key split_on is_space fields file_line stanza files_from_dsc measure
    stale_unpack_age is_deleting is_abandoned put staging_name advance doomed_name withdraw
    withdraw_component remove_doomed handle_delete handle_unpack view is_listed handle_trees
    sweep_stale
program = tt

abbrev hello : UnpackRequest
hello = record { source = codes "hello"; version = codes "2.10-5"; component = codes "main" }

abbrev hello_name : Bytes
hello_name = codes "hello_2.10-5"

abbrev hello_dsc : Bytes
hello_dsc =
    codes "Source: hello"
    ++ 10 ∷ codes "Files:"
    ++ 10 ∷ codes " 6cd0 725946 hello_2.10.orig.tar.gz"
    ++ 10 ∷ codes "Package-List:"
    ++ 10 ∷ codes " hello deb devel"

tree_name-hello : tree_name hello ≡ hello_name
unfolding program
tree_name-hello = refl

pool_dir_lib : pool_dir (codes "libpng") ≡ codes "libp"
unfolding program
pool_dir_lib = refl

files_from_dsc_hello : files_from_dsc hello_dsc ≡ some (codes "hello_2.10.orig.tar.gz" ∷ [])
unfolding program
files_from_dsc_hello = refl

files_from_dsc_bad : files_from_dsc (codes "Files:" ++ 10 ∷ codes " 6cd0 3 ../x") ≡ none
unfolding program
files_from_dsc_bad = refl

sweep_stale_hello :
    sweep_stale (stale_unpack_age + stale_unpack_age) stale_unpack_age (
      some (
        record {
          name = codes "main";
          is_dir = true;
          entries = some (
              record {
                name = codes ".tmp-hello-1";
                is_dir = true;
                content = record { files = []; marker = false };
                modified = some 5;
              }
              ∷ []);
        }
        ∷ []))
    ≡ (codes "main", codes ".tmp-hello-1") ∷ []
unfolding program
sweep_stale_hello = refl

hello-is_valid : is_valid hello ≡ true
unfolding program
hello-is_valid = refl

files_from_dsc-plain_example :
    (codes "hello_2.10.orig.tar.gz" ∷ [] ≢ [])
    × All IsPlainOrRoot (codes "hello_2.10.orig.tar.gz" ∷ [])
files_from_dsc-plain_example =
    files_from_dsc-plain hello_dsc (codes "hello_2.10.orig.tar.gz" ∷ []) files_from_dsc_hello

abbrev sources : List SourceFile
sources = record { path = codes "src/hello.c"; size = 4000 } ∷ []

abbrev extract : Bytes → Bytes → List SourceFile
extract c n = sources

-- Every call succeeds.
abbrev good : Answers
good = record {
  makes_dirs = true;
  temp = none;
  fetches = true;
  dsc = some hello_dsc;
  exits = true;
  succeeds = true;
  extracted = sources;
  writes_marker = true;
  renames = true;
  remains = none;
}

abbrev staged : Answers
staged = record good { temp = some (codes "1") }

after : Answers → Job → Unpacker → Unpacker
unfolding program
after a j s = record s {
  volume = (advance a s.now j.request j.phase s.volume).1;
  jobs =
      set_job 0 (some (record j { phase = (advance a s.now j.request j.phase s.volume).0 })) s.jobs;
}

go_on :
    (j : Job) (s : Unpacker)
    → s.jobs 0 ≡ some j
    → Reach extract empty_volume s
    → Reach extract empty_volume (after good j s)
unfolding after
go_on j s e r = Reach.next r (Step.work 0 j good s e (λ _. refl) (λ random k other t. absurd (cc)))

abbrev at_phase : Phase → Job
at_phase p = record { request = hello; phase = p }

abbrev work_dir : Bytes
work_dir = codes ".tmp-hello-1"

abbrev arrived : Unpacker
arrived = record empty_volume { jobs = set_job 0 (some (at_phase Phase.starting)) (λ _. none) }

abbrev missed : Unpacker
missed = after good (at_phase Phase.starting) arrived

abbrev created : Unpacker
created = after staged (at_phase Phase.creating) missed

abbrev with_dsc : Unpacker
with_dsc = after good (at_phase (Phase.fetching_dsc work_dir)) created

abbrev with_files : Unpacker
with_files =
    after good (at_phase (Phase.fetching work_dir (codes "hello_2.10.orig.tar.gz" ∷ []))) with_dsc

abbrev fetched : Unpacker
fetched = after good (at_phase (Phase.fetching work_dir [])) with_files

abbrev extracted : Unpacker
extracted = after good (at_phase (Phase.extracting work_dir)) fetched

abbrev complete : Unpacker
complete = after good (at_phase (Phase.marking work_dir)) extracted

abbrev published : Unpacker
published = after good (at_phase (Phase.renaming work_dir)) complete

Reach-missed : Reach extract empty_volume missed
unfolding program after
Reach-missed =
    go_on (at_phase Phase.starting) arrived refl
      (Reach.next Reach.here (Step.arrive 0 hello empty_volume hello-is_valid refl))

no_work :
    (k : ℕ) (other : Job) (w : Bytes)
    → missed.jobs k ≡ some other
    → ¬ ((work_of other.phase ≡ some w) × (other.request.component ≡ codes "main"))
unfolding program after
no_work zero other w e u =
    let idle : work_of other.phase ≡ none =
      subst (λ o. work_of o.phase ≡ none) (some-injective _ _ e) refl in
    cc
no_work (suc k) other w e u = ground (arith, e)

Reach-created : Reach extract empty_volume created
unfolding after
Reach-created = Reach.next Reach-missed (
    Step.work 0 (at_phase Phase.creating) staged missed refl (λ _. refl)
      (λ random k other t e u. no_work k other (staging_name hello random) e u))

Reach-complete : Reach extract empty_volume complete
unfolding program after
Reach-complete = go_on (at_phase (Phase.marking work_dir)) extracted refl (
    go_on (at_phase (Phase.extracting work_dir)) fetched refl (
      go_on (at_phase (Phase.fetching work_dir [])) with_files refl (
        go_on (at_phase (Phase.fetching work_dir (codes "hello_2.10.orig.tar.gz" ∷ []))) with_dsc
          refl (go_on (at_phase (Phase.fetching_dsc work_dir)) created refl Reach-created))))

publishes : Step extract complete published
unfolding program after
publishes =
    Step.work 0 (at_phase (Phase.renaming work_dir)) good complete refl (λ _. refl)
      (λ random k other t. absurd (cc))

Reach-Changes_example : Change extract (offered complete.volume) (offered published.volume)
Reach-Changes_example = Reach-Changes extract Reach-complete publishes

published_view : offered published.volume (codes "main") hello_name ≡ some sources
unfolding program after
published_view = refl

Reach-whole_example : sources ≡ extract (codes "main") hello_name
Reach-whole_example =
    Reach-whole extract (Reach.next Reach-complete publishes) (codes "main") hello_name sources
      published_view

hello-safe_key : safe_key (codes "main") hello_name ≡ true
unfolding program
hello-safe_key = refl

abbrev disk : Volume
disk =
    put (codes "main") hello_name (some (Node.tree 0 (record { files = sources; marker = true })))
      (λ _ _. none)

abbrev behind : Volume
behind =
    put (codes "main") (doomed_name hello_name)
      (some (Node.tree 0 (record { files = sources; marker = true })))
      (put (codes "main") hello_name none disk)

withdraw_hello : withdraw (codes "main") hello_name disk ≡ some behind
unfolding program
withdraw_hello = refl

marked_hello : has_marker (disk (codes "main") hello_name) ≡ true
unfolding program
marked_hello = refl

withdraw-listed_example :
    (is_listed
        (doomed_name hello_name)
        (has_marker (behind (codes "main") (doomed_name hello_name)))
      ≡ true)
    × (is_listed hello_name (has_marker (behind (codes "main") hello_name)) ≡ false)
withdraw-listed_example =
    withdraw-listed (codes "main") hello_name disk behind hello-safe_key marked_hello withdraw_hello

main-is_component : is_component (codes "main") ≡ true
unfolding program
main-is_component = refl

-- What RemoveAll leaves is nothing.
abbrev granted : DeleteAnswers
granted = record { stats = true; renames = true; remains = none; component_remains = λ _. none }

handle_delete_root_example :
    ((handle_delete granted (codes "main") (codes "/") disk).0 ≡ 204)
    × ((n : Bytes)
        → view (handle_delete granted (codes "main") (codes "/") disk).1 (codes "main") n ≡ none)
handle_delete_root_example =
    handle_delete_root granted (codes "main") disk main-is_component refl refl

handle_delete-spares_example :
    ((handle_delete granted (codes "main") hello_name disk).0 ≡ 204
      → (view (handle_delete granted (codes "main") hello_name disk).1 (codes "main") hello_name
          ≡ none)
        ⊎ ((granted.stats ≡ false)
            × ((handle_delete granted (codes "main") hello_name disk).1 ≡ disk)))
    × ((handle_delete granted (codes "main") hello_name disk).0 ≢ 204
        → (handle_delete granted (codes "main") hello_name disk).1 ≡ disk)
    × ((c' n' : Bytes)
        → same_place (codes "main") hello_name c' n' ≡ false
        → view (handle_delete granted (codes "main") hello_name disk).1 c' n' ≡ view disk c' n')
handle_delete-spares_example = handle_delete-spares granted (codes "main") hello_name disk (cc)

deleted_hello : (handle_delete granted (codes "main") hello_name disk).0 ≡ 204
unfolding program
deleted_hello = refl

-- A Stat that fails leaves the tree, and the answer is 204 all the same.
kept_hello :
    handle_delete (record granted { stats = false }) (codes "main") hello_name disk ≡ (204, disk)
unfolding program
kept_hello = refl

handle_unpack_bad :
    handle_unpack
      (λ r. Outcome.unpacked true (1, 0))
      (some (record hello { version = codes "../x" }))
    ≡ 400
unfolding program
handle_unpack_bad = refl
