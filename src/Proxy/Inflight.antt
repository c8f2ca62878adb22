-- ===== src/Proxy/Inflight.antt =====
-- cmd/proxy/filecache.go: the coalescing of requests in fileCache.Serve behind a cache miss, and
-- what a download does to the shared table at its end. An entry is its number, as a pointer is;
-- a task is a `download` goroutine.
use debuginfod_pwndbg_re.Prelude.{
  ℕ, zero, suc, ◌+◌, ◌-◌, Bool, true, false, ◌&&◌, String, str_eq, List, [], ◌∷◌, Option, none,
  some, map, ltb, ◌==◌, if◌then◌else◌, ◌≡◌, Member,
}
pub mod Single
mod Tests

abbrev pub max_concurrent_downloads : ℕ
max_concurrent_downloads = 32

-- Where a download stands: before its deferred function, behind `e.done = true`, and behind the
-- hold of `c.mu`, where it still has its slot.
pub data Stage : Type 0 where
  downloading marked unpublished : Stage

pub record Task : Type 0 where
  pub key : String
  pub entry : ℕ
  pub stage : Stage

-- fileCache: `inflight`, the number of values in `sem`, and `done` of every entry.
pub record Table : Type 0 where
  pub inflight : String → Option ℕ
  pub slots : ℕ
  pub finished : ℕ → Bool
  pub fresh : ℕ
  pub tasks : List Task

abbrev pub empty_table : Table
empty_table = record {
  inflight = λ _. none;
  slots = 0;
  finished = λ _. false;
  fresh = 0;
  tasks = [];
}

pub data Served : Type 0 where
  -- COALESCED and MISS with the entry that is followed, and ErrCacheBusy
  coalesced missed : ℕ → Served
  cache_busy : Served

unfoldable pub start_download : String → Table → Served × Table
start_download key t =
    if ltb t.slots max_concurrent_downloads
    then (
      Served.missed t.fresh,
      record {
        inflight = λ k. if str_eq key k then some t.fresh else t.inflight k;
        slots = t.slots + 1;
        finished = λ e. if e == t.fresh then false else t.finished e;
        fresh = suc t.fresh;
        tasks = record { key = key; entry = t.fresh; stage = Stage.downloading } ∷ t.tasks;
      },
    )
    else (Served.cache_busy, t)

-- The hold of `c.mu` in Serve.
unfoldable pub serve : String → Table → Served × Table
serve key t = elim (t.inflight key) [
  | none ↦ start_download key t
  | some e ↦ if t.finished e then start_download key t else (Served.coalesced e, t)
]

-- The deferred function under `e.mu`.
abbrev pub mark_stage : Stage → Stage
mark_stage Stage.downloading = Stage.marked
mark_stage Stage.marked = Stage.marked
mark_stage Stage.unpublished = Stage.unpublished

unfoldable pub mark_task : ℕ → Task → Task
mark_task e task = record task {
  stage = if task.entry == e then mark_stage task.stage else task.stage;
}

unfoldable pub mark_done : ℕ → Table → Table
mark_done e t = record t {
  finished = λ e'. if e' == e then true else t.finished e';
  tasks = map (mark_task e) t.tasks;
}

abbrev pub is_entry : Option ℕ → ℕ → Bool
is_entry none e = false
is_entry (some e') e = e' == e

abbrev pub unpublish_stage : Stage → Stage
unpublish_stage Stage.marked = Stage.unpublished
unpublish_stage Stage.downloading = Stage.downloading
unpublish_stage Stage.unpublished = Stage.unpublished

unfoldable pub unpublish_task : ℕ → Task → Task
unpublish_task e task = record task {
  stage = if task.entry == e then unpublish_stage task.stage else task.stage;
}

-- The deferred function under `c.mu`: only its own entry is deleted.
unfoldable pub unpublish : String → ℕ → Table → Table
unpublish key e t = record t {
  inflight = λ k. if str_eq key k && is_entry (t.inflight key) e then none else t.inflight k;
  tasks = map (unpublish_task e) t.tasks;
}

abbrev pub leaving : ℕ → Stage → ℕ → Bool
leaving e Stage.unpublished e' = e' == e
leaving e _ e' = false

unfoldable pub drop_task : ℕ → List Task → List Task
drop_task e [] = []
drop_task e (task ∷ rest) =
    if leaving e task.stage task.entry then rest else task ∷ drop_task e rest

-- `<-c.sem`
unfoldable pub release : ℕ → Table → Table
release e t = record t { slots = t.slots - 1; tasks = drop_task e t.tasks }

abbrev pub any_leaving : ℕ → List Task → Bool
any_leaving e [] = false
any_leaving e (task ∷ rest) = if leaving e task.stage task.entry then true else any_leaving e rest

-- Requests and downloads in any order. A download passes its stages one after the other.
pub data Step : Table → Table → Type 0 where
  request : (key : String) (t : Table) → Step t (serve key t).1
  finish : (e : ℕ) (t : Table) → Step t (mark_done e t)
  withdraw :
      (task : Task) (t : Table)
      → Member task t.tasks
      → task.stage ≡ Stage.marked
      → Step t (unpublish task.key task.entry t)
  leave : (e : ℕ) (t : Table) → any_leaving e t.tasks ≡ true → Step t (release e t)

pub data Reach : Table → Type 0 where
  start : Reach empty_table
  next : {t u : Table} → Reach t → Step t u → Reach u
