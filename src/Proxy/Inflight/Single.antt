-- ===== src/Proxy/Inflight/Single.antt =====
-- One download for each key, and no more downloads than slots (cmd/proxy/filecache.go).
use debuginfod_pwndbg_re.Prelude.{
  ℕ, suc, ◌≤◌, ◌<◌, true, false, String, eq_iff, List, [], ◌∷◌, some, map, All, All-map, All-Member,
  Member, length, ltb, ◌==◌, ◌≡◌, refl, sym, ap, ◌∙◌, inl, inr, arith, Bool-cases, Option-cases,
  if_intro, if◌then◌else◌,
}
use debuginfod_pwndbg_re.Proxy.Inflight.{
  Stage, Task, Table, max_concurrent_downloads, start_download, serve, mark_stage, mark_task,
  mark_done, unpublish_stage, unpublish_task, unpublish, leaving, drop_task, release, any_leaving,
  Step, Reach,
}

-- A download that runs is the one that `inflight` names for its key; one that is past that is
-- marked as done.
abbrev StageOk : Table → Task → Stage → Type 0
StageOk t task Stage.downloading =
    (t.finished task.entry ≡ false)
    × (t.inflight task.key ≡ some task.entry)
    × (task.entry < t.fresh)
StageOk t task Stage.marked = (t.finished task.entry ≡ true) × (task.entry < t.fresh)
StageOk t task Stage.unpublished = (t.finished task.entry ≡ true) × (task.entry < t.fresh)

abbrev TaskOk : Table → Task → Type 0
TaskOk t task = StageOk t task task.stage

pub record IsValid (t : Table) : Type 0 where
  pub tasks_ok : All (TaskOk t) t.tasks
  pub slots_eq : t.slots ≡ length t.tasks
  pub slots_le : t.slots ≤ max_concurrent_downloads

-- No download runs for a key whose entry is missing or done.
abbrev Idle : String → Table → Type 0
Idle key t = (e : ℕ) → t.inflight key ≡ some e → t.finished e ≡ true

start-StageOk :
    (key : String) (t : Table) (task : Task) (st : Stage)
    → Idle key t
    → ltb t.slots max_concurrent_downloads ≡ true
    → StageOk t task st
    → StageOk (start_download key t).1 task st
unfolding start_download
start-StageOk key t task Stage.downloading idle free ok =
    simp free (ground (arith, eq_iff key task.key, idle task.entry))
start-StageOk key t task Stage.marked idle free ok = simp free (ground arith)
start-StageOk key t task Stage.unpublished idle free ok = simp free (ground arith)

start-IsValid :
    (key : String) (t : Table) → Idle key t → IsValid t → IsValid (start_download key t).1
start-IsValid key t idle v = elim (Bool-cases (ltb t.slots max_concurrent_downloads)) [
  | inl free ↦ record {
    tasks_ok =
        started free (
          All-map (λ task ok. start-StageOk key t task task.stage idle free ok) t.tasks v.tasks_ok);
    slots_eq = unfold start_download in simp free (omega (arith, v.slots_eq));
    slots_le = unfold start_download in simp free (ground arith);
  }
  | inr full ↦ unfold start_download in simp full v
]
  where
    tasks_eq :
        ltb t.slots max_concurrent_downloads ≡ true
        → (start_download key t).1.tasks
          ≡ record { key = key; entry = t.fresh; stage = Stage.downloading } ∷ t.tasks
    tasks_eq free = unfold start_download in simp free

    started :
        ltb t.slots max_concurrent_downloads ≡ true
        → All (TaskOk (start_download key t).1) t.tasks
        → All (TaskOk (start_download key t).1) (start_download key t).1.tasks
    started free old =
        rw (tasks_eq free)
          ((unfold start_download in simp free (ground (arith, eq_iff key key))), old)

serve-IsValid : (key : String) (t : Table) → IsValid t → IsValid (serve key t).1
unfolding serve
serve-IsValid key t v = elim (Option-cases (t.inflight key)) [
  | inl absent ↦ rw (absent, serve) (start-IsValid key t (λ e h. cc) v)
  | inr (e, found) ↦ elim (Bool-cases (t.finished e)) [
    | inl dead ↦ rw (found, serve) (simp dead (start-IsValid key t (λ e' h. ground arith) v))
    | inr live ↦ rw (found, serve) (simp live v)
  ]
]

length-map : (f : Task → Task) (tasks : List Task) → length (map f tasks) ≡ length tasks
length-map f [] = refl
length-map f (x ∷ xs) = ap suc (length-map f xs)

map-TaskOk :
    (t u : Table) (f : Task → Task)
    → ((task : Task) → TaskOk t task → TaskOk u (f task))
    → (tasks : List Task) → All (TaskOk t) tasks
    → All (TaskOk u) (map f tasks)
map-TaskOk t u f h [] _ = tt
map-TaskOk t u f h (task ∷ rest) (ok, oks) = (h task ok, map-TaskOk t u f h rest oks)

mark-StageOk :
    (e : ℕ) (t : Table) (task : Task) (st : Stage)
    → StageOk t task st
    → StageOk (mark_done e t) task (if task.entry == e then mark_stage st else st)
unfolding mark_done
mark-StageOk e t task Stage.downloading ok = elim (Bool-cases (task.entry == e)) [
  | inl h ↦ simp h (ground arith)
  | inr h ↦ simp h (ground arith)
]
mark-StageOk e t task Stage.marked ok = elim (Bool-cases (task.entry == e)) [
  | inl h ↦ simp h (ground arith)
  | inr h ↦ simp h (ground arith)
]
mark-StageOk e t task Stage.unpublished ok = elim (Bool-cases (task.entry == e)) [
  | inl h ↦ simp h (ground arith)
  | inr h ↦ simp h (ground arith)
]

mark_done-IsValid : (e : ℕ) (t : Table) → IsValid t → IsValid (mark_done e t)
unfolding mark_task
mark_done-IsValid e t v = record {
  tasks_ok =
      unfold mark_done in
      map-TaskOk t (mark_done e t) (mark_task e) (λ task ok. mark-StageOk e t task task.stage ok)
        t.tasks v.tasks_ok;
  slots_eq = unfold mark_done in (v.slots_eq ∙ sym (length-map (mark_task e) t.tasks));
  slots_le = unfold mark_done in v.slots_le;
}

unpublish-StageOk :
    (key : String) (e : ℕ) (t : Table) (task : Task) (st : Stage)
    → t.finished e ≡ true
    → StageOk t task st
    → StageOk (unpublish key e t) task (if task.entry == e then unpublish_stage st else st)
unfolding unpublish
unpublish-StageOk key e t task Stage.downloading dead ok = elim (Bool-cases (task.entry == e)) [
  | inl h ↦ simp h (ground (arith, eq_iff key task.key))
  | inr h ↦ simp h (ground (arith, eq_iff key task.key))
]
unpublish-StageOk key e t task Stage.marked dead ok = elim (Bool-cases (task.entry == e)) [
  | inl h ↦ simp h (ground arith)
  | inr h ↦ simp h (ground arith)
]
unpublish-StageOk key e t task Stage.unpublished dead ok = elim (Bool-cases (task.entry == e)) [
  | inl h ↦ simp h (ground arith)
  | inr h ↦ simp h (ground arith)
]

unpublish-IsValid :
    (key : String) (e : ℕ) (t : Table)
    → t.finished e ≡ true
    → IsValid t
    → IsValid (unpublish key e t)
unfolding unpublish_task
unpublish-IsValid key e t dead v = record {
  tasks_ok =
      unfold unpublish in
      map-TaskOk t (unpublish key e t) (unpublish_task e)
        (λ task ok. unpublish-StageOk key e t task task.stage dead ok) t.tasks v.tasks_ok;
  slots_eq = unfold unpublish in (v.slots_eq ∙ sym (length-map (unpublish_task e) t.tasks));
  slots_le = unfold unpublish in v.slots_le;
}

drop_task-All :
    (P : Task → Type 0) (e : ℕ) (tasks : List Task) → All P tasks → All P (drop_task e tasks)
unfolding drop_task
drop_task-All P e [] _ = tt
drop_task-All P e (task ∷ rest) (p, ps) =
    if_intro (All P) (leaving e task.stage task.entry) (λ _. ps)
      (λ _. (p, drop_task-All P e rest ps))

length-drop_task :
    (e : ℕ) (tasks : List Task)
    → any_leaving e tasks ≡ true
    → suc (length (drop_task e tasks)) ≡ length tasks
unfolding drop_task
length-drop_task e [] h = cc
length-drop_task e (task ∷ rest) h = ground (arith, length-drop_task e rest)

release-IsValid :
    (e : ℕ) (t : Table) → any_leaving e t.tasks ≡ true → IsValid t → IsValid (release e t)
unfolding release
release-IsValid e t h v = record {
  tasks_ok =
      All-map (λ task ok. kept task task.stage ok) (drop_task e t.tasks)
        (drop_task-All (TaskOk t) e t.tasks v.tasks_ok);
  slots_eq = omega (arith, length-drop_task e t.tasks h, v.slots_eq);
  slots_le = omega (arith, v.slots_le);
}
  where
    kept : (task : Task) (st : Stage) → StageOk t task st → StageOk (release e t) task st
    kept task Stage.downloading ok = ok
    kept task Stage.marked ok = ok
    kept task Stage.unpublished ok = ok

marked_done :
    (t : Table) (task : Task) (st : Stage)
    → st ≡ Stage.marked
    → StageOk t task st
    → t.finished task.entry ≡ true
marked_done t task Stage.downloading h ok = cc
marked_done t task Stage.marked h ok = ok.0
marked_done t task Stage.unpublished h ok = ok.0

Step-IsValid : {t u : Table} → Step t u → IsValid t → IsValid u
Step-IsValid (Step.request key t) v = serve-IsValid key t v
Step-IsValid (Step.finish e t) v = mark_done-IsValid e t v
Step-IsValid (Step.withdraw task t m st) v =
    unpublish-IsValid task.key task.entry t
      (marked_done t task task.stage st (All-Member (TaskOk t) task t.tasks v.tasks_ok m)) v
Step-IsValid (Step.leave e t h) v = release-IsValid e t h v

-- In every reachable state each slot taken belongs to a download, at most 32 are taken, and a
-- running download is the one that the table names for its key.
pub Reach-IsValid : {t : Table} → Reach t → IsValid t
Reach-IsValid Reach.start = record { tasks_ok = tt; slots_eq = refl; slots_le = omega arith }
Reach-IsValid (Reach.next r st) = Step-IsValid st (Reach-IsValid r)

named :
    (t : Table) (task : Task) (st : Stage)
    → st ≡ Stage.downloading
    → StageOk t task st
    → t.inflight task.key ≡ some task.entry
named t task Stage.downloading h ok = ok.1
named t task Stage.marked h ok = cc
named t task Stage.unpublished h ok = cc

-- Requests are coalesced: however requests and the ends of downloads interleave, two downloads
-- that run for one key are the same download.
pub Reach-single :
    {t : Table} (a b : Task)
    → Reach t
    → Member a t.tasks
    → Member b t.tasks
    → a.stage ≡ Stage.downloading
    → b.stage ≡ Stage.downloading
    → a.key ≡ b.key
    → a.entry ≡ b.entry
Reach-single {t} a b r ma mb sa sb same =
    let ok = (Reach-IsValid r).tasks_ok in
    let na = named t a a.stage sa (All-Member (TaskOk t) a t.tasks ok ma) in
    let nb = named t b b.stage sb (All-Member (TaskOk t) b t.tasks ok mb) in cc (na, nb, same)
