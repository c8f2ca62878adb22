-- ===== src/Proxy/Inflight/Tests.antt =====
-- Two clients of one artifact, whose first download fails, and the theorems at that run.
use debuginfod_pwndbg_re.Prelude.{[], ◌∷◌, some, ◌≡◌, refl, inl, inr}
use debuginfod_pwndbg_re.Proxy.Inflight.{
  Stage, Task, Table, Served, empty_table, start_download, serve, mark_task, mark_done,
  unpublish_task, unpublish, drop_task, release, Step, Reach,
}
use debuginfod_pwndbg_re.Proxy.Inflight.Single.{IsValid, Reach-IsValid, Reach-single}

program : Unit {0}
unfolding start_download serve mark_task mark_done unpublish_task unpublish drop_task release
program = tt

abbrev asked : Table
asked = (serve "a" empty_table).1

abbrev failed : Table
failed = mark_done 0 asked

abbrev retried : Table
retried = (serve "a" failed).1

abbrev withdrawn : Table
withdrawn = unpublish "a" 0 retried

abbrev left : Table
left = release 0 withdrawn

second_joins : (serve "a" asked).0 ≡ Served.coalesced 0
unfolding program
second_joins = refl

-- An entry that is done is not joined, and its end does not remove its successor.
retry_starts : (serve "a" failed).0 ≡ Served.missed 1
unfolding program
retry_starts = refl

successor_stays : withdrawn.inflight "a" ≡ some 1
unfolding program
successor_stays = refl

abbrev old_task : Task
old_task = record { key = "a"; entry = 0; stage = Stage.marked }

abbrev new_task : Task
new_task = record { key = "a"; entry = 1; stage = Stage.downloading }

left-Reach : Reach left
unfolding program
left-Reach =
    Reach.next
      (Reach.next
        (Reach.next
          (Reach.next (Reach.next Reach.start (Step.request "a" empty_table)) (Step.finish 0 asked))
          (Step.request "a" failed))
        (Step.withdraw old_task retried (inr (inl refl)) refl))
      (Step.leave 0 withdrawn refl)

one_left : left.tasks ≡ new_task ∷ []
unfolding program
one_left = refl

Reach-IsValid_example : IsValid left
Reach-IsValid_example = Reach-IsValid left-Reach

Reach-single_example : new_task.entry ≡ new_task.entry
unfolding program
Reach-single_example =
    Reach-single new_task new_task left-Reach (inl refl) (inl refl) refl refl refl
