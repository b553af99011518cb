-- ===== src/Tasks/Listing/Complete.antt =====
-- Lemmas on a caller who follows the cursors of `List` of internal/store/tasks.go.
use self_organizing_multi_ag.Base.{
  ℕ, ◌+◌, String, ◌≡◌, refl, ◌∙◌, true, false, some, List, take, length,
}
use self_organizing_multi_ag.Errors.{Result, ok}
use self_organizing_multi_ag.Db.{Db, Task, ◌>>=◌}
use self_organizing_multi_ag.Table.{select, order_by, IsKeyed}
use self_organizing_multi_ag.Table.Keyed.{IsKeyed-update}
use self_organizing_multi_ag.Paging.{
  page_limit, RowCursor, from_start, after_row, unreadable, is_unreadable, rows_for, cursor_after,
  row_before,
}
use self_organizing_multi_ag.Paging.Follow.{follow, follow_all, select-true, page_limit_pos}
use self_organizing_multi_ag.Tasks.{task_key, lapsed, reopened, requeue_expired}
use self_organizing_multi_ag.Tasks.Listing.{TaskFilter, listed_task, task_time, list_tasks}

module _ (viewer : String) (now : ℕ) (f : TaskFilter) (db : Db) where
  -- What the caller gets who asks for the page of a cursor.
  abbrev pub asked : RowCursor → Result (List Task × RowCursor)
  asked c = (list_tasks viewer now (record f { cursor = c }) db).0

  abbrev pub swept : Db
  swept = (requeue_expired now db).1

  asked_page :
      (c : RowCursor)
      → is_unreadable c ≡ false
      → let rows =
          rows_for task_time task_key
            (listed_task swept viewer now f)
            (page_limit f.limit)
            c
            swept.tasks in
        asked c
        ≡ ok (
          take (page_limit f.limit) rows,
          cursor_after task_time task_key (page_limit f.limit) rows,
        )
  unfolding list_tasks requeue_expired ◌>>=◌
  asked_page from_start u = refl
  asked_page (after_row ts i) u = refl
  asked_page unreadable u = cc

  -- Following the cursors of the task list ends, after one page more than there are tasks at most,
  -- and the pages are exactly the tasks that the filter lists, in their order: none is missing and
  -- none comes twice. The database stays the same while the pages are read, but for the claims
  -- that the first read reopened. The ids of the tasks are unique.
  pub list_tasks_complete :
      IsKeyed task_key db.tasks
      → follow (length swept.tasks + 1) asked from_start
        ≡ some (
            order_by
              (row_before task_time task_key)
              (select (listed_task swept viewer now f) swept.tasks))
  unfolding requeue_expired ◌>>=◌
  list_tasks_complete k =
      follow_all task_time task_key (listed_task swept viewer now f) (λ t. true)
        (page_limit f.limit) swept.tasks asked
        (IsKeyed-update task_key (lapsed now) reopened (λ t. refl) db.tasks k)
        (page_limit_pos f.limit) (λ c u. asked_page c u ∙ rw select-true refl)
      ∙ rw select-true refl
