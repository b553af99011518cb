-- ===== src/Tasks/Listing.antt =====
-- `TaskStore.List`: the tasks that an agent may see, page by page.
pub mod Complete
use self_organizing_multi_ag.Base.{
  ℕ, ℤ, String, Bool, true, ◌&&◌, ◌||◌, Option, none, some, List, take, any, contains, length, ◌==◌,
  nat_eq, opt_is, is_some, not, if◌then◌else◌,
}
use self_organizing_multi_ag.Errors.{text, validation_error}
use self_organizing_multi_ag.Db.{Db, Task, status_text, Action, pure, gets, raise_if, ◌>>=◌, ◌>>◌}
use self_organizing_multi_ag.Scope.{visible}
use self_organizing_multi_ag.Paging.{page_limit, RowCursor, is_unreadable, rows_for, cursor_after}
use self_organizing_multi_ag.Tasks.{task_key, requeue_expired}

pub record TaskFilter : Type 0 where
  pub status : String
  pub project_id : Option String
  pub required_capabilities : List String
  pub required_tools : List String
  pub cursor : RowCursor
  pub limit : ℤ

-- The test on the project: any, none, or the one that is named.
abbrev pub in_project : Option String → Option String → Bool
in_project none p = true
in_project (some wanted) p = if wanted == "" then not (is_some p) else opt_is p wanted

-- No requirement, or one that is among the values; no values ask for nothing.
abbrev pub meets : List String → List String → Bool
meets values required =
    nat_eq (length values) 0 || nat_eq (length required) 0 || any (λ r. contains values r) required

-- The WHERE of the query, but for the cursor.
unfoldable pub listed_task : Db → String → ℕ → TaskFilter → Task → Bool
listed_task db viewer now f t =
    visible db viewer now t.project_id (some t.task_id)
    && (f.status == "" || status_text t.status == f.status)
    && in_project f.project_id t.project_id
    && meets f.required_capabilities t.required_capabilities
    && meets f.required_tools t.required_tools

abbrev pub task_time : Task → ℕ
task_time t = t.created_at

-- `TaskStore.List`
unfoldable pub list_tasks : String → ℕ → TaskFilter → Action (List Task × RowCursor)
unfolding requeue_expired listed_task
list_tasks viewer now f = do
  requeue_expired now
  raise_if (is_unreadable f.cursor) (validation_error (text "invalid cursor"))
  let limit = page_limit f.limit
  rows ←
      gets (λ db. rows_for task_time task_key (listed_task db viewer now f) limit f.cursor db.tasks)
  pure (take limit rows, cursor_after task_time task_key limit rows)
