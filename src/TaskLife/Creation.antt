-- ===== src/TaskLife/Creation.antt =====
-- Lemmas on the task table under `Create` of internal/store/tasks.go.
use self_organizing_multi_ag.Base.{
  ℕ, String, ◌≡◌, refl, ◌∙◌, inl, inr, Option, none, some, List, All, Bool-cases, ◌==◌,
}
use self_organizing_multi_ag.Db.{Db, Task, task_open, ◌>>=◌}
use self_organizing_multi_ag.Table.{IsKeyed, find, first, insert}
use self_organizing_multi_ag.Table.Keyed.{find-insert, IsKeyed-insert}
use self_organizing_multi_ag.Table.Rows.{All-insert}
use self_organizing_multi_ag.Tasks.{
  task_key, CreateTaskRequest, new_task, insert_task, insert_or_reuse, create, same_request,
}
use self_organizing_multi_ag.Tasks.Lifecycle.{IsValid, Reach}
use self_organizing_multi_ag.Tasks.Lives.{Lives, Lives-find, Lives-IsValid, Lives-IsKeyed}
use self_organizing_multi_ag.TaskLife.{get-Lives}

-- The task table after a call of `Create`.
pub data Created (fresh : String) (ts us : List Task) : Type 0 where
  reused : Lives ts us → Created fresh ts us
  added :
      (n : Task)
      → n.status ≡ task_open
      → IsValid n
      → n.task_id ≡ fresh
      → Lives (insert n ts) us
      → Created fresh ts us

module _ (fresh creator : String) (req : CreateTaskRequest) (key : String) (now : ℕ) (db : Db) where
  insert_task-Created : Created fresh db.tasks (insert_task fresh creator req key now db).1.tasks
  unfolding insert_task ◌>>=◌
  insert_task-Created =
      let n = new_task fresh creator req key now in
      added n refl (refl, refl, refl, refl) refl
        ((get-Lives creator fresh now).at (record db { tasks = insert n db.tasks }))

  insert_or_reuse-Created :
      (old : Option Task)
      → Created fresh db.tasks (insert_or_reuse fresh creator req key now old db).1.tasks
  unfolding insert_or_reuse
  insert_or_reuse-Created none = insert_task-Created
  insert_or_reuse-Created (some t) = reused ((get-Lives creator t.task_id now).at db)

  pub create-Created : Created fresh db.tasks (create fresh creator req key now db).1.tasks
  unfolding create ◌>>=◌
  create-Created = elim (Bool-cases (key == "")) [
    | inl anonymous ↦ rw anonymous insert_task-Created
    | inr keyed ↦ rw keyed (insert_or_reuse-Created (first (same_request creator key) db.tasks))
  ]

module _ {fresh : String} {ts us : List Task} where
  pub Created-find :
      (k : String) (t : Task)
      → Created fresh ts us
      → find task_key k ts ≡ some t
      → (u : Task) × (find task_key k us ≡ some u) × Reach t u
  Created-find k t (reused g) e = Lives-find k t g e
  Created-find k t (added n o v i g) e =
      Lives-find k t g (find-insert task_key k n ts ∙ (rw e refl))

  pub Created-IsValid : Created fresh ts us → All IsValid ts → All IsValid us
  Created-IsValid (reused g) h = Lives-IsValid g h
  Created-IsValid (added n o v i g) h = Lives-IsValid g (All-insert IsValid n ts h v)

  -- With an id that no task has, the ids stay unique.
  pub Created-IsKeyed :
      Created fresh ts us
      → find task_key fresh ts ≡ none
      → IsKeyed task_key ts
      → IsKeyed task_key us
  Created-IsKeyed (reused g) a k = Lives-IsKeyed g k
  Created-IsKeyed (added n o v i g) a k = Lives-IsKeyed g (IsKeyed-insert task_key n ts k (rw i a))
