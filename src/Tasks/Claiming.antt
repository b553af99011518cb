-- ===== src/Tasks/Claiming.antt =====
-- Lemmas on `Get` and `Claim` of internal/store/tasks.go.
use self_organizing_multi_ag.Base.{
  ℕ, String, ◌≡◌, refl, ◌∙◌, ap, Bool, true, false, ◌&&◌, Option, none, some, List, arith, ◌==◌,
  eq_refl, Option-cases, Bool-cases, inl, inr, if◌then◌else◌, All,
}
use self_organizing_multi_ag.Errors.{Result, ok, err, not_found}
use self_organizing_multi_ag.Db.{Db, Task, ◌>>=◌}
use self_organizing_multi_ag.Table.{find-key, find, update, affected, keep_if, IsKeyed}
use self_organizing_multi_ag.Table.Keyed.{find-update, first_at, affected_at, IsKeyed-update}
use self_organizing_multi_ag.Table.Rows.{update-none, update_clears, update-affected, All-update}
use self_organizing_multi_ag.Scope.{visible}
use self_organizing_multi_ag.Tasks.{
  task_key, lapsed, reopened, visible_task, get, claim, taken, not_open, is_task_open,
}

-- The database after `RequeueExpired`.
abbrev pub requeued : ℕ → Db → Db
requeued now db = record db { tasks = update (lapsed now) reopened db.tasks }

-- A task as `viewer` finds it by its id.
abbrev pub seen : String → ℕ → String → Db → Option Task
seen viewer now task_id db =
    keep_if (λ t. visible db viewer now t.project_id (some t.task_id))
      (find task_key task_id db.tasks)

abbrev pub answer : Option Task → Result Task
answer none = err (not_found "task not found")
answer (some t) = ok t

visible_task-seen :
    (viewer task_id : String) (now : ℕ) (db : Db)
    → IsKeyed task_key db.tasks
    → visible_task viewer task_id now db ≡ seen viewer now task_id db
unfolding visible_task
visible_task-seen viewer task_id now db k =
    first_at task_key task_id (λ t. visible db viewer now t.project_id (some t.task_id)) db.tasks k

pub requeued-IsKeyed :
    (now : ℕ) (db : Db) → IsKeyed task_key db.tasks → IsKeyed task_key (requeued now db).tasks
requeued-IsKeyed now db k = IsKeyed-update task_key (lapsed now) reopened (λ r. refl) db.tasks k

pub get_lem :
    (viewer task_id : String) (now : ℕ) (db : Db)
    → IsKeyed task_key db.tasks
    → get viewer task_id now db
      ≡ (answer (seen viewer now task_id (requeued now db)), requeued now db)
unfolding get ◌>>=◌
get_lem viewer task_id now db k =
    ground
      (arith, visible_task-seen viewer task_id now (requeued now db) (requeued-IsKeyed now db k))

-- After a requeue no claim has lapsed at that time.
abbrev pub NoneLapsed : ℕ → Db → Type 0
NoneLapsed now db = All (λ t. lapsed now t ≡ false) db.tasks

pub requeued-NoneLapsed : (now : ℕ) (db : Db) → NoneLapsed now (requeued now db)
requeued-NoneLapsed now db = update_clears (lapsed now) reopened (λ r h. refl) db.tasks

requeued_unchanged : (now : ℕ) (db : Db) → NoneLapsed now db → requeued now db ≡ db
requeued_unchanged now db h =
    ap (λ ts. record db { tasks = ts }) (update-none (lapsed now) reopened db.tasks h)

-- Visibility does not depend on the task table.
pub visible-tasks :
    (db : Db) (ts : List Task) (viewer : String) (now : ℕ) (p t : Option String)
    → visible (record db { tasks = ts }) viewer now p t ≡ visible db viewer now p t
unfolding visible
visible-tasks db ts viewer now none none = refl
visible-tasks db ts viewer now none (some t) = refl
visible-tasks db ts viewer now (some p) none = refl
visible-tasks db ts viewer now (some p) (some t) = refl

-- `Get` where no claim has lapsed reads the table as it is.
pub get_settled :
    (viewer task_id : String) (now : ℕ) (db : Db)
    → IsKeyed task_key db.tasks
    → NoneLapsed now db
    → get viewer task_id now db ≡ (answer (seen viewer now task_id db), db)
get_settled viewer task_id now db k h =
    get_lem viewer task_id now db k
    ∙ ap (λ d. (answer (seen viewer now task_id d), d)) (requeued_unchanged now db h)

-- The UPDATE of `Claim`.
abbrev pub claim_hit : String → Task → Bool
claim_hit task_id t = t.task_id == task_id && is_task_open t.status

abbrev pub claimed_db : String → String → String → ℕ → Db → Db
claimed_db fresh task_id agent now db = record db {
  tasks = update (claim_hit task_id) (taken fresh agent now) db.tasks;
}

abbrev pub claim_outcome : String → String → String → ℕ → Db → Option Task → Result Task × Db
claim_outcome fresh task_id agent now db none = (err (not_found "task not found"), db)
claim_outcome fresh task_id agent now db (some t) =
    if is_task_open t.status
    then (ok (taken fresh agent now t), claimed_db fresh task_id agent now db)
    else (err (not_open t), db)

taken_live :
    (fresh agent : String) (now : ℕ) (t : Task) → lapsed now (taken fresh agent now t) ≡ false
taken_live fresh agent now t = ground arith

claimed-NoneLapsed :
    (fresh task_id agent : String) (now : ℕ) (db : Db)
    → NoneLapsed now db
    → NoneLapsed now (claimed_db fresh task_id agent now db)
claimed-NoneLapsed fresh task_id agent now db h =
    All-update (λ t. lapsed now t ≡ false) (claim_hit task_id) (taken fresh agent now)
      (λ r _ _. taken_live fresh agent now r) db.tasks h

-- The claimer finds the task it has claimed.
seen-claimed :
    (fresh task_id agent : String) (now : ℕ) (db : Db) (t : Task)
    → seen agent now task_id db ≡ some t
    → is_task_open t.status ≡ true
    → seen agent now task_id (claimed_db fresh task_id agent now db)
      ≡ some (taken fresh agent now t)
seen-claimed fresh task_id agent now db t s o =
    elim (Option-cases (find task_key task_id db.tasks)) [
      | inl absent ↦ ground arith
      | inr (u, e) ↦ ground (
        arith,
        find-key task_key task_id u db.tasks e,
        eq_refl task_id,
        find-update task_key (claim_hit task_id) (taken fresh agent now) (λ r. refl) task_id
            db.tasks,
        visible-tasks db (update (claim_hit task_id) (taken fresh agent now) db.tasks) agent now
            u.project_id (some u.task_id),
      )
    ]

claimed-IsKeyed :
    (fresh task_id agent : String) (now : ℕ) (db : Db)
    → IsKeyed task_key db.tasks
    → IsKeyed task_key (claimed_db fresh task_id agent now db).tasks
claimed-IsKeyed fresh task_id agent now db k =
    IsKeyed-update task_key (claim_hit task_id) (taken fresh agent now) (λ r. refl) db.tasks k

-- The count of the UPDATE, for a claimer who sees the task.
claim_count :
    (task_id agent : String) (now : ℕ) (db : Db) (t : Task)
    → IsKeyed task_key db.tasks
    → seen agent now task_id db ≡ some t
    → affected (claim_hit task_id) db.tasks ≡ (if is_task_open t.status then 1 else 0)
claim_count task_id agent now db t k s = elim (Option-cases (find task_key task_id db.tasks)) [
  | inl absent ↦ ground arith
  | inr (u, e) ↦
      ground (arith, affected_at task_key task_id (λ t. is_task_open t.status) db.tasks k)
]

-- `Claim` is a compare-and-swap on the status: after the requeue, an open task that the claimer
-- can see becomes its claim, with a lease of five minutes; any other call fails and writes nothing
-- but the requeue. The ids of the tasks are unique.
pub claim_lem :
    (fresh task_id agent : String) (now : ℕ) (db : Db)
    → IsKeyed task_key db.tasks
    → claim fresh task_id agent now db
      ≡ claim_outcome fresh task_id agent now
          (requeued now db)
          (seen agent now task_id (requeued now db))
unfolding claim ◌>>=◌
claim_lem fresh task_id agent now db k =
    let db1 = requeued now db in
    let k1 = requeued-IsKeyed now db k in
    let h1 = requeued-NoneLapsed now db in
    let db2 = claimed_db fresh task_id agent now db1 in
    let k2 = claimed-IsKeyed fresh task_id agent now db1 k1 in
    let h2 = claimed-NoneLapsed fresh task_id agent now db1 h1 in
    elim (Option-cases (seen agent now task_id db1)) [
      | inl absent ↦ ground (arith, get_settled agent task_id now db1 k1 h1)
      | inr (t, e) ↦ elim (Bool-cases (is_task_open t.status)) [
        | inl is_open ↦ ground (
          arith,
          get_settled agent task_id now db1 k1 h1,
          claim_count task_id agent now db1 t k1 e,
          get_settled agent task_id now db2 k2 h2,
          seen-claimed fresh task_id agent now db1 t e is_open,
        )
        | inr closed ↦ ground (
          arith,
          get_settled agent task_id now db1 k1 h1,
          claim_count task_id agent now db1 t k1 e,
          update-affected (claim_hit task_id) (taken fresh agent now) db1.tasks,
        )
      ]
    ]
