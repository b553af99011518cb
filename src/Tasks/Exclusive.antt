-- ===== src/Tasks/Exclusive.antt =====
-- Lemmas on `Claim` of internal/store/tasks.go for a task that is claimed already.
use self_organizing_multi_ag.Base.{
  ℕ, ◌≤◌, ◌<◌, String, ◌≡◌, refl, ◌∙◌, true, false, Option, some, arith, eq_refl, Option-cases, inl,
  inr, if◌then◌else◌,
}
use self_organizing_multi_ag.Errors.{ok, is_ok}
use self_organizing_multi_ag.Db.{Db, Task, task_claimed}
use self_organizing_multi_ag.Table.{find, find-key, update, map_row, IsKeyed}
use self_organizing_multi_ag.Table.Keyed.{find-update}
use self_organizing_multi_ag.Scope.{visible}
use self_organizing_multi_ag.Tasks.{task_key, lapsed, reopened, claim, taken, is_task_open}
use self_organizing_multi_ag.Tasks.Claiming.{
  requeued, seen, claimed_db, claim_hit, claim_lem, visible-tasks,
}

-- The task of a database, under `requeued`.
abbrev pub row : String → Db → Option Task
row task_id db = find task_key task_id db.tasks

row-requeued :
    (task_id : String) (now : ℕ) (db : Db)
    → row task_id (requeued now db)
      ≡ map_row (λ t. if lapsed now t then reopened t else t) (row task_id db)
row-requeued task_id now db =
    find-update task_key (lapsed now) reopened (λ r. refl) task_id db.tasks

row-claimed :
    (fresh task_id agent : String) (now : ℕ) (db : Db)
    → row task_id (claimed_db fresh task_id agent now db)
      ≡ map_row (λ t. if claim_hit task_id t then taken fresh agent now t else t) (row task_id db)
row-claimed fresh task_id agent now db =
    find-update task_key (claim_hit task_id) (taken fresh agent now) (λ r. refl) task_id db.tasks

-- While a claim's lease runs, no call of `Claim`, by whatever agent, gets the task: it fails, and
-- the row stays as it is. The ids of the tasks are unique.
pub claim_excluded :
    (fresh task_id agent : String) (now : ℕ) (db : Db) (t : Task) (holder : String) (lease : ℕ)
    → IsKeyed task_key db.tasks
    → row task_id db ≡ some t
    → t.status ≡ task_claimed
    → t.claim_id ≡ some holder
    → t.lease_expires_at ≡ some lease
    → now < lease
    → (is_ok (claim fresh task_id agent now db).0 ≡ false)
      × (row task_id (claim fresh task_id agent now db).1 ≡ some t)
claim_excluded fresh task_id agent now db t holder lease k e s c l h =
    let kept : row task_id (requeued now db) ≡ some t =
      ground (arith, row-requeued task_id now db) in
    rw (claim_lem fresh task_id agent now db k)
      (elim (Option-cases (seen agent now task_id (requeued now db))) [
        | inl hidden ↦ rw hidden (refl, kept)
        | inr (u, found) ↦
            let same : u ≡ t = ground (arith, kept) in
            let closed : is_task_open u.status ≡ false = ground arith in
            rw (found, closed) (refl, kept)
      ])

-- When the lease of a claimed task has run out, whoever sees the task may claim it: the claim
-- succeeds, and the row is the new claim's. The ids of the tasks are unique.
pub claim_takes_over :
    (fresh task_id agent : String) (now : ℕ) (db : Db) (t : Task) (lease : ℕ)
    → IsKeyed task_key db.tasks
    → row task_id db ≡ some t
    → t.status ≡ task_claimed
    → t.lease_expires_at ≡ some lease
    → lease ≤ now
    → visible db agent now t.project_id (some t.task_id) ≡ true
    → ((claim fresh task_id agent now db).0 ≡ ok (taken fresh agent now t))
      × (row task_id (claim fresh task_id agent now db).1 ≡ some (taken fresh agent now t))
claim_takes_over fresh task_id agent now db t lease k e s l h v =
    let again : row task_id (requeued now db) ≡ some (reopened t) =
      ground (arith, row-requeued task_id now db) in
    let sees : visible (requeued now db) agent now t.project_id (some t.task_id) ≡ true =
      visible-tasks db (update (lapsed now) reopened db.tasks) agent now t.project_id
        (some t.task_id)
      ∙ v in
    let found : seen agent now task_id (requeued now db) ≡ some (reopened t) =
      ground (arith, again) in
    let id_t : t.task_id ≡ task_id = find-key task_key task_id t db.tasks e in
    let now_taken : row task_id (claimed_db fresh task_id agent now (requeued now db))
        ≡ some (taken fresh agent now t) =
      ground
        (arith, again, row-claimed fresh task_id agent now (requeued now db), eq_refl task_id) in
    rw (claim_lem fresh task_id agent now db k) (rw found (refl, now_taken))
