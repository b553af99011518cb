-- ===== src/Operator/Retry.antt =====
-- Lemmas on `RetryVerification` of internal/store/verification_operator.go.
use self_organizing_multi_ag.Base.{
  ℕ, ◌≤◌, String, ◌≡◌, ◌⊎◌, refl, sym, Bool, true, false, Option, none, some, arith, ◌==◌, eq_iff,
  eq_refl, Option-cases, inl, inr,
}
use self_organizing_multi_ag.Errors.{ok}
use self_organizing_multi_ag.Db.{Db, Task, JobRow, RetryRow, ◌>>=◌}
use self_organizing_multi_ag.Table.{first, find, find-key, update, insert, affected, IsKeyed}
use self_organizing_multi_ag.Table.Keyed.{find-update, affected_at}
use self_organizing_multi_ag.Table.Rows.{first-insert}
use self_organizing_multi_ag.Scope.{active_in}
use self_organizing_multi_ag.Tasks.{task_key}
use self_organizing_multi_ag.Queue.{job_key, claimable, awaits, may_verify_in}
use self_organizing_multi_ag.Operator.{
  exhausted, of_retry, restarted, retried, unsent, restart, restart_once, retry_verification,
}

abbrev restarted_db : ℕ → String → ℕ → Db → Db
restarted_db update_id task_id now db = record db {
  verification_jobs = update (retried db now task_id) (restarted now) db.verification_jobs;
  verification_retries =
      insert (record { update_id = update_id; task_id = task_id; created_at = now })
        db.verification_retries;
  verification_alerts = update (λ a. a.task_id == task_id) unsent db.verification_alerts;
}

module _ (update_id : ℕ) (task_id : String) (now : ℕ) (db : Db) where
  retry_ok :
      (b : Bool)
      → (retry_verification update_id task_id now db).0 ≡ ok b
      → ((u : RetryRow) × (first (of_retry update_id) db.verification_retries ≡ some u)
          × (u.task_id ≡ task_id)
          × (b ≡ false)
          × ((retry_verification update_id task_id now db).1 ≡ db))
        ⊎ ((first (of_retry update_id) db.verification_retries ≡ none)
            × (b ≡ true)
            × (affected (retried db now task_id) db.verification_jobs ≡ 1)
            × ((retry_verification update_id task_id now db).1
                ≡ restarted_db update_id task_id now db))
  unfolding retry_verification restart_once restart ◌>>=◌
  retry_ok b h = elim (Option-cases (first (of_retry update_id) db.verification_retries)) [
    | inl new ↦ inr (new, ground arith, ground arith, ground arith)
    | inr (u, e) ↦ inl (u, e, ground (arith, eq_iff u.task_id task_id), ground arith, ground arith)
  ]

  retry_replay :
      (u : RetryRow)
      → first (of_retry update_id) db.verification_retries ≡ some u
      → u.task_id ≡ task_id
      → retry_verification update_id task_id now db ≡ (ok false, db)
  unfolding retry_verification restart_once ◌>>=◌
  retry_replay u e same = ground (arith, eq_iff u.task_id task_id)

-- A retry counts once: after one that succeeds, the same update for the same task is answered with
-- false at any later time, and nothing is written, so it cannot reset a later round of work.
retry_verification_twice :
    (update_id : ℕ) (task_id : String) (now later : ℕ) (db : Db) (b : Bool)
    → (retry_verification update_id task_id now db).0 ≡ ok b
    → let db' = (retry_verification update_id task_id now db).1 in
      retry_verification update_id task_id later db' ≡ (ok false, db')
retry_verification_twice update_id task_id now later db b h =
    elim (retry_ok update_id task_id now db b h) [
      | inl (u, e, same, c, kept) ↦ rw kept (retry_replay update_id task_id later db u e same)
      | inr (new, c, one, after) ↦
          let db' = restarted_db update_id task_id now db in
          let u : RetryRow = record {
            update_id = update_id;
            task_id = task_id;
            created_at = now;
          } in
          let e : first (of_retry update_id) db'.verification_retries ≡ some u =
            ground (arith, first-insert (of_retry update_id) u db.verification_retries) in
          rw after (retry_replay update_id task_id later db' u e refl)
    ]

exhausted_facts :
    (db : Db) (now : ℕ) (j : JobRow)
    → exhausted db now j ≡ true
    → (t : Task) × (find task_key j.task_id db.tasks ≡ some t)
      × (j.done ≡ false)
      × (5 ≤ j.attempts)
      × (j.lease_until ≤ now)
unfolding exhausted
exhausted_facts db now j h = elim (Option-cases (find task_key j.task_id db.tasks)) [
  | inl absent ↦ absurd (ground arith)
  | inr (t, e) ↦ (t, e, ground arith, ground arith, ground arith)
]

-- The retry writes nothing that the scope of a task is read from.
may_verify_same :
    (update_id : ℕ) (task_id : String) (now : ℕ) (db : Db) (viewer : String)
    (project : Option String)
    → may_verify_in (restarted_db update_id task_id now db) viewer project
      ≡ may_verify_in db viewer project
unfolding may_verify_in active_in
may_verify_same update_id task_id now db viewer none = refl
may_verify_same update_id task_id now db viewer (some p) = refl

claimable-restarted :
    (update_id : ℕ) (task_id : String) (now later : ℕ) (db : Db) (viewer : String) (j : JobRow)
    (t : Task)
    → j.done ≡ false
    → find task_key j.task_id db.tasks ≡ some t
    → now ≤ later
    → claimable (restarted_db update_id task_id now db) viewer later (restarted now j)
      ≡ awaits db viewer j t
unfolding claimable
claimable-restarted update_id task_id now later db viewer j t waits found le =
    ground (arith, may_verify_same update_id task_id now db viewer t.project_id)

-- A retry that resets a job resets an exhausted one: it had five attempts or more and no lease
-- running. From then on whoever awaits the task's result may claim the job again. The task ids of
-- the jobs are unique.
pub retry_revives :
    (update_id : ℕ) (task_id : String) (now later : ℕ) (db : Db) (viewer : String)
    → IsKeyed job_key db.verification_jobs
    → (retry_verification update_id task_id now db).0 ≡ ok true
    → now ≤ later
    → let db' = (retry_verification update_id task_id now db).1 in
      (j : JobRow) × (t : Task) × (find job_key task_id db.verification_jobs ≡ some j)
      × (find task_key task_id db.tasks ≡ some t)
      × (5 ≤ j.attempts)
      × (j.lease_until ≤ now)
      × (find job_key task_id db'.verification_jobs ≡ some (restarted now j))
      × (claimable db' viewer later (restarted now j) ≡ awaits db viewer j t)
retry_revives update_id task_id now later db viewer k h le =
    elim (retry_ok update_id task_id now db true h) [
      | inl (u, e, same, c, kept) ↦ absurd (cc c)
      | inr (new, c, one, after) ↦ elim (Option-cases (find job_key task_id db.verification_jobs)) [
        | inl absent ↦
            absurd (
              ground (arith, affected_at job_key task_id (exhausted db now) db.verification_jobs k))
        | inr (j, e) ↦
            let spent : exhausted db now j ≡ true =
              ground
                (arith, affected_at job_key task_id (exhausted db now) db.verification_jobs k) in
            let (t, found, waits, many, over) = exhausted_facts db now j spent in
            let id_j = find-key job_key task_id j db.verification_jobs e in
            rw after (
              j,
              t,
              e,
              (rw (sym id_j) found),
              many,
              over,
              ground (
                arith,
                eq_refl task_id,
                find-update job_key (retried db now task_id) (restarted now) (λ x. refl) task_id
                    db.verification_jobs,
              ),
              claimable-restarted update_id task_id now later db viewer j t waits found le,
            )
      ]
    ]
