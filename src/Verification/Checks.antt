-- ===== src/Verification/Checks.antt =====
-- Lemmas on the transaction of `Verify` of internal/store/tasks.go.
use self_organizing_multi_ag.Base.{
  ℕ, String, ◌≡◌, ◌≢◌, ◌↔◌, ◌⊎◌, refl, ap, Option, none, some, arith, ◌==◌, eq_iff, eq_refl, ◌∙◌,
  Option-cases, inl, inr, opt_text,
}
use self_organizing_multi_ag.Errors.{ApiError, Result-cases, ok, err, internal}
use self_organizing_multi_ag.Db.{Db, Task, task_submitted, MessageRow, result_type, ◌>>=◌}
use self_organizing_multi_ag.Db.Respects.{
  Respects, IsPreorder, respects_rules, Respects-raise, Respects-pure,
}
use self_organizing_multi_ag.Db.Inversion.{
  >>=-Ran, >>=-unchanged, atomically_ok, atomically_err, select-ok, modify_lem,
}
use self_organizing_multi_ag.Table.{find, update, insert}
use self_organizing_multi_ag.Tasks.{task_key}
use self_organizing_multi_ag.Queue.{VerifyRequest, message_key, finish_verification_job}
use self_organizing_multi_ag.Verification.{
  check_target, scanned, new_verification, judged, judge, record_verdict,
}

-- The target of an accepted verdict, and how it stands to the task and the verifier.
pub record Accepted (task_id verifier : String) (req : VerifyRequest) (t : Task) (db : Db)
    : Type 0 where
  pub target : MessageRow
  pub found : find message_key req.target_message_id db.messages ≡ some target
  pub submitted : t.status ≡ task_submitted
  pub is_result : target.type ≡ result_type
  pub of_task : target.task_id ≡ some task_id
  pub not_own : target.sender ≢ verifier
  pub creator : t.created_by ≡ verifier
  pub current : opt_text t.submitted_message_id ≡ req.target_message_id

-- One fact for each guard.
module _ (task_id verifier : String) (req : VerifyRequest) (t : Task) (db : Db)
    (h : (check_target task_id verifier req t db).0 ≡ ok tt) where
  passed_submitted : t.status ≡ task_submitted
  unfolding check_target ◌>>=◌
  passed_submitted = ground arith

  passed_found :
      (target : MessageRow) × (find message_key req.target_message_id db.messages ≡ some target)
  unfolding check_target ◌>>=◌
  passed_found = elim (Option-cases (find message_key req.target_message_id db.messages)) [
    | inl absent ↦ absurd (ground arith)
    | inr found ↦ found
  ]

  module _ (m : MessageRow) (e : find message_key req.target_message_id db.messages ≡ some m) where
    passed_task : (m.type ≡ result_type) × (m.task_id ≡ some task_id)
    unfolding check_target ◌>>=◌
    passed_task = ground (arith, eq_iff (opt_text m.task_id) task_id)

    passed_parties : (m.sender ≢ verifier) × (t.created_by ≡ verifier)
    unfolding check_target ◌>>=◌
    passed_parties = ground (arith, eq_iff m.sender verifier, eq_iff t.created_by verifier)

    passed_current : opt_text t.submitted_message_id ≡ req.target_message_id
    unfolding check_target ◌>>=◌
    passed_current = ground (arith, eq_iff (opt_text t.submitted_message_id) req.target_message_id)

check_target-Accepted :
    (task_id verifier : String) (req : VerifyRequest) (t : Task) (db : Db)
    → (check_target task_id verifier req t db).0 ≡ ok tt
    → Accepted task_id verifier req t db
check_target-Accepted task_id verifier req t db h =
    let (m, e) = passed_found task_id verifier req t db h in
    record {
      target = m;
      found = e;
      submitted = passed_submitted task_id verifier req t db h;
      is_result = (passed_task task_id verifier req t db h m e).0;
      of_task = (passed_task task_id verifier req t db h m e).1;
      not_own = (passed_parties task_id verifier req t db h m e).0;
      creator = (passed_parties task_id verifier req t db h m e).1;
      current = passed_current task_id verifier req t db h m e;
    }

Accepted-check_target :
    (task_id verifier : String) (req : VerifyRequest) (t : Task) (db : Db)
    → Accepted task_id verifier req t db
    → (check_target task_id verifier req t db).0 ≡ ok tt
unfolding check_target ◌>>=◌
Accepted-check_target task_id verifier req t db a = ground (
  arith,
  eq_refl task_id,
  eq_refl verifier,
  eq_refl req.target_message_id,
  eq_iff a.target.sender verifier,
)

-- The checks of `Verify` pass exactly when the task is SUBMITTED, the target message exists, is a
-- RESULT and is of the task, its sender is not the verifier, the verifier is the task's creator,
-- and the target is the result that the task was submitted with.
pub check_target_iff :
    (task_id verifier : String) (req : VerifyRequest) (t : Task) (db : Db)
    → ((check_target task_id verifier req t db).0 ≡ ok tt) ↔ Accepted task_id verifier req t db
check_target_iff task_id verifier req t db = (
  check_target-Accepted task_id verifier req t db,
  Accepted-check_target task_id verifier req t db,
)

-- The checks write nothing.
abbrev pub Unchanged : Db → Db → Type 0
Unchanged db db' = db' ≡ db

Unchanged-order : IsPreorder Unchanged
Unchanged-order = record { same = λ db. refl; chain = λ a b c p q. q ∙ p }

scanned-Unchanged : (s : Option String) → Respects Unchanged (scanned s)
scanned-Unchanged none = Respects-raise Unchanged-order internal
scanned-Unchanged (some s) = Respects-pure Unchanged-order s

check_target-Unchanged :
    (task_id verifier : String) (req : VerifyRequest) (t : Task)
    → Respects Unchanged (check_target task_id verifier req t)
unfolding check_target
check_target-Unchanged task_id verifier req t =
    search (respects_rules, Unchanged-order, scanned-Unchanged) depth 14

-- What the transaction writes besides the job.
abbrev pub verdict_db : String → String → String → VerifyRequest → ℕ → Db → Db
verdict_db fresh task_id verifier req now db = record db {
  verifications = insert (new_verification fresh task_id verifier req now) db.verifications;
  tasks =
      update (λ t. t.task_id == task_id) (λ t. record t { status = judged req.verdict t.status })
        db.tasks;
}

-- A transaction that commits: what it has checked, and what it leaves.
pub record Committed (fresh task_id verifier : String) (req : VerifyRequest) (now : ℕ) (db : Db)
    : Type 0 where
  pub task : Task
  pub task_found : find task_key task_id db.tasks ≡ some task
  pub accepted : Accepted task_id verifier req task db
  pub attempt : (finish_verification_job task_id req now db).0 ≡ ok tt
  pub after :
      (judge fresh task_id verifier req now db).1
      ≡ verdict_db fresh task_id verifier req now (finish_verification_job task_id req now db).1

record_verdict_ok :
    (fresh task_id verifier : String) (req : VerifyRequest) (now : ℕ) (db : Db)
    → (record_verdict fresh task_id verifier req now db).0 ≡ ok tt
    → ((finish_verification_job task_id req now db).0 ≡ ok tt)
      × ((record_verdict fresh task_id verifier req now db).1
          ≡ verdict_db fresh task_id verifier req now
              (finish_verification_job task_id req now db).1)
unfolding record_verdict
record_verdict_ok fresh task_id verifier req now db h =
    let r = >>=-Ran _ _ db tt h in (r.first, r.end ∙ ap (λ p. p.1) (modify_lem _ _))

judge-Committed :
    (fresh task_id verifier : String) (req : VerifyRequest) (now : ℕ) (db : Db)
    → (judge fresh task_id verifier req now db).0 ≡ ok tt
    → Committed fresh task_id verifier req now db
unfolding judge
judge-Committed fresh task_id verifier req now db h =
    let (h1, kept) = atomically_ok _ db tt h in
    let (t, found, h2, end) = select-ok _ _ _ db tt h1 in
    let (u, checked, h3, end') =
      >>=-unchanged _ _ db tt ((check_target-Unchanged task_id verifier req t).at db) h2 in
    let (attempt, after) = record_verdict_ok fresh task_id verifier req now db h3 in
    record {
      task = t;
      task_found = found;
      accepted = check_target-Accepted task_id verifier req t db checked;
      attempt = attempt;
      after = kept ∙ end ∙ end' ∙ after;
    }

-- A verdict that is refused leaves the database as it was.
judge_fails :
    (fresh task_id verifier : String) (req : VerifyRequest) (now : ℕ) (db : Db) (e : ApiError)
    → (judge fresh task_id verifier req now db).0 ≡ err e
    → (judge fresh task_id verifier req now db).1 ≡ db
unfolding judge
judge_fails fresh task_id verifier req now db e h = atomically_err _ db e h

-- The transaction of `Verify` either commits a verdict that passed every check and whose attempt
-- the queue took, or fails and leaves the database as it was.
pub judge_outcome :
    (fresh task_id verifier : String) (req : VerifyRequest) (now : ℕ) (db : Db)
    → Committed fresh task_id verifier req now db
      ⊎ ((e : ApiError) × ((judge fresh task_id verifier req now db).0 ≡ err e)
          × ((judge fresh task_id verifier req now db).1 ≡ db))
judge_outcome fresh task_id verifier req now db =
    elim (Result-cases (judge fresh task_id verifier req now db).0) [
      | inl (a, h) ↦ inl (judge-Committed fresh task_id verifier req now db h)
      | inr (e, h) ↦ inr (e, h, judge_fails fresh task_id verifier req now db e h)
    ]
