-- ===== src/Queue.antt =====
-- internal/store/verification_queue.go: the durable queue of verification attempts.
pub mod Attempts
pub mod Exclusive
use self_organizing_multi_ag.Base.{
  ℕ, ◌+◌, ◌-◌, ◌*◌, ◌^◌, String, Bool, true, false, not, ◌&&◌, ◌||◌, Option, none, some, List, [],
  ◌∷◌, ◌==◌, leb, ltb, nat_eq, opt_is, opt_is_not, if◌then◌else◌, any, text_lt,
}
use self_organizing_multi_ag.Errors.{internal, conflict}
use self_organizing_multi_ag.Db.{
  Db, Task, Project, ProjectStatus, project_active, project_archived, MessageRow, JobRow, Verdict,
  inconclusive, Action, pure, gets, or_raise, raise_if, modify, atomically, ◌>>=◌, ◌>>◌,
}
use self_organizing_multi_ag.Table.{find, update, select}
use self_organizing_multi_ag.Scope.{is_open, active_in}
use self_organizing_multi_ag.Tasks.{is_task_submitted, task_key}

-- `maxVerificationAttempts`
abbrev pub max_attempts : ℕ
max_attempts = 5

-- `verificationLease`, five minutes
abbrev pub verification_lease : ℕ
verification_lease = 300

-- `verificationBackoff`, in seconds: a minute, doubled with each attempt.
unfoldable pub verification_backoff : ℕ → ℕ
verification_backoff attempts =
    let low = if ltb attempts 1 then 1 else attempts in
    let a = if ltb max_attempts low then max_attempts else low in 60 * 2 ^ (a - 1)

abbrev pub job_key : JobRow → String
job_key j = j.task_id

abbrev pub message_key : MessageRow → String
message_key m = m.message_id

abbrev pub is_project_active : ProjectStatus → Bool
is_project_active project_active = true
is_project_active project_archived = false

-- The EXISTS over the task's project.
unfoldable pub may_verify_in : Db → String → Option String → Bool
may_verify_in db viewer none = true
may_verify_in db viewer (some p) =
    any
      (λ (r : Project).
        r.project_id == p
        && is_project_active r.status
        && (is_open r.visibility || active_in db viewer r.project_id))
      db.projects

-- The conditions of the SELECT on the joined task.
abbrev pub awaits : Db → String → JobRow → Task → Bool
awaits db viewer j t =
    is_task_submitted t.status
    && opt_is t.submitted_message_id j.message_id
    && t.created_by == viewer
    && opt_is_not t.owner viewer
    && may_verify_in db viewer t.project_id

-- Its conditions on the job.
abbrev pub is_due : ℕ → JobRow → Bool
is_due now j =
    not j.done && ltb j.attempts max_attempts && leb j.next_at now && leb j.lease_until now

unfoldable pub claimable : Db → String → ℕ → JobRow → Bool
claimable db viewer now j =
    is_due now j
    && elim (find task_key j.task_id db.tasks) [ none ↦ false | some t ↦ awaits db viewer j t ]

-- `ORDER BY next_at, task_id`
abbrev pub due_before : JobRow → JobRow → Bool
due_before a b =
    ltb a.next_at b.next_at || (nat_eq a.next_at b.next_at && text_lt a.task_id b.task_id)

-- The first row in that order, the head of an `ORDER BY … LIMIT 1`.
unfoldable pub earliest : List JobRow → Option JobRow
earliest [] = none
earliest (j ∷ js) = elim (earliest js) [
  | none ↦ some j
  | some k ↦ if due_before k j then some k else some j
]

abbrev pub leased : String → ℕ → JobRow → JobRow
leased fresh now j = record j {
  attempts = j.attempts + 1;
  attempt_id = fresh;
  lease_until = now + verification_lease;
  next_at = now + verification_lease + verification_backoff (j.attempts + 1);
}

pub record VerificationJob : Type 0 where
  pub attempt_id : String
  pub attempts : ℕ
  pub lease_until : ℕ
  pub task : Task
  pub result : MessageRow

-- The rest of `claimVerificationAt` once a job is chosen.
unfoldable pub take_job : String → ℕ → JobRow → Action (Option VerificationJob)
take_job fresh now j = do
  modify (λ db. record db {
    verification_jobs =
        update (λ r. r.task_id == j.task_id) (leased fresh now) db.verification_jobs;
  })
  t ← or_raise (← gets (λ db. find task_key j.task_id db.tasks)) internal
  m ← or_raise (← gets (λ db. find message_key j.message_id db.messages)) internal
  pure (
      some (record {
        attempt_id = fresh;
        attempts = j.attempts + 1;
        lease_until = now + verification_lease;
        task = t;
        result = m;
      }))

abbrev pub or_no_job :
    Option JobRow → (JobRow → Action (Option VerificationJob)) → Action (Option VerificationJob)
or_no_job none f = pure none
or_no_job (some j) f = f j

-- The job that the SELECT returns.
unfoldable pub next_job : String → ℕ → Db → Option JobRow
unfolding earliest
next_job viewer now db = earliest (select (claimable db viewer now) db.verification_jobs)

-- `claimVerificationAt`
unfoldable pub claim_verification : String → String → ℕ → Action (Option VerificationJob)
unfolding take_job
claim_verification fresh viewer now =
    atomically do found ← gets (next_job viewer now); or_no_job found (take_job fresh now)

pub record VerifyRequest : Type 0 where
  pub attempt_id : String
  pub target_message_id : String
  pub verdict : Verdict
  pub rationale : String
  pub evidence : List String

abbrev pub is_inconclusive : Verdict → Bool
is_inconclusive inconclusive = true
is_inconclusive _ = false

-- The attempt that a request names, or the lease that it does not name, stands in its way.
abbrev pub stale : VerifyRequest → ℕ → JobRow → Bool
stale req now j = not (j.attempt_id == req.attempt_id) || leb j.lease_until now

abbrev pub held : ℕ → JobRow → Bool
held now j = not (j.attempt_id == "") && ltb now j.lease_until

abbrev pub released : VerifyRequest → ℕ → ℕ → JobRow → JobRow
released req now attempts j = record j {
  done = not (is_inconclusive req.verdict);
  attempt_id = "";
  lease_until = 0;
  next_at = now + verification_backoff attempts;
}

-- Its part for a task with a job.
unfoldable pub finish_job : String → VerifyRequest → ℕ → JobRow → Action (Unit {0})
finish_job task_id req now j = do
  if req.attempt_id == ""
      then raise_if (held now j)
          (conflict "verification is leased; provide its attempt_id or wait for expiry")
      else raise_if (stale req now j) (conflict "verification attempt is stale or expired")
  modify (λ db. record db {
    verification_jobs =
        update (λ r. r.task_id == task_id) (released req now j.attempts) db.verification_jobs;
  })

unfoldable pub finish_found : String → VerifyRequest → ℕ → Option JobRow → Action (Unit {0})
unfolding finish_job
finish_found task_id req now none = raise_if (not (req.attempt_id == "")) internal
finish_found task_id req now (some j) = finish_job task_id req now j

-- `finishVerificationJob`; a record without a job takes a verdict that names no attempt.
unfoldable pub finish_verification_job : String → VerifyRequest → ℕ → Action (Unit {0})
unfolding finish_found
finish_verification_job task_id req now = do
  j ← gets (λ db. find job_key task_id db.verification_jobs)
  finish_found task_id req now j
