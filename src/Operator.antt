-- ===== src/Operator.antt =====
-- internal/store/verification_operator.go: the operator's retries of exhausted verifications, and the
-- alerts about them.
pub mod Retry
pub mod Alerts
use self_organizing_multi_ag.Base.{
  ℕ, ◌+◌, String, Bool, true, false, not, ◌&&◌, Option, none, some, List, [], ◌∷◌, map, take, ◌==◌,
  leb, nat_eq, text_lt, opt_is, is_some, if◌then◌else◌,
}
use self_organizing_multi_ag.Errors.{Result, ok, conflict}
use self_organizing_multi_ag.Db.{
  Db, Task, JobRow, AlertRow, RetryRow, Action, pure, gets, raise_if, modify, atomically, ◌>>=◌,
  ◌>>◌,
}
use self_organizing_multi_ag.Table.{first, find, update, affected, insert, select, order_by}
use self_organizing_multi_ag.Tasks.{task_key, is_task_submitted}
use self_organizing_multi_ag.Queue.{job_key}

-- `exhaustedVerification`, its part on the task and its part on the job
abbrev pub still_open : JobRow → Option Task → Bool
still_open j none = false
still_open j (some t) = is_task_submitted t.status && opt_is t.submitted_message_id j.message_id

unfoldable pub exhausted : Db → ℕ → JobRow → Bool
exhausted db now j =
    not j.done
    && leb 5 j.attempts
    && leb j.lease_until now
    && still_open j (find task_key j.task_id db.tasks)

-- `ExhaustedVerifications`
unfoldable pub exhausted_verifications : ℕ → Db → List String
unfolding exhausted
exhausted_verifications now db = take 10 (
    map (λ (j : JobRow). j.task_id)
      (order_by (λ (a b : JobRow). text_lt a.task_id b.task_id)
        (select (exhausted db now) db.verification_jobs)))

abbrev pub of_retry : ℕ → RetryRow → Bool
of_retry update_id r = nat_eq r.update_id update_id

-- The SET of the retry.
abbrev pub restarted : ℕ → JobRow → JobRow
restarted now j = record j { attempts = 0; next_at = now; attempt_id = ""; lease_until = 0 }

abbrev pub retried : Db → ℕ → String → JobRow → Bool
retried db now task_id j = j.task_id == task_id && exhausted db now j

abbrev pub unsent : AlertRow → AlertRow
unsent a = record a { sent = false; lease_until = 0; token = "" }

-- `RetryVerification` past its ledger.
unfoldable pub restart : ℕ → String → ℕ → Action Bool
restart update_id task_id now = do
  n ← gets (λ db. affected (retried db now task_id) db.verification_jobs)
  modify (λ db. record db {
    verification_jobs = update (retried db now task_id) (restarted now) db.verification_jobs;
  })
  raise_if (not (nat_eq n 1))
      (conflict "task has no exhausted verification; active and completed tasks cannot be reset")
  modify (λ db. record db {
    verification_retries =
        insert (record { update_id = update_id; task_id = task_id; created_at = now })
          db.verification_retries;
  })
  modify (λ db. record db {
    verification_alerts = update (λ a. a.task_id == task_id) unsent db.verification_alerts;
  })
  pure true

unfoldable pub restart_once : ℕ → String → ℕ → Option RetryRow → Action Bool
unfolding restart
restart_once update_id task_id now none = restart update_id task_id now
restart_once update_id task_id now (some prior) = do
  raise_if (not (prior.task_id == task_id)) (conflict "update already used")
  pure false

-- `RetryVerification`
unfoldable pub retry_verification : ℕ → String → ℕ → Action Bool
retry_verification update_id task_id now = atomically do
  prior ← gets (λ db. first (of_retry update_id) db.verification_retries)
  restart_once update_id task_id now prior

abbrev pub alert_key : AlertRow → String
alert_key a = a.task_id

abbrev pub new_alert : String → AlertRow
new_alert task_id = record { task_id = task_id; sent = false; lease_until = 0; token = "" }

-- `INSERT OR IGNORE INTO verification_alerts(task_id) SELECT …`
unfoldable pub add_alerts : List JobRow → List AlertRow → List AlertRow
add_alerts [] t = t
add_alerts (j ∷ js) t =
    let rest = add_alerts js t in
    if is_some (find alert_key j.task_id rest) then rest else insert (new_alert j.task_id) rest

abbrev pub exhausted_row : Db → ℕ → Option JobRow → Bool
exhausted_row db now none = false
exhausted_row db now (some j) = exhausted db now j

-- The conditions of the SELECT on an alert and its job.
abbrev pub sendable : Db → ℕ → AlertRow → Bool
sendable db now a =
    not a.sent
    && leb a.lease_until now
    && exhausted_row db now (find job_key a.task_id db.verification_jobs)

abbrev pub first_of : List AlertRow → Option AlertRow
first_of [] = none
first_of (a ∷ t) = some a

-- `ORDER BY a.task_id LIMIT 1`
unfoldable pub next_alert : ℕ → Db → Option AlertRow
next_alert now db = first_of (
    order_by (λ (a b : AlertRow). text_lt a.task_id b.task_id)
      (select (sendable db now) db.verification_alerts))

-- The transaction's end, from the database before it and within it: a rollback where no alert is to be
-- sent, and else the commit of the two minutes of the alert's lease.
unfoldable pub take_alert : String → ℕ → Option AlertRow → Db → Db → Result (String × String) × Db
take_alert token now none before within = (ok ("", ""), before)
take_alert token now (some a) before within = (
  ok (a.task_id, token),
  record within {
    verification_alerts =
        update (λ (r : AlertRow). r.task_id == a.task_id)
          (λ r. record r { token = token; lease_until = now + 120 }) within.verification_alerts;
  },
)

-- `ClaimVerificationAlert`
unfoldable pub claim_verification_alert : String → ℕ → Action (String × String)
unfolding add_alerts next_alert take_alert
claim_verification_alert token now db =
    let within = record db {
      verification_alerts =
          add_alerts (select (exhausted db now) db.verification_jobs) db.verification_alerts;
    } in
    take_alert token now (next_alert now within) db within

-- `MarkVerificationAlertSent`
unfoldable pub mark_verification_alert_sent : String → String → Action (Unit {0})
mark_verification_alert_sent task_id token = modify (λ db. record db {
  verification_alerts =
      update (λ (a : AlertRow). a.task_id == task_id && a.token == token)
        (λ a. record a { sent = true; token = ""; lease_until = 0 }) db.verification_alerts;
})
