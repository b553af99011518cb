-- ===== src/Verification.antt =====
-- internal/store/tasks.go, Verify: the creator's verdict on a submitted result.
pub mod Checks
use self_organizing_multi_ag.Base.{
  ℕ, String, Bool, true, false, not, Option, none, some, ◌==◌, opt_text,
}
use self_organizing_multi_ag.Errors.{
  text, not_found, conflict, validation_error, access_denied, internal, with_details,
}
use self_organizing_multi_ag.Db.{
  Task, TaskStatus, task_completed, task_failed, status_text, MessageType, result_type, Verdict,
  verified, rejected, VerificationRow, Action, pure, raise, gets, or_raise, raise_if, modify,
  atomically, ◌>>=◌, ◌>>◌,
}
use self_organizing_multi_ag.Table.{find, update, insert}
use self_organizing_multi_ag.Tasks.{get, task_key, is_task_submitted}
use self_organizing_multi_ag.Queue.{VerifyRequest, finish_verification_job, message_key}

abbrev pub is_result : MessageType → Bool
is_result result_type = true
is_result _ = false

-- The status that a verdict leads to.
unfoldable pub judged : Verdict → TaskStatus → TaskStatus
judged verified s = task_completed
judged rejected s = task_failed
judged _ s = s

abbrev pub new_verification : String → String → String → VerifyRequest → ℕ → VerificationRow
new_verification fresh task_id verifier req now = record {
  verification_id = fresh;
  schema_version = "1.0";
  task_id = task_id;
  verifier_id = verifier;
  target_message_id = req.target_message_id;
  verdict = req.verdict;
  rationale = req.rationale;
  evidence = req.evidence;
  ts = now;
}

-- The scan of the target's `task_id`, which fails on NULL.
abbrev pub scanned : Option String → Action String
scanned none = raise internal
scanned (some s) = pure s

-- The checks of the transaction, up to the verdict.
unfoldable pub check_target : String → String → VerifyRequest → Task → Action (Unit {0})
check_target task_id verifier req t = do
  raise_if (not (is_task_submitted t.status))
      (with_details "status" (status_text t.status) (conflict "task is not SUBMITTED"))
  m ←
      or_raise (← gets (λ db. find message_key req.target_message_id db.messages))
        (validation_error (text "target_message_id does not exist"))
  message_task ← scanned m.task_id
  raise_if (not (is_result m.type))
      (validation_error (text "target_message_id is not a RESULT message"))
  raise_if (not (message_task == task_id))
      (validation_error (text "target_message_id does not belong to this task"))
  raise_if (m.sender == verifier)
      (validation_error (text "verifier must not be the RESULT's sender"))
  raise_if (not (t.created_by == verifier))
      (access_denied "only the task creator may verify its result")
  raise_if (not (opt_text t.submitted_message_id == req.target_message_id))
      (conflict "target is not the accepted result for this attempt")

unfoldable pub record_verdict : String → String → String → VerifyRequest → ℕ → Action (Unit {0})
unfolding judged
record_verdict fresh task_id verifier req now = do
  finish_verification_job task_id req now
  modify (λ db. record db {
    verifications = insert (new_verification fresh task_id verifier req now) db.verifications;
    tasks =
        update (λ t. t.task_id == task_id) (λ t. record t { status = judged req.verdict t.status })
          db.tasks;
  })

-- The transaction.
unfoldable pub judge : String → String → String → VerifyRequest → ℕ → Action (Unit {0})
judge fresh task_id verifier req now = atomically do
  t ← or_raise (← gets (λ db. find task_key task_id db.tasks)) (not_found "task not found")
  check_target task_id verifier req t
  record_verdict fresh task_id verifier req now

-- `TaskStore.Verify`
unfoldable pub verify :
    String → String → String → VerifyRequest → ℕ → Action (Task × VerificationRow)
verify fresh task_id verifier req now = do
  get verifier task_id now
  judge fresh task_id verifier req now
  t ← get verifier task_id now
  pure (t, new_verification fresh task_id verifier req now)
