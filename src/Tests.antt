-- ===== src/Tests.antt =====
-- A small database, on which the modules below apply the theorems.
mod Accounts
mod Spaces
mod Bodies
mod Letters
mod Claims
mod Verdicts
mod Runs
mod Doors
mod Desk
mod Shelf
mod Bench
use self_organizing_multi_ag.Base.{
  ◌+◌, ◌≤◌, ◌<◌, String, ◌≡◌, ◌≢◌, ◌↔◌, ◌⊎◌, refl, inl, true, false, Option, none, some, List, [],
  ◌∷◌, arith, eq_iff, ◌==◌, if◌then◌else◌,
}
use self_organizing_multi_ag.Errors.{ApiError, ok, err, is_ok, conflict}
use self_organizing_multi_ag.Db.{
  Db, Agent, Task, task_open, task_submitted, task_completed, MessageRow, result_type, JobRow,
  verified, ◌>>=◌,
}
use self_organizing_multi_ag.Table.{find, select, update, affected, insert, IsKeyed}
use self_organizing_multi_ag.Scope.{visible}
use self_organizing_multi_ag.Tasks.{task_key, claim, taken, CreateTaskRequest}
use self_organizing_multi_ag.Tasks.Claiming.{claim_outcome, requeued, seen, claim_lem}
use self_organizing_multi_ag.Tasks.Exclusive.{row, claim_excluded, claim_takes_over}
use self_organizing_multi_ag.Queue.{
  VerificationJob, VerifyRequest, job_key, claim_verification, next_job, claimable, may_verify_in,
  earliest, take_job, verification_backoff, finish_verification_job, released,
}
use self_organizing_multi_ag.Queue.Exclusive.{
  attempt_excludes, late_verdict_refused, timely_verdict_taken,
}
use self_organizing_multi_ag.Verification.{check_target, judge}
use self_organizing_multi_ag.Verification.Checks.{
  Accepted, check_target_iff, Committed, judge_outcome,
}
use self_organizing_multi_ag.Messages.{
  Envelope, insert_message, dedup, settle_new, confirm, submit, claim_of, message_row,
}
use self_organizing_multi_ag.Messages.Dedup.{insert_message_twice}
use self_organizing_multi_ag.Service.{
  Operation, create_task, claim_task, heartbeat_task, store_message, run, TasksValid, AllFresh,
  run-TasksValid, run-Reach, run_final,
}
use self_organizing_multi_ag.Tasks.Lifecycle.{Reach}
use self_organizing_multi_ag.Limiter.{Limiter, counter_key, allow}
use self_organizing_multi_ag.Limiter.Window.{live, unless_over, spent, admits, allow_lem}
use self_organizing_multi_ag.Queue.Attempts.{backoff_bounds, Leased, claim_verification-Leased}

abbrev plain_task : Task
plain_task = record {
  task_id = "t1";
  schema_version = "1.0";
  objective = "sum two numbers";
  context = "";
  constraints = [];
  required_capabilities = [];
  required_tools = [];
  success_criteria = [];
  status = task_open;
  owner = none;
  team_id = none;
  project_id = none;
  created_by = "creator";
  idempotency_key = none;
  created_at = 10;
  deadline = none;
  claimed_at = none;
  lease_expires_at = none;
  claim_id = none;
  submitted_message_id = none;
}

abbrev held_task : Task
held_task = taken "c1" "worker" 100 (record plain_task { task_id = "t2" })

abbrev handed_in : Task
handed_in = record plain_task {
  task_id = "t3";
  status = task_submitted;
  owner = some "worker";
  claimed_at = some 20;
  claim_id = some "c0";
  submitted_message_id = some "m1";
}

abbrev answer_message : MessageRow
answer_message = record {
  seq = 1;
  message_id = "m1";
  protocol_version = "1.0";
  type = result_type;
  sender = "worker";
  recipient = "creator";
  ts = 30;
  conversation_id = none;
  task_id = some "t3";
  priority = "normal";
  payload = "{}";
  evidence = [];
  reply_to = none;
  ttl = none;
  received_at = 30;
}

abbrev waiting_job : JobRow
waiting_job = record {
  task_id = "t3";
  message_id = "m1";
  attempts = 0;
  next_at = 30;
  attempt_id = "";
  lease_until = 0;
  done = false;
}

abbrev plain_agent : String → Agent
plain_agent agent_id = record {
  agent_id = agent_id;
  schema_version = "1.0";
  capabilities =
      record { capability_id = ""; name = "arithmetic"; description = ""; tags = [] } ∷ [];
  tools = [];
  skills = [];
  constraints = "{}";
  preferred_roles = [];
  evidence = [];
  operator = none;
  load = 0;
  status = "READY";
  metadata = [];
  created_at = 1;
  updated_at = 1;
}

abbrev sample : Db
sample = record {
  agents = plain_agent "creator" ∷ plain_agent "worker" ∷ [];
  credentials = [];
  credential_audit = [];
  credential_operator_updates = [];
  tasks = plain_task ∷ held_task ∷ handed_in ∷ [];
  messages = answer_message ∷ [];
  next_seq = 2;
  verification_jobs = waiting_job ∷ [];
  verifications = [];
  verification_alerts = [];
  verification_retries = [];
  projects = [];
  project_members = [];
  knowledge = [];
  artifacts = [];
  operator_requests = [];
  telegram_updates = [];
}

tasks-IsKeyed : IsKeyed task_key sample.tasks
unfolding find
tasks-IsKeyed = (refl, (refl, (refl, tt)))

held_row : row "t2" sample ≡ some held_task
unfolding find
held_row = refl

abbrev payload_is_claim : String → Option String
payload_is_claim p = some p

abbrev result_envelope : Envelope
result_envelope = record {
  message_id = "m2";
  protocol_version = "1.0";
  type = result_type;
  sender = "worker";
  recipient = "creator";
  timestamp = 200_000_000_000;
  conversation_id = "";
  task_id = "t2";
  priority = "normal";
  payload = "c1";
  evidence = [];
  reply_to = none;
  ttl = none;
}

abbrev request : CreateTaskRequest
request = record {
  objective = "prove it";
  context = "";
  constraints = [];
  required_capabilities = [];
  required_tools = [];
  success_criteria = [];
  deadline = none;
  project_id = none;
}
