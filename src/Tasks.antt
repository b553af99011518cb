-- ===== src/Tasks.antt =====
-- internal/store/tasks.go: the task table's operations. `now` is the clock reading of the call and
-- `fresh` the identifier that `idgen.New` gives it.
pub mod Claiming
pub mod Lifecycle
pub mod Lives
pub mod Listing
pub mod Exclusive
use self_organizing_multi_ag.Base.{
  ℕ, ◌+◌, String, Bool, true, false, not, ◌&&◌, ◌||◌, Option, none, some, List, ◌==◌, leb, ltb,
  opt_is, is_some, null_if_empty, nat_eq, if◌then◌else◌,
}
use self_organizing_multi_ag.Errors.{ApiError, not_found, conflict, with_details}
use self_organizing_multi_ag.Db.{
  Db, Task, TaskStatus, task_open, task_claimed, task_submitted, status_text, Action, raise, gets,
  or_raise, raise_if, modify, ◌>>=◌, ◌>>◌,
}
use self_organizing_multi_ag.Table.{first, update, affected, insert}
use self_organizing_multi_ag.Scope.{visible}

-- `taskLease`, five minutes
abbrev pub task_lease : ℕ
task_lease = 300

abbrev pub is_task_open : TaskStatus → Bool
is_task_open task_open = true
is_task_open _ = false

abbrev pub is_task_claimed : TaskStatus → Bool
is_task_claimed task_claimed = true
is_task_claimed _ = false

abbrev pub is_task_submitted : TaskStatus → Bool
is_task_submitted task_submitted = true
is_task_submitted _ = false

-- The column against a time; NULL satisfies neither test.
abbrev pub opt_le : Option ℕ → ℕ → Bool
opt_le none now = false
opt_le (some t) now = leb t now

abbrev pub opt_gt : Option ℕ → ℕ → Bool
opt_gt none now = false
opt_gt (some t) now = ltb now t

abbrev pub task_key : Task → String
task_key t = t.task_id

-- The WHERE of `requeueExpiredAt`.
abbrev pub lapsed : ℕ → Task → Bool
lapsed now t =
    is_task_claimed t.status && (not (is_some t.claim_id) || opt_le t.lease_expires_at now)

-- Its SET.
abbrev pub reopened : Task → Task
reopened t = record t {
  status = task_open;
  owner = none;
  claimed_at = none;
  lease_expires_at = none;
  claim_id = none;
  submitted_message_id = none;
}

-- `requeueExpiredAt`, and `RequeueExpired` at its clock reading
unfoldable pub requeue_expired : ℕ → Action (Unit {0})
requeue_expired now = modify (λ db. record db { tasks = update (lapsed now) reopened db.tasks })

-- The row that `Get` scans.
unfoldable pub visible_task : String → String → ℕ → Db → Option Task
visible_task viewer task_id now db =
    first
      (λ (t : Task). t.task_id == task_id && visible db viewer now t.project_id (some t.task_id))
      db.tasks

-- `TaskStore.Get`
unfoldable pub get : String → String → ℕ → Action Task
unfolding requeue_expired visible_task
get viewer task_id now = do
  requeue_expired now
  or_raise (← gets (visible_task viewer task_id now)) (not_found "task not found")

-- The WHERE and the SET of `Heartbeat`.
abbrev pub live_claim : String → String → ℕ → Task → Bool
live_claim agent_id claim_id now t =
    is_task_claimed t.status
    && opt_is t.owner agent_id
    && opt_is t.claim_id claim_id
    && opt_gt t.lease_expires_at now

abbrev pub extended : ℕ → Task → Task
extended now t = record t { lease_expires_at = some (now + task_lease) }

-- `TaskStore.Heartbeat`
unfoldable pub heartbeat : String → String → String → ℕ → Action Task
unfolding requeue_expired
heartbeat task_id agent_id claim_id now = do
  requeue_expired now
  let hit = λ (t : Task). t.task_id == task_id && live_claim agent_id claim_id now t
  n ← gets (λ db. affected hit db.tasks)
  modify (λ db. record db { tasks = update hit (extended now) db.tasks })
  raise_if (nat_eq n 0) (conflict "task is not actively claimed by this agent")
  get agent_id task_id now

-- `CreateTaskRequest`, less `team_id`, which its `Validate` refuses
pub record CreateTaskRequest : Type 0 where
  pub objective : String
  pub context : String
  pub constraints : List String
  pub required_capabilities : List String
  pub required_tools : List String
  pub success_criteria : List String
  pub deadline : Option ℕ
  pub project_id : Option String

abbrev pub new_task : String → String → CreateTaskRequest → String → ℕ → Task
new_task fresh created_by req idempotency_key now = record {
  task_id = fresh;
  schema_version = "1.0";
  objective = req.objective;
  context = req.context;
  constraints = req.constraints;
  required_capabilities = req.required_capabilities;
  required_tools = req.required_tools;
  success_criteria = req.success_criteria;
  status = task_open;
  owner = none;
  team_id = none;
  project_id = req.project_id;
  created_by = created_by;
  idempotency_key = null_if_empty idempotency_key;
  created_at = now;
  deadline = req.deadline;
  claimed_at = none;
  lease_expires_at = none;
  claim_id = none;
  submitted_message_id = none;
}

-- `created_by=? AND idempotency_key=?`: the columns of the unique index `idx_tasks_idem`
abbrev pub same_request : String → String → Task → Bool
same_request created_by key t = t.created_by == created_by && opt_is t.idempotency_key key

-- The INSERT of `Create`, and the read of the new row.
unfoldable pub insert_task : String → String → CreateTaskRequest → String → ℕ → Action Task
insert_task fresh created_by req idempotency_key now = do
  modify (λ db. record db {
    tasks = insert (new_task fresh created_by req idempotency_key now) db.tasks;
  })
  get created_by fresh now

-- Where the creator has used the key before, the INSERT meets the unique index.
unfoldable pub insert_or_reuse :
    String → String → CreateTaskRequest → String → ℕ → Option Task → Action Task
insert_or_reuse fresh created_by req key now none = insert_task fresh created_by req key now
insert_or_reuse fresh created_by req key now (some existing) = get created_by existing.task_id now

-- `TaskStore.Create`
unfoldable pub create : String → String → CreateTaskRequest → String → ℕ → Action Task
create fresh created_by req idempotency_key now =
    if idempotency_key == "" then insert_task fresh created_by req idempotency_key now else do
      existing ← gets (λ db. first (same_request created_by idempotency_key) db.tasks)
      insert_or_reuse fresh created_by req idempotency_key now existing

-- The WHERE and the SET of `Claim`.
abbrev pub taken : String → String → ℕ → Task → Task
taken fresh agent_id now t = record t {
  status = task_claimed;
  owner = some agent_id;
  claimed_at = some now;
  lease_expires_at = some (now + task_lease);
  claim_id = some fresh;
  submitted_message_id = none;
}

abbrev pub not_open : Task → ApiError
not_open t = with_details "status" (status_text t.status) (conflict "task is not OPEN")

-- `TaskStore.Claim`
unfoldable pub claim : String → String → String → ℕ → Action Task
unfolding requeue_expired
claim fresh task_id agent_id now = do
  requeue_expired now
  get agent_id task_id now
  let hit = λ (t : Task). t.task_id == task_id && is_task_open t.status
  n ← gets (λ db. affected hit db.tasks)
  modify (λ db. record db { tasks = update hit (taken fresh agent_id now) db.tasks })
  if nat_eq n 0
      then get agent_id task_id now >>= (λ existing. raise (not_open existing))
      else get agent_id task_id now
