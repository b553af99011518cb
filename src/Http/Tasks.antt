-- ===== src/Http/Tasks.antt =====
-- internal/httpapi/tasks.go: the handlers of the task endpoints. A filter is what the query of the request gives.
pub mod Fit
use self_organizing_multi_ag.Base.{
  ℕ, String, Bool, true, false, not, ◌&&◌, ◌||◌, Option, none, some, List, [], ◌∷◌, map, any,
  contains, length, ◌==◌, nat_eq, opt_is, if◌then◌else◌,
}
use self_organizing_multi_ag.Errors.{
  Result, ok, err, text, access_denied, conflict, validation_error,
}
use self_organizing_multi_ag.Db.{
  Db, Task, Agent, Artifact, Capability, Tool, VerificationRow, Action, pure, raise, raise_if,
  ◌>>=◌, ◌>>◌,
}
use self_organizing_multi_ag.Limits.{ObjectSize}
use self_organizing_multi_ag.Requests.{validate_task, validate_verification}
use self_organizing_multi_ag.Paging.{RowCursor}
use self_organizing_multi_ag.Tasks.{CreateTaskRequest, get, create, claim, heartbeat}
use self_organizing_multi_ag.Tasks.Listing.{TaskFilter, list_tasks}
use self_organizing_multi_ag.Queue.{
  is_project_active, VerifyRequest, VerificationJob, claim_verification,
}
use self_organizing_multi_ag.Verification.{verify}
use self_organizing_multi_ag.Members.{can_read}
use self_organizing_multi_ag.Projects.{get_project}
use self_organizing_multi_ag.Agents.{get_agent}
use self_organizing_multi_ag.Artifacts.{get_artifact}
use self_organizing_multi_ag.Http.{Ambient, seconds, received, accepted, caught}
use self_organizing_multi_ag.Http.Access.{project_for, require_project_writer}

-- The body of a task, as it is sent.
pub record TaskBody : Type 0 where
  pub team_id : Option String
  pub context_size : ObjectSize
  pub request : CreateTaskRequest

-- The project of a new task.
unfoldable pub may_create_in : Option String → String → Action (Unit {0})
may_create_in none agent_id = pure tt
may_create_in (some project_id) agent_id = do
  found ← project_for project_id agent_id
  raise_if (not found.1) (access_denied "only a project member may create tasks in it")
  raise_if (not (is_project_active found.0.status))
      (conflict "cannot create a task in an archived project")

-- `handleCreateTask`
unfoldable pub handle_create_task :
    Ambient → String → String → String → Result TaskBody → Action (ℕ × Task)
unfolding may_create_in
handle_create_task w fresh agent_id idempotency_key body = do
  req ← received body
  accepted (validate_task req.team_id req.context_size req.request)
  may_create_in req.request.project_id agent_id
  task ← create fresh agent_id req.request idempotency_key (seconds w)
  pure (201, task)

-- `handleListTasks`
unfoldable pub handle_list_tasks :
    Ambient → String → TaskFilter → Action (ℕ × (List Task × RowCursor))
handle_list_tasks w agent_id filter = do
  page ← list_tasks agent_id (seconds w) filter
  pure (200, page)

-- `handleGetTask`
unfoldable pub handle_get_task : Ambient → String → String → Action (ℕ × Task)
handle_get_task w agent_id task_id = do task ← get agent_id task_id (seconds w); pure (200, task)

-- `hasAnyName`
unfoldable pub has_any_name : List String → List String → Bool
has_any_name have wanted = any (contains have) wanted

-- `agentMatchesTask`
unfoldable pub agent_matches_task : List Capability → List String → Bool
agent_matches_task capabilities wanted =
    nat_eq (length wanted) 0
    || any (contains (map (λ (c : Capability). c.name) capabilities)) wanted

-- `agentMatchesTools`
unfoldable pub agent_matches_tools : List Tool → List String → Bool
unfolding has_any_name
agent_matches_tools tools wanted =
    nat_eq (length wanted) 0 || has_any_name (map (λ (t : Tool). t.name) tools) wanted

-- The project of the task to claim.
unfoldable pub may_work_in : Option String → String → Action (Unit {0})
may_work_in none agent_id = pure tt
may_work_in (some project_id) agent_id = do
  project ← get_project project_id
  raise_if (not (is_project_active project.status))
      (conflict "cannot claim a task in an archived project")
  may_work ← can_read project.project_id agent_id
  raise_if (not may_work) (access_denied "reviewer access is read-only and cannot claim tasks")

-- `handleClaimTask`
unfoldable pub handle_claim_task : Ambient → String → String → String → Action (ℕ × Task)
unfolding agent_matches_task agent_matches_tools may_work_in
handle_claim_task w fresh agent_id task_id = do
  target ← get agent_id task_id (seconds w)
  may_work_in target.project_id agent_id
  claimer ← get_agent agent_id
  raise_if (not (agent_matches_task claimer.capabilities target.required_capabilities))
      (access_denied "agent lacks a required capability for this task")
  raise_if (not (agent_matches_tools claimer.tools target.required_tools))
      (access_denied "agent lacks a required tool for this task")
  task ← claim fresh target.task_id agent_id (seconds w)
  pure (200, task)

-- A task in a project is written by those who may write to the project.
unfoldable pub may_write_in : Option String → String → Action (Unit {0})
may_write_in none agent_id = pure tt
may_write_in (some project_id) agent_id = require_project_writer project_id agent_id

-- `handleHeartbeatTask`
unfoldable pub handle_heartbeat_task : Ambient → String → String → Result String → Action (ℕ × Task)
unfolding may_write_in
handle_heartbeat_task w agent_id task_id body = do
  claim_id ← received body
  raise_if (claim_id == "") (validation_error (text "claim_id is required"))
  target ← get agent_id task_id (seconds w)
  may_write_in target.project_id agent_id
  task ← heartbeat target.task_id agent_id claim_id (seconds w)
  pure (200, task)

abbrev pub attached_to : String → Result Artifact → Bool
attached_to task_id (ok a) = opt_is a.task_id task_id
attached_to task_id (err e) = false

-- The loop on the evidence of a verdict.
unfoldable pub check_evidence : String → String → ℕ → List String → Action (Unit {0})
check_evidence agent_id task_id now [] = pure tt
check_evidence agent_id task_id now (id ∷ ids) = do
  artifact ← caught (get_artifact agent_id id now)
  raise_if (not (attached_to task_id artifact))
      (validation_error (text "verification evidence must be attached to this task"))
  check_evidence agent_id task_id now ids

-- `handleVerifyTask`
unfoldable pub handle_verify_task :
    Ambient
    → String
    → String
    → String
    → Result VerifyRequest
    → Action (ℕ × (Task × VerificationRow))
unfolding check_evidence
handle_verify_task w fresh agent_id task_id body = do
  req ← received body
  accepted (validate_verification req)
  target ← get agent_id task_id (seconds w)
  may_write_in target.project_id agent_id
  check_evidence agent_id target.task_id (seconds w) req.evidence
  judged ← verify fresh target.task_id agent_id req (seconds w)
  pure (200, judged)

-- `handleClaimVerification`
unfoldable pub handle_claim_verification :
    Ambient → String → String → Action (ℕ × Option VerificationJob)
handle_claim_verification w fresh agent_id = do
  job ← claim_verification fresh agent_id (seconds w)
  pure (200, job)
