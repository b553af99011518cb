-- ===== src/Http/Letters.antt =====
-- internal/httpapi/messages.go: posting a message, and reading the inbox. A wake-up of the bus is not modelled: it
-- changes no state.
pub mod Results
use self_organizing_multi_ag.Base.{
  ℕ, ◌/◌, ℤ, pos, negsuc, String, Bool, true, false, not, ◌&&◌, Option, none, some, List, [], ◌∷◌,
  ◌==◌, leb, nat_eq, opt_is, length, if◌then◌else◌,
}
use self_organizing_multi_ag.Errors.{
  ApiError, Result, ok, err, text, access_denied, validation_error, is_ok,
}
use self_organizing_multi_ag.Db.{
  Db, Task, Artifact, MessageRow, Action, pure, raise, raise_if, or_raise, ◌>>=◌, ◌>>◌,
}
use self_organizing_multi_ag.Scope.{is_open}
use self_organizing_multi_ag.Tasks.{get}
use self_organizing_multi_ag.Verification.{is_result}
use self_organizing_multi_ag.Projects.{get_project}
use self_organizing_multi_ag.Agents.{get_agent}
use self_organizing_multi_ag.Artifacts.{get_artifact}
use self_organizing_multi_ag.Messages.{Envelope, insert_message}
use self_organizing_multi_ag.Messages.Inbox.{MessageFilter, Cursor, list_messages}
use self_organizing_multi_ag.Messages.Payloads.{Wire, validate_envelope, with_priority}
use self_organizing_multi_ag.Http.{Ambient, seconds, received, accepted, caught}
use self_organizing_multi_ag.Http.Access.{require_project_writer}

-- `BroadcastRecipient`
abbrev pub broadcast_recipient : String
broadcast_recipient = "broadcast"

-- A recipient that is one agent must be registered.
unfoldable pub recipient_known : String → Action (Unit {0})
recipient_known recipient =
    if recipient == broadcast_recipient then pure tt else get_agent recipient >>= (λ agent. pure tt)

-- A recipient who is one agent must see the task, and may write to its project.
unfoldable pub direct_to : String → String → String → ℕ → Action (Unit {0})
direct_to project_id task_id recipient now = do
  seen ← caught (get recipient task_id now)
  raise_if (not (is_ok seen)) (access_denied "recipient may not access this task")
  writes ← caught (require_project_writer project_id recipient)
  raise_if (not (is_ok writes)) (access_denied "recipient may not receive project task messages")

-- Who else may read a message about a task of a project.
unfoldable pub reaches_only_writers : String → String → String → ℕ → Action (Unit {0})
unfolding direct_to
reaches_only_writers project_id task_id recipient now =
    if recipient == broadcast_recipient
    then (do
      project ← get_project project_id
      raise_if (not (is_open project.visibility))
          (access_denied "a closed-project task cannot broadcast messages"))
    else direct_to project_id task_id recipient now

-- The part of the task's project.
unfoldable pub within_project : Option String → String → Envelope → ℕ → Action (Unit {0})
unfolding reaches_only_writers
within_project none task_id env now = pure tt
within_project (some project_id) task_id env now = do
  require_project_writer project_id env.sender
  reaches_only_writers project_id task_id env.recipient now

abbrev pub own_evidence : String → String → Result Artifact → Bool
own_evidence agent_id task_id (ok a) = opt_is a.task_id task_id && a.created_by == agent_id
own_evidence agent_id task_id (err e) = false

-- The loop on the artifacts of a RESULT.
unfoldable pub check_artifacts : String → String → ℕ → List String → Action (Unit {0})
check_artifacts agent_id task_id now [] = pure tt
check_artifacts agent_id task_id now (id ∷ ids) = do
  artifact ← caught (get_artifact agent_id id now)
  raise_if (not (own_evidence agent_id task_id artifact)) (
      validation_error
        (text "RESULT artifacts must be created by the task owner and attached to this task"))
  check_artifacts agent_id task_id now ids

-- The checks on the RESULT of a task.
unfoldable pub check_report : Ambient → Envelope → Task → Action (Unit {0})
unfolding check_artifacts
check_report w env task = if not (is_result env.type) then pure tt else do
  raise_if (not (opt_is task.owner env.sender))
      (access_denied "only the task's current owner may report a RESULT")
  raise_if (not (env.recipient == task.created_by))
      (validation_error (text "a task RESULT must be sent to its creator"))
  artifacts ←
      or_raise (w.result_artifacts env.payload) (validation_error (text "invalid RESULT payload"))
  check_artifacts env.sender task.task_id (seconds w) artifacts

-- The part of the message's task.
unfoldable pub about_found : Ambient → Envelope → Action (Unit {0})
unfolding within_project check_report
about_found w env = do
  task ← get env.sender env.task_id (seconds w)
  within_project task.project_id task.task_id env (seconds w)
  check_report w env task

unfoldable pub about_task : Ambient → Envelope → Action (Unit {0})
unfolding about_found
about_task w env = if env.task_id == "" then pure tt else about_found w env

-- `handlePostMessage`
unfoldable pub handle_post_message :
    Wire → Ambient → String → Result Envelope → Action (ℕ × MessageRow)
unfolding recipient_known about_task
handle_post_message wire w agent_id body = do
  sent ← received body
  accepted (validate_envelope wire w.visit sent)
  let env = with_priority sent
  raise_if (not (env.sender == agent_id))
      (access_denied "sender must equal the authenticated agent")
  recipient_known env.recipient
  about_task w env
  stored ← insert_message w.result_claim env (seconds w)
  pure (if stored.1 then 201 else 200, stored.0)

-- `maxWaitSeconds`
abbrev pub max_wait_seconds : ℕ
max_wait_seconds = 30

-- `wait_seconds`, as the handler reads it
unfoldable pub wait_of : Option ℤ → ℕ
wait_of none = 0
wait_of (some (negsuc n)) = 0
wait_of (some (pos n)) = if leb n max_wait_seconds then n else max_wait_seconds

abbrev pub is_empty_page : Result (List MessageRow × Cursor) → Bool
is_empty_page (ok page) = nat_eq (length page.0) 0
is_empty_page (err e) = false

-- The second read: at the state and the time of a wake-up, if there is one before the wait is over.
unfoldable pub after_wait :
    MessageFilter
    → Result (List MessageRow × Cursor)
    → Option (Db × ℕ)
    → Result (List MessageRow × Cursor)
after_wait filter page none = page
after_wait filter page (some (db, moment)) = list_messages filter moment db

-- `handleListMessages`
unfoldable pub handle_list_messages :
    MessageFilter → Option ℤ → ℕ → Option (Db × ℕ) → Db → Result (List MessageRow × Cursor)
unfolding wait_of after_wait
handle_list_messages filter wait_seconds moment woken db =
    let page = list_messages filter moment db in
    if is_empty_page page && not (nat_eq (wait_of wait_seconds) 0)
    then after_wait filter page woken
    else page
