-- ===== src/Http/Memory.antt =====
-- internal/httpapi/memory.go: the handlers of the shared memory and of the artifacts. A filter is what the query
-- of the request gives.
pub mod Scopes
use self_organizing_multi_ag.Base.{
  ℕ, String, Bool, true, false, not, ◌&&◌, ◌||◌, Option, none, some, List, ◌==◌, is_some,
  if◌then◌else◌,
}
use self_organizing_multi_ag.Errors.{
  Result, Message, text, access_denied, conflict, validation_error,
}
use self_organizing_multi_ag.Db.{
  Db, Task, Knowledge, Artifact, Action, pure, gets, raise_if, ◌>>=◌, ◌>>◌,
}
use self_organizing_multi_ag.Limits.{ObjectSize}
use self_organizing_multi_ag.Paging.{RowCursor}
use self_organizing_multi_ag.Tasks.{get}
use self_organizing_multi_ag.Queue.{is_project_active}
use self_organizing_multi_ag.Knowledge.{
  CreateKnowledgeRequest, create_knowledge, get_knowledge, review, same_text,
}
use self_organizing_multi_ag.Knowledge.Search.{KnowledgeFilter, search_knowledge}
use self_organizing_multi_ag.Artifacts.{
  CreateArtifactRequest, validate_artifact, validate_knowledge, get_artifact, create_artifact,
}
use self_organizing_multi_ag.Http.{Ambient, seconds, received, accepted}
use self_organizing_multi_ag.Http.Access.{project_for, require_project_writer}
use self_organizing_multi_ag.Http.Tasks.{may_write_in}

-- `sameProjectScope`
unfoldable pub same_project_scope : Option String → Option String → Bool
same_project_scope none none = true
same_project_scope (some a) (some b) = a == b
same_project_scope _ _ = false

-- The scope of a record that names a task: the task's.
unfoldable pub scope_of_task : Option String → Task → String → Action (Option String)
unfolding same_project_scope
scope_of_task wanted task complaint = do
  raise_if (is_some wanted && not (same_project_scope wanted task.project_id))
      (validation_error (text complaint))
  pure task.project_id

-- The project that a new record of the shared memory is in.
unfoldable pub knowledge_scope : String → ℕ → CreateKnowledgeRequest → Action (Option String)
unfolding scope_of_task
knowledge_scope agent_id now req = elim req.task_id [
  | none ↦ pure req.project_id
  | some task_id ↦ do
    task ← get agent_id task_id now
    scope_of_task req.project_id task "knowledge project_id must match its task's project_id"
]

-- Who may publish in a project.
unfoldable pub may_publish_in : Option String → String → Action (Unit {0})
may_publish_in none agent_id = pure tt
may_publish_in (some project_id) agent_id = do
  found ← project_for project_id agent_id
  raise_if (not found.1) (access_denied "only a project member may publish knowledge in it")
  raise_if (not (is_project_active found.0.status))
      (conflict "cannot publish knowledge in an archived project")
  require_project_writer found.0.project_id agent_id

-- The body of a record, as it is sent.
pub record KnowledgeBody : Type 0 where
  pub content_size : ObjectSize
  pub request : CreateKnowledgeRequest

-- `handleCreateKnowledge`; `out` is the test that a confidence is below 0 or above 1.
unfoldable pub handle_create_knowledge :
    (ℕ → Bool) → Ambient → String → String → Result KnowledgeBody → Action (ℕ × Knowledge)
unfolding knowledge_scope may_publish_in
handle_create_knowledge out w fresh agent_id body = do
  req ← received body
  accepted (validate_knowledge out req.content_size req.request)
  scope ← knowledge_scope agent_id (seconds w) req.request
  may_publish_in scope agent_id
  entry ← create_knowledge fresh agent_id (record req.request { project_id = scope }) (seconds w)
  pure (201, entry)

-- `handleGetKnowledge`
unfoldable pub handle_get_knowledge : Ambient → String → String → Action (ℕ × Knowledge)
handle_get_knowledge w agent_id knowledge_id = do
  entry ← get_knowledge agent_id knowledge_id (seconds w)
  pure (200, entry)

-- `handleReviewKnowledge`
unfoldable pub handle_review_knowledge : Ambient → String → String → Action (ℕ × Knowledge)
handle_review_knowledge w agent_id knowledge_id = do
  entry ← review agent_id knowledge_id (seconds w)
  pure (200, entry)

-- `handleSearchKnowledge`; `like` and `json_list` are those of the search.
unfoldable pub handle_search_knowledge :
    (String → String → Bool)
    → (List String → String)
    → Ambient
    → String
    → KnowledgeFilter
    → Action (ℕ × (List Knowledge × RowCursor))
handle_search_knowledge like json_list w agent_id filter = do
  found ← gets (search_knowledge like json_list agent_id (seconds w) filter)
  page ← received found
  pure (200, page)

-- The scope of an artifact, and whether the caller may write there.
unfoldable pub task_artifact : Option String → Task → String → Action (Option String)
unfolding scope_of_task
task_artifact wanted task agent_id = do
  scope ← scope_of_task wanted task "artifact project_id must match its task's project_id"
  may_write_in scope agent_id
  pure scope

unfoldable pub may_attach_in : Option String → String → Action (Option String)
may_attach_in none agent_id = pure none
may_attach_in (some project_id) agent_id = do
  found ← project_for project_id agent_id
  raise_if (not found.1) (access_denied "only a project member may create artifacts in it")
  raise_if (not (is_project_active found.0.status))
      (conflict "cannot create an artifact in an archived project")
  pure (some project_id)

unfoldable pub artifact_scope : String → ℕ → CreateArtifactRequest → Action (Option String)
unfolding task_artifact may_attach_in
artifact_scope agent_id now req = elim req.task_id [
  | none ↦ may_attach_in req.project_id agent_id
  | some task_id ↦ do task ← get agent_id task_id now; task_artifact req.project_id task agent_id
]

-- `handleCreateArtifact`; `uri_error` is the error of `artifactpolicy.URI`, if it has one.
unfoldable pub handle_create_artifact :
    (String → Option Message)
    → Ambient
    → String
    → String
    → Result CreateArtifactRequest
    → Action (ℕ × Artifact)
unfolding artifact_scope
handle_create_artifact uri_error w fresh agent_id body = do
  req ← received body
  accepted (validate_artifact uri_error req)
  scope ← artifact_scope agent_id (seconds w) req
  artifact ← create_artifact fresh agent_id (record req { project_id = scope }) (seconds w)
  pure (201, artifact)

-- `handleGetArtifact`
unfoldable pub handle_get_artifact : Ambient → String → String → Action (ℕ × Artifact)
handle_get_artifact w agent_id artifact_id = do
  artifact ← get_artifact agent_id artifact_id (seconds w)
  pure (200, artifact)
