-- ===== src/Knowledge.antt =====
-- internal/store/knowledge.go: the shared memory. A record that replaces an earlier one is its next version.
pub mod Search
pub mod Versions
pub mod Chains
use self_organizing_multi_ag.Base.{
  ℕ, ◌+◌, ◌^◌, String, Bool, true, false, not, ◌&&◌, ◌||◌, Option, none, some, List, [], ◌∷◌, ◌==◌,
  nat_eq, ltb, leb, is_some, opt_text, null_if_empty, if◌then◌else◌,
}
use self_organizing_multi_ag.Errors.{
  ApiError, text, not_found, conflict, validation_error, with_details, internal,
}
use self_organizing_multi_ag.Db.{
  Db, Project, Knowledge, KnowledgeStatus, knowledge_proposed, knowledge_reviewed,
  knowledge_verified, knowledge_archived, knowledge_rejected, Reference, Action, pure, raise, gets,
  or_raise, raise_if, modify, atomically, ◌>>=◌, ◌>>◌,
}
use self_organizing_multi_ag.Table.{first, find, update, affected, insert}
use self_organizing_multi_ag.Scope.{visible, visible_member}
use self_organizing_multi_ag.Queue.{is_project_active}
use self_organizing_multi_ag.Members.{project_key}

-- The column's text.
abbrev pub knowledge_status_text : KnowledgeStatus → String
knowledge_status_text knowledge_proposed = "proposed"
knowledge_status_text knowledge_reviewed = "reviewed"
knowledge_status_text knowledge_verified = "verified"
knowledge_status_text knowledge_archived = "archived"
knowledge_status_text knowledge_rejected = "rejected"

abbrev pub is_proposed : KnowledgeStatus → Bool
is_proposed knowledge_proposed = true
is_proposed _ = false

abbrev pub knowledge_key : Knowledge → String
knowledge_key k = k.knowledge_id

-- `CreateKnowledgeRequest`, with the text of its content
pub record CreateKnowledgeRequest : Type 0 where
  pub category : String
  pub content : String
  pub source : String
  pub confidence : ℕ
  pub tags : List String
  pub references : List Reference
  pub project_id : Option String
  pub task_id : Option String
  pub supersedes : Option String

-- Whether two nullable texts are both NULL, or the same text.
abbrev pub same_text : Option String → Option String → Bool
same_text none none = true
same_text (some a) (some b) = a == b
same_text _ _ = false

-- The record that a request would replace: the author must be able to see it as a member.
unfoldable pub predecessor : String → String → Db → Option Knowledge
predecessor author id db =
    first (λ (k : Knowledge). k.knowledge_id == id && visible_member db author k.project_id)
      db.knowledge

-- The project of the record that is replaced must be active.
unfoldable pub project_writable : Option String → Action (Unit {0})
project_writable none = pure tt
project_writable (some p) = do
  project ← or_raise (← gets (λ db. find project_key p db.projects)) internal
  raise_if (not (is_project_active project.status))
      (conflict "cannot replace knowledge in an archived project")

abbrev pub already_superseded : Knowledge → ApiError
already_superseded k =
    with_details "superseded_by" (opt_text k.superseded_by)
      (conflict "that record has already been superseded")

-- The version of the new record: one past the one that it replaces.
unfoldable pub next_version : String → CreateKnowledgeRequest → Option String → Action ℕ
unfolding predecessor project_writable
next_version author req none = pure 1
next_version author req (some id) = do
  prev ← or_raise (← gets (predecessor author id)) (not_found "knowledge entry not found")
  raise_if
      (not (same_text prev.project_id req.project_id) || not (same_text prev.task_id req.task_id))
      (validation_error (text "replacement must preserve project_id and task_id"))
  project_writable prev.project_id
  raise_if (is_some prev.superseded_by) (already_superseded prev)
  pure (prev.version + 1)

-- The project that the request names must exist.
unfoldable pub project_exists : Option String → Action (Unit {0})
project_exists none = pure tt
project_exists (some p) = do
  raise_if (not (← gets (λ db. is_some (find project_key p db.projects))))
      (validation_error (text "project_id does not exist"))

abbrev pub new_knowledge : String → String → CreateKnowledgeRequest → ℕ → ℕ → Knowledge
new_knowledge fresh author req version now = record {
  knowledge_id = fresh;
  schema_version = "1.0";
  category = req.category;
  author = author;
  content = req.content;
  source = null_if_empty req.source;
  confidence = req.confidence;
  status = knowledge_proposed;
  tags = req.tags;
  references = req.references;
  project_id = req.project_id;
  task_id = req.task_id;
  supersedes = req.supersedes;
  superseded_by = none;
  version = version;
  created_at = now;
}

abbrev pub superseded : String → Knowledge → Knowledge
superseded fresh k = record k { superseded_by = some fresh; status = knowledge_archived }

-- The UPDATE that links and archives the record that is replaced.
unfoldable pub retire : String → Option String → Action (Unit {0})
retire fresh none = pure tt
retire fresh (some id) = modify (λ db. record db {
  knowledge = update (λ (k : Knowledge). k.knowledge_id == id) (superseded fresh) db.knowledge;
})

-- The transaction of `Create`.
unfoldable pub publish : String → String → CreateKnowledgeRequest → ℕ → Action (Unit {0})
unfolding next_version project_exists retire
publish fresh author req now = do
  version ← next_version author req req.supersedes
  project_exists req.project_id
  modify (λ db. record db {
    knowledge = insert (new_knowledge fresh author req version now) db.knowledge;
  })
  retire fresh req.supersedes

-- `KnowledgeStore.Get`
unfoldable pub get_knowledge : String → String → ℕ → Action Knowledge
get_knowledge viewer id now = do
  or_raise
      (← gets (λ db.
        first
          (λ (k : Knowledge). k.knowledge_id == id && visible db viewer now k.project_id k.task_id)
          db.knowledge))
      (not_found "knowledge entry not found")

-- `KnowledgeStore.Create`
unfoldable pub create_knowledge : String → String → CreateKnowledgeRequest → ℕ → Action Knowledge
create_knowledge fresh author req now = do
  atomically (publish fresh author req now)
  get_knowledge author fresh now

-- The WHERE of `Review`, and its SET.
abbrev pub reviewable : Db → String → String → ℕ → Knowledge → Bool
reviewable db reviewer id now k =
    k.knowledge_id == id && is_proposed k.status && visible db reviewer now k.project_id k.task_id

abbrev pub reviewed : Knowledge → Knowledge
reviewed k = record k { status = knowledge_reviewed }

abbrev pub not_proposed : Knowledge → ApiError
not_proposed k =
    with_details "status" (knowledge_status_text k.status)
      (conflict "only a proposed entry can be reviewed")

-- `KnowledgeStore.Review`
unfoldable pub review : String → String → ℕ → Action Knowledge
review reviewer id now = do
  n ← gets (λ db. affected (reviewable db reviewer id now) db.knowledge)
  modify
      (λ db. record db { knowledge = update (reviewable db reviewer id now) reviewed db.knowledge })
  if nat_eq n 0
      then get_knowledge reviewer id now >>= (λ existing. raise (not_proposed existing))
      else get_knowledge reviewer id now
