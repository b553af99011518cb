-- ===== src/Http/Memory/Scopes.antt =====
-- Lemmas on the scope of what `handleCreateKnowledge` of internal/httpapi/memory.go publishes.
use self_organizing_multi_ag.Base.{ℕ, String, ◌≡◌, ◌⊎◌, Bool, Option, none, some}
use self_organizing_multi_ag.Errors.{Result}
use self_organizing_multi_ag.Db.{Db, Task, Knowledge, Project}
use self_organizing_multi_ag.Db.Reads.{Reads}
use self_organizing_multi_ag.Tasks.Claiming.{requeued, seen}
use self_organizing_multi_ag.Knowledge.{CreateKnowledgeRequest}
use self_organizing_multi_ag.Knowledge.Versions.{Published}
use self_organizing_multi_ag.Http.Access.Writers.{Writer}

-- Where a record about a task belongs: to the project of the task, as the author sees it.
abbrev pub ScopeOf : String → ℕ → Db → CreateKnowledgeRequest → Option String → Type 0
ScopeOf agent_id now db req scope =
    ((req.task_id ≡ none) × (scope ≡ req.project_id))
    ⊎ ((id : String) × (t : Task) × (req.task_id ≡ some id)
        × (seen agent_id now id (requeued now db) ≡ some t)
        × (scope ≡ t.project_id))

-- The database that the record was published on: as it was, or with the lapsed claims reopened.
abbrev pub Settled : ℕ → Db → Db → Type 0
Settled now db d = (d ≡ db) ⊎ (d ≡ requeued now db)

abbrev ap_result : Result (Project × Bool) × Db → Result (Project × Bool)
ap_result x = x.0

-- What a publication did: one record in the scope of its task, where its author may write.
pub record Scoped (agent_id fresh : String) (now : ℕ) (req : CreateKnowledgeRequest) (db db' : Db)
    : Type 0 where
  pub scope : Option String
  pub scoped : ScopeOf agent_id now db req scope
  pub writes : (p : String) → scope ≡ some p → Writer db p agent_id
  pub before : Db
  pub settled : Settled now db before
  pub published : Published fresh agent_id (record req { project_id = scope }) now before db'
