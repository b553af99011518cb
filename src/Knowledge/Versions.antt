-- ===== src/Knowledge/Versions.antt =====
-- Lemmas on `Create` of internal/store/knowledge.go: the record that is published, and the one that it replaces.
use self_organizing_multi_ag.Base.{
  ℕ, ◌+◌, String, ◌≡◌, ◌⊎◌, refl, sym, subst, ◌∙◌, ap, Bool, true, Option, none, some, List, arith,
  ◌==◌, Option-cases, inl, inr,
}
use self_organizing_multi_ag.Errors.{Result-cases, ok}
use self_organizing_multi_ag.Db.{Db, Project, Knowledge, atomically, ◌>>=◌}
use self_organizing_multi_ag.Db.Reads.{Reads, reads_rules}
use self_organizing_multi_ag.Db.Inversion.{
  raise_if-ok, reads-ok, select-ok, modify-bind, pure_ok, atomically_ok, atomically_err, >>=-reads,
}
use self_organizing_multi_ag.Table.{find, holds, update, insert}
use self_organizing_multi_ag.Queue.{is_project_active}
use self_organizing_multi_ag.Members.{project_key}
use self_organizing_multi_ag.Knowledge.{
  CreateKnowledgeRequest, same_text, predecessor, project_writable, next_version, project_exists,
  new_knowledge, superseded, retire, publish, get_knowledge, create_knowledge,
}

project_writable-Reads : (p : Option String) → Reads (project_writable p)
unfolding project_writable
project_writable-Reads none = search reads_rules
project_writable-Reads (some p) = search reads_rules

project_exists-Reads : (p : Option String) → Reads (project_exists p)
unfolding project_exists
project_exists-Reads none = search reads_rules
project_exists-Reads (some p) = search reads_rules

next_version-Reads :
    (author : String) (req : CreateKnowledgeRequest) (o : Option String)
    → Reads (next_version author req o)
unfolding next_version
next_version-Reads author req none = search reads_rules
next_version-Reads author req (some id) = search (reads_rules, project_writable-Reads) depth 14

-- No project, or one that is there and active.
abbrev pub in_active_project : Db → Option String → Bool
in_active_project db none = true
in_active_project db (some p) =
    holds (λ (q : Project). is_project_active q.status) (find project_key p db.projects)

-- The request may replace the record `prev`, and the new one has the version `v`.
pub record Replaces (author id : String) (req : CreateKnowledgeRequest) (db : Db) (v : ℕ)
    (prev : Knowledge) : Type 0 where
  pub seen : predecessor author id db ≡ some prev
  pub same_project : same_text prev.project_id req.project_id ≡ true
  pub same_task : same_text prev.task_id req.task_id ≡ true
  pub writable : in_active_project db prev.project_id ≡ true
  pub newest : prev.superseded_by ≡ none
  pub version : v ≡ prev.version + 1

project_writable_ok :
    (p : Option String) (db : Db)
    → (project_writable p db).0 ≡ ok tt
    → in_active_project db p ≡ true
unfolding project_writable ◌>>=◌
project_writable_ok none db h = refl
project_writable_ok (some p) db h = elim (Option-cases (find project_key p db.projects)) [
  | inl absent ↦ absurd (ground arith)
  | inr (q, e) ↦ ground arith
]

next_version_ok :
    (author id : String) (req : CreateKnowledgeRequest) (db : Db) (v : ℕ)
    → (next_version author req (some id) db).0 ≡ ok v
    → (prev : Knowledge) × Replaces author id req db v prev
unfolding next_version
next_version_ok author id req db v h =
    let (prev, seen, h1, _) = select-ok (predecessor author id) _ _ db v h in
    let (scope, h2, _) = raise_if-ok _ _ _ db v h1 in
    let (u, writable, h3, _) =
      reads-ok (project_writable prev.project_id) _ db v (project_writable-Reads prev.project_id)
        h2 in
    let (newest, h4, _) = raise_if-ok _ _ _ db v h3 in
    (
      prev,
      record {
        seen = seen;
        same_project = ground arith;
        same_task = ground arith;
        writable = project_writable_ok prev.project_id db writable;
        newest = ground arith;
        version = ground (arith, pure_ok (prev.version + 1) v db h4);
      },
    )

-- The table after the UPDATE on the record that is replaced.
abbrev pub retired : String → Option String → List Knowledge → List Knowledge
retired fresh none t = t
retired fresh (some id) t = update (λ (k : Knowledge). k.knowledge_id == id) (superseded fresh) t

-- The version of a record that is published is 1, or the next one of the record that it replaces.
abbrev pub Versioned : String → CreateKnowledgeRequest → Db → ℕ → Option String → Type 0
Versioned author req db v none = v ≡ 1
Versioned author req db v (some id) = (prev : Knowledge) × Replaces author id req db v prev

pub record Published (fresh author : String) (req : CreateKnowledgeRequest) (now : ℕ) (db db' : Db)
    : Type 0 where
  pub v : ℕ
  pub versioned : Versioned author req db v req.supersedes
  pub after : db' ≡ record db {
    knowledge =
        retired fresh req.supersedes (insert (new_knowledge fresh author req v now) db.knowledge);
  }

versioned :
    (author : String) (req : CreateKnowledgeRequest) (db : Db) (v : ℕ) (o : Option String)
    → (next_version author req o db).0 ≡ ok v
    → Versioned author req db v o
unfolding next_version
versioned author req db v none h = sym (pure_ok 1 v db h)
versioned author req db v (some id) h = next_version_ok author id req db v h

retire_lem :
    (fresh : String) (o : Option String) (db : Db)
    → (retire fresh o db).1 ≡ record db { knowledge = retired fresh o db.knowledge }
unfolding retire ◌>>=◌
retire_lem fresh none db = refl
retire_lem fresh (some id) db = refl

pub publish_ok :
    (fresh author : String) (req : CreateKnowledgeRequest) (now : ℕ) (db : Db)
    → (publish fresh author req now db).0 ≡ ok tt
    → Published fresh author req now db (publish fresh author req now db).1
unfolding publish
publish_ok fresh author req now db h =
    let (v, h1, h2, e2) =
      reads-ok (next_version author req req.supersedes) _ db tt
        (next_version-Reads author req req.supersedes) h in
    let (u, _, h3, e3) =
      reads-ok (project_exists req.project_id) _ db tt (project_exists-Reads req.project_id) h2 in
    record {
      v = v;
      versioned = versioned author req db v req.supersedes h1;
      after = e2 ∙ e3 ∙ ap (λ r. r.1) (modify-bind _ _ db) ∙ retire_lem fresh req.supersedes _;
    }

pub get_knowledge-Reads : (viewer id : String) (now : ℕ) → Reads (get_knowledge viewer id now)
unfolding get_knowledge
get_knowledge-Reads viewer id now = search reads_rules

-- `Create` publishes, or writes nothing.
pub create_knowledge_outcome :
    (fresh author : String) (req : CreateKnowledgeRequest) (now : ℕ) (db : Db)
    → ((create_knowledge fresh author req now db).1 ≡ db)
      ⊎ Published fresh author req now db (create_knowledge fresh author req now db).1
unfolding create_knowledge
create_knowledge_outcome fresh author req now db =
    let same =
      >>=-reads (atomically (publish fresh author req now)) (λ _. get_knowledge author fresh now) db
        (λ _. get_knowledge-Reads author fresh now) in
    elim (Result-cases (atomically (publish fresh author req now) db).0) [
      | inl (u, done) ↦
          let (ran, end) = atomically_ok (publish fresh author req now) db tt done in
          inr (
            subst (Published fresh author req now db) (sym (same ∙ end))
              (publish_ok fresh author req now db ran))
      | inr (e, failed) ↦ inl (same ∙ atomically_err (publish fresh author req now) db e failed)
    ]
