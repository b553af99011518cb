-- ===== src/Artifacts.antt =====
-- internal/store/artifacts.go, and the validators of the bodies of internal/model/knowledge.go: the artifacts
-- that results and verdicts refer to.
use self_organizing_multi_ag.Base.{
  ℕ, ℤ, String, Bool, not, ◌&&◌, Option, none, some, List, [], ◌∷◌, length, contains, ◌==◌, nat_eq,
  ltb, if◌then◌else◌,
}
use self_organizing_multi_ag.Errors.{
  not_found, Message, field, element, member, required, must_be, validation_error, max_entries,
}
use self_organizing_multi_ag.Db.{Artifact, Reference, Action, gets, or_raise, modify, ◌>>=◌, ◌>>◌}
use self_organizing_multi_ag.Table.{first, insert}
use self_organizing_multi_ag.Scope.{visible}
use self_organizing_multi_ag.Limits.{
  Check, refuse_if, first_error, check_text, check_list, check_object_size, ObjectSize,
  max_short_field, max_list_items,
}
use self_organizing_multi_ag.Requests.{invalid_if, check_each}
use self_organizing_multi_ag.Knowledge.{CreateKnowledgeRequest}

abbrev pub artifact_key : Artifact → String
artifact_key a = a.artifact_id

-- `CreateArtifactRequest`
pub record CreateArtifactRequest : Type 0 where
  pub type : String
  pub uri : String
  pub checksum : String
  pub task_id : Option String
  pub project_id : Option String
  pub size : ℤ
  pub retention : String

-- `CreateArtifactRequest.Validate`; `uri_error` is the error of `artifactpolicy.URI`, if it has one.
unfoldable pub validate_artifact : (String → Option Message) → CreateArtifactRequest → Check
validate_artifact uri_error r = first_error (
    invalid_if
      (not (contains ("file" ∷ "log" ∷ "test_result" ∷ "computation" ∷ "other" ∷ []) r.type))
      "type must be file, log, test_result, computation or other"
    ∷ invalid_if (r.uri == "") "uri is required"
    ∷ elim (uri_error r.uri) [ none ↦ none | some m ↦ some (validation_error m) ]
    ∷ invalid_if (r.checksum == "")
        "checksum is required: an artifact used as evidence must be verifiable"
    ∷ invalid_if (not (contains ("" ∷ "permanent" ∷ "ttl" ∷ []) r.retention))
        "retention must be permanent or ttl"
    ∷ [])

-- The loop on the references.
abbrev pub check_reference : ℕ → Reference → Check
check_reference i ref =
    let name = λ (s : String). member (element (field "references") i) s in
    first_error (
      refuse_if (not (contains ("knowledge" ∷ "artifact" ∷ "task" ∷ "message" ∷ []) ref.type))
        (validation_error (must_be (name "type") "knowledge, artifact, task or message"))
      ∷ refuse_if (ref.id == "") (validation_error (required (name "id")))
      ∷ check_text (name "id") ref.id max_short_field
      ∷ [])

-- `knowledgeCategories`
abbrev pub knowledge_categories : List String
knowledge_categories =
    "fact" ∷ "hypothesis" ∷ "decision" ∷ "event" ∷ "error" ∷ "lesson" ∷ "procedure" ∷ []

-- `CreateKnowledgeRequest.Validate`, on the size of the content besides; `out` is the test that a confidence is
-- below 0 or above 1.
unfoldable pub validate_knowledge : (ℕ → Bool) → ObjectSize → CreateKnowledgeRequest → Check
validate_knowledge out content r = first_error (
    invalid_if (not (contains knowledge_categories r.category))
      "category must be one of: fact, hypothesis, decision, event, error, lesson, procedure"
    ∷ invalid_if (nat_eq content.entries 0) "content is required"
    ∷ invalid_if (out r.confidence) "confidence must be between 0 and 1"
    ∷ invalid_if (r.category == "fact")
        "a fact cannot be published directly: publish a hypothesis and have it verified (RFC-1300 §5)"
    ∷ check_each check_reference 0 r.references
    ∷ refuse_if (ltb max_list_items (length r.references))
        (validation_error (max_entries (field "references") max_list_items))
    ∷ check_list (field "tags") r.tags max_list_items max_short_field
    ∷ check_text (field "source") r.source max_short_field
    ∷ check_object_size (field "content") content
    ∷ [])

abbrev pub new_artifact : String → String → CreateArtifactRequest → ℕ → Artifact
new_artifact fresh created_by req now = record {
  artifact_id = fresh;
  schema_version = "1.0";
  type = req.type;
  uri = req.uri;
  checksum = req.checksum;
  created_by = created_by;
  task_id = req.task_id;
  project_id = req.project_id;
  size = req.size;
  retention = if req.retention == "" then "permanent" else req.retention;
  expires_at = none;
  created_at = now;
}

-- `ArtifactStore.Get`
unfoldable pub get_artifact : String → String → ℕ → Action Artifact
get_artifact viewer id now = do
  or_raise
      (← gets (λ db.
        first
          (λ (a : Artifact). a.artifact_id == id && visible db viewer now a.project_id a.task_id)
          db.artifacts))
      (not_found "artifact not found")

-- `ArtifactStore.Create`
unfoldable pub create_artifact : String → String → CreateArtifactRequest → ℕ → Action Artifact
create_artifact fresh created_by req now = do
  modify
      (λ db. record db { artifacts = insert (new_artifact fresh created_by req now) db.artifacts })
  get_artifact created_by fresh now
