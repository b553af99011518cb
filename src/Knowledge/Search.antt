-- ===== src/Knowledge/Search.antt =====
-- `KnowledgeStore.Search`: the records of a scope, page by page. A cursor is what its text decodes to.
-- SQLite's LIKE, between two wildcards, and the JSON of a list of texts are parameters.
pub mod Complete
use self_organizing_multi_ag.Base.{
  ℕ, ℤ, String, Bool, true, false, not, ◌&&◌, ◌||◌, Option, none, some, List, take, any, contains,
  length, ◌==◌, nat_eq, opt_is, if◌then◌else◌,
}
use self_organizing_multi_ag.Errors.{Result, ok, err, text, validation_error}
use self_organizing_multi_ag.Db.{
  Db, Knowledge, KnowledgeStatus, knowledge_archived, knowledge_rejected,
}
use self_organizing_multi_ag.Table.{select}
use self_organizing_multi_ag.Scope.{visible}
use self_organizing_multi_ag.Paging.{page_limit, RowCursor, is_unreadable, rows_for, cursor_after}
use self_organizing_multi_ag.Knowledge.{knowledge_status_text, knowledge_key}

pub record KnowledgeFilter : Type 0 where
  pub category : String
  pub status : String
  pub task_id : String
  pub tags : List String
  pub project_id : Option String
  pub query : String
  pub include_inactive : Bool
  pub cursor : RowCursor
  pub limit : ℤ

abbrev pub is_inactive : KnowledgeStatus → Bool
is_inactive knowledge_archived = true
is_inactive knowledge_rejected = true
is_inactive _ = false

-- The test on the project: any, the global records alone, or a project's and the global ones.
abbrev pub in_scope : Option String → Option String → Bool
in_scope none p = true
in_scope (some wanted) none = true
in_scope (some wanted) (some p) = not (wanted == "") && p == wanted

abbrev pub status_wanted : KnowledgeFilter → KnowledgeStatus → Bool
status_wanted f s =
    if f.status == ""
    then f.include_inactive || not (is_inactive s)
    else knowledge_status_text s == f.status

-- `hasAnyCapability`
unfoldable pub has_any : List String → List String → Bool
has_any have wanted = any (λ w. contains have w) wanted

abbrev pub row_time : Knowledge → ℕ
row_time k = k.created_at

-- The test on the tags, which runs on the rows of the page.
abbrev pub tagged : List String → Knowledge → Bool
tagged tags k = nat_eq (length tags) 0 || has_any k.tags tags

module _ (like : String → String → Bool) (json_list : List String → String) where
  -- The WHERE of the query, but for the cursor.
  unfoldable pub matches : Db → String → ℕ → KnowledgeFilter → Knowledge → Bool
  matches db viewer now f k =
      visible db viewer now k.project_id k.task_id
      && (f.category == "" || k.category == f.category)
      && status_wanted f k.status
      && (f.task_id == "" || opt_is k.task_id f.task_id)
      && in_scope f.project_id k.project_id
      && (f.query == "" || like f.query k.content || like f.query (json_list k.tags))

  -- `KnowledgeStore.Search`
  unfoldable pub search_knowledge :
      String → ℕ → KnowledgeFilter → Db → Result (List Knowledge × RowCursor)
  search_knowledge viewer now f db =
      let limit = page_limit f.limit in
      let rows =
        rows_for row_time knowledge_key (matches db viewer now f) limit f.cursor db.knowledge in
      if is_unreadable f.cursor
      then err (validation_error (text "invalid cursor"))
      else ok
          (select (tagged f.tags) (take limit rows), cursor_after row_time knowledge_key limit rows)
