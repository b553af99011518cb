-- ===== src/Tests/Shelf.antt =====
-- Pages, versions, credentials and replies at work.
use self_organizing_multi_ag.Base.{
  ◌+◌, String, ◌≡◌, refl, Bool, true, false, none, some, List, [], ◌∷◌, pos, length, ◌==◌,
}
use self_organizing_multi_ag.Errors.{ok, err, access_denied}
use self_organizing_multi_ag.Db.{Db, OperatorRow, request_sent, ◌>>=◌}
use self_organizing_multi_ag.Table.{
  find, first, update, affected, IsKeyed, insert, select, order_by,
}
use self_organizing_multi_ag.Tests.{sample, tasks-IsKeyed}
use self_organizing_multi_ag.Tests.Accounts.{
  accounts, accounts-CredentialsValid, account_calls, plain_hash,
}
use self_organizing_multi_ag.Tests.Doors.{ambient}
use self_organizing_multi_ag.Paging.{from_start, row_before}
use self_organizing_multi_ag.Paging.Follow.{follow}
use self_organizing_multi_ag.Tasks.{task_key}
use self_organizing_multi_ag.Tasks.Listing.{TaskFilter, listed_task, task_time}
use self_organizing_multi_ag.Tasks.Listing.Complete as TaskPages
use self_organizing_multi_ag.Knowledge.{
  CreateKnowledgeRequest, knowledge_key, new_knowledge, create_knowledge, review, publish,
  get_knowledge,
}
use self_organizing_multi_ag.Scope.{visible}
use self_organizing_multi_ag.Credentials.{revoke_current, live_row}
use self_organizing_multi_ag.Knowledge.Search.{KnowledgeFilter, matches, tagged, row_time}
use self_organizing_multi_ag.Knowledge.Search.Complete as KnowledgePages
use self_organizing_multi_ag.Knowledge.Chains.{IsLinked}
use self_organizing_multi_ag.Knowledge.Chains.Runs as Versions
use self_organizing_multi_ag.Limiter.{new_limiter}
use self_organizing_multi_ag.Credentials.Revocation as Keys
use self_organizing_multi_ag.Http.Doors.{require_auth, handle_revoke_credential}
use self_organizing_multi_ag.Http.Doors.Locks.{revoked_turned_away}

abbrev any_task : TaskFilter
any_task = record {
  status = "";
  project_id = none;
  required_capabilities = [];
  required_tools = [];
  cursor = from_start;
  limit = pos 2;
}

list_tasks_complete_example :
    follow
      (length (TaskPages.swept "worker" 90 any_task sample).tasks + 1)
      (TaskPages.asked "worker" 90 any_task sample)
      from_start
    ≡ some (
        order_by (row_before task_time task_key) (
          select
            (listed_task (TaskPages.swept "worker" 90 any_task sample) "worker" 90 any_task)
            (TaskPages.swept "worker" 90 any_task sample).tasks))
list_tasks_complete_example =
    TaskPages.list_tasks_complete "worker" 90 any_task sample tasks-IsKeyed

abbrev note : CreateKnowledgeRequest
note = record {
  category = "lesson";
  content = "{}";
  source = "";
  confidence = 0;
  tags = "sums" ∷ [];
  references = [];
  project_id = none;
  task_id = none;
  supersedes = none;
}

abbrev shelf : Db
shelf = record sample {
  knowledge =
      new_knowledge "k1" "worker" note 1 60
      ∷ new_knowledge "k2" "worker" note 1 60
      ∷ new_knowledge "k3" "creator" note 1 70
      ∷ [];
}

shelf-IsKeyed : IsKeyed knowledge_key shelf.knowledge
unfolding find
shelf-IsKeyed = (refl, (refl, (refl, tt)))

abbrev any_note : KnowledgeFilter
any_note = record {
  category = "lesson";
  status = "";
  task_id = "";
  tags = "sums" ∷ [];
  project_id = none;
  query = "";
  include_inactive = false;
  cursor = from_start;
  limit = pos 1;
}

abbrev like : String → String → Bool
like pattern s = pattern == s

abbrev json_list : List String → String
json_list xs = "[]"

search_knowledge_complete_example :
    follow
      (length shelf.knowledge + 1)
      (KnowledgePages.asked like json_list "worker" 90 any_note shelf)
      from_start
    ≡ some (
        select (tagged any_note.tags) (
          order_by
            (row_before row_time knowledge_key)
            (select (matches like json_list shelf "worker" 90 any_note) shelf.knowledge)))
search_knowledge_complete_example =
    KnowledgePages.search_knowledge_complete like json_list "worker" 90 any_note shelf shelf-IsKeyed

abbrev note_calls : List Versions.Call
note_calls =
    Versions.call_create "k1" "worker" note 60
    ∷ Versions.call_review "creator" "k1" 70
    ∷ Versions.call_create "k2" "creator" (record note { supersedes = some "k1" }) 80
    ∷ []

note_calls-AllFresh : Versions.AllFresh note_calls sample
unfolding find Versions.exec create_knowledge ◌>>=◌ review affected publish get_knowledge first
    insert visible update
note_calls-AllFresh = (refl, (tt, (refl, tt)))

sample-IsLinked : IsLinked sample.knowledge
unfolding find
sample-IsLinked = record { keyed = tt; onward = λ a b k e h. cc; back = λ a b k e h. cc }

run-IsLinked_example : IsLinked (Versions.run note_calls sample).knowledge
run-IsLinked_example = Versions.run-IsLinked note_calls sample note_calls-AllFresh sample-IsLinked

gives_up :
    (handle_revoke_credential plain_hash ambient "e5" (some "s1") accounts).0 ≡ ok (200, true)
unfolding handle_revoke_credential ◌>>=◌ revoke_current live_row first
gives_up = refl

revoked_turned_away_example :
    require_auth plain_hash 7
      (some "s1")
      (λ a db. (ok a, db))
      (new_limiter 300 60)
      (Keys.run plain_hash account_calls
        (handle_revoke_credential plain_hash ambient "e5" (some "s1") accounts).1)
    ≡ (
      (
        err (access_denied "invalid or revoked credential"),
        Keys.run plain_hash account_calls
            (handle_revoke_credential plain_hash ambient "e5" (some "s1") accounts).1,
      ),
      new_limiter 300 60,
    )
revoked_turned_away_example =
    revoked_turned_away plain_hash ambient "e5" "s1" 7 (λ a db. (ok a, db)) (new_limiter 300 60)
      account_calls accounts accounts-CredentialsValid gives_up

abbrev question : OperatorRow
question = record {
  request_id = "r1";
  agent_id = "worker";
  kind = "request";
  title = "which unit";
  details = "metres or feet";
  status = request_sent;
  telegram_message_id = some 42;
  reply = none;
  created_at = 50;
  answered_at = none;
}

abbrev asking : Db
asking = record sample { operator_requests = question ∷ [] }

abbrev answer_text : String → String → String
answer_text reply request_id = reply
