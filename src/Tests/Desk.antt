-- ===== src/Tests/Desk.antt =====
-- The handlers of the tasks, the messages and the shared memory at work in a closed project.
use self_organizing_multi_ag.Base.{◌≡◌, refl, false, none, some, [], ◌∷◌, ◌==◌}
use self_organizing_multi_ag.Errors.{ok}
use self_organizing_multi_ag.Db.{Db, Task, Knowledge, ◌>>=◌}
use self_organizing_multi_ag.Table.{find, first, update, affected, IsKeyed, insert}
use self_organizing_multi_ag.Tests.{plain_task, held_task, result_envelope}
use self_organizing_multi_ag.Tests.Spaces.{spaces}
use self_organizing_multi_ag.Tests.Doors.{ambient}
use self_organizing_multi_ag.Tasks.{task_key, taken, claim, get}
use self_organizing_multi_ag.Messages.{
  message_row, insert_message, submit, claim_of, confirm, settle_new, dedup,
}
use self_organizing_multi_ag.Messages.Payloads.{
  Wire, decoded, with_priority, validate_envelope, validate_payload, checked, check_result,
}
use self_organizing_multi_ag.Scope.{visible}
use self_organizing_multi_ag.Projects.{get_project}
use self_organizing_multi_ag.Members.{can_read, member}
use self_organizing_multi_ag.Agents.{get_agent}
use self_organizing_multi_ag.Limits.{first_error, check_text, check_list, check_elements}
use self_organizing_multi_ag.Requests.{check_each}
use self_organizing_multi_ag.Http.{received, accepted, caught}
use self_organizing_multi_ag.Http.Access.{require_project_writer}
use self_organizing_multi_ag.Knowledge.{new_knowledge}
use self_organizing_multi_ag.Http.Tasks.{handle_claim_task}
use self_organizing_multi_ag.Http.Tasks.Fit.{Fit, handle_claim_task-Fit}
use self_organizing_multi_ag.Http.Letters.{
  handle_post_message, about_task, about_found, within_project, reaches_only_writers, direct_to,
  recipient_known, check_report, check_artifacts,
}
use self_organizing_multi_ag.Http.Letters.Results.{Relayed, handle_post_message-Relayed}
use self_organizing_multi_ag.Http.Memory.{KnowledgeBody}

abbrev own_task : Task
own_task = record plain_task { project_id = some "p1"; required_capabilities = "arithmetic" ∷ [] }

abbrev own_held_task : Task
own_held_task = record held_task { project_id = some "p1" }

abbrev desk : Db
desk = record spaces { tasks = own_task ∷ own_held_task ∷ [] }

desk-IsKeyed : IsKeyed task_key desk.tasks
unfolding find
desk-IsKeyed = (refl, (refl, tt))

claims :
    (handle_claim_task ambient "c9" "worker" "t1" desk).0
    ≡ ok (200, taken "c9" "worker" 100 own_task)
unfolding handle_claim_task get claim ◌>>=◌ first update visible get_project find can_read member
    get_agent affected
claims = refl

handle_claim_task-Fit_example : Fit "worker" "t1" 100 desk
handle_claim_task-Fit_example =
    handle_claim_task-Fit ambient "c9" "worker" "t1" desk (200, taken "c9" "worker" 100 own_task)
      desk-IsKeyed claims

abbrev wire : Wire
wire = record {
  claim_in = λ p. decoded (record { claim_type = "solution"; statement = p; confidence = 0 });
  result_in = λ p. decoded (record { summary = p; status = "success"; artifacts = [] });
  verify_in = λ p. decoded (record { target_message_id = p; verdict = "verified" });
  status_in = λ p. decoded (record { subject = "task"; subject_id = p; state = "working" });
  error_in = λ p. decoded (record { error_code = p; message = p });
  question_in = λ p. decoded p;
  answer_in = λ p. decoded p;
  event_in = λ p. decoded p;
  byte_length = λ p. 2;
  out_of_unit = λ c. false;
}

posts :
    (handle_post_message wire ambient "worker" (ok result_envelope) desk).0
    ≡ ok (201, message_row 2 result_envelope 100)
unfolding handle_post_message ◌>>=◌ received accepted validate_envelope first_error check_each
    check_text validate_payload check_list check_elements get_agent find get first update visible
    require_project_writer get_project can_read member affected insert insert_message submit
    claim_of confirm settle_new dedup about_task about_found within_project reaches_only_writers
    direct_to caught recipient_known check_report check_artifacts with_priority checked check_result
posts = refl

handle_post_message-Relayed_example :
    ((with_priority result_envelope).sender ≡ "worker")
    × (((with_priority result_envelope).task_id == "") ≡ false
        → Relayed "worker" 100 (with_priority result_envelope) desk)
handle_post_message-Relayed_example =
    handle_post_message-Relayed wire ambient "worker" result_envelope desk
      (201, message_row 2 result_envelope 100) desk-IsKeyed posts

abbrev lesson : KnowledgeBody
lesson = record {
  content_size = record { entries = 1; encoded = some 20 };
  request = record {
    category = "lesson";
    content = "{}";
    source = "";
    confidence = 0;
    tags = [];
    references = [];
    project_id = none;
    task_id = some "t1";
    supersedes = none;
  };
}

abbrev lesson_entry : Knowledge
lesson_entry = new_knowledge "k1" "worker" (record lesson.request { project_id = some "p1" }) 1 100
