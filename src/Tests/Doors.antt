-- ===== src/Tests/Doors.antt =====
-- The handlers of the API at work.
use self_organizing_multi_ag.Base.{String, ◌≡◌, refl, none, some, []}
use self_organizing_multi_ag.Errors.{ok}
use self_organizing_multi_ag.Db.{Project}
use self_organizing_multi_ag.Table.{find, first}
use self_organizing_multi_ag.Tests.{sample, payload_is_claim}
use self_organizing_multi_ag.Tests.Spaces.{spaces, hidden_project, hidden_row}
use self_organizing_multi_ag.Members.{project_key, member}
use self_organizing_multi_ag.Http.{Ambient}
use self_organizing_multi_ag.Http.Access.Disclosure.{Hidden}
use self_organizing_multi_ag.Http.Unseen.{ask_removal, answer, indistinguishable}
use self_organizing_multi_ag.Http.Consent.{to_remove, handle, Agreed, handle-Agreed}
use self_organizing_multi_ag.Http.Departures.{owner_left, handle_remove_membership}
use self_organizing_multi_ag.Http.Succession.{Heir, Inherited, owner_departure}

abbrev pub ambient : Ambient
ambient = record {
  moment = 100_000_000_000;
  result_claim = payload_is_claim;
  result_artifacts = λ p. some [];
  event_payload = λ e fields. e;
  notice_id = λ a. a;
  visit = λ keys. keys;
}

unseen : Hidden "p1" "stranger" spaces
unfolding find first member
unseen = record {
  project = hidden_project;
  there = hidden_row;
  closed = refl;
  unlisted = refl;
  not_owner = refl;
  not_member = refl;
}

no_projects : find project_key "p1" sample.projects ≡ none
unfolding find
no_projects = refl

indistinguishable_example :
    ((answer ambient "stranger" "p1" (ask_removal "worker") spaces).0
      ≡ (answer ambient "stranger" "p1" (ask_removal "worker") sample).0)
    × ((answer ambient "stranger" "p1" (ask_removal "worker") spaces).1 ≡ spaces)
indistinguishable_example =
    indistinguishable ambient "stranger" "p1" (ask_removal "worker") spaces sample unseen
      no_projects

handle-Agreed_example :
    (s : Project) × (find project_key "p1"
        (handle ambient "creator" (to_remove "p1" "creator") spaces).projects
      ≡ some s)
    × Agreed (to_remove "p1" "creator") "creator" "p1" hidden_project s
handle-Agreed_example =
    handle-Agreed ambient "creator" (to_remove "p1" "creator") spaces "p1" hidden_project hidden_row

owner_departure_example :
    (s : String) × Heir hidden_project spaces s
    × (q : Project) × Inherited s hidden_project q
    × ((handle_remove_membership ambient "creator" "p1" "creator" spaces).0
        ≡ ok (200, owner_left q))
    × (find project_key "p1"
          (handle_remove_membership ambient "creator" "p1" "creator" spaces).1.projects
        ≡ some q)
owner_departure_example =
    owner_departure ambient "creator" "p1" spaces hidden_project hidden_row refl
