-- ===== src/Tests/Spaces.antt =====
-- Memberships and projects at work.
use self_organizing_multi_ag.Base.{
  ◌↔◌, ◌⊎◌, any, Bool, String, ◌≡◌, ◌≢◌, refl, none, some, List, [], ◌∷◌, true, false, arith,
  eq_iff, pos,
}
use self_organizing_multi_ag.Errors.{ok}
use self_organizing_multi_ag.Db.{
  Db, Project, project_closed, project_active, invite_only, Membership, member_active,
  member_invited, member_left, role_member, role_coordinator, ◌>>=◌,
}
use self_organizing_multi_ag.Table.{find, first, update, affected, IsKeyed}
use self_organizing_multi_ag.Scope.{visible}
use self_organizing_multi_ag.Tests.{sample}
use self_organizing_multi_ag.Members.{
  member, get_member, decide, admit, admitted, joined, set_status, with_status, can_read,
  can_administer, project_key,
}
use self_organizing_multi_ag.Members.Rows.{PairKeyed}
use self_organizing_multi_ag.Members.Access.{Granted, can_read-visible}
use self_organizing_multi_ag.Members.Authority.{
  MembersValid, Call, call_invite, call_decide, call_remove, as_left, call_set_role, run,
  run-MembersValid,
}
use self_organizing_multi_ag.Members.Outcome.{
  joined_no_authority, reviewing_elsewhere, removed_reads_nothing,
}
use self_organizing_multi_ag.Projects.{CreateProjectRequest, list_projects}
use self_organizing_multi_ag.Projects.Ownership
use self_organizing_multi_ag.Projects.Ownership.{Moves, call_accept, exec-Moves}
use self_organizing_multi_ag.Projects.Seats.{Transferred, accept_transfer_lem}
use self_organizing_multi_ag.Projects.Discovery.{Discloses, find-list_projects}

abbrev pub hidden_project : Project
hidden_project = record {
  project_id = "p1";
  schema_version = "1.0";
  name = "quiet";
  objective = "keep it quiet";
  visibility = project_closed;
  listed = false;
  membership_policy = invite_only;
  owner = "creator";
  pending_owner = some "worker";
  pending_owner_at = some 40;
  status = project_active;
  created_at = 5;
  metadata = "{}";
}

abbrev pub seat : Membership
seat = record {
  project_id = "p1";
  agent_id = "creator";
  status = member_active;
  role = role_member;
  invited_by = none;
  joined_at = some 5;
  scope = none;
  expires_at = none;
  created_at = 5;
}

abbrev pub worker_seat : Membership
worker_seat = record seat { agent_id = "worker" }

abbrev pending_seat : Membership
pending_seat = record seat {
  agent_id = "other";
  status = member_invited;
  invited_by = some "creator";
  joined_at = none;
}

abbrev pub spaces : Db
spaces = record sample {
  projects = hidden_project ∷ [];
  project_members = seat ∷ worker_seat ∷ pending_seat ∷ [];
}

pub projects-IsKeyed : IsKeyed project_key spaces.projects
unfolding find
projects-IsKeyed = (refl, tt)

members-PairKeyed : PairKeyed spaces.project_members
unfolding first
members-PairKeyed = (refl, (refl, (refl, tt)))

pub hidden_row : find project_key "p1" spaces.projects ≡ some hidden_project
unfolding find
hidden_row = refl

can_read-visible_example :
    (reads : Bool) × (can_read "p1" "other" spaces ≡ (ok reads, spaces))
    × (visible spaces "other" 60 (some "p1") none ≡ reads)
    × ((visible spaces "other" 60 (some "p1") (some "t3") ≡ true)
        ↔ ((reads ≡ true) ⊎ Granted "other" 60 "t3" spaces.project_members))
can_read-visible_example =
    can_read-visible "p1" "other" 60 "t3" spaces hidden_project projects-IsKeyed members-PairKeyed
      hidden_row

accepts : (decide "p1" "other" true 60 spaces).0 ≡ ok (admitted (joined 60 pending_seat))
unfolding decide admit get_member member first update ◌>>=◌
accepts = refl

spaces-MembersValid : MembersValid spaces
spaces-MembersValid = record { pairs = members-PairKeyed; roles = (refl, (refl, (refl, tt))) }

not_owner : ◌≢◌ {A = String} "creator" "other"
not_owner = ground (arith, eq_iff "creator" "other")

joined_no_authority_example :
    can_administer hidden_project "other" (decide "p1" "other" true 60 spaces).1 ≡ false
joined_no_authority_example =
    joined_no_authority "p1" "other" 60 spaces (admitted (joined 60 pending_seat)) hidden_project
      spaces-MembersValid accepts refl not_owner

leaves : (set_status "p1" "worker" member_left spaces).0 ≡ ok (with_status member_left worker_seat)
unfolding set_status get_member member first update affected ◌>>=◌
leaves = refl

removed_reads_nothing_example :
    (visible (set_status "p1" "worker" member_left spaces).1 "worker" 60 (some "p1") none ≡ false)
    × (visible (set_status "p1" "worker" member_left spaces).1 "worker" 60 (some "p1") (some "t3")
        ≡ any (reviewing_elsewhere "p1" "worker" 60 "t3") spaces.project_members)
removed_reads_nothing_example =
    removed_reads_nothing "p1" "worker" member_left 60 "t3" spaces hidden_project
      (with_status member_left worker_seat) projects-IsKeyed members-PairKeyed hidden_row refl refl
      leaves

abbrev member_calls : List Call
member_calls =
    call_set_role "p1" "worker" role_coordinator
    ∷ call_remove "p1" "worker" as_left
    ∷ call_invite "p1" "worker" "creator"
        (record { agent_id = "worker"; reviewer = false; scope = ""; expires_in_seconds = pos 0 })
        70
    ∷ call_decide "p1" "worker" true 80
    ∷ []

run-MembersValid_example : MembersValid (run member_calls spaces)
run-MembersValid_example = run-MembersValid member_calls spaces spaces-MembersValid

find-list_projects_example :
    Discloses "stranger" spaces
      (find project_key "p1" spaces.projects)
      (find project_key "p1" (list_projects "stranger" spaces))
find-list_projects_example = find-list_projects "stranger" spaces "p1" projects-IsKeyed

exec-Moves_example :
    (s : Project) × (find project_key "p1"
        (Ownership.exec (call_accept "p1" "worker" 90) spaces).projects
      ≡ some s)
    × Moves (call_accept "p1" "worker" 90) "p1" hidden_project s
exec-Moves_example = exec-Moves spaces "p1" hidden_project hidden_row (call_accept "p1" "worker" 90)

accept_transfer_lem_example :
    Transferred "p1" "worker" 90 spaces (find project_key "p1" spaces.projects)
accept_transfer_lem_example =
    accept_transfer_lem "p1" "worker" 90 spaces projects-IsKeyed members-PairKeyed

abbrev closed_request : CreateProjectRequest
closed_request = record {
  name = "new";
  objective = "";
  visibility = some project_closed;
  listed = none;
  membership_policy = none;
}
