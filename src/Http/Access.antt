-- ===== src/Http/Access.antt =====
-- `projectFor`, `requireProjectWriter` and the handlers that read a project, of internal/httpapi/projects.go and
-- memory.go.
pub mod Disclosure
pub mod Writers
use self_organizing_multi_ag.Base.{
  ℕ, String, Bool, true, false, not, ◌&&◌, ◌||◌, Option, none, some, List, ◌==◌, if◌then◌else◌,
}
use self_organizing_multi_ag.Errors.{Result, not_found, access_denied, conflict}
use self_organizing_multi_ag.Db.{
  Db, Project, Visibility, project_open, project_closed, Policy, invite_only, invite_or_apply,
  Membership, Action, pure, raise, gets, raise_if, ◌>>=◌, ◌>>◌,
}
use self_organizing_multi_ag.Scope.{is_open}
use self_organizing_multi_ag.Queue.{is_project_active}
use self_organizing_multi_ag.Members.{can_read}
use self_organizing_multi_ag.Members.Roster.{list_members}
use self_organizing_multi_ag.Requests.{ProjectBody, validate_project}
use self_organizing_multi_ag.Http.{Ambient, seconds, received, accepted}
use self_organizing_multi_ag.Projects.{
  CreateProjectRequest, get_project, create_project, listing, list_projects,
}

-- The part of `projectFor` past the visibility of the project.
unfoldable pub closed_project : Project → String → Bool → Action (Project × Bool)
closed_project project agent_id readable =
    if readable || project.owner == agent_id
    then pure (project, true)
    else if project.listed
    then pure (project, false)
    else raise (not_found "project not found")

-- `projectFor`: the project, and whether the caller may see its contents
unfoldable pub project_for : String → String → Action (Project × Bool)
unfolding closed_project
project_for project_id agent_id = do
  project ← get_project project_id
  if is_open project.visibility
      then pure (project, true)
      else can_read project_id agent_id >>= closed_project project agent_id

-- `requireProjectWriter`
unfoldable pub require_project_writer : String → String → Action (Unit {0})
require_project_writer project_id agent_id = do
  project ← get_project project_id
  raise_if (not (is_project_active project.status)) (conflict "cannot write to an archived project")
  can_write ← can_read project_id agent_id
  raise_if (not can_write) (access_denied "project access is read-only")

-- `handleGetProject`
unfoldable pub handle_get_project : String → String → Action (ℕ × Project)
handle_get_project caller project_id = do
  found ← project_for project_id caller
  pure (200, if found.1 then found.0 else listing found.0)

-- `handleListMembers`
unfoldable pub handle_list_members : String → String → Action (ℕ × List Membership)
handle_list_members caller project_id = do
  found ← project_for project_id caller
  raise_if (not found.1 && not (found.0.owner == caller))
      (access_denied "the membership of a closed project is visible to its members only")
  members ← gets (list_members project_id)
  pure (200, members)

-- The two choices of an accepted body, as the store reads them: an empty text leaves the choice open.
abbrev pub chosen_visibility : String → Option Visibility
chosen_visibility s =
    if s == "" then none else some (if s == "closed" then project_closed else project_open)

abbrev pub chosen_policy : String → Option Policy
chosen_policy s =
    if s == "" then none else some (if s == "invite_or_apply" then invite_or_apply else invite_only)

abbrev pub project_request : ProjectBody → CreateProjectRequest
project_request body = record {
  name = body.name;
  objective = body.objective;
  visibility = chosen_visibility body.visibility;
  listed = body.listed;
  membership_policy = chosen_policy body.membership_policy;
}

-- `handleCreateProject`
unfoldable pub handle_create_project :
    Ambient → String → String → Result ProjectBody → Action (ℕ × Project)
handle_create_project w fresh caller body = do
  req ← received body
  accepted (validate_project req)
  project ← create_project fresh caller (project_request req) (seconds w)
  pure (201, project)

-- `handleDiscoverProjects`
unfoldable pub handle_discover_projects : String → Action (ℕ × List Project)
handle_discover_projects caller = do projects ← gets (list_projects caller); pure (200, projects)
