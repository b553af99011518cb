-- ===== src/Http/Seats.antt =====
-- The handlers that fill the seats of a closed project, of internal/httpapi/projects.go.
use self_organizing_multi_ag.Base.{
  ℕ, pos, String, Bool, true, false, not, ◌&&◌, ◌==◌, is_some, if◌then◌else◌,
}
use self_organizing_multi_ag.Errors.{Result, text, not_found, access_denied, validation_error}
use self_organizing_multi_ag.Db.{
  Policy, invite_only, invite_or_apply, Membership, Role, role_member, role_coordinator, Action,
  pure, gets, raise_if, ◌>>=◌, ◌>>◌,
}
use self_organizing_multi_ag.Scope.{is_open}
use self_organizing_multi_ag.Agents.{get_agent}
use self_organizing_multi_ag.Members.{
  InviteRequest, get_member, invite, Decided, decide, set_role, can_administer,
}
use self_organizing_multi_ag.Projects.{get_project}
use self_organizing_multi_ag.Requests.{validate_invite, validate_set_role}
use self_organizing_multi_ag.Http.{Ambient, seconds, received, accepted}
use self_organizing_multi_ag.Http.Access.{project_for}

-- `handleInvite`
unfoldable pub handle_invite :
    Ambient → String → String → Result InviteRequest → Action (ℕ × Membership)
handle_invite w caller project_id body = do
  req ← received body
  accepted (validate_invite req)
  found ← project_for project_id caller
  may_admin ← gets (can_administer found.0 caller)
  raise_if (not may_admin) (access_denied "only the owner or a coordinator may invite")
  raise_if (is_open found.0.visibility)
      (validation_error (text "an open project has no membership to grant"))
  get_agent req.agent_id
  member ← invite project_id req.agent_id caller req (seconds w)
  pure (201, member)

abbrev pub takes_applications : Policy → Bool
takes_applications invite_only = false
takes_applications invite_or_apply = true

-- The request of an application: the agent's own, as a plain member.
abbrev pub application : String → InviteRequest
application agent_id = record {
  agent_id = agent_id;
  reviewer = false;
  scope = "";
  expires_in_seconds = pos 0;
}

-- `handleApply`
unfoldable pub handle_apply : Ambient → String → String → Action (ℕ × Membership)
handle_apply w caller project_id = do
  found ← project_for project_id caller
  raise_if (is_open found.0.visibility)
      (validation_error (text "an open project needs no application"))
  raise_if (not (takes_applications found.0.membership_policy))
      (access_denied "this project is invite-only")
  member ← invite project_id caller "" (application caller) (seconds w)
  pure (201, member)

-- `handleDecideMembership`
unfoldable pub handle_decide_membership :
    Ambient → String → String → String → Result Bool → Action (ℕ × Decided)
handle_decide_membership w caller project_id subject body = do
  accept ← received body
  member ← get_member project_id subject
  project ← get_project project_id
  may_admin ← gets (can_administer project caller)
  raise_if (not (caller == subject) && not may_admin) (not_found "project not found")
  raise_if (is_some member.invited_by && not (caller == subject))
      (access_denied "only the invited agent may answer an invitation")
  raise_if (not (is_some member.invited_by) && not may_admin)
      (access_denied "only the owner or a coordinator may decide an application")
  decided ← decide project_id subject accept (seconds w)
  pure (200, decided)

-- The role that an accepted text names.
abbrev pub role_of : String → Role
role_of s = if s == "coordinator" then role_coordinator else role_member

-- `handleSetRole`
unfoldable pub handle_set_role : String → String → String → Result String → Action (ℕ × Membership)
handle_set_role caller project_id subject body = do
  role ← received body
  accepted (validate_set_role role)
  found ← project_for project_id caller
  raise_if (not (found.0.owner == caller))
      (access_denied "only the project owner may appoint coordinators")
  raise_if (subject == found.0.owner)
      (validation_error (text "the owner already holds every authority a coordinator has"))
  member ← set_role project_id subject (role_of role)
  pure (200, member)
