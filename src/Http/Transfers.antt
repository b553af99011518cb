-- ===== src/Http/Transfers.antt =====
-- `handleTransfer` and `handleDecideTransfer` of internal/httpapi/projects.go: how a project changes hands.
use self_organizing_multi_ag.Base.{ℕ, String, Bool, not, ◌&&◌, ◌||◌, [], ◌∷◌, ◌==◌, if◌then◌else◌}
use self_organizing_multi_ag.Errors.{
  Result, text, not_found, access_denied, conflict, validation_error,
}
use self_organizing_multi_ag.Db.{Project, Action, pure, gets, or_raise, raise_if, ◌>>=◌, ◌>>◌}
use self_organizing_multi_ag.Scope.{is_open}
use self_organizing_multi_ag.Agents.{get_agent}
use self_organizing_multi_ag.Members.{member, active_standing}
use self_organizing_multi_ag.Projects.{get_project, nominate, accept_transfer, cancel_transfer}
use self_organizing_multi_ag.Requests.{validate_transfer}
use self_organizing_multi_ag.Http.{Ambient, seconds, received, accepted}
use self_organizing_multi_ag.Http.Access.{project_for}
use self_organizing_multi_ag.Http.Notices.{notify_agent, notify_members}

-- A closed project goes only to an active member.
unfoldable pub nominee_fits : Project → String → String → Action (Unit {0})
nominee_fits project project_id new_owner = if is_open project.visibility then pure tt else do
  inside ← gets (λ db. active_standing (member project_id new_owner db))
  raise_if (not inside)
      (validation_error (text "the nominee must already be an active member of this project"))

-- `handleTransfer`
unfoldable pub handle_transfer : Ambient → String → String → Result String → Action (ℕ × Project)
unfolding nominee_fits
handle_transfer w caller project_id body = do
  new_owner ← received body
  accepted (validate_transfer new_owner)
  found ← project_for project_id caller
  raise_if (not (found.0.owner == caller))
      (access_denied "only the current owner may transfer a project")
  raise_if (new_owner == found.0.owner)
      (validation_error (text "the project already belongs to that agent"))
  get_agent new_owner
  nominee_fits found.0 project_id new_owner
  updated ← nominate project_id new_owner (seconds w)
  notify_agent w new_owner "project_transfer_offered"
      (("project_id", project_id) ∷ ("from", caller) ∷ [])
  pure (200, updated)

-- The nominee's acceptance.
unfoldable pub take_over : Ambient → String → String → Project → Action (ℕ × Project)
take_over w caller project_id project = do
  updated ← accept_transfer project_id caller (seconds w)
  notify_members w updated "project_owner_changed"
      (("project_id", project_id) ∷ ("previous_owner", project.owner) ∷ ("owner", caller) ∷ [])
  pure (200, updated)

unfoldable pub call_off : String → Action (ℕ × Project)
call_off project_id = do updated ← cancel_transfer project_id; pure (200, updated)

-- `handleDecideTransfer`
unfoldable pub handle_decide_transfer :
    Ambient → String → String → Result Bool → Action (ℕ × Project)
unfolding take_over call_off
handle_decide_transfer w caller project_id body = do
  accept ← received body
  project ← get_project project_id
  nominee ← or_raise project.pending_owner (conflict "no transfer is pending")
  raise_if (not (caller == nominee) && not (caller == project.owner))
      (not_found "project not found")
  if not accept || caller == project.owner
      then call_off project_id
      else take_over w caller project_id project
