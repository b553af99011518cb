-- ===== src/Http/Departures.antt =====
-- `handleRemoveMembership` and `successorFor` of internal/httpapi/projects.go: how a seat ends.
use self_organizing_multi_ag.Base.{ℕ, String, not, Option, none, some, [], ◌∷◌, ◌==◌, if◌then◌else◌}
use self_organizing_multi_ag.Errors.{access_denied}
use self_organizing_multi_ag.Db.{
  Db, Project, Membership, member_left, member_revoked, Action, pure, gets, raise_if, ◌>>=◌, ◌>>◌,
}
use self_organizing_multi_ag.Table.{first}
use self_organizing_multi_ag.Scope.{is_open}
use self_organizing_multi_ag.Members.{set_status, can_administer}
use self_organizing_multi_ag.Members.Roster.{coordinators}
use self_organizing_multi_ag.Projects.{succeed}
use self_organizing_multi_ag.Http.{Ambient, unless_missing}
use self_organizing_multi_ag.Http.Access.{project_for}
use self_organizing_multi_ag.Http.Notices.{notify_members}

abbrev pub named_or_none : Option Membership → String
named_or_none none = ""
named_or_none (some m) = m.agent_id

-- `successorFor`
unfoldable pub successor_for : Project → Db → String
successor_for project db =
    if is_open project.visibility
    then ""
    else named_or_none
        (first (λ c. not (c.agent_id == project.owner)) (coordinators project.project_id db))

-- What a removal answers: the project that its owner left, or the membership that ended.
pub data Removed : Type 0 where
  owner_left : Project → Removed
  ended : Membership → Removed

unfoldable pub announce_departure : Ambient → String → Project → String → String → Action (Unit {0})
announce_departure w project_id updated subject successor =
    if successor == ""
    then notify_members w updated "project_archived" (
        ("project_id", project_id) ∷ ("reason", "owner left and no coordinator could succeed") ∷ [])
    else notify_members w updated "project_owner_changed"
        (("project_id", project_id) ∷ ("previous_owner", subject) ∷ ("owner", successor) ∷ [])

-- The departure of the owner.
unfoldable pub owner_leaves : Ambient → Project → String → String → Action (ℕ × Removed)
unfolding successor_for announce_departure
owner_leaves w project project_id subject = do
  successor ← gets (successor_for project)
  updated ← succeed project_id successor
  unless_missing (set_status project_id subject member_left)
  announce_departure w project_id updated subject successor
  pure (200, owner_left updated)

-- Who may end a seat: its holder, and for a seat that is not the owner's, whoever administers the project.
unfoldable pub may_remove : Project → String → String → Action (Unit {0})
may_remove project caller subject = if caller == subject then pure tt else do
  may_admin ← gets (can_administer project caller)
  raise_if (not may_admin)
      (access_denied "only the owner or a coordinator may remove another member")
  raise_if (subject == project.owner) (access_denied "the owner cannot be removed by anyone else")

unfoldable pub end_seat : String → String → String → Action (ℕ × Removed)
end_seat caller project_id subject = do
  member ← set_status project_id subject (if caller == subject then member_left else member_revoked)
  pure (200, ended member)

-- `handleRemoveMembership`
unfoldable pub handle_remove_membership : Ambient → String → String → String → Action (ℕ × Removed)
unfolding may_remove
handle_remove_membership w caller project_id subject = do
  found ← project_for project_id caller
  may_remove found.0 caller subject
  if subject == found.0.owner
      then owner_leaves w found.0 project_id subject
      else end_seat caller project_id subject
