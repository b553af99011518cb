-- ===== src/Members.antt =====
-- internal/store/membership.go: the memberships of closed projects. A row is one agent's standing in one
-- project.
pub mod Rows
pub mod Roster
pub mod Access
pub mod Authority
pub mod Outcome
use self_organizing_multi_ag.Base.{
  ℕ, ◌+◌, ◌-◌, ◌||◌, ℤ, pos, negsuc, suc, String, Bool, true, false, not, ◌&&◌, Option, none, some,
  List, ◌==◌, is_some, nat_eq, null_if_empty, if◌then◌else◌,
}
use self_organizing_multi_ag.Errors.{ApiError, not_found, conflict, with_details}
use self_organizing_multi_ag.Db.{
  Db, Project, Membership, MemberStatus, member_invited, member_active, member_revoked, member_left,
  member_reviewer, Role, role_member, role_coordinator, Action, pure, raise, gets, or_raise,
  raise_if, modify, ◌>>=◌, ◌>>◌,
}
use self_organizing_multi_ag.Table.{first, find, update, affected, delete, insert}
use self_organizing_multi_ag.Scope.{is_open, is_active}

-- The column's text.
abbrev pub member_status_text : MemberStatus → String
member_status_text member_invited = "invited"
member_status_text member_active = "active"
member_status_text member_revoked = "revoked"
member_status_text member_left = "left"
member_status_text member_reviewer = "reviewer"

abbrev pub is_invited : MemberStatus → Bool
is_invited member_invited = true
is_invited _ = false

abbrev pub is_coordinator : Role → Bool
is_coordinator role_coordinator = true
is_coordinator role_member = false

-- `project_id=? AND agent_id=?`, the primary key
abbrev pub member_at : String → String → Membership → Bool
member_at project_id agent_id m = m.project_id == project_id && m.agent_id == agent_id

unfoldable pub member : String → String → Db → Option Membership
member project_id agent_id db = first (member_at project_id agent_id) db.project_members

-- `MembershipStore.Get`
unfoldable pub get_member : String → String → Action Membership
unfolding member
get_member project_id agent_id = do
  or_raise (← gets (member project_id agent_id)) (not_found "no membership record")

-- `InviteRequest`
pub record InviteRequest : Type 0 where
  pub agent_id : String
  pub reviewer : Bool
  pub scope : String
  pub expires_in_seconds : ℤ

-- `now.Add` of a count of seconds
abbrev pub add_seconds : ℕ → ℤ → ℕ
add_seconds now (pos n) = now + n
add_seconds now (negsuc n) = now - suc n

abbrev pub already_member : Membership → ApiError
already_member m =
    with_details "status" (member_status_text m.status)
      (conflict "agent already has a pending or active membership")

-- Who may be invited: nobody who is active or has an answer pending.
abbrev pub may_invite : Option Membership → Action (Unit {0})
may_invite none = pure tt
may_invite (some m) = raise_if (is_active m.status || is_invited m.status) (already_member m)

-- The row that `Invite` writes.
abbrev pub invitation : String → String → String → InviteRequest → ℕ → Membership
invitation project_id agent_id invited_by req now = record {
  project_id = project_id;
  agent_id = agent_id;
  status = (if req.reviewer then member_reviewer else member_invited);
  role = role_member;
  invited_by = null_if_empty invited_by;
  joined_at = (if req.reviewer then some now else none);
  scope = (if req.reviewer then some req.scope else none);
  expires_at = (if req.reviewer then some (add_seconds now req.expires_in_seconds) else none);
  created_at = now;
}

-- `INSERT … ON CONFLICT DO UPDATE`, with every other column set
abbrev pub overwritten : Membership → Membership → Membership
overwritten m r = record m { project_id = r.project_id; agent_id = r.agent_id }

unfoldable pub upsert : Membership → List Membership → List Membership
upsert m t =
    if is_some (first (member_at m.project_id m.agent_id) t)
    then update (member_at m.project_id m.agent_id) (overwritten m) t
    else insert m t

-- `MembershipStore.Invite`
unfoldable pub invite : String → String → String → InviteRequest → ℕ → Action Membership
unfolding upsert
invite project_id agent_id invited_by req now = do
  existing ← gets (member project_id agent_id)
  may_invite existing
  modify (λ db. record db {
    project_members = upsert (invitation project_id agent_id invited_by req now) db.project_members;
  })
  get_member project_id agent_id

-- What `Decide` returns: the row, or only its key when the row is gone.
pub data Decided : Type 0 where
  admitted : Membership → Decided
  declined : String → String → Decided

abbrev pub not_pending : Membership → ApiError
not_pending m =
    with_details "status" (member_status_text m.status) (conflict "membership is not pending")

abbrev pub joined : ℕ → Membership → Membership
joined now m = record m { status = member_active; joined_at = some now }

unfoldable pub admit : String → String → ℕ → Action Decided
admit project_id agent_id now = do
  modify (λ db. record db {
    project_members = update (member_at project_id agent_id) (joined now) db.project_members;
  })
  m ← get_member project_id agent_id
  pure (admitted m)

unfoldable pub decline : String → String → Action Decided
decline project_id agent_id = do
  modify (λ db. record db {
    project_members = delete (member_at project_id agent_id) db.project_members;
  })
  pure (declined project_id agent_id)

-- `MembershipStore.Decide`
unfoldable pub decide : String → String → Bool → ℕ → Action Decided
unfolding admit decline
decide project_id agent_id accept now = do
  existing ← get_member project_id agent_id
  raise_if (not (is_invited existing.status)) (not_pending existing)
  if accept then admit project_id agent_id now else decline project_id agent_id

abbrev pub with_status : MemberStatus → Membership → Membership
with_status status m = record m { status = status; scope = none; expires_at = none }

-- `MembershipStore.SetStatus`
unfoldable pub set_status : String → String → MemberStatus → Action Membership
set_status project_id agent_id status = do
  n ← gets (λ db. affected (member_at project_id agent_id) db.project_members)
  modify (λ db. record db {
    project_members =
        update (member_at project_id agent_id) (with_status status) db.project_members;
  })
  raise_if (nat_eq n 0) (not_found "no membership record")
  get_member project_id agent_id

abbrev pub project_key : Project → String
project_key p = p.project_id

abbrev pub active_standing : Option Membership → Bool
active_standing none = false
active_standing (some m) = is_active m.status

-- `MembershipStore.CanRead`
unfoldable pub can_read : String → String → Action Bool
can_read project_id agent_id = do
  p ←
      or_raise (← gets (λ db. find project_key project_id db.projects))
        (not_found "project not found")
  standing ← gets (λ db. active_standing (member project_id agent_id db))
  pure (if is_open p.visibility then true else standing)

abbrev pub not_active : Membership → ApiError
not_active m =
    with_details "status" (member_status_text m.status)
      (conflict "only an active member can hold a role")

-- `MembershipStore.SetRole`
unfoldable pub set_role : String → String → Role → Action Membership
set_role project_id agent_id role = do
  let hit = λ (m : Membership). member_at project_id agent_id m && is_active m.status
  n ← gets (λ db. affected hit db.project_members)
  modify (λ db. record db {
    project_members = update hit (λ m. record m { role = role }) db.project_members;
  })
  if nat_eq n 0
      then get_member project_id agent_id >>= (λ existing. raise (not_active existing))
      else get_member project_id agent_id

abbrev pub active_coordinator : Option Membership → Bool
active_coordinator none = false
active_coordinator (some m) = is_active m.status && is_coordinator m.role

-- `MembershipStore.CanAdminister`
unfoldable pub can_administer : Project → String → Db → Bool
can_administer project agent_id db =
    if project.owner == agent_id
    then true
    else active_coordinator (member project.project_id agent_id db)
