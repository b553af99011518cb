-- ===== src/Projects.antt =====
-- internal/store/projects.go: projects and their owners.
pub mod Ownership
pub mod Seats
pub mod Discovery
use self_organizing_multi_ag.Base.{
  ℕ, String, Bool, true, false, not, ◌&&◌, ◌||◌, Option, none, some, List, [], ◌∷◌, map, ◌==◌,
  nat_eq, ltb, text_lt, opt_is, is_some, if◌then◌else◌,
}
use self_organizing_multi_ag.Errors.{not_found, conflict}
use self_organizing_multi_ag.Db.{
  Db, Project, Visibility, project_open, project_closed, ProjectStatus, project_active,
  project_archived, Policy, invite_only, Membership, member_active, role_member, Action, pure, gets,
  or_raise, raise_if, modify, atomically, ◌>>=◌, ◌>>◌,
}
use self_organizing_multi_ag.Table.{first, find, update, affected, insert, select, order_by}
use self_organizing_multi_ag.Scope.{is_open}
use self_organizing_multi_ag.Queue.{is_project_active}
use self_organizing_multi_ag.Members.{member_at, member, project_key, active_standing}

-- `CreateProjectRequest`; an empty text of the two choices is `none`.
pub record CreateProjectRequest : Type 0 where
  pub name : String
  pub objective : String
  pub visibility : Option Visibility
  pub listed : Option Bool
  pub membership_policy : Option Policy

abbrev pub or_default {ℓ} : {A : Type ℓ} → A → Option A → A
or_default d none = d
or_default d (some a) = a

abbrev pub new_project : String → String → CreateProjectRequest → ℕ → Project
new_project fresh owner req now =
    let visibility = or_default project_open req.visibility in
    record {
      project_id = fresh;
      schema_version = "1.0";
      name = req.name;
      objective = req.objective;
      visibility = visibility;
      listed = or_default (is_open visibility) req.listed;
      membership_policy = or_default invite_only req.membership_policy;
      owner = owner;
      pending_owner = none;
      pending_owner_at = none;
      status = project_active;
      created_at = now;
      metadata = "{}";
    }

-- The seat of an owner in a closed project.
abbrev pub owner_seat : String → String → ℕ → Membership
owner_seat project_id agent_id now = record {
  project_id = project_id;
  agent_id = agent_id;
  status = member_active;
  role = role_member;
  invited_by = none;
  joined_at = some now;
  scope = none;
  expires_at = none;
  created_at = now;
}

-- `ProjectStore.Get`
unfoldable pub get_project : String → Action Project
get_project project_id = do
  or_raise (← gets (λ db. find project_key project_id db.projects)) (not_found "project not found")

unfoldable pub insert_project : Project → String → ℕ → Action (Unit {0})
insert_project p owner now = do
  modify (λ db. record db { projects = insert p db.projects })
  if is_open p.visibility
      then pure tt
      else modify (λ db. record db {
        project_members = insert (owner_seat p.project_id owner now) db.project_members;
      })

-- `ProjectStore.Create`
unfoldable pub create_project : String → String → CreateProjectRequest → ℕ → Action Project
create_project fresh owner req now = do
  atomically (insert_project (new_project fresh owner req now) owner now)
  get_project fresh

-- `UPDATE projects … WHERE project_id=?`
abbrev pub set_project : String → (Project → Project) → Action (Unit {0})
set_project project_id f =
    modify (λ db. record db { projects = update (λ p. p.project_id == project_id) f db.projects })

abbrev pub nominated : String → ℕ → Project → Project
nominated new_owner now p = record p { pending_owner = some new_owner; pending_owner_at = some now }

-- `ProjectStore.Nominate`
unfoldable pub nominate : String → String → ℕ → Action Project
nominate project_id new_owner now = do
  let hit = λ (p : Project). p.project_id == project_id && is_project_active p.status
  n ← gets (λ db. affected hit db.projects)
  modify (λ db. record db { projects = update hit (nominated new_owner now) db.projects })
  raise_if (nat_eq n 0) (conflict "an archived project cannot change hands")
  get_project project_id

abbrev pub owned_by : String → Project → Project
owned_by owner p = record p { owner = owner; pending_owner = none; pending_owner_at = none }

-- `INSERT … ON CONFLICT DO UPDATE SET status`
unfoldable pub keep_seat : String → String → ℕ → List Membership → List Membership
keep_seat project_id agent_id now t =
    if is_some (first (member_at project_id agent_id) t)
    then update (member_at project_id agent_id) (λ m. record m { status = member_active }) t
    else insert (owner_seat project_id agent_id now) t

-- The transaction of `AcceptTransfer`.
unfoldable pub hand_over : String → String → ℕ → Action (Unit {0})
unfolding keep_seat
hand_over project_id new_owner now = do
  p ←
      or_raise (← gets (λ db. find project_key project_id db.projects))
        (not_found "project not found")
  raise_if (not (opt_is p.pending_owner new_owner))
      (conflict "no transfer is pending for this agent")
  set_project project_id (owned_by new_owner)
  if is_open p.visibility
      then pure tt
      else modify (λ db. record db {
        project_members = keep_seat project_id p.owner now db.project_members;
      })

-- `ProjectStore.AcceptTransfer`
unfoldable pub accept_transfer : String → String → ℕ → Action Project
accept_transfer project_id new_owner now = do
  atomically (hand_over project_id new_owner now)
  get_project project_id

-- `ProjectStore.CancelTransfer`
unfoldable pub cancel_transfer : String → Action Project
cancel_transfer project_id = do
  set_project project_id (λ p. record p { pending_owner = none; pending_owner_at = none })
  get_project project_id

abbrev pub archived : Project → Project
archived p = record p { status = project_archived; pending_owner = none; pending_owner_at = none }

-- `ProjectStore.Succeed`
unfoldable pub succeed : String → String → Action Project
succeed project_id successor = do
  set_project project_id (if successor == "" then archived else owned_by successor)
  get_project project_id

-- `Project.Listing`
abbrev pub listing : Project → Project
listing p = record {
  project_id = p.project_id;
  schema_version = p.schema_version;
  name = p.name;
  objective = "";
  visibility = p.visibility;
  listed = p.listed;
  membership_policy = p.membership_policy;
  owner = "";
  pending_owner = none;
  pending_owner_at = none;
  status = p.status;
  created_at = 0;
  metadata = "{}";
}

-- `ORDER BY created_at, project_id`
abbrev pub project_before : Project → Project → Bool
project_before a b =
    ltb a.created_at b.created_at
    || (nat_eq a.created_at b.created_at && text_lt a.project_id b.project_id)

-- The WHERE of `List`: `my_status` is the status of the agent's row.
abbrev pub discoverable : Db → String → Project → Bool
discoverable db agent_id p =
    is_open p.visibility || p.listed || is_some (member p.project_id agent_id db)

-- The row as `List` returns it.
abbrev pub shown : Db → String → Project → Project
shown db agent_id p =
    if not (is_open p.visibility)
      && not (active_standing (member p.project_id agent_id db))
      && not (p.owner == agent_id)
    then listing p
    else p

-- `ProjectStore.List`
unfoldable pub list_projects : String → Db → List Project
list_projects agent_id db =
    map (shown db agent_id)
      (order_by project_before (select (discoverable db agent_id) db.projects))
