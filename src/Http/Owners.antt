-- ===== src/Http/Owners.antt =====
-- Lemmas on the owner of a project under the handlers of internal/httpapi/projects.go.
use self_organizing_multi_ag.Base.{
  ℕ, String, ◌≡◌, refl, sym, subst, ◌∙◌, ap, Bool, Option, none, some, List, arith,
}
use self_organizing_multi_ag.Errors.{Result}
use self_organizing_multi_ag.Db.{Db, Project, Membership, MemberStatus, Role, Action, modify, ◌>>=◌}
use self_organizing_multi_ag.Db.Respects.{Respects, IsPreorder, respects_rules}
use self_organizing_multi_ag.Db.Keeps.{Keeps, KeptBy-order, Keeps-modify}
use self_organizing_multi_ag.Table.{find}
use self_organizing_multi_ag.Members.{
  project_key, get_member, InviteRequest, may_invite, invite, decide, admit, decline, set_status,
  set_role,
}
use self_organizing_multi_ag.Projects.{
  CreateProjectRequest, create_project, nominate, cancel_transfer, get_project,
}
use self_organizing_multi_ag.Projects.Ownership.{created, put_forward, withdrawn}
use self_organizing_multi_ag.Agents.{get_agent}
use self_organizing_multi_ag.Requests.{ProjectBody}
use self_organizing_multi_ag.Http.{Ambient}
use self_organizing_multi_ag.Http.Rules.{handler_rules}
use self_organizing_multi_ag.Http.Access.{project_for, handle_create_project}
use self_organizing_multi_ag.Http.Access.Disclosure.{project_for-Reads}
use self_organizing_multi_ag.Http.Notices.Aside.{notify_agent-Keeps}
use self_organizing_multi_ag.Http.Seats.{
  handle_invite, handle_apply, handle_decide_membership, handle_set_role,
}
use self_organizing_multi_ag.Http.Departures.{end_seat}
use self_organizing_multi_ag.Http.Transfers.{handle_transfer, call_off, nominee_fits}

-- Every project is still there, with its owner.
abbrev pub OwnersKept : Db → Db → Type 0
OwnersKept db db' =
    (k : String) (r : Project)
    → find project_key k db.projects ≡ some r
    → (s : Project) × (find project_key k db'.projects ≡ some s) × (s.owner ≡ r.owner)

pub OwnersKept-order : IsPreorder OwnersKept
OwnersKept-order = record {
  same = λ db k r e. (r, e, refl);
  chain = λ a b c f g k r e.
      let (s, es, os) = f k r e in let (u, eu, ou) = g k s es in (u, eu, ou ∙ os);
}

abbrev pub project_table : Db → List Project
project_table db = db.projects

-- An operation that keeps the project table keeps the owners.
pub OwnersKept-table : {A : Type 0} (m : Action A) → Keeps project_table m → Respects OwnersKept m
OwnersKept-table m h = record {
  at = λ db k r e. (r, subst (λ t. find project_key k t ≡ some r) (sym (h.at db)) e, refl);
}

members-Keep :
    (f : List Membership → List Membership)
    → Keeps project_table (modify (λ db. record db { project_members = f db.project_members }))
members-Keep f = Keeps-modify project_table _ (λ db. refl)

table_order : IsPreorder (λ db db'. project_table db' ≡ project_table db)
table_order = KeptBy-order project_table

ruleset table_rules = (respects_rules, handler_rules, table_order, members-Keep)

get_member-Keeps : (p a : String) → Keeps project_table (get_member p a)
unfolding get_member
get_member-Keeps p a = search table_rules

may_invite-Keeps : (o : Option Membership) → Keeps project_table (may_invite o)
may_invite-Keeps none = search table_rules
may_invite-Keeps (some m) = search table_rules

pub invite-Keeps :
    (p a by : String) (req : InviteRequest) (now : ℕ) → Keeps project_table (invite p a by req now)
unfolding invite ◌>>=◌
invite-Keeps p a by req now = search (table_rules, get_member-Keeps, may_invite-Keeps) depth 12

pub decide-Keeps :
    (p a : String) (accept : Bool) (now : ℕ) → Keeps project_table (decide p a accept now)
unfolding decide admit decline ◌>>=◌
decide-Keeps p a accept now = search (table_rules, get_member-Keeps) depth 14

pub set_status-Keeps : (p a : String) (s : MemberStatus) → Keeps project_table (set_status p a s)
unfolding set_status ◌>>=◌
set_status-Keeps p a s = search (table_rules, get_member-Keeps) depth 12

pub set_role-Keeps : (p a : String) (role : Role) → Keeps project_table (set_role p a role)
unfolding set_role ◌>>=◌
set_role-Keeps p a role = search (table_rules, get_member-Keeps) depth 14

created-Keeps :
    (fresh owner : String) (req : CreateProjectRequest) (now : ℕ)
    → Respects OwnersKept (create_project fresh owner req now)
created-Keeps fresh owner req now = record {
  at = λ db k r e. (r, created db k r e fresh owner req now, refl);
}

nominate-Keeps : (p a : String) (now : ℕ) → Respects OwnersKept (nominate p a now)
nominate-Keeps p a now = record { at = λ db k r e. (_, put_forward db k r e p a now, ground arith) }

cancel-Keeps : (p : String) → Respects OwnersKept (cancel_transfer p)
cancel-Keeps p = record { at = λ db k r e. (_, withdrawn db k r e p, ground arith) }

get_agent-Keeps : (a : String) → Keeps project_table (get_agent a)
unfolding get_agent
get_agent-Keeps a = search table_rules

get_project-Keeps : (p : String) → Keeps project_table (get_project p)
unfolding get_project
get_project-Keeps p = search table_rules

pub project_for-Keeps : (p a : String) → Keeps project_table (project_for p a)
project_for-Keeps p a = record { at = λ db. ap project_table ((project_for-Reads p a).at db) }

nominee_fits-Keeps : (q : Project) (p a : String) → Keeps project_table (nominee_fits q p a)
unfolding nominee_fits
nominee_fits-Keeps q p a = search table_rules

ruleset owner_rules = (
  respects_rules, handler_rules, OwnersKept-order, OwnersKept-table, created-Keeps, nominate-Keeps,
  cancel-Keeps, get_agent-Keeps, get_project-Keeps, project_for-Keeps, nominee_fits-Keeps,
  get_member-Keeps, invite-Keeps, decide-Keeps, set_status-Keeps, set_role-Keeps,
)

pub handle_create-OwnersKept :
    (w : Ambient) (fresh caller : String) (body : Result ProjectBody)
    → Respects OwnersKept (handle_create_project w fresh caller body)
unfolding handle_create_project
handle_create-OwnersKept w fresh caller body = search owner_rules depth 16

pub handle_invite-OwnersKept :
    (w : Ambient) (caller p : String) (body : Result InviteRequest)
    → Respects OwnersKept (handle_invite w caller p body)
unfolding handle_invite
handle_invite-OwnersKept w caller p body = search owner_rules depth 20

pub handle_apply-OwnersKept :
    (w : Ambient) (caller p : String) → Respects OwnersKept (handle_apply w caller p)
unfolding handle_apply
handle_apply-OwnersKept w caller p = search owner_rules depth 16

pub handle_decide-OwnersKept :
    (w : Ambient) (caller p subject : String) (body : Result Bool)
    → Respects OwnersKept (handle_decide_membership w caller p subject body)
unfolding handle_decide_membership
handle_decide-OwnersKept w caller p subject body = search owner_rules depth 20

pub handle_set_role-OwnersKept :
    (caller p subject : String) (body : Result String)
    → Respects OwnersKept (handle_set_role caller p subject body)
unfolding handle_set_role
handle_set_role-OwnersKept caller p subject body = search owner_rules depth 18

pub handle_transfer-OwnersKept :
    (w : Ambient) (caller p : String) (body : Result String)
    → Respects OwnersKept (handle_transfer w caller p body)
unfolding handle_transfer
handle_transfer-OwnersKept w caller p body =
    search (owner_rules, notify_agent-Keeps project_table (λ db ts ms js n. refl) w) depth 22

pub end_seat-OwnersKept :
    (caller p subject : String) → Respects OwnersKept (end_seat caller p subject)
unfolding end_seat
end_seat-OwnersKept caller p subject = search owner_rules depth 12

pub call_off-OwnersKept : (p : String) → Respects OwnersKept (call_off p)
unfolding call_off
call_off-OwnersKept p = search owner_rules depth 12
