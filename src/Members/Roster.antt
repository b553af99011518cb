-- ===== src/Members/Roster.antt =====
-- `List` and `Coordinators` of internal/store/membership.go: the members of a project, in order.
pub mod Eldest
use self_organizing_multi_ag.Base.{
  ℕ, String, Bool, true, false, not, ◌&&◌, ◌||◌, Option, none, some, List, ◌==◌, ltb, nat_eq,
  text_lt,
}
use self_organizing_multi_ag.Db.{Db, Membership}
use self_organizing_multi_ag.Table.{select, order_by}
use self_organizing_multi_ag.Scope.{is_active}
use self_organizing_multi_ag.Members.{is_coordinator}

-- `ORDER BY created_at, agent_id`
abbrev pub enrolled_before : Membership → Membership → Bool
enrolled_before a b =
    ltb a.created_at b.created_at
    || (nat_eq a.created_at b.created_at && text_lt a.agent_id b.agent_id)

-- `MembershipStore.List`
unfoldable pub list_members : String → Db → List Membership
list_members project_id db =
    order_by enrolled_before (select (λ m. m.project_id == project_id) db.project_members)

-- The order of a nullable time, NULL first.
abbrev pub sooner : Option ℕ → Option ℕ → Bool
sooner none none = false
sooner none (some t) = true
sooner (some s) none = false
sooner (some s) (some t) = ltb s t

-- `ORDER BY joined_at, agent_id`
abbrev pub joined_before : Membership → Membership → Bool
joined_before a b =
    sooner a.joined_at b.joined_at
    || (not (sooner b.joined_at a.joined_at) && text_lt a.agent_id b.agent_id)

abbrev pub coordinates : String → Membership → Bool
coordinates project_id m = m.project_id == project_id && is_active m.status && is_coordinator m.role

-- `MembershipStore.Coordinators`
unfoldable pub coordinators : String → Db → List Membership
coordinators project_id db =
    order_by joined_before (select (coordinates project_id) db.project_members)
