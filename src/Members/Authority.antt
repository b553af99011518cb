-- ===== src/Members/Authority.antt =====
-- Lemmas on the operations of internal/store/membership.go over sequences of calls.
use self_organizing_multi_ag.Base.{
  ℕ, String, ◌≡◌, refl, Bool, true, false, ◌&&◌, ◌||◌, Option, none, some, List, [], ◌∷◌, arith,
  Bool-cases, inl, inr, All, is_some,
}
use self_organizing_multi_ag.Db.{
  Db, Membership, MemberStatus, member_revoked, member_left, Role, modify,
}
use self_organizing_multi_ag.Db.Respects.{Respects, IsPreorder, respects_rules, Respects-modify}
use self_organizing_multi_ag.Table.{first, update, delete}
use self_organizing_multi_ag.Table.Rows.{All-update, All-insert}
use self_organizing_multi_ag.Scope.{is_active, is_reviewer}
use self_organizing_multi_ag.Members.{
  member_at, get_member, InviteRequest, invitation, invite, may_invite, upsert, overwritten, decide,
  admit, decline, joined, is_invited, is_coordinator, with_status, set_status, set_role,
}
use self_organizing_multi_ag.Members.Rows.{
  PairKeyed, PairKeyed-update, PairKeyed-delete, PairKeyed-upsert,
}

-- A coordinator's row is not an open invitation, nor a reviewer's.
abbrev pub RoleFits : Membership → Type 0
RoleFits m = (is_coordinator m.role && (is_invited m.status || is_reviewer m.status)) ≡ false

pub record MembersValid (db : Db) : Type 0 where
  pub pairs : PairKeyed db.project_members
  pub roles : All RoleFits db.project_members

abbrev KeepsValid : Db → Db → Type 0
KeepsValid db db' = MembersValid db → MembersValid db'

KeepsValid-order : IsPreorder KeepsValid
KeepsValid-order = record { same = λ db v. v; chain = λ a b c f g v. g (f v) }

updated-KeepsValid :
    (q : Membership → Bool) (f : Membership → Membership)
    → ((m : Membership) → (f m).project_id ≡ m.project_id)
    → ((m : Membership) → (f m).agent_id ≡ m.agent_id)
    → ((m : Membership) → q m ≡ true → RoleFits m → RoleFits (f m))
    → Respects KeepsValid
        (modify λ db. record db { project_members = update q f db.project_members })
updated-KeepsValid q f sp sa fits = Respects-modify _ λ db v. record {
  pairs = PairKeyed-update q f sp sa db.project_members v.pairs;
  roles = All-update RoleFits q f fits db.project_members v.roles;
}

All-delete :
    (q : Membership → Bool) (t : List Membership) → All RoleFits t → All RoleFits (delete q t)
unfolding delete
All-delete q [] h = tt
All-delete q (m ∷ t) h = ground (arith, All-delete q t h.1)

deleted-KeepsValid :
    (q : Membership → Bool)
    → Respects KeepsValid (modify λ db. record db { project_members = delete q db.project_members })
deleted-KeepsValid q = Respects-modify _ λ db v. record {
  pairs = PairKeyed-delete q db.project_members v.pairs;
  roles = All-delete q db.project_members v.roles;
}

All-upsert :
    (m : Membership) (t : List Membership) → RoleFits m → All RoleFits t → All RoleFits (upsert m t)
unfolding upsert
All-upsert m t fits h = elim (Bool-cases (is_some (first (member_at m.project_id m.agent_id) t))) [
  | inl old ↦
      rw old (
        All-update RoleFits (member_at m.project_id m.agent_id) (overwritten m) (λ r e k. fits) t h)
  | inr new ↦ rw new (All-insert RoleFits m t h fits)
]

invitation_fits :
    (p a by : String) (req : InviteRequest) (now : ℕ) → RoleFits (invitation p a by req now)
invitation_fits p a by req now = ground arith

upserted-KeepsValid :
    (p a by : String) (req : InviteRequest) (now : ℕ)
    → Respects KeepsValid (
        modify λ db. record db {
          project_members = upsert (invitation p a by req now) db.project_members;
        })
upserted-KeepsValid p a by req now = Respects-modify _ λ db v. record {
  pairs = PairKeyed-upsert (invitation p a by req now) db.project_members v.pairs;
  roles =
      All-upsert (invitation p a by req now) db.project_members (invitation_fits p a by req now)
        v.roles;
}

may_invite-KeepsValid : (o : Option Membership) → Respects KeepsValid (may_invite o)
may_invite-KeepsValid none = search (respects_rules, KeepsValid-order)
may_invite-KeepsValid (some m) = search (respects_rules, KeepsValid-order)

get_member-KeepsValid : (p a : String) → Respects KeepsValid (get_member p a)
unfolding get_member
get_member-KeepsValid p a = search (respects_rules, KeepsValid-order)

ruleset valid_rules = (
  respects_rules, KeepsValid-order, get_member-KeepsValid, may_invite-KeepsValid,
  upserted-KeepsValid, deleted-KeepsValid,
)

invite-KeepsValid :
    (p a by : String) (req : InviteRequest) (now : ℕ) → Respects KeepsValid (invite p a by req now)
unfolding invite
invite-KeepsValid p a by req now = search valid_rules depth 12

joined-KeepsValid :
    (p a : String) (now : ℕ)
    → Respects KeepsValid (
        modify λ db. record db {
          project_members = update (member_at p a) (joined now) db.project_members;
        })
joined-KeepsValid p a now =
    updated-KeepsValid (member_at p a) (joined now) (λ m. refl) (λ m. refl) (λ m e k. ground arith)

decide-KeepsValid :
    (p a : String) (accept : Bool) (now : ℕ) → Respects KeepsValid (decide p a accept now)
unfolding decide admit decline
decide-KeepsValid p a accept now = search (valid_rules, joined-KeepsValid) depth 14

-- How a membership ends: the statuses that `SetStatus` is called with.
pub data Departure : Type 0 where
  as_revoked as_left : Departure

abbrev pub departed : Departure → MemberStatus
departed as_revoked = member_revoked
departed as_left = member_left

with_status-KeepsValid :
    (p a : String) (d : Departure)
    → Respects KeepsValid (
        modify λ db. record db {
          project_members = update (member_at p a) (with_status (departed d)) db.project_members;
        })
with_status-KeepsValid p a as_revoked =
    updated-KeepsValid (member_at p a) (with_status member_revoked) (λ m. refl) (λ m. refl)
      (λ m e k. ground arith)
with_status-KeepsValid p a as_left =
    updated-KeepsValid (member_at p a) (with_status member_left) (λ m. refl) (λ m. refl)
      (λ m e k. ground arith)

set_status-KeepsValid :
    (p a : String) (d : Departure) → Respects KeepsValid (set_status p a (departed d))
unfolding set_status
set_status-KeepsValid p a d = search (valid_rules, with_status-KeepsValid) depth 12

with_role-KeepsValid :
    (p a : String) (role : Role)
    → Respects KeepsValid (
        modify λ db. record db {
          project_members =
              update
                (λ m. member_at p a m && is_active m.status)
                (λ m. record m { role = role })
                db.project_members;
        })
with_role-KeepsValid p a role =
    updated-KeepsValid (λ m. member_at p a m && is_active m.status) (λ m. record m { role = role })
      (λ m. refl) (λ m. refl) (λ m e k. ground arith)

set_role-KeepsValid : (p a : String) (role : Role) → Respects KeepsValid (set_role p a role)
unfolding set_role
set_role-KeepsValid p a role = search (valid_rules, with_role-KeepsValid) depth 14

-- A call with its arguments: project, agent, then the rest.
pub data Call : Type 0 where
  call_invite : String → String → String → InviteRequest → ℕ → Call
  call_decide : String → String → Bool → ℕ → Call
  call_remove : String → String → Departure → Call
  call_set_role : String → String → Role → Call

unfoldable pub exec : Call → Db → Db
exec (call_invite p a by req now) db = (invite p a by req now db).1
exec (call_decide p a accept now) db = (decide p a accept now db).1
exec (call_remove p a d) db = (set_status p a (departed d) db).1
exec (call_set_role p a role) db = (set_role p a role db).1

unfoldable pub run : List Call → Db → Db
unfolding exec
run [] db = db
run (c ∷ cs) db = run cs (exec c db)

exec-MembersValid : (c : Call) (db : Db) → MembersValid db → MembersValid (exec c db)
unfolding exec
exec-MembersValid (call_invite p a by req now) db v = (invite-KeepsValid p a by req now).at db v
exec-MembersValid (call_decide p a accept now) db v = (decide-KeepsValid p a accept now).at db v
exec-MembersValid (call_remove p a d) db v = (set_status-KeepsValid p a d).at db v
exec-MembersValid (call_set_role p a role) db v = (set_role-KeepsValid p a role).at db v

-- Whatever membership operation is called, in whatever order, there stays one membership for a
-- project and an agent, and no pending or reviewer's membership has a coordinator's role.
pub run-MembersValid : (cs : List Call) (db : Db) → MembersValid db → MembersValid (run cs db)
unfolding run
run-MembersValid [] db v = v
run-MembersValid (c ∷ cs) db v = run-MembersValid cs (exec c db) (exec-MembersValid c db v)
