-- ===== src/Members/Rows.antt =====
-- The membership table read by project and agent, after each statement.
use self_organizing_multi_ag.Base.{
  String, ◌≡◌, refl, Bool, false, ◌&&◌, none, some, List, [], ◌∷◌, arith, ◌==◌, eq_iff, eq_refl,
  any, Option-cases, inl, inr,
}
use self_organizing_multi_ag.Db.{Db, Project, Membership}
use self_organizing_multi_ag.Table.{
  first, find, update, delete, insert, map_row, when, holds, IsKeyed,
}
use self_organizing_multi_ag.Table.Rows.{first-update, first-insert}
use self_organizing_multi_ag.Table.Keyed.{first_holds}
use self_organizing_multi_ag.Scope.{is_open, is_active, active_in}
use self_organizing_multi_ag.Members.{
  member_at, member, upsert, overwritten, active_standing, project_key,
}

-- The primary key: one row for a project and an agent.
abbrev pub PairKeyed : List Membership → Type 0
PairKeyed [] = Unit
PairKeyed (m ∷ t) = (first (member_at m.project_id m.agent_id) t ≡ none) × PairKeyed t

module _ (q : Membership → Bool) (f : Membership → Membership)
    (same_project : (m : Membership) → (f m).project_id ≡ m.project_id)
    (same_agent : (m : Membership) → (f m).agent_id ≡ m.agent_id) where
  -- An update that keeps the keys, read at a key.
  pub member-update :
      (p a : String) (t : List Membership)
      → first (member_at p a) (update q f t) ≡ map_row (when q f) (first (member_at p a) t)
  member-update p a t =
      first-update (member_at p a) q f (λ m. ground (arith, same_project m, same_agent m)) t

  pub PairKeyed-update : (t : List Membership) → PairKeyed t → PairKeyed (update q f t)
  unfolding update
  PairKeyed-update [] k = tt
  PairKeyed-update (m ∷ t) k = ground (
    arith,
    same_project m,
    same_agent m,
    member-update m.project_id m.agent_id t,
    PairKeyed-update t k.1,
  )

pub PairKeyed-insert :
    (m : Membership) (t : List Membership)
    → PairKeyed t
    → first (member_at m.project_id m.agent_id) t ≡ none
    → PairKeyed (insert m t)
unfolding first insert
PairKeyed-insert m [] k n = (refl, tt)
PairKeyed-insert m (x ∷ t) k n = ground (
  arith,
  first-insert (member_at x.project_id x.agent_id) m t,
  PairKeyed-insert m t k.1,
  eq_iff m.project_id x.project_id,
  eq_iff m.agent_id x.agent_id,
  eq_refl x.project_id,
  eq_refl x.agent_id,
)

absent-delete :
    (q : Membership → Bool) (p a : String) (t : List Membership)
    → first (member_at p a) t ≡ none
    → first (member_at p a) (delete q t) ≡ none
unfolding first delete
absent-delete q p a [] e = refl
absent-delete q p a (m ∷ t) e = ground (arith, absent-delete q p a t)

pub PairKeyed-delete :
    (q : Membership → Bool) (t : List Membership) → PairKeyed t → PairKeyed (delete q t)
unfolding delete
PairKeyed-delete q [] k = tt
PairKeyed-delete q (m ∷ t) k =
    ground (arith, PairKeyed-delete q t k.1, absent-delete q m.project_id m.agent_id t)

pub PairKeyed-upsert : (m : Membership) (t : List Membership) → PairKeyed t → PairKeyed (upsert m t)
unfolding upsert
PairKeyed-upsert m t k = ground (
  arith,
  PairKeyed-update (member_at m.project_id m.agent_id) (overwritten m) (λ r. refl) (λ r. refl) t k,
  PairKeyed-insert m t k,
)

-- What the written row's key reads: the row.
pub member-upsert :
    (m : Membership) (t : List Membership)
    → first (member_at m.project_id m.agent_id) (upsert m t) ≡ some m
unfolding upsert
member-upsert m t = elim (Option-cases (first (member_at m.project_id m.agent_id) t)) [
  | inl new ↦ ground (
    arith,
    first-insert (member_at m.project_id m.agent_id) m t,
    eq_refl m.project_id,
    eq_refl m.agent_id,
  )
  | inr (r, e) ↦ ground (
    arith,
    member-update (member_at m.project_id m.agent_id) (overwritten m) (λ x. refl) (λ x. refl)
        m.project_id m.agent_id t,
    first_holds (member_at m.project_id m.agent_id) r t e,
    eq_iff r.project_id m.project_id,
    eq_iff r.agent_id m.agent_id,
  )
]

absent_active :
    (p a : String) (t : List Membership)
    → first (member_at p a) t ≡ none
    → any (λ (m : Membership). m.project_id == p && m.agent_id == a && is_active m.status) t ≡ false
unfolding first
absent_active p a [] e = refl
absent_active p a (m ∷ t) e = ground (arith, absent_active p a t)

any_active :
    (p a : String) (t : List Membership)
    → PairKeyed t
    → any (λ (m : Membership). m.project_id == p && m.agent_id == a && is_active m.status) t
      ≡ active_standing (first (member_at p a) t)
unfolding first
any_active p a [] k = refl
any_active p a (m ∷ t) k =
    ground
      (arith, any_active p a t k.1, absent_active p a t, eq_iff m.project_id p, eq_iff m.agent_id a)

-- The scope rule's test of an active member is the row at the key.
pub active_in-member :
    (db : Db) (agent p : String)
    → PairKeyed db.project_members
    → active_in db agent p ≡ active_standing (member p agent db)
unfolding active_in member
active_in-member db agent p k = any_active p agent db.project_members k

absent_open :
    (p : String) (t : List Project)
    → find project_key p t ≡ none
    → any (λ (r : Project). r.project_id == p && is_open r.visibility) t ≡ false
unfolding find
absent_open p [] e = refl
absent_open p (r ∷ t) e = ground (arith, absent_open p t)

-- The scope rule's test of an open project is the project's row.
pub in_open_project-find :
    (p : String) (t : List Project)
    → IsKeyed project_key t
    → any (λ (r : Project). r.project_id == p && is_open r.visibility) t
      ≡ holds (λ r. is_open r.visibility) (find project_key p t)
unfolding find
in_open_project-find p [] k = refl
in_open_project-find p (r ∷ t) k =
    ground (arith, in_open_project-find p t k.1, absent_open p t, eq_iff r.project_id p)
