-- ===== src/Members/Access.antt =====
-- Lemmas on Invite, Decide, SetStatus and CanRead of internal/store/membership.go.
use self_organizing_multi_ag.Base.{
  opt_is-some, ℕ, String, ◌≡◌, ◌↔◌, ◌⊎◌, refl, Bool, true, ◌&&◌, none, some, List, [], ◌∷◌, any,
  arith, ◌==◌, eq_iff, eq_refl, opt_is, if◌then◌else◌, Option-cases, Bool-cases, inl, inr,
}
use self_organizing_multi_ag.Errors.{ok, err, not_found}
use self_organizing_multi_ag.Db.{
  Db, Project, Membership, MemberStatus, member_invited, member_active, member_revoked, member_left,
  member_reviewer, ◌>>=◌,
}
use self_organizing_multi_ag.Table.{first, find, update, delete, IsKeyed}
use self_organizing_multi_ag.Table.Keyed.{first_holds}
use self_organizing_multi_ag.Table.Rows.{update-affected, affected-first}
use self_organizing_multi_ag.Scope.{
  in_open_project, visible_member, visible, reviews, is_reviewer, unexpired,
}
use self_organizing_multi_ag.Members.{
  member_at, member, get_member, InviteRequest, invitation, invite, upsert, admitted, declined,
  decide, admit, decline, joined, not_pending, is_invited, with_status, set_status, project_key,
  can_read,
}
use self_organizing_multi_ag.Members.Rows.{
  PairKeyed, member-update, member-upsert, active_in-member, in_open_project-find,
}

abbrev pub with_members : (List Membership → List Membership) → Db → Db
with_members f db = record db { project_members = f db.project_members }

abbrev pub invited_db : Membership → Db → Db
invited_db m db = with_members (upsert m) db

-- The agent is a reviewer of the task in some project, and its term is not over.
abbrev pub Granted : String → ℕ → String → List Membership → Type 0
Granted a now task [] = ⊥
Granted a now task (m ∷ t) =
    ((m.agent_id ≡ a)
      × (m.status ≡ member_reviewer)
      × (m.scope ≡ some task)
      × (unexpired m.expires_at now ≡ true))
    ⊎ Granted a now task t

reviewer_only : (s : MemberStatus) → is_reviewer s ≡ true → s ≡ member_reviewer
reviewer_only member_invited h = cc
reviewer_only member_active h = cc
reviewer_only member_revoked h = cc
reviewer_only member_left h = cc
reviewer_only member_reviewer h = refl

-- `reviews`, on the rows.
abbrev pub reviewing : String → ℕ → String → Membership → Bool
reviewing a now task m =
    m.agent_id == a && is_reviewer m.status && opt_is m.scope task && unexpired m.expires_at now

module _ (a : String) (now : ℕ) (task : String) where
  row-Granted :
      (m : Membership)
      → reviewing a now task m ≡ true
      → (m.agent_id ≡ a)
        × (m.status ≡ member_reviewer)
        × (m.scope ≡ some task)
        × (unexpired m.expires_at now ≡ true)
  row-Granted m h = (
    (eq_iff m.agent_id a).0 (ground arith),
    reviewer_only m.status (ground arith),
    opt_is-some m.scope task (ground arith),
    ground arith,
  )

  reviews-Granted :
      (t : List Membership) → any (reviewing a now task) t ≡ true → Granted a now task t
  reviews-Granted [] h = cc
  reviews-Granted (m ∷ t) h = elim (Bool-cases (reviewing a now task m)) [
    | inl here ↦ inl (row-Granted m here)
    | inr not_here ↦ inr (reviews-Granted t (ground arith))
  ]

  Granted-reviews :
      (t : List Membership) → Granted a now task t → any (reviewing a now task) t ≡ true
  Granted-reviews [] h = absurd h
  Granted-reviews (m ∷ t) (inl (agent, status, scope, live)) =
      rw (agent, status, scope, live) (ground (arith, eq_refl a, eq_refl task))
  Granted-reviews (m ∷ t) (inr rest) = ground (arith, Granted-reviews t rest)

module _ (p a : String) where
  member_key : (m : Membership) (db : Db) → member p a db ≡ some m → member_at p a m ≡ true
  unfolding member
  member_key m db e = first_holds (member_at p a) m db.project_members e

  -- An invitation that succeeds returns and leaves the new row.
  pub invite_ok :
      (by : String) (req : InviteRequest) (now : ℕ) (db : Db) (m : Membership)
      → (invite p a by req now db).0 ≡ ok m
      → (m ≡ invitation p a by req now)
        × ((invite p a by req now db).1 ≡ invited_db (invitation p a by req now) db)
  unfolding invite get_member member ◌>>=◌
  invite_ok by req now db m h =
      ground (arith, member-upsert (invitation p a by req now) db.project_members)

  -- `Decide`, on every branch.
  pub decide_lem :
      (accept : Bool) (now : ℕ) (db : Db)
      → decide p a accept now db ≡ elim (member p a db) [
        | none ↦ (err (not_found "no membership record"), db)
        | some m ↦
            if is_invited m.status
            then if accept
              then (
                ok (admitted (joined now m)),
                with_members (update (member_at p a) (joined now)) db,
              )
              else (ok (declined p a), with_members (delete (member_at p a)) db)
            else (err (not_pending m), db)
      ]
  unfolding decide admit decline get_member member ◌>>=◌
  decide_lem accept now db = elim (Option-cases (first (member_at p a) db.project_members)) [
    | inl absent ↦ ground arith
    | inr (m, e) ↦ ground (
      arith,
      first_holds (member_at p a) m db.project_members e,
      member-update (member_at p a) (joined now) (λ x. refl) (λ x. refl) p a db.project_members,
    )
  ]

  -- `SetStatus`, on every branch.
  pub set_status_lem :
      (s : MemberStatus) (db : Db)
      → set_status p a s db ≡ elim (member p a db) [
        | none ↦ (err (not_found "no membership record"), db)
        | some m ↦ (ok (with_status s m), with_members (update (member_at p a) (with_status s)) db)
      ]
  unfolding set_status get_member member ◌>>=◌
  set_status_lem s db = elim (Option-cases (first (member_at p a) db.project_members)) [
    | inl absent ↦ ground (
      arith,
      affected-first (member_at p a) db.project_members,
      update-affected (member_at p a) (with_status s) db.project_members,
    )
    | inr (m, e) ↦ ground (
      arith,
      affected-first (member_at p a) db.project_members,
      first_holds (member_at p a) m db.project_members e,
      member-update (member_at p a) (with_status s) (λ x. refl) (λ x. refl) p a db.project_members,
    )
  ]

  -- `CanRead` writes nothing, and says of a project that there is what the scope rule of the
  -- record queries says of the project's records without a task; a record of a task is seen
  -- besides by an agent that is a reviewer of this task, in whatever project, for a time that is
  -- not over, and by nobody else. The ids of the projects are unique, and so is a membership's
  -- project and agent.
  pub can_read-visible :
      (now : ℕ) (task : String) (db : Db) (r : Project)
      → IsKeyed project_key db.projects
      → PairKeyed db.project_members
      → find project_key p db.projects ≡ some r
      → (reads : Bool) × (can_read p a db ≡ (ok reads, db))
        × (visible db a now (some p) none ≡ reads)
        × ((visible db a now (some p) (some task) ≡ true)
            ↔ ((reads ≡ true) ⊎ Granted a now task db.project_members))
  unfolding can_read visible visible_member in_open_project reviews ◌>>=◌
  can_read-visible now task db r k pk e = (
    visible_member db a (some p),
    ground (arith, in_open_project-find p db.projects k, active_in-member db a p pk),
    refl,
    (
      λ h. elim (Bool-cases (visible_member db a (some p))) [
        | inl seen ↦ inl seen
        | inr hidden ↦ inr (reviews-Granted a now task db.project_members (ground arith))
      ],
      λ h. elim h [
        | inl seen ↦ ground arith
        | inr grant ↦ ground (arith, Granted-reviews a now task db.project_members grant)
      ],
    ),
  )
