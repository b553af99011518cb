-- ===== src/Members/Outcome.antt =====
-- Lemmas on what an agent may read and administer after Decide and SetStatus of
-- internal/store/membership.go.
use self_organizing_multi_ag.Base.{
  ℕ, String, ◌≡◌, ◌≢◌, refl, sym, subst, ap, ◌∙◌, Bool, true, false, not, ◌&&◌, none, some, List,
  [], ◌∷◌, any, ◌==◌, arith, eq_iff, Option-cases, Bool-cases, inl, inr,
}
use self_organizing_multi_ag.Errors.{ok}
use self_organizing_multi_ag.Db.{Db, Project, project_closed, Membership, MemberStatus}
use self_organizing_multi_ag.Table.{first, find, update, IsKeyed}
use self_organizing_multi_ag.Table.Keyed.{first_holds}
use self_organizing_multi_ag.Table.Rows.{All-first}
use self_organizing_multi_ag.Scope.{is_active, in_open_project, visible_member, visible, reviews}
use self_organizing_multi_ag.Members.{
  member_at, member, Decided, decide, joined, is_invited, with_status, set_status,
  active_coordinator, project_key, can_administer,
}
use self_organizing_multi_ag.Members.Rows.{
  PairKeyed, PairKeyed-update, member-update, active_in-member, in_open_project-find,
}
use self_organizing_multi_ag.Members.Access.{decide_lem, set_status_lem, with_members, reviewing}
use self_organizing_multi_ag.Members.Authority.{RoleFits, MembersValid}

module _ (p a : String) where
  -- An acceptance that succeeds was pending, and leaves the row active.
  accepted :
      (now : ℕ) (db : Db) (d : Decided)
      → (decide p a true now db).0 ≡ ok d
      → (m : Membership) × (member p a db ≡ some m)
        × (is_invited m.status ≡ true)
        × ((decide p a true now db).1 ≡ with_members (update (member_at p a) (joined now)) db)
        × (member p a (decide p a true now db).1 ≡ some (joined now m))
  unfolding member
  accepted now db d h = elim (Option-cases (member p a db)) [
    | inl absent ↦ absurd (ground (arith, decide_lem p a true now db))
    | inr (m, e) ↦ elim (Bool-cases (is_invited m.status)) [
      | inr settled ↦ absurd (ground (arith, decide_lem p a true now db))
      | inl pending ↦ (
        m,
        e,
        pending,
        ground (arith, decide_lem p a true now db),
        ground (
          arith,
          decide_lem p a true now db,
          first_holds (member_at p a) m db.project_members e,
          member-update (member_at p a) (joined now) (λ x. refl) (λ x. refl) p a db.project_members,
        ),
      )
    ]
  ]

  -- Once an invitation or an application is accepted, the agent sees the project's records. There
  -- is one membership for a project and an agent.
  accepted_reads :
      (now : ℕ) (db : Db) (d : Decided)
      → PairKeyed db.project_members
      → (decide p a true now db).0 ≡ ok d
      → visible_member (decide p a true now db).1 a (some p) ≡ true
  unfolding visible_member
  accepted_reads now db d k h =
      let (m, e, pending, after, row) = accepted now db d h in
      let k' =
        PairKeyed-update (member_at p a) (joined now) (λ x. refl) (λ x. refl) db.project_members
          k in
      let kept = subst (λ d. PairKeyed d.project_members) (sym after) k' in
      ground (arith, row, active_in-member (decide p a true now db).1 a p kept)

  -- Who joins by accepting administers nothing, even a former coordinator: unless the agent owns
  -- the project, it takes a promotion first. The memberships are valid before.
  pub joined_no_authority :
      (now : ℕ) (db : Db) (d : Decided) (project : Project)
      → MembersValid db
      → (decide p a true now db).0 ≡ ok d
      → project.project_id ≡ p
      → project.owner ≢ a
      → can_administer project a (decide p a true now db).1 ≡ false
  unfolding can_administer member
  joined_no_authority now db d project v h same other =
      let (m, e, pending, after, row) = accepted now db d h in
      let fits = All-first RoleFits (member_at p a) m db.project_members v.roles e in
      let standing : active_coordinator (member p a (decide p a true now db).1) ≡ false =
        ground arith in
      rw same (ground (arith, standing, eq_iff project.owner a))

  -- The agent is a reviewer of the task, for a time that is not over, in another project.
  abbrev pub reviewing_elsewhere : ℕ → String → Membership → Bool
  reviewing_elsewhere at_time task m = not (m.project_id == p) && reviewing a at_time task m

  removed_rows :
      (s : MemberStatus) (db : Db) (m : Membership)
      → (set_status p a s db).0 ≡ ok m
      → (set_status p a s db).1 ≡ with_members (update (member_at p a) (with_status s)) db
  unfolding member
  removed_rows s db m h = elim (Option-cases (first (member_at p a) db.project_members)) [
    | inl absent ↦ absurd (ground (arith, set_status_lem p a s db))
    | inr (old, found) ↦ ground (arith, set_status_lem p a s db)
  ]

  -- Its membership no longer shows it the project.
  removed_unseen :
      (s : MemberStatus) (db : Db) (r : Project) (m : Membership)
      → IsKeyed project_key db.projects
      → PairKeyed db.project_members
      → find project_key p db.projects ≡ some r
      → r.visibility ≡ project_closed
      → is_active s ≡ false
      → (set_status p a s db).0 ≡ ok m
      → visible_member (set_status p a s db).1 a (some p) ≡ false
  unfolding visible_member in_open_project member
  removed_unseen s db r m k pk e closed ends h =
      elim (Option-cases (first (member_at p a) db.project_members)) [
        | inl absent ↦ absurd (ground (arith, set_status_lem p a s db))
        | inr (old, found) ↦
            let db' = with_members (update (member_at p a) (with_status s)) db in
            let after : (set_status p a s db).1 ≡ db' = removed_rows s db m h in
            let k' =
              PairKeyed-update (member_at p a) (with_status s) (λ x. refl) (λ x. refl)
                db.project_members pk in
            rw after (
              ground (
                arith,
                first_holds (member_at p a) old db.project_members found,
                member-update (member_at p a) (with_status s) (λ x. refl) (λ x. refl) p a
                    db.project_members,
                active_in-member db' a p k',
                in_open_project-find p db.projects k,
              ))
      ]

  -- No row of the project itself makes it a reviewer any more.
  reviews_removed :
      (s : MemberStatus) (at_time : ℕ) (task : String) (t : List Membership)
      → any (reviewing a at_time task) (update (member_at p a) (with_status s) t)
        ≡ any (reviewing_elsewhere at_time task) t
  unfolding update
  reviews_removed s at_time task [] = refl
  reviews_removed s at_time task (m ∷ t) = ground (arith, reviews_removed s at_time task t)

  -- Once a member of a closed project is removed or leaves, it sees none of the project's records
  -- without a task, and of those of a task only what another project lets it review: a reviewer's
  -- row there, for this task, whose time is not over. The ids of the projects are unique, and
  -- there is one membership for a project and an agent.
  pub removed_reads_nothing :
      (s : MemberStatus) (at_time : ℕ) (task : String) (db : Db) (r : Project) (m : Membership)
      → IsKeyed project_key db.projects
      → PairKeyed db.project_members
      → find project_key p db.projects ≡ some r
      → r.visibility ≡ project_closed
      → is_active s ≡ false
      → (set_status p a s db).0 ≡ ok m
      → (visible (set_status p a s db).1 a at_time (some p) none ≡ false)
        × (visible (set_status p a s db).1 a at_time (some p) (some task)
            ≡ any (reviewing_elsewhere at_time task) db.project_members)
  unfolding visible reviews
  removed_reads_nothing s at_time task db r m k pk e closed ends h =
      let unseen = removed_unseen s db r m k pk e closed ends h in
      (
        unseen,
        rw unseen (
            ap (λ d. any (reviewing a at_time task) d.project_members) (removed_rows s db m h)
            ∙ reviews_removed s at_time task db.project_members),
      )
