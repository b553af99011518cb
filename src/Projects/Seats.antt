-- ===== src/Projects/Seats.antt =====
-- Lemmas on `Create` and `AcceptTransfer` of internal/store/projects.go, and the seats of the
-- owners.
use self_organizing_multi_ag.Base.{
  ℕ, String, ◌≡◌, refl, Bool, true, false, ◌&&◌, ◌||◌, Option, none, some, List, [], ◌∷◌, any,
  arith, ◌==◌, eq_refl, if◌then◌else◌, Option-cases, Bool-cases, inl, inr, opt_is,
}
use self_organizing_multi_ag.Errors.{ok, err, not_found, conflict}
use self_organizing_multi_ag.Db.{Db, Project, Membership, member_active, ◌>>=◌}
use self_organizing_multi_ag.Table.{first, find, find-key, insert, IsKeyed}
use self_organizing_multi_ag.Table.Keyed.{find-update, IsKeyed-update, first_holds}
use self_organizing_multi_ag.Table.Rows.{first-insert}
use self_organizing_multi_ag.Scope.{is_open, is_active, in_open_project, active_in, visible_member}
use self_organizing_multi_ag.Members.{member_at, member, project_key, active_standing}
use self_organizing_multi_ag.Members.Rows.{
  PairKeyed, PairKeyed-update, PairKeyed-insert, member-update, active_in-member,
  in_open_project-find,
}
use self_organizing_multi_ag.Projects.{
  CreateProjectRequest, new_project, owner_seat, get_project, insert_project, create_project,
  owned_by, keep_seat, accept_transfer,
}
use self_organizing_multi_ag.Projects.Ownership.{
  handed_over, hand_over_absent, hand_over_refused, hand_over_agreed,
}

abbrev reactivated : Membership → Membership
reactivated m = record m { status = member_active }

-- The seat that is kept is an active one, and the only one.
keep_seat-active :
    (p a : String) (now : ℕ) (t : List Membership)
    → active_standing (first (member_at p a) (keep_seat p a now t)) ≡ true
unfolding keep_seat
keep_seat-active p a now t = elim (Option-cases (first (member_at p a) t)) [
  | inl absent ↦
      ground (arith, first-insert (member_at p a) (owner_seat p a now) t, eq_refl p, eq_refl a)
  | inr (m, e) ↦ ground (
    arith,
    first_holds (member_at p a) m t e,
    member-update (member_at p a) reactivated (λ x. refl) (λ x. refl) p a t,
  )
]

PairKeyed-keep_seat :
    (p a : String) (now : ℕ) (t : List Membership) → PairKeyed t → PairKeyed (keep_seat p a now t)
unfolding keep_seat
PairKeyed-keep_seat p a now t k = elim (Option-cases (first (member_at p a) t)) [
  | inl absent ↦ rw absent (PairKeyed-insert (owner_seat p a now) t k absent)
  | inr (m, e) ↦ rw e (PairKeyed-update (member_at p a) reactivated (λ x. refl) (λ x. refl) t k)
]

module _ (p new_owner : String) (now : ℕ) (db : Db) (q : Project)
    (e : find project_key p db.projects ≡ some q) where
  moved_row :
      find project_key p (handed_over p new_owner now q db).projects ≡ some (owned_by new_owner q)
  moved_row = ground (
    arith,
    find-key project_key p q db.projects e,
    eq_refl p,
    find-update project_key (λ (x : Project). x.project_id == p) (owned_by new_owner) (λ x. refl) p
        db.projects,
  )

  agreed_transfer :
      opt_is q.pending_owner new_owner ≡ true
      → accept_transfer p new_owner now db
        ≡ (ok (owned_by new_owner q), handed_over p new_owner now q db)
  unfolding accept_transfer get_project ◌>>=◌
  agreed_transfer agreed = rw (hand_over_agreed p new_owner now db q e agreed, moved_row) refl

  refused_transfer :
      opt_is q.pending_owner new_owner ≡ false
      → accept_transfer p new_owner now db
        ≡ (err (conflict "no transfer is pending for this agent"), db)
  unfolding accept_transfer get_project ◌>>=◌
  refused_transfer other = rw (hand_over_refused p new_owner now db q e other) refl

  -- The outgoing owner still sees the project's records.
  stays :
      IsKeyed project_key db.projects
      → PairKeyed db.project_members
      → visible_member (handed_over p new_owner now q db) q.owner (some p) ≡ true
  unfolding visible_member in_open_project member
  stays k pk =
      let k' =
        IsKeyed-update project_key (λ (x : Project). x.project_id == p) (owned_by new_owner)
          (λ x. refl) db.projects k in
      let projects' = (handed_over p new_owner now q db).projects in
      elim (Bool-cases (is_open q.visibility)) [
        | inl shared ↦ ground (arith, in_open_project-find p projects' k', moved_row)
        | inr closed ↦
            let db' = handed_over p new_owner now q db in
            let pk' : PairKeyed db'.project_members =
              rw closed (PairKeyed-keep_seat p q.owner now db.project_members pk) in
            ground (
              arith,
              active_in-member db' q.owner p pk',
              keep_seat-active p q.owner now db.project_members,
            )
      ]

absent_transfer :
    (p new_owner : String) (now : ℕ) (db : Db)
    → find project_key p db.projects ≡ none
    → accept_transfer p new_owner now db ≡ (err (not_found "project not found"), db)
unfolding accept_transfer get_project ◌>>=◌
absent_transfer p new_owner now db e = rw (hand_over_absent p new_owner now db e) refl

-- What `AcceptTransfer` does, on the project's row before it.
abbrev pub Transferred : String → String → ℕ → Db → Option Project → Type 0
Transferred p new_owner now db none =
    accept_transfer p new_owner now db ≡ (err (not_found "project not found"), db)
Transferred p new_owner now db (some q) =
    if opt_is q.pending_owner new_owner
    then ((accept_transfer p new_owner now db).0 ≡ ok (owned_by new_owner q))
      × (find project_key p (accept_transfer p new_owner now db).1.projects
          ≡ some (owned_by new_owner q))
      × ((owned_by new_owner q).owner ≡ new_owner)
      × ((owned_by new_owner q).pending_owner ≡ none)
      × (visible_member (accept_transfer p new_owner now db).1 q.owner (some p) ≡ true)
    else accept_transfer p new_owner now db
      ≡ (err (conflict "no transfer is pending for this agent"), db)

-- `AcceptTransfer` fails without a trace unless the project is there and the agent is its nominee;
-- then the agent owns it, no nomination is left, and the previous owner still sees its records.
-- The ids of the projects are unique, and so is a membership's project and agent.
pub accept_transfer_lem :
    (p new_owner : String) (now : ℕ) (db : Db)
    → IsKeyed project_key db.projects
    → PairKeyed db.project_members
    → Transferred p new_owner now db (find project_key p db.projects)
accept_transfer_lem p new_owner now db k pk = elim (Option-cases (find project_key p db.projects)) [
  | inl absent ↦ rw absent (absent_transfer p new_owner now db absent)
  | inr (q, e) ↦ elim (Bool-cases (opt_is q.pending_owner new_owner)) [
    | inl agreed ↦
        rw (e, agreed, agreed_transfer p new_owner now db q e agreed)
          (refl, moved_row p new_owner now db q e, refl, refl, stays p new_owner now db q e k pk)
    | inr other ↦ rw (e, other) (refused_transfer p new_owner now db q e other)
  ]
]

any-insert :
    {R : Type 0} (p : R → Bool) (r : R) (t : List R) → any p (insert r t) ≡ (any p t || p r)
unfolding insert
any-insert p r [] = ground arith
any-insert p r (x ∷ t) = ground (arith, any-insert p r t)

-- The owner of a new project sees its records, open or closed.
created_owner_reads :
    (fresh owner : String) (req : CreateProjectRequest) (now : ℕ) (db : Db)
    → visible_member (create_project fresh owner req now db).1 owner (some fresh) ≡ true
unfolding visible_member in_open_project active_in create_project insert_project get_project ◌>>=◌
created_owner_reads fresh owner req now db =
    let p = new_project fresh owner req now in
    elim (Bool-cases (is_open p.visibility)) [
      | inl shared ↦ ground (
        arith,
        any-insert (λ (r : Project). r.project_id == fresh && is_open r.visibility) p db.projects,
        eq_refl fresh,
      )
      | inr closed ↦ ground (
        arith,
        any-insert
            (λ (m : Membership). m.project_id == fresh && m.agent_id == owner && is_active m.status)
            (owner_seat fresh owner now) db.project_members,
        eq_refl fresh,
        eq_refl owner,
      )
    ]
