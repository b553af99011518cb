-- ===== src/Projects/Ownership.antt =====
-- Lemmas on the owner of a project under the operations of internal/store/projects.go.
use self_organizing_multi_ag.Base.{
  opt_is-some, ℕ, String, ◌≡◌, ◌⊎◌, refl, Bool, true, false, not, ◌&&◌, none, some, arith, ◌==◌,
  eq_iff, eq_refl, if◌then◌else◌, Option-cases, Bool-cases, inl, inr, opt_is,
}
use self_organizing_multi_ag.Errors.{ok, err, not_found, conflict}
use self_organizing_multi_ag.Db.{Db, Project, ◌>>=◌}
use self_organizing_multi_ag.Table.{find, find-key, update, holds}
use self_organizing_multi_ag.Table.Keyed.{find-update, find-insert}
use self_organizing_multi_ag.Scope.{is_open}
use self_organizing_multi_ag.Queue.{is_project_active}
use self_organizing_multi_ag.Members.{project_key}
use self_organizing_multi_ag.Projects.{
  CreateProjectRequest, new_project, get_project, insert_project, create_project, nominated,
  nominate, owned_by, keep_seat, hand_over, accept_transfer, cancel_transfer, archived, succeed,
}

-- A call with its arguments.
pub data Call : Type 0 where
  call_create : String → String → CreateProjectRequest → ℕ → Call
  call_nominate : String → String → ℕ → Call
  call_accept : String → String → ℕ → Call
  call_cancel : String → Call
  call_succeed : String → String → Call

unfoldable pub exec : Call → Db → Db
exec (call_create fresh owner req now) db = (create_project fresh owner req now db).1
exec (call_nominate p new_owner now) db = (nominate p new_owner now db).1
exec (call_accept p new_owner now) db = (accept_transfer p new_owner now db).1
exec (call_cancel p) db = (cancel_transfer p db).1
exec (call_succeed p successor) db = (succeed p successor db).1

-- The call is the succession of the project by the agent.
abbrev pub succeeds : Call → String → String → Bool
succeeds (call_succeed p successor) k agent = p == k && successor == agent
succeeds _ k agent = false

-- How the owner may move from one row of a project to the next.
abbrev pub Moves : Call → String → Project → Project → Type 0
Moves c k r s =
    (s.owner ≡ r.owner) ⊎ ((r.pending_owner ≡ some s.owner) ⊎ (succeeds c k s.owner ≡ true))

-- The database after a transfer.
abbrev pub handed_over : String → String → ℕ → Project → Db → Db
handed_over p new_owner now q db = record db {
  projects = update (λ (x : Project). x.project_id == p) (owned_by new_owner) db.projects;
  project_members =
      if is_open q.visibility
      then db.project_members
      else keep_seat p q.owner now db.project_members;
}

module _ (p new_owner : String) (now : ℕ) (db : Db) where
  pub hand_over_absent :
      find project_key p db.projects ≡ none
      → hand_over p new_owner now db ≡ (err (not_found "project not found"), db)
  unfolding hand_over ◌>>=◌
  hand_over_absent e = rw e refl

  pub hand_over_refused :
      (q : Project)
      → find project_key p db.projects ≡ some q
      → opt_is q.pending_owner new_owner ≡ false
      → hand_over p new_owner now db ≡ (err (conflict "no transfer is pending for this agent"), db)
  unfolding hand_over ◌>>=◌
  hand_over_refused q e other = rw (e, other) refl

  seated :
      (b : Bool) (q : Project)
      → is_open q.visibility ≡ b
      → find project_key p db.projects ≡ some q
      → opt_is q.pending_owner new_owner ≡ true
      → hand_over p new_owner now db ≡ (ok tt, handed_over p new_owner now q db)
  unfolding hand_over ◌>>=◌
  seated true q v e agreed = rw (e, agreed, v) refl
  seated false q v e agreed = rw (e, agreed, v) refl

  pub hand_over_agreed :
      (q : Project)
      → find project_key p db.projects ≡ some q
      → opt_is q.pending_owner new_owner ≡ true
      → hand_over p new_owner now db ≡ (ok tt, handed_over p new_owner now q db)
  hand_over_agreed q e agreed = seated (is_open q.visibility) q refl e agreed

-- The project table after `AcceptTransfer`.
accept_transfer-projects :
    (p new_owner : String) (now : ℕ) (db : Db)
    → (accept_transfer p new_owner now db).1.projects ≡ (
        if holds
          (λ (q : Project). opt_is q.pending_owner new_owner)
          (find project_key p db.projects)
        then update (λ (x : Project). x.project_id == p) (owned_by new_owner) db.projects
        else db.projects)
unfolding accept_transfer get_project ◌>>=◌
accept_transfer-projects p new_owner now db = elim (Option-cases (find project_key p db.projects)) [
  | inl absent ↦ ground (arith, hand_over_absent p new_owner now db absent)
  | inr (q, found) ↦ elim (Bool-cases (opt_is q.pending_owner new_owner)) [
    | inl pending ↦ ground (arith, hand_over_agreed p new_owner now db q found pending)
    | inr other ↦ ground (arith, hand_over_refused p new_owner now db q found other)
  ]
]

module _ (db : Db) (k : String) (r : Project) (e : find project_key k db.projects ≡ some r) where
  pub created :
      (fresh owner : String) (req : CreateProjectRequest) (now : ℕ)
      → find project_key k (create_project fresh owner req now db).1.projects ≡ some r
  unfolding create_project insert_project get_project ◌>>=◌
  created fresh owner req now =
      ground (arith, find-insert project_key k (new_project fresh owner req now) db.projects)

  pub put_forward :
      (p new_owner : String) (now : ℕ)
      → find project_key k (nominate p new_owner now db).1.projects
        ≡ some (if p == k && is_project_active r.status then nominated new_owner now r else r)
  unfolding nominate get_project ◌>>=◌
  put_forward p new_owner now = ground (
    arith,
    find-key project_key k r db.projects e,
    eq_iff p k,
    eq_iff r.project_id p,
    find-update project_key (λ (x : Project). x.project_id == p && is_project_active x.status)
        (nominated new_owner now) (λ x. refl) k db.projects,
  )

  pub settled_transfer :
      (p new_owner : String) (now : ℕ)
      → find project_key k (accept_transfer p new_owner now db).1.projects
        ≡ some (if p == k && opt_is r.pending_owner new_owner then owned_by new_owner r else r)
  settled_transfer p new_owner now = elim (Bool-cases (p == k)) [
    | inl same ↦ ground (
      arith,
      accept_transfer-projects p new_owner now db,
      find-key project_key k r db.projects e,
      eq_iff p k,
      find-update project_key (λ (x : Project). x.project_id == p) (owned_by new_owner) (λ x. refl)
          k db.projects,
    )
    | inr other ↦ ground (
      arith,
      accept_transfer-projects p new_owner now db,
      find-key project_key k r db.projects e,
      eq_iff p k,
      eq_iff r.project_id p,
      find-update project_key (λ (x : Project). x.project_id == p) (owned_by new_owner) (λ x. refl)
          k db.projects,
    )
  ]

  pub withdrawn :
      (p : String)
      → find project_key k (cancel_transfer p db).1.projects
        ≡ some (if p == k then record r { pending_owner = none; pending_owner_at = none } else r)
  unfolding cancel_transfer get_project ◌>>=◌
  withdrawn p = ground (
    arith,
    find-key project_key k r db.projects e,
    eq_iff p k,
    eq_iff r.project_id p,
    find-update project_key (λ (x : Project). x.project_id == p)
        (λ x. record x { pending_owner = none; pending_owner_at = none }) (λ x. refl) k db.projects,
  )

  pub succeeded :
      (p successor : String)
      → find project_key k (succeed p successor db).1.projects
        ≡ some
            (if p == k then (if successor == "" then archived r else owned_by successor r) else r)
  unfolding succeed get_project ◌>>=◌
  succeeded p successor = ground (
    arith,
    find-key project_key k r db.projects e,
    eq_iff p k,
    eq_iff r.project_id p,
    find-update project_key (λ (x : Project). x.project_id == p) archived (λ x. refl) k db.projects,
    find-update project_key (λ (x : Project). x.project_id == p) (owned_by successor) (λ x. refl) k
        db.projects,
  )

  -- After any call of the project operations a project is still there, and its owner is the one it
  -- had, or the nominee whose acceptance was pending, or the successor that the call names for it.
  pub exec-Moves :
      (c : Call)
      → (s : Project) × (find project_key k (exec c db).projects ≡ some s) × Moves c k r s
  unfolding exec
  exec-Moves (call_create fresh owner req now) = (r, created fresh owner req now, inl refl)
  exec-Moves (call_nominate p new_owner now) = (_, put_forward p new_owner now, inl (ground arith))
  exec-Moves (call_accept p new_owner now) = (
    _,
    settled_transfer p new_owner now,
    elim (Bool-cases (p == k && opt_is r.pending_owner new_owner)) [
      | inl agreed ↦ inr (inl (ground (arith, opt_is-some r.pending_owner new_owner)))
      | inr not_agreed ↦ inl (ground arith)
    ],
  )
  exec-Moves (call_cancel p) = (_, withdrawn p, inl (ground arith))
  exec-Moves (call_succeed p successor) = (
    _,
    succeeded p successor,
    elim (Bool-cases (p == k && not (successor == ""))) [
      | inl named ↦ inr (inr (ground (arith, eq_refl successor)))
      | inr kept ↦ inl (ground arith)
    ],
  )
