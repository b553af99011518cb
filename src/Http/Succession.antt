-- ===== src/Http/Succession.antt =====
-- Lemmas on the departure of an owner, of internal/httpapi/projects.go.
use self_organizing_multi_ag.Base.{
  String, ◌≡◌, ◌⊎◌, refl, sym, subst, ◌∙◌, ap, Bool, true, false, not, none, some, List, [], ◌∷◌,
  All, arith, ◌==◌, eq_refl, if◌then◌else◌, Bool-cases, Option-cases, inl, inr,
}
use self_organizing_multi_ag.Errors.{ok}
use self_organizing_multi_ag.Db.{
  Db, Project, project_archived, Membership, MemberStatus, member_left, ◌>>=◌,
}
use self_organizing_multi_ag.Db.Inversion.{>>=-ok, gets-bind, pure_lem}
use self_organizing_multi_ag.Table.{find, find-key, first}
use self_organizing_multi_ag.Table.Keyed.{find-update}
use self_organizing_multi_ag.Scope.{is_open}
use self_organizing_multi_ag.Members.{project_key, member, set_status, active_standing}
use self_organizing_multi_ag.Members.Access.{set_status_lem}
use self_organizing_multi_ag.Members.Roster.{coordinates, coordinators}
use self_organizing_multi_ag.Members.Roster.Eldest.{Eldest, first-Eldest, first-nobody}
use self_organizing_multi_ag.Projects.{succeed, archived, owned_by, get_project}
use self_organizing_multi_ag.Http.{Ambient, unless_missing, attempt}
use self_organizing_multi_ag.Http.Access.Disclosure.{project_for_lem}
use self_organizing_multi_ag.Http.Access.{project_for}
use self_organizing_multi_ag.Http.Notices.{notify_agent, notify_each, notify_members}
use self_organizing_multi_ag.Http.Rules.{Respects-unless_missing}
use self_organizing_multi_ag.Http.Consent.{announce-Keeps}
use self_organizing_multi_ag.Http.Owners.{set_status-Keeps}
use self_organizing_multi_ag.Http.Departures.{
  successor_for, owner_left, announce_departure, owner_leaves, may_remove, handle_remove_membership,
}

abbrev pub other_than : String → Membership → Bool
other_than owner c = not (c.agent_id == owner)

-- Who takes over from the owner: the coordinator of longest standing of a closed project, or nobody, where the
-- project is open or has no coordinator but the owner.
abbrev pub Heir : Project → Db → String → Type 0
Heir r db s =
    ((s ≡ "")
      × ((is_open r.visibility ≡ true)
          ⊎ All
              (λ (m : Membership). coordinates r.project_id m ≡ true → other_than r.owner m ≡ false)
              db.project_members))
    ⊎ ((m : Membership) × (m.agent_id ≡ s)
        × (is_open r.visibility ≡ false)
        × Eldest (coordinates r.project_id) (other_than r.owner) db.project_members m)

successor_for-Heir : (r : Project) (db : Db) → Heir r db (successor_for r db)
unfolding successor_for coordinators
successor_for-Heir r db = elim (Bool-cases (is_open r.visibility)) [
  | inl opened ↦ rw opened (inl (refl, inl refl))
  | inr closed ↦ elim (Option-cases (first (other_than r.owner) (coordinators r.project_id db))) [
    | inl none_left ↦
        rw (closed, none_left) (inl (refl, inr (first-nobody _ _ db.project_members none_left)))
    | inr (m, e) ↦ rw (closed, e) (inr (m, refl, refl, first-Eldest _ _ db.project_members m e))
  ]
]

notify_each_ok :
    (w : Ambient) (event : String) (fields : List (String × String)) (agents : List String)
    (db : Db)
    → (notify_each w event fields agents db).0 ≡ ok tt
unfolding notify_each notify_agent attempt ◌>>=◌
notify_each_ok w event fields [] db = refl
notify_each_ok w event fields (a ∷ agents) db = notify_each_ok w event fields agents _

notify_members_ok :
    (w : Ambient) (q : Project) (event : String) (fields : List (String × String)) (db : Db)
    → (notify_members w q event fields db).0 ≡ ok tt
unfolding notify_members ◌>>=◌
notify_members_ok w q event fields db = notify_each_ok w event fields _ db

announce_ok :
    (w : Ambient) (p : String) (q : Project) (subject successor : String) (db : Db)
    → (announce_departure w p q subject successor db).0 ≡ ok tt
unfolding announce_departure
announce_ok w p q subject successor db = elim (Bool-cases (successor == "")) [
  | inl nobody ↦ rw nobody (notify_members_ok w q _ _ db)
  | inr heir ↦ rw heir (notify_members_ok w q _ _ db)
]

seat_left :
    (p a : String) (s : MemberStatus) (db : Db) → (unless_missing (set_status p a s) db).0 ≡ ok tt
unfolding unless_missing
seat_left p a s db = elim (Option-cases (member p a db)) [
  | inl absent ↦ ground (arith, set_status_lem p a s db)
  | inr (m, e) ↦ ground (arith, set_status_lem p a s db)
]

-- The project once its owner has left.
abbrev left_to : String → Project → Project
left_to s r = if s == "" then archived r else owned_by s r

succeed_lem :
    (p s : String) (db : Db) (r : Project)
    → find project_key p db.projects ≡ some r
    → ((succeed p s db).0 ≡ ok (left_to s r))
      × (find project_key p (succeed p s db).1.projects ≡ some (left_to s r))
unfolding succeed get_project ◌>>=◌
succeed_lem p s db r e = elim (Bool-cases (s == "")) [
  | inl nobody ↦ ground (
    arith,
    find-key project_key p r db.projects e,
    eq_refl p,
    find-update project_key (λ (x : Project). x.project_id == p) archived (λ x. refl) p db.projects,
  )
  | inr heir ↦ ground (
    arith,
    find-key project_key p r db.projects e,
    eq_refl p,
    find-update project_key (λ (x : Project). x.project_id == p) (owned_by s) (λ x. refl) p
        db.projects,
  )
]

module _ (w : Ambient) (p : String) (db : Db) (r : Project)
    (e : find project_key p db.projects ≡ some r) where
  abbrev after : Project
  after = left_to (successor_for r db) r

  owner_leaves_end :
      (subject : String)
      → (db' : Db) × (owner_leaves w r p subject db ≡ (ok (200, owner_left after), db'))
        × (db'.projects ≡ (succeed p (successor_for r db) db).1.projects)
  unfolding owner_leaves
  owner_leaves_end subject =
      let s = successor_for r db in
      let db1 = (succeed p s db).1 in
      let db2 = (unless_missing (set_status p subject member_left) db1).1 in
      let db3 = (announce_departure w p after subject s db2).1 in
      (
        db3,
        gets-bind (successor_for r) _ db
            ∙ >>=-ok (succeed p s) _ db after (succeed_lem p s db r e).0
            ∙ >>=-ok (unless_missing (set_status p subject member_left)) _ db1 tt
                (seat_left p subject member_left db1)
            ∙ >>=-ok (announce_departure w p after subject s) _ db2 tt
                (announce_ok w p after subject s db2)
            ∙ pure_lem (200, owner_left after) db3,
        (announce-Keeps w p after subject s).at db2
            ∙ (Respects-unless_missing _ (set_status-Keeps p subject member_left)).at db1,
      )

for_owner :
    (p owner : String) (db : Db) (r : Project)
    → find project_key p db.projects ≡ some r
    → (r.owner == owner) ≡ true
    → project_for p owner db ≡ (ok (r, true), db)
for_owner p owner db r e own = elim (Bool-cases (is_open r.visibility)) [
  | inl opened ↦ project_for_lem p owner db r e ∙ rw opened refl
  | inr closed ↦ elim (Bool-cases (active_standing (member p owner db))) [
    | inl active ↦ project_for_lem p owner db r e ∙ rw (closed, active) refl
    | inr outside ↦ project_for_lem p owner db r e ∙ rw (closed, outside, own) refl
  ]
]

leaves_as_owner :
    (w : Ambient) (owner p : String) (db : Db) (r : Project)
    → find project_key p db.projects ≡ some r
    → (r.owner == owner) ≡ true
    → (owner == owner) ≡ true
    → (owner == r.owner) ≡ true
    → handle_remove_membership w owner p owner db ≡ owner_leaves w r p owner db
unfolding handle_remove_membership may_remove ◌>>=◌
leaves_as_owner w owner p db r e own self self' =
    rw (for_owner p owner db r e own, self, self') refl

-- The row `q` of a project whose row was `r`, once its owner has left to an heir, or to nobody.
abbrev pub Inherited : String → Project → Project → Type 0
Inherited s r q =
    (q.project_id ≡ r.project_id)
    × (q.pending_owner ≡ none)
    × (q.visibility ≡ r.visibility)
    × (if s == ""
        then (q.status ≡ project_archived) × (q.owner ≡ r.owner)
        else (q.status ≡ r.status) × (q.owner ≡ s))

left_to-Inherited : (s : String) (r : Project) → Inherited s r (left_to s r)
left_to-Inherited s r = elim (Bool-cases (s == "")) [
  | inl nobody ↦ rw nobody (refl, refl, refl, (refl, refl))
  | inr heir ↦ rw heir (refl, refl, refl, (refl, refl))
]

-- An owner may always leave: the request succeeds, and the project, its status unchanged, goes to
-- the coordinator of longest standing other than the owner, if it is closed and has one, and is
-- archived, its owner unchanged, otherwise. A nomination that was pending is gone.
pub owner_departure :
    (w : Ambient) (owner p : String) (db : Db) (r : Project)
    → find project_key p db.projects ≡ some r
    → r.owner ≡ owner
    → let run = handle_remove_membership w owner p owner db in
      (s : String) × Heir r db s
      × (q : Project) × Inherited s r q
      × (run.0 ≡ ok (200, owner_left q))
      × (find project_key p run.1.projects ≡ some q)
owner_departure w owner p db r e own =
    let (db', run, kept) = owner_leaves_end w p db r e owner in
    let same = subst (λ o. (o == owner) ≡ true) (sym own) (eq_refl owner) in
    let same' = subst (λ o. (owner == o) ≡ true) (sym own) (eq_refl owner) in
    let whole = leaves_as_owner w owner p db r e same (eq_refl owner) same' ∙ run in
    let s = successor_for r db in
    (
      s,
      successor_for-Heir r db,
      left_to s r,
      left_to-Inherited s r,
      ap (λ x. x.0) whole,
      ap (λ x. find project_key p x.1.projects) whole
          ∙ ap (find project_key p) kept
          ∙ (succeed_lem p s db r e).1,
    )
