-- ===== src/Http/Consent.antt =====
-- Lemmas on how a project changes hands under the handlers of internal/httpapi/projects.go.
use self_organizing_multi_ag.Base.{
  opt_is-some, String, ◌≡◌, ◌⊎◌, refl, sym, subst, ◌∙◌, ap, Bool, true, not, ◌&&◌, ◌||◌, some,
  arith, ◌==◌, eq_iff, opt_is, Bool-cases, Option-cases, inl, inr,
}
use self_organizing_multi_ag.Errors.{Result, ok}
use self_organizing_multi_ag.Db.{Db, Project, Action, ◌>>=◌}
use self_organizing_multi_ag.Db.Respects.{Respects, respects_rules}
use self_organizing_multi_ag.Db.Reads.{Reads, reads_rules}
use self_organizing_multi_ag.Db.Keeps.{Keeps, KeptBy-order, >>=-Keeps}
use self_organizing_multi_ag.Db.Inversion.{after_reads}
use self_organizing_multi_ag.Table.{find}
use self_organizing_multi_ag.Members.{project_key, InviteRequest}
use self_organizing_multi_ag.Projects.{succeed}
use self_organizing_multi_ag.Projects.Ownership.{settled_transfer, succeeded}
use self_organizing_multi_ag.Requests.{ProjectBody}
use self_organizing_multi_ag.Http.{Ambient, seconds}
use self_organizing_multi_ag.Http.Rules.{handler_rules}
use self_organizing_multi_ag.Http.Access.{project_for, handle_create_project}
use self_organizing_multi_ag.Http.Access.Disclosure.{
  project_for-Reads, project_for_lem, project_for_missing, get_project-Reads,
}
use self_organizing_multi_ag.Http.Notices.Aside.{notify_members-Keeps}
use self_organizing_multi_ag.Http.Seats.{
  handle_invite, handle_apply, handle_decide_membership, handle_set_role,
}
use self_organizing_multi_ag.Http.Departures.{
  handle_remove_membership, owner_leaves, may_remove, end_seat, announce_departure,
}
use self_organizing_multi_ag.Http.Transfers.{
  handle_transfer, handle_decide_transfer, take_over, call_off,
}
use self_organizing_multi_ag.Http.Owners.{
  OwnersKept, project_table, handle_create-OwnersKept, handle_invite-OwnersKept,
  handle_apply-OwnersKept, handle_decide-OwnersKept, handle_set_role-OwnersKept,
  handle_transfer-OwnersKept, end_seat-OwnersKept, call_off-OwnersKept, set_status-Keeps,
}

-- A request of a project's handlers, with what the handler takes from its path and its body.
pub data Request : Type 0 where
  to_create : String → Result ProjectBody → Request
  to_invite : String → Result InviteRequest → Request
  to_apply : String → Request
  to_decide : String → String → Result Bool → Request
  to_remove : String → String → Request
  to_set_role : String → String → Result String → Request
  to_transfer : String → Result String → Request
  to_decide_transfer : String → Result Bool → Request

-- The database after the handler.
unfoldable pub handle : Ambient → String → Request → Db → Db
handle w caller (to_create fresh body) db = (handle_create_project w fresh caller body db).1
handle w caller (to_invite p body) db = (handle_invite w caller p body db).1
handle w caller (to_apply p) db = (handle_apply w caller p db).1
handle w caller (to_decide p subject body) db =
    (handle_decide_membership w caller p subject body db).1
handle w caller (to_remove p subject) db = (handle_remove_membership w caller p subject db).1
handle w caller (to_set_role p subject body) db = (handle_set_role caller p subject body db).1
handle w caller (to_transfer p body) db = (handle_transfer w caller p body db).1
handle w caller (to_decide_transfer p body) db = (handle_decide_transfer w caller p body db).1

-- The request is the departure of the project's owner.
abbrev pub Leaves : Request → String → String → Project → Type 0
Leaves (to_remove p subject) caller k r = (p ≡ k) × (subject ≡ caller) × (r.owner ≡ caller)
Leaves _ caller k r = ⊥

-- How the owner may differ from one row of a project to the next: the caller was the nominee and takes
-- over, or the caller was the owner and leaves.
abbrev pub Agreed : Request → String → String → Project → Project → Type 0
Agreed q caller k r s =
    (s.owner ≡ r.owner)
    ⊎ (((r.pending_owner ≡ some caller) × (s.owner ≡ caller)) ⊎ Leaves q caller k r)

pub announce-Keeps :
    (w : Ambient) (p : String) (x : Project) (subject successor : String)
    → Keeps project_table (announce_departure w p x subject successor)
unfolding announce_departure
announce-Keeps w p x subject successor =
    search (respects_rules, notify_members-Keeps project_table (λ db ts ms js n. refl) w)

may_remove-Reads : (q : Project) (caller subject : String) → Reads (may_remove q caller subject)
unfolding may_remove
may_remove-Reads q caller subject = search reads_rules

-- Who may remove the owner is the owner.
may_remove_owner :
    (q : Project) (caller subject : String) (db : Db) (u : Unit {0})
    → (may_remove q caller subject db).0 ≡ ok u
    → (subject == q.owner) ≡ true
    → q.owner ≡ caller
unfolding may_remove ◌>>=◌
may_remove_owner q caller subject db u h own =
    ground (arith, eq_iff caller subject, eq_iff subject q.owner)

-- The project that `projectFor` returns is the one of the id.
project_for_found :
    (p a : String) (db : Db) (found : Project × Bool)
    → (project_for p a db).0 ≡ ok found
    → find project_key p db.projects ≡ some found.0
project_for_found p a db found h = elim (Option-cases (find project_key p db.projects)) [
  | inl absent ↦ absurd (ground (arith, project_for_missing p a db absent))
  | inr (q, e) ↦ ground (arith, project_for_lem p a db q e)
]

module _ (q : Request) (caller k : String) (r : Project) where
  abbrev Settles : Db → Type 0
  Settles db = (s : Project) × (find project_key k db.projects ≡ some s) × Agreed q caller k r s

  module _ (db : Db) (e : find project_key k db.projects ≡ some r) where
    unmoved : Settles db
    unmoved = (r, e, inl refl)

    from_kept : (db' : Db) → OwnersKept db db' → Settles db'
    from_kept db' h = let (s, es, os) = h k r e in (s, es, inl os)

    same_table : (a b : Db) → b.projects ≡ a.projects → Settles a → Settles b
    same_table a b h (s, es, m) = (s, subst (λ t. find project_key k t ≡ some s) (sym h) es, m)

    from_respects : {A : Type 0} (m : Action A) → Respects OwnersKept m → Settles (m db).1
    from_respects m h = from_kept (m db).1 (h.at db)

    -- Past an operation that settles, the rest keeps the table.
    then-Keeps :
        {A B : Type 0} (m : Action A) (f : A → Action B)
        → Settles (m db).1
        → ((a : A) → Keeps project_table (f a))
        → Settles ((m >>= f) db).1
    then-Keeps m f h g = same_table (m db).1 ((m >>= f) db).1 (>>=-Keeps project_table m f db g) h

    taken_over : (w : Ambient) (p : String) (x : Project) → Settles (take_over w caller p x db).1
    unfolding take_over
    taken_over w p x =
        then-Keeps _ _
          (
            _,
            settled_transfer db k r e p caller (seconds w),
            elim (Bool-cases (p == k && opt_is r.pending_owner caller)) [
              | inl agreed ↦
                  inr (inl (opt_is-some r.pending_owner caller (ground arith), ground arith))
              | inr other ↦ inl (ground arith)
            ],
          )
          (λ updated. search (
            respects_rules,
            KeptBy-order project_table,
            notify_members-Keeps project_table (λ db ts ms js n. refl) w,
          ))

    -- Before the operation that settles, what only reads.
    first_reads :
        {A B : Type 0} (m : Action A) (f : A → Action B)
        → Reads m
        → ((a : A) → (m db).0 ≡ ok a → Settles (f a db).1)
        → Settles ((m >>= f) db).1
    first_reads m f s good = after_reads (λ x. Settles x.1) m f db s (λ e'. unmoved) good

    decided_transfer :
        (w : Ambient) (p : String) (body : Result Bool)
        → Settles (handle_decide_transfer w caller p body db).1
    unfolding handle_decide_transfer
    decided_transfer w p body = first_reads _ _ (search (handler_rules, reads_rules)) λ accept _.
        first_reads _ _ (get_project-Reads p) λ x _.
          first_reads _ _ (search reads_rules) λ nominee _.
            first_reads _ _ (search reads_rules) λ _ _.
              elim (Bool-cases (not accept || caller == x.owner)) [
                | inl off ↦ rw off (from_respects (call_off p) (call_off-OwnersKept p))
                | inr on ↦ rw on (taken_over w p x)
              ]

    owner_left_it :
        (w : Ambient) (p : String) (x : Project) (subject : String)
        → (p ≡ k → Leaves q caller k r)
        → Settles (owner_leaves w x p subject db).1
    unfolding owner_leaves
    owner_left_it w p x subject own = first_reads _ _ (search reads_rules) λ successor _.
        then-Keeps (succeed p successor) _
          (
            _,
            succeeded db k r e p successor,
            elim (Bool-cases (p == k)) [
              | inl same ↦ inr (inr (own ((eq_iff p k).0 same)))
              | inr other ↦ inl (ground arith)
            ],
          )
          λ updated.
            search
              (
                respects_rules,
                handler_rules,
                KeptBy-order project_table,
                set_status-Keeps,
                announce-Keeps w,
              )
              depth 14

module _ (w : Ambient) (caller p subject k : String) (r : Project) (db : Db)
    (e : find project_key k db.projects ≡ some r) where
  own_departure :
      (found : Project × Bool) (u : Unit {0})
      → (project_for p caller db).0 ≡ ok found
      → (may_remove found.0 caller subject db).0 ≡ ok u
      → (subject == found.0.owner) ≡ true
      → p ≡ k
      → Leaves (to_remove p subject) caller k r
  own_departure found u at allowed leaves here =
      let same : found.0 ≡ r = cc (project_for_found p caller db found at) in
      let own = may_remove_owner found.0 caller subject db u allowed leaves in
      (
        here,
        (eq_iff subject found.0.owner).0 leaves ∙ own,
        sym (ap (λ (x : Project). x.owner) same) ∙ own,
      )

  removed :
      Settles (to_remove p subject) caller k r (handle_remove_membership w caller p subject db).1
  unfolding handle_remove_membership
  removed =
      first_reads (to_remove p subject) caller k r db e _ _ (project_for-Reads p caller) λ found at.
        first_reads (to_remove p subject) caller k r db e _ _
          (may_remove-Reads found.0 caller subject)
          λ u allowed. elim (Bool-cases (subject == found.0.owner)) [
            | inl leaves ↦ rw leaves (
                owner_left_it (to_remove p subject) caller k r db e w p found.0 subject
                  (own_departure found u at allowed leaves))
            | inr stays ↦ rw stays (
                from_respects (to_remove p subject) caller k r db e (end_seat caller p subject)
                  (end_seat-OwnersKept caller p subject))
          ]

-- Whatever a caller asks of the project endpoints, every project is still there afterwards, and
-- its owner is the one it had, or the caller, who was the nominee, or the caller was the owner and
-- leaves the project.
pub handle-Agreed :
    (w : Ambient) (caller : String) (q : Request) (db : Db) (k : String) (r : Project)
    → find project_key k db.projects ≡ some r
    → (s : Project) × (find project_key k (handle w caller q db).projects ≡ some s)
      × Agreed q caller k r s
unfolding handle
handle-Agreed w caller (to_create fresh body) db k r e =
    from_respects (to_create fresh body) caller k r db e _
      (handle_create-OwnersKept w fresh caller body)
handle-Agreed w caller (to_invite p body) db k r e =
    from_respects (to_invite p body) caller k r db e _ (handle_invite-OwnersKept w caller p body)
handle-Agreed w caller (to_apply p) db k r e =
    from_respects (to_apply p) caller k r db e _ (handle_apply-OwnersKept w caller p)
handle-Agreed w caller (to_decide p subject body) db k r e =
    from_respects (to_decide p subject body) caller k r db e _
      (handle_decide-OwnersKept w caller p subject body)
handle-Agreed w caller (to_remove p subject) db k r e = removed w caller p subject k r db e
handle-Agreed w caller (to_set_role p subject body) db k r e =
    from_respects (to_set_role p subject body) caller k r db e _
      (handle_set_role-OwnersKept caller p subject body)
handle-Agreed w caller (to_transfer p body) db k r e =
    from_respects (to_transfer p body) caller k r db e _
      (handle_transfer-OwnersKept w caller p body)
handle-Agreed w caller (to_decide_transfer p body) db k r e =
    decided_transfer (to_decide_transfer p body) caller k r db e w p body
