-- ===== src/Http/Access/Disclosure.antt =====
-- Lemmas on what a project discloses to a caller outside it.
use self_organizing_multi_ag.Base.{
  String, ◌≡◌, refl, ◌∙◌, Bool, true, false, ◌||◌, none, some, arith, ◌==◌, if◌then◌else◌,
}
use self_organizing_multi_ag.Errors.{ok, err, not_found}
use self_organizing_multi_ag.Db.{Db, Project, ◌>>=◌}
use self_organizing_multi_ag.Db.Reads.{Reads, reads_rules}
use self_organizing_multi_ag.Table.{find}
use self_organizing_multi_ag.Scope.{is_open}
use self_organizing_multi_ag.Members.{project_key, member, active_standing, can_read}
use self_organizing_multi_ag.Projects.{get_project}
use self_organizing_multi_ag.Http.Access.{closed_project, project_for, require_project_writer}

-- A closed project that is not listed, and of which the caller is neither the owner nor an active member.
pub record Hidden (project_id caller : String) (db : Db) : Type 0 where
  pub project : Project
  pub there : find project_key project_id db.projects ≡ some project
  pub closed : is_open project.visibility ≡ false
  pub unlisted : project.listed ≡ false
  pub not_owner : (project.owner == caller) ≡ false
  pub not_member : active_standing (member project_id caller db) ≡ false

pub can_read_lem :
    (p a : String) (db : Db) (q : Project)
    → find project_key p db.projects ≡ some q
    → can_read p a db
      ≡ (ok (if is_open q.visibility then true else active_standing (member p a db)), db)
unfolding can_read ◌>>=◌
can_read_lem p a db q e = rw e refl

pub get_project_lem :
    (p : String) (db : Db) (q : Project)
    → find project_key p db.projects ≡ some q
    → get_project p db ≡ (ok q, db)
unfolding get_project ◌>>=◌
get_project_lem p db q e = rw e refl

-- `projectFor` on a project that is there.
pub project_for_lem :
    (p a : String) (db : Db) (q : Project)
    → find project_key p db.projects ≡ some q
    → project_for p a db ≡ (
        if is_open q.visibility || active_standing (member p a db) || q.owner == a
        then (ok (q, true), db)
        else if q.listed
        then (ok (q, false), db)
        else (err (not_found "project not found"), db))
unfolding project_for closed_project ◌>>=◌
project_for_lem p a db q e = ground (arith, get_project_lem p db q e, can_read_lem p a db q e)

pub project_for-Hidden :
    (p caller : String) (db : Db)
    → Hidden p caller db
    → project_for p caller db ≡ (err (not_found "project not found"), db)
project_for-Hidden p caller db h =
    project_for_lem p caller db h.project h.there
    ∙ rw (h.closed, h.not_member, h.not_owner, h.unlisted) refl

pub project_for_missing :
    (p caller : String) (db : Db)
    → find project_key p db.projects ≡ none
    → project_for p caller db ≡ (err (not_found "project not found"), db)
unfolding project_for get_project ◌>>=◌
project_for_missing p caller db h = rw h refl

pub get_project-Reads : (p : String) → Reads (get_project p)
unfolding get_project
get_project-Reads p = search reads_rules

pub can_read-Reads : (p a : String) → Reads (can_read p a)
unfolding can_read
can_read-Reads p a = search reads_rules

closed_project-Reads : (q : Project) (a : String) (b : Bool) → Reads (closed_project q a b)
unfolding closed_project
closed_project-Reads q a b = search reads_rules

pub project_for-Reads : (p a : String) → Reads (project_for p a)
unfolding project_for
project_for-Reads p a =
    search (reads_rules, get_project-Reads, can_read-Reads, closed_project-Reads) depth 12

pub require_project_writer-Reads : (p a : String) → Reads (require_project_writer p a)
unfolding require_project_writer
require_project_writer-Reads p a = search (reads_rules, get_project-Reads, can_read-Reads) depth 12
