-- ===== src/Http/Access/Writers.antt =====
-- Lemmas on what a handler of internal/httpapi found out when it went on: the task it read, and a caller who may
-- write to its project.
use self_organizing_multi_ag.Base.{
  ℕ, String, ◌≡◌, refl, sym, subst, ap, ◌∙◌, true, false, ◌||◌, Option, none, some, arith,
  Option-cases, inl, inr,
}
use self_organizing_multi_ag.Errors.{Result, ok, is_ok}
use self_organizing_multi_ag.Db.{Db, Project, Task, Action, ◌>>=◌}
use self_organizing_multi_ag.Db.Inversion.{>>=-Ran}
use self_organizing_multi_ag.Table.{find, IsKeyed}
use self_organizing_multi_ag.Scope.{is_open}
use self_organizing_multi_ag.Tasks.{task_key, get}
use self_organizing_multi_ag.Tasks.Claiming.{requeued, seen, answer, get_lem}
use self_organizing_multi_ag.Queue.{is_project_active}
use self_organizing_multi_ag.Members.{project_key, member, active_standing}
use self_organizing_multi_ag.Projects.{get_project}
use self_organizing_multi_ag.Http.{caught}
use self_organizing_multi_ag.Http.Access.{require_project_writer}
use self_organizing_multi_ag.Http.Access.Disclosure.{get_project_lem, can_read_lem}

-- An agent that may write to a project: the project is active, and open, or the agent is an active member.
pub record Writer (db : Db) (project_id agent_id : String) : Type 0 where
  pub project : Project
  pub there : find project_key project_id db.projects ≡ some project
  pub live : is_project_active project.status ≡ true
  pub reads : is_open project.visibility || active_standing (member project_id agent_id db) ≡ true

-- `requireProjectWriter` on a project that is there.
writer_lem :
    (p a : String) (db : Db) (q : Project)
    → find project_key p db.projects ≡ some q
    → (require_project_writer p a db).0 ≡ ok tt
    → (is_project_active q.status ≡ true)
      × (is_open q.visibility || active_standing (member p a db) ≡ true)
unfolding require_project_writer ◌>>=◌
writer_lem p a db q e h = ground (arith, get_project_lem p db q e, can_read_lem p a db q e)

no_writer :
    (p a : String) (db : Db)
    → find project_key p db.projects ≡ none
    → is_ok (require_project_writer p a db).0 ≡ false
unfolding require_project_writer get_project ◌>>=◌
no_writer p a db e = rw e refl

pub require_project_writer-Writer :
    (p a : String) (db : Db) → (require_project_writer p a db).0 ≡ ok tt → Writer db p a
require_project_writer-Writer p a db h = elim (Option-cases (find project_key p db.projects)) [
  | inl missing ↦ cc (no_writer p a db missing)
  | inr (q, e) ↦
      let (live, reads) = writer_lem p a db q e h in
      record { project = q; there = e; live = live; reads = reads }
]

answer_ok : (o : Option Task) (t : Task) → answer o ≡ ok t → o ≡ some t
answer_ok none t h = cc
answer_ok (some u) t h = cc

-- A task that was read, then the rest.
pub get-ok :
    {B : Type 0} (viewer id : String) (now : ℕ) (f : Task → Action B) (db : Db) (b : B)
    → IsKeyed task_key db.tasks
    → ((get viewer id now >>= f) db).0 ≡ ok b
    → (t : Task) × (seen viewer now id (requeued now db) ≡ some t)
      × ((f t (requeued now db)).0 ≡ ok b)
      × (((get viewer id now >>= f) db).1 ≡ (f t (requeued now db)).1)
get-ok viewer id now f db b k h =
    let r = >>=-Ran (get viewer id now) f db b h in
    let e = get_lem viewer id now db k in
    (
      r.value,
      answer_ok _ r.value (sym (ap (λ x. x.0) e) ∙ r.first),
      subst (λ d. (f r.value d).0 ≡ ok b) (ap (λ x. x.1) e) r.rest,
      r.end ∙ ap (λ x. (f r.value x.1).1) e,
    )

-- A call whose error is looked at, then the rest.
pub caught-bind :
    {A B : Type 0} (m : Action A) (f : Result A → Action B) (db : Db)
    → (caught m >>= f) db ≡ f (m db).0 (m db).1
unfolding caught ◌>>=◌
caught-bind m f db = refl

-- Who may write does not depend on the task table.
pub Writer-requeued :
    (now : ℕ) (db : Db) (p a : String) → Writer (requeued now db) p a → Writer db p a
unfolding member
Writer-requeued now db p a h = record {
  project = h.project;
  there = h.there;
  live = h.live;
  reads = h.reads;
}
