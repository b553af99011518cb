-- ===== src/Http/Tasks/Fit.antt =====
-- Lemmas on who is handed a task by `handleClaimTask` of internal/httpapi/tasks.go.
use self_organizing_multi_ag.Base.{
  ℕ, String, ◌≡◌, refl, sym, subst, true, false, ◌||◌, Option, none, some, arith, Option-cases, inl,
  inr,
}
use self_organizing_multi_ag.Errors.{ok, is_ok}
use self_organizing_multi_ag.Db.{Db, Project, Task, Agent, ◌>>=◌}
use self_organizing_multi_ag.Db.Reads.{Reads, reads_rules}
use self_organizing_multi_ag.Db.Inversion.{not-false, raise_if-ok, reads-ok, gets-ok, or_raise_ok}
use self_organizing_multi_ag.Table.{find, find-key, IsKeyed}
use self_organizing_multi_ag.Scope.{is_open}
use self_organizing_multi_ag.Tasks.{task_key}
use self_organizing_multi_ag.Tasks.Claiming.{requeued, seen}
use self_organizing_multi_ag.Queue.{is_project_active}
use self_organizing_multi_ag.Members.{project_key, member, active_standing}
use self_organizing_multi_ag.Projects.{get_project}
use self_organizing_multi_ag.Agents.{agent_key, get_agent}
use self_organizing_multi_ag.Http.{Ambient, seconds}
use self_organizing_multi_ag.Http.Access.Disclosure.{
  get_project_lem, can_read_lem, get_project-Reads, can_read-Reads,
}
use self_organizing_multi_ag.Http.Access.Writers.{Writer, Writer-requeued, get-ok}
use self_organizing_multi_ag.Http.Tasks.{
  agent_matches_task, agent_matches_tools, may_work_in, handle_claim_task,
}

-- Why a caller was handed the task: it sees it, may work in its project, and has what the task asks for.
pub record Fit (agent_id task_id : String) (now : ℕ) (db : Db) : Type 0 where
  pub task : Task
  pub there : seen agent_id now task_id (requeued now db) ≡ some task
  pub works : (p : String) → task.project_id ≡ some p → Writer db p agent_id
  pub claimer : Agent
  pub registered : find agent_key agent_id db.agents ≡ some claimer
  pub able : agent_matches_task claimer.capabilities task.required_capabilities ≡ true
  pub equipped : agent_matches_tools claimer.tools task.required_tools ≡ true

no_project :
    (p a : String) (db : Db)
    → find project_key p db.projects ≡ none
    → is_ok (may_work_in (some p) a db).0 ≡ false
unfolding may_work_in get_project ◌>>=◌
no_project p a db e = rw e refl

works_lem :
    (p a : String) (db : Db) (q : Project)
    → find project_key p db.projects ≡ some q
    → find project_key q.project_id db.projects ≡ some q
    → (may_work_in (some p) a db).0 ≡ ok tt
    → (is_project_active q.status ≡ true)
      × (is_open q.visibility || active_standing (member q.project_id a db) ≡ true)
unfolding may_work_in ◌>>=◌
works_lem p a db q e e' h =
    ground (arith, get_project_lem p db q e, can_read_lem q.project_id a db q e')

may_work_in-Writer :
    (p a : String) (db : Db) → (may_work_in (some p) a db).0 ≡ ok tt → Writer db p a
may_work_in-Writer p a db h = elim (Option-cases (find project_key p db.projects)) [
  | inl missing ↦ cc (no_project p a db missing)
  | inr (q, e) ↦
      let same = find-key project_key p q db.projects e in
      let e' = subst (λ x. find project_key x db.projects ≡ some q) (sym same) e in
      let (live, reads) = works_lem p a db q e e' h in
      record {
        project = q;
        there = e;
        live = live;
        reads =
            subst (λ x. is_open q.visibility || active_standing (member x a db) ≡ true) same reads;
      }
]

works_in :
    (o : Option String) (p a : String) (db : Db)
    → o ≡ some p
    → (may_work_in o a db).0 ≡ ok tt
    → Writer db p a
works_in o p a db s h = may_work_in-Writer p a db (subst (λ x. (may_work_in x a db).0 ≡ ok tt) s h)

may_work_in-Reads : (o : Option String) (a : String) → Reads (may_work_in o a)
unfolding may_work_in
may_work_in-Reads none a = search reads_rules
may_work_in-Reads (some p) a = search (reads_rules, get_project-Reads, can_read-Reads) depth 12

get_agent_ok :
    (a : String) (db : Db) (x : Agent)
    → (get_agent a db).0 ≡ ok x
    → find agent_key a db.agents ≡ some x
unfolding get_agent
get_agent_ok a db x h =
    let (h1, end) = gets-ok (λ d. find agent_key a d.agents) _ db x h in or_raise_ok _ _ db x h1

get_agent-Reads : (a : String) → Reads (get_agent a)
unfolding get_agent
get_agent-Reads a = search reads_rules depth 8

-- A task is handed out only to a registered caller who sees it, has one of the capabilities and
-- one of the tools that it requires, where it requires any, and may write to its project, if it is
-- in one. The ids of the tasks are unique.
pub handle_claim_task-Fit :
    (w : Ambient) (fresh agent_id task_id : String) (db : Db) (answer : ℕ × Task)
    → IsKeyed task_key db.tasks
    → (handle_claim_task w fresh agent_id task_id db).0 ≡ ok answer
    → Fit agent_id task_id (seconds w) db
unfolding handle_claim_task
handle_claim_task-Fit w fresh agent_id task_id db answer k h =
    let (t, there, h1, end) = get-ok agent_id task_id (seconds w) _ db answer k h in
    let (u, works, h2, end1) = reads-ok _ _ _ answer (may_work_in-Reads t.project_id agent_id) h1 in
    let (claimer, found, h3, end2) = reads-ok _ _ _ answer (get_agent-Reads agent_id) h2 in
    let (able, h4, end3) = raise_if-ok _ _ _ _ answer h3 in
    let (equipped, h5, end4) = raise_if-ok _ _ _ _ answer h4 in
    record {
      task = t;
      there = there;
      works = λ p e. Writer-requeued _ _ _ _ (works_in t.project_id p agent_id _ e works);
      claimer = claimer;
      registered = get_agent_ok agent_id _ claimer found;
      able = not-false _ able;
      equipped = not-false _ equipped;
    }
