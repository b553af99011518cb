-- ===== src/Http/Letters/Results.antt =====
-- Lemmas on the messages about a task that internal/httpapi/messages.go lets through.
use self_organizing_multi_ag.Base.{
  ℕ, String, ◌≡◌, ◌⊎◌, refl, sym, subst, ap, ◌∙◌, true, false, Option, none, some, is_some, arith,
  ◌==◌, eq_iff, opt_is, Bool-cases, Option-cases, inl, inr,
}
use self_organizing_multi_ag.Errors.{Result, ok, err, is_ok}
use self_organizing_multi_ag.Db.{Db, Project, Task, MessageRow, ◌>>=◌}
use self_organizing_multi_ag.Db.Reads.{Reads, reads_rules}
use self_organizing_multi_ag.Db.Inversion.{
  not-false, >>=-Ran, raise_if-ok, raise_if_passed, reads-ok,
}
use self_organizing_multi_ag.Table.{find, IsKeyed}
use self_organizing_multi_ag.Scope.{is_open}
use self_organizing_multi_ag.Tasks.{task_key, get}
use self_organizing_multi_ag.Tasks.Claiming.{
  requeued, seen, answer, get_settled, requeued-IsKeyed, requeued-NoneLapsed,
}
use self_organizing_multi_ag.Verification.{is_result}
use self_organizing_multi_ag.Members.{project_key}
use self_organizing_multi_ag.Projects.{get_project}
use self_organizing_multi_ag.Agents.{get_agent}
use self_organizing_multi_ag.Messages.{Envelope}
use self_organizing_multi_ag.Messages.Payloads.{Wire, with_priority}
use self_organizing_multi_ag.Http.{Ambient, seconds}
use self_organizing_multi_ag.Http.Rules.{received-bind, accepted-ok}
use self_organizing_multi_ag.Http.Access.{require_project_writer}
use self_organizing_multi_ag.Http.Access.Disclosure.{get_project_lem, require_project_writer-Reads}
use self_organizing_multi_ag.Http.Access.Writers.{
  Writer, Writer-requeued, require_project_writer-Writer, get-ok, caught-bind,
}
use self_organizing_multi_ag.Http.Letters.{
  broadcast_recipient, recipient_known, reaches_only_writers, direct_to, within_project,
  check_report, about_task, about_found, handle_post_message,
}

-- Those whom the message reaches: anyone, where the project is open, or one agent who sees the task and may write.
abbrev pub Reader : Db → String → String → String → ℕ → Type 0
Reader db project_id task_id recipient now =
    ((recipient ≡ broadcast_recipient)
      × ((q : Project) × (find project_key project_id db.projects ≡ some q)
          × (is_open q.visibility ≡ true)))
    ⊎ (((recipient == broadcast_recipient) ≡ false)
        × (is_some (seen recipient now task_id db) ≡ true)
        × Writer db project_id recipient)

-- The task of a message that was let through.
pub record Relayed (agent_id : String) (now : ℕ) (env : Envelope) (db : Db) : Type 0 where
  pub task : Task
  pub there : seen agent_id now env.task_id (requeued now db) ≡ some task
  pub within :
      (p : String)
      → task.project_id ≡ some p
      → Writer db p agent_id × Reader (requeued now db) p task.task_id env.recipient now
  pub reported :
      is_result env.type ≡ true → (task.owner ≡ some agent_id) × (env.recipient ≡ task.created_by)

broadcast_lem :
    (p task_id recipient : String) (now : ℕ) (db : Db) (q : Project)
    → (recipient == broadcast_recipient) ≡ true
    → find project_key p db.projects ≡ some q
    → (reaches_only_writers p task_id recipient now db).0 ≡ ok tt
    → is_open q.visibility ≡ true
unfolding reaches_only_writers ◌>>=◌
broadcast_lem p task_id recipient now db q all e h = ground (arith, get_project_lem p db q e)

no_broadcast :
    (p task_id recipient : String) (now : ℕ) (db : Db)
    → (recipient == broadcast_recipient) ≡ true
    → find project_key p db.projects ≡ none
    → is_ok (reaches_only_writers p task_id recipient now db).0 ≡ false
unfolding reaches_only_writers get_project ◌>>=◌
no_broadcast p task_id recipient now db all e = rw (all, e) refl

answer-is_ok : (o : Option Task) → is_ok (answer o) ≡ true → is_some o ≡ true
answer-is_ok none h = cc
answer-is_ok (some t) h = refl

ok_unit : (r : Result (Unit {0})) → is_ok r ≡ true → r ≡ ok tt
ok_unit (ok u) h = refl
ok_unit (err e) h = cc

direct_lem :
    (p task_id recipient : String) (now : ℕ) (db : Db)
    → IsKeyed task_key db.tasks
    → (direct_to p task_id recipient now (requeued now db)).0 ≡ ok tt
    → (is_some (seen recipient now task_id (requeued now db)) ≡ true)
      × Writer (requeued now db) p recipient
unfolding direct_to
direct_lem p task_id recipient now db k h =
    let e =
      get_settled recipient task_id now (requeued now db) (requeued-IsKeyed now db k)
        (requeued-NoneLapsed now db) in
    let h1 =
      ap (λ x. x.0) (sym (caught-bind (get recipient task_id now) _ (requeued now db))) ∙ h in
    let (sees, h2, end) = raise_if-ok _ _ _ _ tt h1 in
    let h3 = ap (λ x. x.0) (sym (caught-bind (require_project_writer p recipient) _ _)) ∙ h2 in
    let writes = raise_if_passed _ _ _ h3 in
    (
      answer-is_ok _ (ap (λ x. is_ok x.0) (sym e) ∙ not-false _ sees),
      require_project_writer-Writer p recipient _
          (ok_unit _ (ap (λ x. is_ok (require_project_writer p recipient x.1).0) (sym e) ∙ writes)),
    )

reaches_direct :
    (p task_id recipient : String) (now : ℕ) (db : Db)
    → (recipient == broadcast_recipient) ≡ false
    → reaches_only_writers p task_id recipient now db ≡ direct_to p task_id recipient now db
unfolding reaches_only_writers
reaches_direct p task_id recipient now db one = rw one refl

reaches_lem :
    (p task_id recipient : String) (now : ℕ) (db : Db)
    → IsKeyed task_key db.tasks
    → (reaches_only_writers p task_id recipient now (requeued now db)).0 ≡ ok tt
    → Reader (requeued now db) p task_id recipient now
reaches_lem p task_id recipient now db k h = elim (Bool-cases (recipient == broadcast_recipient)) [
  | inl all ↦ elim (Option-cases (find project_key p db.projects)) [
    | inl missing ↦ cc (no_broadcast p task_id recipient now (requeued now db) all missing)
    | inr (q, e) ↦ inl (
      (eq_iff recipient broadcast_recipient).0 all,
      (q, e, broadcast_lem p task_id recipient now (requeued now db) q all e h),
    )
  ]
  | inr one ↦
      let (sees, writes) =
        direct_lem p task_id recipient now db k (
          ap (λ x. x.0) (sym (reaches_direct p task_id recipient now (requeued now db) one)) ∙ h) in
      inr (one, sees, writes)
]

within_lem :
    (o : Option String) (p task_id : String) (env : Envelope) (now : ℕ) (db : Db)
    → IsKeyed task_key db.tasks
    → o ≡ some p
    → (within_project o task_id env now (requeued now db)).0 ≡ ok tt
    → Writer db p env.sender × Reader (requeued now db) p task_id env.recipient now
unfolding within_project
within_lem none p task_id env now db k e h = cc
within_lem (some o) p task_id env now db k e h =
    let (u, first, rest, end) =
      reads-ok _ _ (requeued now db) tt (require_project_writer-Reads o env.sender) h in
    let same : o ≡ p = ground arith in
    subst (λ x. Writer db x env.sender × Reader (requeued now db) x task_id env.recipient now) same
      (
        Writer-requeued _ _ _ _
            (require_project_writer-Writer o env.sender (requeued now db) first),
        reaches_lem o task_id env.recipient now db k rest,
      )

wrong_owner :
    (w : Ambient) (env : Envelope) (t : Task) (db : Db)
    → is_result env.type ≡ true
    → opt_is t.owner env.sender ≡ false
    → is_ok (check_report w env t db).0 ≡ false
unfolding check_report ◌>>=◌
wrong_owner w env t db r e = rw (r, e) refl

wrong_recipient :
    (w : Ambient) (env : Envelope) (t : Task) (db : Db)
    → is_result env.type ≡ true
    → opt_is t.owner env.sender ≡ true
    → (env.recipient == t.created_by) ≡ false
    → is_ok (check_report w env t db).0 ≡ false
unfolding check_report ◌>>=◌
wrong_recipient w env t db r e e' = rw (r, e, e') refl

is_owner : (o : Option String) (a : String) → opt_is o a ≡ true → o ≡ some a
is_owner none a h = cc
is_owner (some b) a h = ap some ((eq_iff b a).0 h)

report_lem :
    (w : Ambient) (env : Envelope) (t : Task) (db : Db)
    → (check_report w env t db).0 ≡ ok tt
    → is_result env.type ≡ true
    → (t.owner ≡ some env.sender) × (env.recipient ≡ t.created_by)
report_lem w env t db h r = elim (Bool-cases (opt_is t.owner env.sender)) [
  | inr other ↦ cc (wrong_owner w env t db r other)
  | inl owner ↦ elim (Bool-cases (env.recipient == t.created_by)) [
    | inr stray ↦ cc (wrong_recipient w env t db r owner stray)
    | inl creator ↦
        (is_owner t.owner env.sender owner, (eq_iff env.recipient t.created_by).0 creator)
  ]
]

about_found-Relayed :
    (w : Ambient) (env : Envelope) (db : Db)
    → IsKeyed task_key db.tasks
    → (about_found w env db).0 ≡ ok tt
    → Relayed env.sender (seconds w) env db
unfolding about_found
about_found-Relayed w env db k h =
    let (t, there, rest, end) = get-ok env.sender env.task_id (seconds w) _ db tt k h in
    let r = >>=-Ran (within_project t.project_id t.task_id env (seconds w)) _ _ tt rest in
    record {
      task = t;
      there = there;
      within = λ p e. within_lem t.project_id p t.task_id env (seconds w) db k e r.first;
      reported = report_lem w env t _ r.rest;
    }

about_task_found :
    (w : Ambient) (env : Envelope) (db : Db)
    → (env.task_id == "") ≡ false
    → about_task w env db ≡ about_found w env db
unfolding about_task
about_task_found w env db e = rw e refl

recipient_known-Reads : (a : String) → Reads (recipient_known a)
unfolding recipient_known get_agent
recipient_known-Reads a = search reads_rules depth 8

-- A message that is accepted is its caller's, and one about a task is about a task that the caller
-- sees: if the task is in a project, the caller may write there, and either the message is
-- broadcast and the project open, or its recipient sees the task and may write there too; and a
-- RESULT comes from the task's owner and goes to its creator. The ids of the tasks are unique.
pub handle_post_message-Relayed :
    (wire : Wire) (w : Ambient) (agent_id : String) (sent : Envelope) (db : Db)
    (answer : ℕ × MessageRow)
    → IsKeyed task_key db.tasks
    → (handle_post_message wire w agent_id (ok sent) db).0 ≡ ok answer
    → let env = with_priority sent in
      (env.sender ≡ agent_id) × ((env.task_id == "") ≡ false → Relayed agent_id (seconds w) env db)
unfolding handle_post_message
handle_post_message-Relayed wire w agent_id sent db answer k h =
    let h1 = ap (λ x. x.0) (sym (received-bind sent _ db)) ∙ h in
    let (h2, end) = accepted-ok _ _ db answer h1 in
    let (same, h3, end') = raise_if-ok _ _ _ db answer h2 in
    let (u, known, h4, end'') =
      reads-ok _ _ db answer (recipient_known-Reads (with_priority sent).recipient) h3 in
    let r = >>=-Ran (about_task w (with_priority sent)) _ db answer h4 in
    let own = (eq_iff (with_priority sent).sender agent_id).0 (not-false _ same) in
    (
      own,
      λ about.
          subst (λ a. Relayed a (seconds w) (with_priority sent) db) own
            (about_found-Relayed w (with_priority sent) db k
              (ap (λ x. x.0) (sym (about_task_found w (with_priority sent) db about)) ∙ r.first)),
    )
