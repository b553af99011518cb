-- ===== src/TaskLife.antt =====
-- Lemmas on the task table under the operations of internal/store/tasks.go.
pub mod Verdicts
pub mod Submission
pub mod Creation
use self_organizing_multi_ag.Base.{
  ℕ, String, ◌+◌, ◌&&◌, ◌≡◌, refl, sym, subst, Bool, true, false, Option, none, some, List, arith,
  All, Bool-cases, inl, inr, ◌==◌, if◌then◌else◌,
}
use self_organizing_multi_ag.Db.{
  Db, Task, task_open, task_claimed, task_submitted, Action, modify, gets, ◌>>=◌, Verdict, verified,
  rejected, JobRow,
}
use self_organizing_multi_ag.Db.Respects
use self_organizing_multi_ag.Db.Respects.{
  Respects, respects_rules, Respects-modify, Respects-bind, Respects-pure, Respects-gets,
  Respects-raise, Respects-if, Respects-or_raise, Respects-raise_if, Respects-atomically,
}
use self_organizing_multi_ag.Table.{update, affected, insert, first}
use self_organizing_multi_ag.Tasks.{
  lapsed, reopened, requeue_expired, get, heartbeat, live_claim, extended, CreateTaskRequest,
  new_task, insert_task, insert_or_reuse, is_task_open, create, claim, taken, task_key, task_lease,
}
use self_organizing_multi_ag.Tasks.Lifecycle.{
  Step, reopen, take, extend, submit, complete, fail, Reach, here, next,
}
use self_organizing_multi_ag.Tasks.Lives.{
  Lives, Lives-refl, Lives-update, TasksLive, TasksLive-order,
}

pub lapsed-Reach : (now : ℕ) (t : Task) → lapsed now t ≡ true → Reach t (reopened t)
lapsed-Reach now t h = next here (reopen t (ground arith))

pub requeue_expired-Lives : (now : ℕ) → Respects TasksLive (requeue_expired now)
unfolding requeue_expired
requeue_expired-Lives now =
    Respects-modify _ (λ db. Lives-update (lapsed now) reopened (lapsed-Reach now) db.tasks)

update-Lives :
    (p : Task → Bool) (f : Task → Task)
    → ((t : Task) → p t ≡ true → Reach t (f t))
    → Respects TasksLive (modify (λ db. record db { tasks = update p f db.tasks }))
update-Lives p f step = Respects-modify _ (λ db. Lives-update p f step db.tasks)

-- A statement on another table.
pub other-Lives :
    (f : Db → Db) → ((db : Db) → (f db).tasks ≡ db.tasks) → Respects TasksLive (modify f)
other-Lives f e =
    Respects-modify f (λ db. subst (λ ts. Lives db.tasks ts) (sym (e db)) (Lives-refl db.tasks))

pub ruleset task_rules = (respects_rules, TasksLive-order, requeue_expired-Lives)

pub get-Lives : (viewer task_id : String) (now : ℕ) → Respects TasksLive (get viewer task_id now)
unfolding get
get-Lives viewer task_id now = search task_rules

-- An UPDATE whose `RowsAffected` the rest of the operation reads.
pub counted-Lives :
    {A : Type 0} (p : Task → Bool) (f : Task → Task) (rest : ℕ → Action A)
    → ((t : Task) → p t ≡ true → Reach t (f t))
    → ((n : ℕ) → Respects TasksLive (rest n))
    → Respects TasksLive (
        gets (λ db. affected p db.tasks) >>= λ n.
        modify (λ db. record db { tasks = update p f db.tasks }) >>= λ _. rest n)
counted-Lives p f rest step h =
    Respects-bind TasksLive-order _ _ (Respects-gets TasksLive-order _)
      λ n. Respects-bind TasksLive-order _ _ (update-Lives p f step) (λ _. h n)

extended-Reach :
    (task_id agent claim_id : String) (now : ℕ) (t : Task)
    → (t.task_id == task_id && live_claim agent claim_id now t) ≡ true
    → Reach t (extended now t)
extended-Reach task_id agent claim_id now t h =
    next here (extend t (now + task_lease) (ground arith))

pub heartbeat-Lives :
    (task_id agent claim_id : String) (now : ℕ)
    → Respects TasksLive (heartbeat task_id agent claim_id now)
unfolding heartbeat
heartbeat-Lives task_id agent claim_id now =
    Respects-bind TasksLive-order _ _ (requeue_expired-Lives now) λ _.
      counted-Lives _ (extended now) _ (extended-Reach task_id agent claim_id now)
        (λ n. search (task_rules, get-Lives))

taken-Reach :
    (task_id fresh agent : String) (now : ℕ) (t : Task)
    → (t.task_id == task_id && is_task_open t.status) ≡ true
    → Reach t (taken fresh agent now t)
taken-Reach task_id fresh agent now t h =
    next here (take t agent fresh now (now + task_lease) (ground arith))

pub claim-Lives :
    (fresh task_id agent : String) (now : ℕ) → Respects TasksLive (claim fresh task_id agent now)
unfolding claim
claim-Lives fresh task_id agent now =
    Respects-bind TasksLive-order _ _ (requeue_expired-Lives now) λ _.
      Respects-bind TasksLive-order _ _ (get-Lives agent task_id now) λ _.
        counted-Lives _ (taken fresh agent now) _ (taken-Reach task_id fresh agent now)
          (λ n. search (task_rules, get-Lives))
