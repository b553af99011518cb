-- ===== src/TaskLife/Verdicts.antt =====
-- Lemmas on the task table under internal/store/verification_queue.go and `Verify` of
-- internal/store/tasks.go.
use self_organizing_multi_ag.Base.{
  ℕ, String, ◌≡◌, refl, sym, subst, ap, ◌∙◌, Option, none, some, inl, inr, ◌==◌,
}
use self_organizing_multi_ag.Db.{
  Db, Task, JobRow, modify, Verdict, verified, rejected, task_submitted,
}
use self_organizing_multi_ag.Db.Respects.{
  Respects, IsPreorder, respects_rules, Respects-modify, Respects-bind, Respects-pure,
}
use self_organizing_multi_ag.Table.{IsKeyed, update}
use self_organizing_multi_ag.Tasks.{task_key, get}
use self_organizing_multi_ag.Tasks.Lifecycle.{Reach, here, next, complete, fail}
use self_organizing_multi_ag.Tasks.Lives.{
  Lives, Lives-refl, Lives-trans, Lives-update_at, Lives-IsKeyed,
}
use self_organizing_multi_ag.Queue.{
  take_job, or_no_job, claim_verification, VerifyRequest, finish_job, finish_found,
  finish_verification_job,
}
use self_organizing_multi_ag.Verification.{judged, judge, verify}
use self_organizing_multi_ag.Verification.Checks.{Committed, judge_outcome}
use self_organizing_multi_ag.TaskLife.{get-Lives}

abbrev pub SameTasks : Db → Db → Type 0
SameTasks db db' = db'.tasks ≡ db.tasks

SameTasks-order : IsPreorder SameTasks
SameTasks-order = record { same = λ db. refl; chain = λ a b c p q. q ∙ p }

-- A statement on another table.
other : (f : Db → Db) → ((db : Db) → (f db).tasks ≡ db.tasks) → Respects SameTasks (modify f)
other f e = Respects-modify f e

ruleset same_rules = (respects_rules, SameTasks-order)

take_job-SameTasks :
    (fresh : String) (now : ℕ) (j : JobRow) → Respects SameTasks (take_job fresh now j)
unfolding take_job
take_job-SameTasks fresh now j =
    Respects-bind SameTasks-order _ _ (other _ (λ db. refl)) (λ _. search same_rules depth 8)

or_no_job-SameTasks :
    (found : Option JobRow) (fresh : String) (now : ℕ)
    → Respects SameTasks (or_no_job found (take_job fresh now))
or_no_job-SameTasks none fresh now = Respects-pure SameTasks-order none
or_no_job-SameTasks (some j) fresh now = take_job-SameTasks fresh now j

pub claim_verification-SameTasks :
    (fresh viewer : String) (now : ℕ) → Respects SameTasks (claim_verification fresh viewer now)
unfolding claim_verification
claim_verification-SameTasks fresh viewer now = search (same_rules, or_no_job-SameTasks)

finish_job-SameTasks :
    (task_id : String) (req : VerifyRequest) (now : ℕ) (j : JobRow)
    → Respects SameTasks (finish_job task_id req now j)
unfolding finish_job
finish_job-SameTasks task_id req now j =
    Respects-bind SameTasks-order _ _ (search same_rules) (λ _. other _ (λ db. refl))

finish_found-SameTasks :
    (task_id : String) (req : VerifyRequest) (now : ℕ) (j : Option JobRow)
    → Respects SameTasks (finish_found task_id req now j)
unfolding finish_found
finish_found-SameTasks task_id req now none = search same_rules
finish_found-SameTasks task_id req now (some j) = finish_job-SameTasks task_id req now j

pub finish_verification_job-SameTasks :
    (task_id : String) (req : VerifyRequest) (now : ℕ)
    → Respects SameTasks (finish_verification_job task_id req now)
unfolding finish_verification_job
finish_verification_job-SameTasks task_id req now = search (same_rules, finish_found-SameTasks)

judged-Reach :
    (v : Verdict) (t : Task)
    → t.status ≡ task_submitted
    → Reach t (record t { status = judged v t.status })
unfolding judged
judged-Reach verified t h = next here (complete t h)
judged-Reach rejected t h = next here (fail t h)
judged-Reach _ t h = here

-- Lives from a table whose ids are unique.
abbrev pub KeyedLive : Db → Db → Type 0
KeyedLive db db' = IsKeyed task_key db.tasks → Lives db.tasks db'.tasks

KeyedLive-order : IsPreorder KeyedLive
KeyedLive-order = record {
  same = λ db k. Lives-refl db.tasks;
  chain = λ a b c g h k. Lives-trans (g k) (h (Lives-IsKeyed (g k) k));
}

get-KeyedLive : (viewer task_id : String) (now : ℕ) → Respects KeyedLive (get viewer task_id now)
get-KeyedLive viewer task_id now = record { at = λ db k. (get-Lives viewer task_id now).at db }

Committed-KeyedLive :
    (fresh task_id verifier : String) (req : VerifyRequest) (now : ℕ) (db : Db)
    → Committed fresh task_id verifier req now db
    → KeyedLive db (judge fresh task_id verifier req now db).1
Committed-KeyedLive fresh task_id verifier req now db c k =
    let same = (finish_verification_job-SameTasks task_id req now).at db in
    let p = λ (t : Task). t.task_id == task_id in
    let f = λ (t : Task). record t { status = judged req.verdict t.status } in
    subst (Lives db.tasks) (sym (ap (λ d. d.tasks) c.after ∙ ap (update p f) same)) (
      Lives-update_at task_id f c.task db.tasks k c.task_found
        (judged-Reach req.verdict c.task c.accepted.submitted))

judge-KeyedLive :
    (fresh task_id verifier : String) (req : VerifyRequest) (now : ℕ)
    → Respects KeyedLive (judge fresh task_id verifier req now)
judge-KeyedLive fresh task_id verifier req now = record {
  at = λ db. elim (judge_outcome fresh task_id verifier req now db) [
    | inl c ↦ Committed-KeyedLive fresh task_id verifier req now db c
    | inr (e, h, same) ↦ subst (KeyedLive db) (sym same) (KeyedLive-order.same db)
  ];
}

-- `Verify`, accepted or not, moves tasks along their lifecycle.
pub verify-KeyedLive :
    (fresh task_id verifier : String) (req : VerifyRequest) (now : ℕ)
    → Respects KeyedLive (verify fresh task_id verifier req now)
unfolding verify
verify-KeyedLive fresh task_id verifier req now =
    search (respects_rules, KeyedLive-order, get-KeyedLive, judge-KeyedLive) depth 8
