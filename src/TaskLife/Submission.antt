-- ===== src/TaskLife/Submission.antt =====
-- Lemmas on the task table under `Insert` of internal/store/messages.go.
use self_organizing_multi_ag.Base.{
  ℕ, String, ◌&&◌, ◌≡◌, refl, true, Option, none, some, arith, ◌==◌,
}
use self_organizing_multi_ag.Db.{Task, MessageRow}
use self_organizing_multi_ag.Db.Respects.{Respects, Respects-bind, Respects-gets}
use self_organizing_multi_ag.Tasks.Lifecycle.{Reach, here, next, submit}
use self_organizing_multi_ag.Tasks.Lives.{TasksLive, TasksLive-order}
use self_organizing_multi_ag.Messages
use self_organizing_multi_ag.Messages.{
  Envelope, with_message, matching_claim, submitted, claim_of, confirm, settle_new, replayed, dedup,
  insert_message,
}
use self_organizing_multi_ag.TaskLife.{task_rules, counted-Lives, other-Lives}

submitted-Reach :
    (env : Envelope) (claim_id : String) (now : ℕ) (t : Task)
    → (t.task_id == env.task_id && matching_claim env claim_id now t) ≡ true
    → Reach t (submitted env.message_id t)
submitted-Reach env claim_id now t h = next here (submit t env.message_id (ground arith))

claim_of-Lives : (c : Option String) → Respects TasksLive (claim_of c)
unfolding claim_of
claim_of-Lives none = search task_rules
claim_of-Lives (some c) = search task_rules

module _ (result_claim : String → Option String) (env : Envelope) (now : ℕ) where
  submit-Lives : Respects TasksLive (Messages.submit result_claim env now)
  unfolding Messages.submit
  submit-Lives =
      Respects-bind TasksLive-order _ _ (claim_of-Lives (result_claim env.payload)) λ claim_id.
        counted-Lives _ (submitted env.message_id) _ (submitted-Reach env claim_id now) λ n.
          Respects-bind TasksLive-order _ _ (search task_rules) λ _.
            Respects-bind TasksLive-order _ _ (Respects-gets TasksLive-order _) λ _.
              Respects-bind TasksLive-order _ _ (search task_rules) λ _. other-Lives _ (λ db. refl)

  confirm-Lives : Respects TasksLive (confirm result_claim env now)
  unfolding confirm
  confirm-Lives = search (task_rules, submit-Lives) depth 9

  settle_new-Lives : Respects TasksLive (settle_new result_claim env now)
  unfolding settle_new
  settle_new-Lives =
      Respects-bind TasksLive-order _ _ (other-Lives (with_message env now) (λ db. refl))
        (λ _. confirm-Lives)

  dedup-Lives : (old : Option MessageRow) → Respects TasksLive (dedup result_claim env now old)
  unfolding dedup replayed
  dedup-Lives none = settle_new-Lives
  dedup-Lives (some stored) = search task_rules

  -- Storing a message, refused or not, moves tasks along their lifecycle.
  pub insert_message-Lives : Respects TasksLive (insert_message result_claim env now)
  unfolding insert_message
  insert_message-Lives = search (task_rules, dedup-Lives)
