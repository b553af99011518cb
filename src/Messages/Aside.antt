-- ===== src/Messages/Aside.antt =====
-- Lemmas on what `Insert` of internal/store/messages.go leaves as it was.
use self_organizing_multi_ag.Base.{ℕ, String, ◌≡◌, Option, none, some, List}
use self_organizing_multi_ag.Db.{Db, Task, MessageRow, JobRow, modify, ◌>>=◌}
use self_organizing_multi_ag.Db.Respects.{respects_rules}
use self_organizing_multi_ag.Db.Keeps.{Keeps, KeptBy-order, Keeps-modify}
use self_organizing_multi_ag.Messages.Insert.{
  Envelope, with_message, claim_of, submit, confirm, settle_new, replayed, dedup, insert_message,
}

-- A part of the database without the tasks, the messages and the jobs.
module _ {A : Type 0} (view : Db → A)
    (aside : (db : Db) (ts : List Task) (ms : List MessageRow) (js : List JobRow) (n : ℕ)
      → view (record db { tasks = ts; messages = ms; verification_jobs = js; next_seq = n })
        ≡ view db)
    (result_claim : String → Option String) (env : Envelope) (now : ℕ) where
  claim_of-Keeps : (c : Option String) → Keeps view (claim_of c)
  unfolding claim_of
  claim_of-Keeps none = search (respects_rules, KeptBy-order view)
  claim_of-Keeps (some c) = search (respects_rules, KeptBy-order view)

  tasks-Keeps :
      (f : List Task → List Task) → Keeps view (modify (λ db. record db { tasks = f db.tasks }))
  tasks-Keeps f =
      Keeps-modify view _ λ db. aside db (f db.tasks) db.messages db.verification_jobs db.next_seq

  jobs-Keeps :
      (f : List JobRow → List JobRow)
      → Keeps view (modify (λ db. record db { verification_jobs = f db.verification_jobs }))
  jobs-Keeps f =
      Keeps-modify view _ λ db. aside db db.tasks db.messages (f db.verification_jobs) db.next_seq

  message-Keeps : Keeps view (modify (with_message env now))
  message-Keeps = Keeps-modify view _ λ db. aside db db.tasks _ db.verification_jobs _

  ruleset aside_rules = (respects_rules, claim_of-Keeps, tasks-Keeps, jobs-Keeps, message-Keeps)

  submit-Keeps : Keeps view (submit result_claim env now)
  unfolding submit ◌>>=◌
  submit-Keeps = search (aside_rules, KeptBy-order view) depth 20

  confirm-Keeps : Keeps view (confirm result_claim env now)
  unfolding confirm
  confirm-Keeps = search (aside_rules, KeptBy-order view, submit-Keeps) depth 12

  dedup-Keeps : (old : Option MessageRow) → Keeps view (dedup result_claim env now old)
  unfolding dedup replayed settle_new
  dedup-Keeps none = search (aside_rules, KeptBy-order view, confirm-Keeps) depth 12
  dedup-Keeps (some stored) = search (aside_rules, KeptBy-order view) depth 12

  pub insert_message-Keeps : Keeps view (insert_message result_claim env now)
  unfolding insert_message
  insert_message-Keeps = search (aside_rules, KeptBy-order view, dedup-Keeps) depth 12
