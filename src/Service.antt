-- ===== src/Service.antt =====
-- The store as one system: any sequence of its task operations (internal/store/tasks.go, messages.go and
-- verification_queue.go), by any callers at any times.
use self_organizing_multi_ag.Base.{
  ℕ, String, ◌≡◌, sym, subst, Option, none, some, List, [], ◌∷◌, All,
}
use self_organizing_multi_ag.Db.{Db, Task}
use self_organizing_multi_ag.Table.{IsKeyed, find}
use self_organizing_multi_ag.Tasks.{
  task_key, CreateTaskRequest, requeue_expired, get, heartbeat, create, claim,
}
use self_organizing_multi_ag.Tasks.Lifecycle.{IsValid, Reach, here, Reach-trans}
use self_organizing_multi_ag.Tasks.Lives.{
  Lives, Lives-refl, Lives-find, Lives-IsValid, Lives-IsKeyed, IsFinal, Reach-IsFinal,
}
use self_organizing_multi_ag.Queue.{VerifyRequest, claim_verification}
use self_organizing_multi_ag.Verification.{verify}
use self_organizing_multi_ag.Messages.{Envelope, insert_message}
use self_organizing_multi_ag.TaskLife.{
  requeue_expired-Lives, get-Lives, heartbeat-Lives, claim-Lives,
}
use self_organizing_multi_ag.TaskLife.Verdicts.{claim_verification-SameTasks, verify-KeyedLive}
use self_organizing_multi_ag.TaskLife.Submission.{insert_message-Lives}
use self_organizing_multi_ag.TaskLife.Creation.{
  Created, create-Created, Created-find, Created-IsValid, Created-IsKeyed,
}

-- A call with its arguments, the clock reading last and a new identifier first.
pub data Operation : Type 0 where
  recover : ℕ → Operation
  create_task : String → String → CreateTaskRequest → String → ℕ → Operation
  get_task : String → String → ℕ → Operation
  claim_task : String → String → String → ℕ → Operation
  heartbeat_task : String → String → String → ℕ → Operation
  store_message : Envelope → ℕ → Operation
  claim_job : String → String → ℕ → Operation
  verify_task : String → String → String → VerifyRequest → ℕ → Operation

-- The ids are unique, and each task's columns fit its status.
pub record TasksValid (db : Db) : Type 0 where
  pub keyed : IsKeyed task_key db.tasks
  pub shaped : All IsValid db.tasks

module _ (result_claim : String → Option String) where
  -- The database after one call.
  unfoldable pub exec : Operation → Db → Db
  exec (recover now) db = (requeue_expired now db).1
  exec (create_task fresh creator req key now) db = (create fresh creator req key now db).1
  exec (get_task viewer task_id now) db = (get viewer task_id now db).1
  exec (claim_task fresh task_id agent now) db = (claim fresh task_id agent now db).1
  exec (heartbeat_task task_id agent claim_id now) db = (heartbeat task_id agent claim_id now db).1
  exec (store_message env now) db = (insert_message result_claim env now db).1
  exec (claim_job fresh viewer now) db = (claim_verification fresh viewer now db).1
  exec (verify_task fresh task_id verifier req now) db =
      (verify fresh task_id verifier req now db).1

  unfoldable pub run : List Operation → Db → Db
  unfolding exec
  run [] db = db
  run (o ∷ os) db = run os (exec o db)

  -- What `idgen.New` is relied on for: the id that a creation gets is no task's yet.
  abbrev pub IsFresh : Operation → Db → Type 0
  IsFresh (create_task fresh creator req key now) db = find task_key fresh db.tasks ≡ none
  IsFresh _ db = Unit

  abbrev pub AllFresh : List Operation → Db → Type 0
  AllFresh [] db = Unit
  AllFresh (o ∷ os) db = IsFresh o db × AllFresh os (exec o db)

  -- What one call may do to the task table.
  Moved : Operation → Db → Db → Type 0
  Moved (create_task fresh creator req key now) db db' = Created fresh db.tasks db'.tasks
  Moved _ db db' = Lives db.tasks db'.tasks

  exec-Moved : (o : Operation) (db : Db) → TasksValid db → Moved o db (exec o db)
  unfolding exec Moved
  exec-Moved (recover now) db v = (requeue_expired-Lives now).at db
  exec-Moved (create_task fresh creator req key now) db v =
      create-Created fresh creator req key now db
  exec-Moved (get_task viewer task_id now) db v = (get-Lives viewer task_id now).at db
  exec-Moved (claim_task fresh task_id agent now) db v = (claim-Lives fresh task_id agent now).at db
  exec-Moved (heartbeat_task task_id agent claim_id now) db v =
      (heartbeat-Lives task_id agent claim_id now).at db
  exec-Moved (store_message env now) db v = (insert_message-Lives result_claim env now).at db
  exec-Moved (claim_job fresh viewer now) db v =
      subst (Lives db.tasks) (sym ((claim_verification-SameTasks fresh viewer now).at db))
        (Lives-refl db.tasks)
  exec-Moved (verify_task fresh task_id verifier req now) db v =
      (verify-KeyedLive fresh task_id verifier req now).at db v.keyed

  valid_of_Moved :
      (o : Operation) (db db' : Db) → IsFresh o db → TasksValid db → Moved o db db' → TasksValid db'
  unfolding Moved
  valid_of_Moved (create_task fresh creator req key now) db db' f v c = record {
    keyed = Created-IsKeyed c f v.keyed;
    shaped = Created-IsValid c v.shaped;
  }
  valid_of_Moved _ db db' f v g = record {
    keyed = Lives-IsKeyed g v.keyed;
    shaped = Lives-IsValid g v.shaped;
  }

  find_of_Moved :
      (o : Operation) (db db' : Db) (k : String) (t : Task)
      → Moved o db db'
      → find task_key k db.tasks ≡ some t
      → (u : Task) × (find task_key k db'.tasks ≡ some u) × Reach t u
  unfolding Moved
  find_of_Moved (create_task fresh creator req key now) db db' k t c e = Created-find k t c e
  find_of_Moved _ db db' k t g e = Lives-find k t g e

  exec-TasksValid :
      (o : Operation) (db : Db) → IsFresh o db → TasksValid db → TasksValid (exec o db)
  exec-TasksValid o db f v = valid_of_Moved o db (exec o db) f v (exec-Moved o db v)

  -- From a valid database, whatever task operations are called, in whatever order, the ids of the
  -- tasks stay unique and the columns of each task fit its status: an open task has no owner,
  -- claim, lease or result, a claimed one has the first three and no result, and a submitted or
  -- judged one has an owner, a claim, a result and no lease. The ids that creations get are new.
  pub run-TasksValid :
      (os : List Operation) (db : Db) → AllFresh os db → TasksValid db → TasksValid (run os db)
  unfolding run
  run-TasksValid [] db f v = v
  run-TasksValid (o ∷ os) db f v = run-TasksValid os (exec o db) f.1 (exec-TasksValid o db f.0 v)

  -- A task of a valid database is still there after any sequence of the task operations, and has
  -- moved by steps of its lifecycle alone, each of which keeps its id, its creator, its project
  -- and its requirements. The ids that creations get are new.
  pub run-Reach :
      (os : List Operation) (db : Db) (k : String) (t : Task)
      → AllFresh os db
      → TasksValid db
      → find task_key k db.tasks ≡ some t
      → (u : Task) × (find task_key k (run os db).tasks ≡ some u) × Reach t u
  unfolding run
  run-Reach [] db k t f v e = (t, e, here)
  run-Reach (o ∷ os) db k t f v e =
      let (u, e', r) = find_of_Moved o db (exec o db) k t (exec-Moved o db v) e in
      let (w, e'', r') = run-Reach os (exec o db) k u f.1 (exec-TasksValid o db f.0 v) e' in
      (w, e'', Reach-trans r r')

  -- A verdict is final: a task of a valid database that is COMPLETED or FAILED stays as it is,
  -- every column of it, through any sequence of the task operations. The ids that creations get
  -- are new.
  pub run_final :
      (os : List Operation) (db : Db) (k : String) (t : Task)
      → AllFresh os db
      → TasksValid db
      → find task_key k db.tasks ≡ some t
      → IsFinal t
      → find task_key k (run os db).tasks ≡ some t
  run_final os db k t f v e final =
      let (u, e', r) = run-Reach os db k t f v e in
      subst (λ w. find task_key k (run os db).tasks ≡ some w) (Reach-IsFinal r final) e'
