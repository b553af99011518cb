-- ===== src/Tasks/Lifecycle.antt =====
-- The life of a task: the steps that an operation can make it take, and what a task looks like in
-- each status.
use self_organizing_multi_ag.Base.{ℕ, String, ◌≡◌, true, none, some, arith, is_some}
use self_organizing_multi_ag.Db.{
  Task, TaskStatus, task_open, task_claimed, task_submitted, task_completed, task_failed,
}

-- One change of a task's row; every other column keeps its value.
pub data Step : Task → Task → Type 0 where
  reopen :
      (t : Task)
      → t.status ≡ task_claimed
      → Step t (record t {
        status = task_open;
        owner = none;
        claimed_at = none;
        lease_expires_at = none;
        claim_id = none;
        submitted_message_id = none;
      })
  take :
      (t : Task) (agent fresh : String) (now lease : ℕ)
      → t.status ≡ task_open
      → Step t (record t {
        status = task_claimed;
        owner = some agent;
        claimed_at = some now;
        lease_expires_at = some lease;
        claim_id = some fresh;
        submitted_message_id = none;
      })
  extend :
      (t : Task) (lease : ℕ)
      → t.status ≡ task_claimed
      → Step t (record t { lease_expires_at = some lease })
  submit :
      (t : Task) (message : String)
      → t.status ≡ task_claimed
      → Step t (record t {
        status = task_submitted;
        submitted_message_id = some message;
        lease_expires_at = none;
      })
  complete : (t : Task) → t.status ≡ task_submitted → Step t (record t { status = task_completed })
  fail : (t : Task) → t.status ≡ task_submitted → Step t (record t { status = task_failed })

pub data Reach (t : Task) : Task → Type 0 where
  here : Reach t t
  next : {u v : Task} → Reach t u → Step u v → Reach t v

pub Reach-trans : {t u v : Task} → Reach t u → Reach u v → Reach t v
Reach-trans r here = r
Reach-trans r (next s st) = next (Reach-trans r s) st

-- What the columns hold in each status.
abbrev pub Shape : TaskStatus → Task → Type 0
Shape task_open t =
    (t.owner ≡ none)
    × (t.claim_id ≡ none)
    × (t.lease_expires_at ≡ none)
    × (t.submitted_message_id ≡ none)
Shape task_claimed t =
    (is_some t.owner ≡ true)
    × (is_some t.claim_id ≡ true)
    × (is_some t.lease_expires_at ≡ true)
    × (t.submitted_message_id ≡ none)
Shape _ t =
    (is_some t.owner ≡ true)
    × (is_some t.claim_id ≡ true)
    × (t.lease_expires_at ≡ none)
    × (is_some t.submitted_message_id ≡ true)

abbrev pub IsValid : Task → Type 0
IsValid t = Shape t.status t

-- Every step keeps the shape.
pub Step-IsValid : {t u : Task} → Step t u → IsValid t → IsValid u
Step-IsValid (reopen t h) v = ground arith
Step-IsValid (take t agent fresh now lease h) v = ground arith
Step-IsValid (extend t lease h) v = ground arith
Step-IsValid (submit t message h) v = ground arith
Step-IsValid (complete t h) v = ground arith
Step-IsValid (fail t h) v = ground arith

pub Reach-IsValid : {t u : Task} → Reach t u → IsValid t → IsValid u
Reach-IsValid here v = v
Reach-IsValid (next r st) v = Step-IsValid st (Reach-IsValid r v)
