-- ===== src/Tests/Bodies.antt =====
-- The validators and the operator's retries at work.
use self_organizing_multi_ag.Base.{
  ℕ, ◌≡◌, ◌≤◌, refl, none, some, [], ◌∷◌, Bool, true, arith, pos, ltb,
}
use self_organizing_multi_ag.Errors.{ok}
use self_organizing_multi_ag.Db.{Db, Task, JobRow, ◌>>=◌}
use self_organizing_multi_ag.Table.{find, first, update, insert, affected, IsKeyed}
use self_organizing_multi_ag.Tests.{sample, waiting_job}
use self_organizing_multi_ag.Tasks.{task_key}
use self_organizing_multi_ag.Queue.{job_key, claimable, awaits}
use self_organizing_multi_ag.Members.{InviteRequest}
use self_organizing_multi_ag.Limits.{ObjectSize}
use self_organizing_multi_ag.Requests.{RegisterRequest}
use self_organizing_multi_ag.Operator.{
  restarted, exhausted, restart, restart_once, retry_verification,
}
use self_organizing_multi_ag.Operator.Retry.{retry_revives}

abbrev no_object : ObjectSize
no_object = record { entries = 0; encoded = none }

abbrev guest : InviteRequest
guest = record { agent_id = "guest"; reviewer = true; scope = "t3"; expires_in_seconds = pos 3600 }

abbrev percent_off : ℕ → Bool
percent_off n = ltb 100 n

abbrev newcomer : RegisterRequest ℕ
newcomer = record {
  capabilities = record { capability_id = ""; name = "go"; description = ""; tags = [] } ∷ [];
  tools = record { name = "sh"; version = ""; operations = []; risk = "local_read" } ∷ [];
  skills = [];
  constraints = no_object;
  current_load = some 40;
  preferred_roles = [];
  evidence = [];
  operator = "";
}

abbrev worn_out : JobRow
worn_out = record waiting_job { attempts = 5; attempt_id = "a5"; lease_until = 900; next_at = 1860 }

abbrev stuck : Db
stuck = record sample { verification_jobs = worn_out ∷ [] }

stuck-IsKeyed : IsKeyed job_key stuck.verification_jobs
unfolding find
stuck-IsKeyed = (refl, tt)

retried_once : (retry_verification 11 "t3" 2000 stuck).0 ≡ ok true
unfolding retry_verification restart_once restart exhausted find first update insert affected ◌>>=◌
retried_once = refl

retry_revives_example :
    (j : JobRow) × (t : Task) × (find job_key "t3" stuck.verification_jobs ≡ some j)
    × (find task_key "t3" stuck.tasks ≡ some t)
    × (5 ≤ j.attempts)
    × (j.lease_until ≤ 2000)
    × (find job_key "t3" (retry_verification 11 "t3" 2000 stuck).1.verification_jobs
        ≡ some (restarted 2000 j))
    × (claimable (retry_verification 11 "t3" 2000 stuck).1 "creator" 2100 (restarted 2000 j)
        ≡ awaits stuck "creator" j t)
retry_revives_example =
    retry_revives 11 "t3" 2000 2100 stuck "creator" stuck-IsKeyed retried_once (omega arith)
