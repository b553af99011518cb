-- ===== src/Tests/Claims.antt =====
-- Claims of a task at work.
use self_organizing_multi_ag.Base.{◌≡◌, refl, true, false, some, arith}
use self_organizing_multi_ag.Errors.{ok, is_ok}
use self_organizing_multi_ag.Scope.{visible}
use self_organizing_multi_ag.Tasks.{claim, taken}
use self_organizing_multi_ag.Tasks.Claiming.{claim_outcome, requeued, seen, claim_lem}
use self_organizing_multi_ag.Tasks.Exclusive.{row, claim_excluded, claim_takes_over}
use self_organizing_multi_ag.Tests.{held_task, sample, tasks-IsKeyed, held_row}

claim_lem_example :
    claim "c2" "t1" "worker" 50 sample
    ≡ claim_outcome "c2" "t1" "worker" 50
        (requeued 50 sample)
        (seen "worker" 50 "t1" (requeued 50 sample))
claim_lem_example = claim_lem "c2" "t1" "worker" 50 sample tasks-IsKeyed

claim_excluded_example :
    (is_ok (claim "c2" "t2" "other" 399 sample).0 ≡ false)
    × (row "t2" (claim "c2" "t2" "other" 399 sample).1 ≡ some held_task)
claim_excluded_example =
    claim_excluded "c2" "t2" "other" 399 sample held_task "c1" 400 tasks-IsKeyed held_row refl refl
      refl (omega arith)

held_seen : visible sample "other" 400 held_task.project_id (some held_task.task_id) ≡ true
unfolding visible
held_seen = refl

claim_takes_over_example :
    ((claim "c2" "t2" "other" 400 sample).0 ≡ ok (taken "c2" "other" 400 held_task))
    × (row "t2" (claim "c2" "t2" "other" 400 sample).1 ≡ some (taken "c2" "other" 400 held_task))
claim_takes_over_example =
    claim_takes_over "c2" "t2" "other" 400 sample held_task 400 tasks-IsKeyed held_row refl refl
      (omega arith) held_seen
