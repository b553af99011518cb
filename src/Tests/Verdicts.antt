-- ===== src/Tests/Verdicts.antt =====
-- The verification queue and the verdicts at work.
use self_organizing_multi_ag.Base.{
  ◌+◌, ◌≤◌, ◌<◌, String, ◌≡◌, ◌≢◌, ◌↔◌, ◌⊎◌, refl, some, [], arith, eq_iff,
}
use self_organizing_multi_ag.Errors.{ApiError, ok, err, conflict}
use self_organizing_multi_ag.Db.{Db, JobRow, verified, ◌>>=◌}
use self_organizing_multi_ag.Table.{find, select, update, IsKeyed}
use self_organizing_multi_ag.Queue.{
  VerificationJob, VerifyRequest, job_key, claim_verification, next_job, claimable, may_verify_in,
  earliest, take_job, verification_backoff, finish_verification_job,
}
use self_organizing_multi_ag.Queue.Exclusive.{
  attempt_excludes, late_verdict_refused, timely_verdict_taken, Finished,
}
use self_organizing_multi_ag.Verification.{check_target, judge}
use self_organizing_multi_ag.Verification.Checks.{
  Accepted, check_target_iff, Committed, judge_outcome,
}
use self_organizing_multi_ag.Queue.Attempts.{backoff_bounds, Leased, claim_verification-Leased}
use self_organizing_multi_ag.Tests.{handed_in, answer_message, waiting_job, sample}

backoff_bounds_example :
    (60 ≤ verification_backoff 2)
    × (verification_backoff 2 ≤ verification_backoff 7)
    × (verification_backoff 7 ≤ 960)
backoff_bounds_example = backoff_bounds 2 7 (omega arith)

abbrev first_job : VerificationJob
first_job = record {
  attempt_id = "a1";
  attempts = 1;
  lease_until = 350;
  task = handed_in;
  result = answer_message;
}

jobs-IsKeyed : IsKeyed job_key sample.verification_jobs
unfolding find
jobs-IsKeyed = (refl, tt)

handed_out : (claim_verification "a1" "creator" 50 sample).0 ≡ ok (some first_job)
unfolding claim_verification next_job claimable earliest take_job may_verify_in find select update
    ◌>>=◌
handed_out = refl

claim_verification-Leased_example : Leased "a1" "creator" 50 sample first_job
claim_verification-Leased_example =
    claim_verification-Leased "a1" "creator" 50 sample first_job jobs-IsKeyed handed_out

abbrev after_claim : Db
after_claim = (claim_verification "a1" "creator" 50 sample).1

abbrev row_out : JobRow
row_out = record waiting_job { attempts = 1; next_at = 410; attempt_id = "a1"; lease_until = 350 }

leased_row : find job_key first_job.task.task_id after_claim.verification_jobs ≡ some row_out
unfolding claim_verification next_job claimable earliest take_job may_verify_in find select update
    ◌>>=◌ verification_backoff
leased_row = refl

jobs_after-IsKeyed : IsKeyed job_key after_claim.verification_jobs
unfolding claim_verification next_job claimable earliest take_job may_verify_in find select update
    ◌>>=◌ verification_backoff
jobs_after-IsKeyed = (refl, tt)

wait_runs : 409 < 350 + verification_backoff 1
unfolding verification_backoff
wait_runs = omega arith

attempt_excludes_example :
    (claim_verification "a2" "creator" 409 after_claim).0 ≢ ok (some first_job)
attempt_excludes_example =
    attempt_excludes "a1" "creator" 50 sample first_job jobs-IsKeyed handed_out "a2" "creator" 409
      after_claim first_job jobs_after-IsKeyed refl wait_runs refl

named : ◌≢◌ {A = String} "a1" ""
named = ground (arith, eq_iff "a1" "")

other_name : ◌≢◌ {A = String} "a0" "a1"
other_name = ground (arith, eq_iff "a0" "a1")

abbrev good_verdict : VerifyRequest
good_verdict = record {
  attempt_id = "a1";
  target_message_id = "m1";
  verdict = verified;
  rationale = "recomputed";
  evidence = [];
}

abbrev late_verdict : VerifyRequest
late_verdict = record good_verdict { attempt_id = "a0" }

late_verdict_refused_example :
    (m : String) × (finish_verification_job "t3" late_verdict 100 after_claim
      ≡ (err (conflict m), after_claim))
late_verdict_refused_example =
    late_verdict_refused "a1" "creator" 50 sample first_job jobs-IsKeyed handed_out late_verdict 100
      named other_name (omega arith)

timely_verdict_taken_example :
    ((finish_verification_job "t3" good_verdict 100 after_claim).0 ≡ ok tt)
    × (s : JobRow) × (find job_key "t3"
          (finish_verification_job "t3" good_verdict 100 after_claim).1.verification_jobs
        ≡ some s)
    × Finished first_job good_verdict 100 row_out s
timely_verdict_taken_example =
    timely_verdict_taken "a1" "creator" 50 sample first_job jobs-IsKeyed handed_out good_verdict 100
      row_out leased_row named refl (omega arith)

check_target_iff_example :
    ((check_target "t3" "creator" good_verdict handed_in sample).0 ≡ ok tt)
    ↔ Accepted "t3" "creator" good_verdict handed_in sample
check_target_iff_example = check_target_iff "t3" "creator" good_verdict handed_in sample

judge_outcome_example :
    Committed "v1" "t3" "creator" late_verdict 100 after_claim
    ⊎ ((e : ApiError) × ((judge "v1" "t3" "creator" late_verdict 100 after_claim).0 ≡ err e)
        × ((judge "v1" "t3" "creator" late_verdict 100 after_claim).1 ≡ after_claim))
judge_outcome_example = judge_outcome "v1" "t3" "creator" late_verdict 100 after_claim
