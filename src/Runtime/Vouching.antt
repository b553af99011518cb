-- ===== src/Runtime/Vouching.antt =====
-- Lemmas on the verdicts that `verifyJob` of internal/agent/agent.go sends.
use self_organizing_multi_ag.Base.{
  List, [], subst, String, ◌≡◌, refl, sym, ap, ◌∙◌, Bool, true, false, ◌&&◌, Option, none, some,
  All, arith, ◌==◌, eq_iff, opt_text, Bool-cases, inl, inr,
}
use self_organizing_multi_ag.Errors.{Result, ok, err}
use self_organizing_multi_ag.Db.{Artifact, Verdict, verified, rejected, inconclusive, other_verdict}
use self_organizing_multi_ag.Tasks.{is_task_submitted}
use self_organizing_multi_ag.Queue.{VerificationJob, VerifyRequest}
use self_organizing_multi_ag.Messages.Payloads.{ResultPayload}
use self_organizing_multi_ag.Runtime.{
  Outside, Gathered, nothing_yet, gather, tempered, conclude, JobOutcome, refused, submits,
  as_request, examine, verify_job,
}
use self_organizing_multi_ag.Runtime.Gathering.{Held, gather-Held}
use self_organizing_multi_ag.Runtime.Presented.{distinct, Shown, gather-Shown}

-- What stands behind a job's verdict that the result is good.
pub record Vouched (o : Outside) (job : VerificationJob) (r : VerifyRequest) : Type 0 where
  pub payload : ResultPayload
  pub decoded : o.payload_of job.result.payload ≡ some payload
  pub success : payload.status ≡ "success"
  pub held : All (Held o job) payload.artifacts
  pub evidence : r.evidence ≡ distinct [] payload.artifacts
  pub artifacts : List Artifact
  pub contents : List String
  pub shown : Shown o job r.evidence artifacts contents
  pub rationale : String
  pub judged :
      o.judge job.task (record { result = payload; artifacts = artifacts; contents = contents })
      ≡ ok (verified, rationale)

tempered-verified :
    (status : String) (r : Result (Verdict × String)) (why : String)
    → tempered status r ≡ ok (verified, why)
    → (status ≡ "success") × (r ≡ ok (verified, why))
unfolding tempered
tempered-verified status (err e) why h = cc
tempered-verified status (ok (verified, x)) why h = ground (arith, eq_iff status "success")
tempered-verified status (ok (rejected, x)) why h = cc
tempered-verified status (ok (inconclusive, x)) why h = cc
tempered-verified status (ok (other_verdict s, x)) why h = cc

abbrev request_of : JobOutcome → VerifyRequest → VerifyRequest
request_of (submits r) d = r
request_of _ d = d

submitted_request : {q r : VerifyRequest} → submits q ≡ submits r → q ≡ r
submitted_request {q} {r} h = ap (λ x. request_of x q) h

as_request_sent :
    (job : VerificationJob) (g : Gathered) (res : Result (Verdict × String)) (r : VerifyRequest)
    → as_request job g res ≡ submits r
    → (v : Verdict) × (why : String) × (res ≡ ok (v, why))
      × (r.verdict ≡ v)
      × (r.evidence ≡ g.evidence)
      × (r.attempt_id ≡ job.attempt_id)
      × (r.target_message_id ≡ job.result.message_id)
as_request_sent job g (err e) r h = cc
as_request_sent job g (ok (v, why)) r h =
    let same = submitted_request h in
    (
      v,
      why,
      refl,
      ap (λ x. x.verdict) (sym same),
      ap (λ x. x.evidence) (sym same),
      ap (λ x. x.attempt_id) (sym same),
      ap (λ x. x.target_message_id) (sym same),
    )

abbrev answer_verdict : Result (Verdict × String) → Option Verdict
answer_verdict (ok (v, why)) = some v
answer_verdict (err e) = none

not_concluded :
    (o : Outside) (job : VerificationJob) (payload : ResultPayload) (g : Gathered)
    → g.unavailable ≡ true
    → answer_verdict (conclude o job payload g) ≡ some inconclusive
unfolding conclude
not_concluded o job payload g missing = rw missing refl

at_hand :
    (o : Outside) (job : VerificationJob) (payload : ResultPayload) (g : Gathered)
    → g.unavailable ≡ false
    → conclude o job payload g
      ≡ tempered payload.status (
          o.judge job.task
            (record { result = payload; artifacts = g.artifacts; contents = g.contents }))
unfolding conclude
at_hand o job payload g all = rw all refl

concluded :
    (o : Outside) (job : VerificationJob) (payload : ResultPayload) (g : Gathered) (why : String)
    → conclude o job payload g ≡ ok (verified, why)
    → (g.unavailable ≡ false)
      × (payload.status ≡ "success")
      × (o.judge job.task
            (record { result = payload; artifacts = g.artifacts; contents = g.contents })
          ≡ ok (verified, why))
unfolding conclude
concluded o job payload g why h = elim (Bool-cases g.unavailable) [
  | inl missing ↦ cc (not_concluded o job payload g missing)
  | inr all ↦
      let (success, judged) =
        tempered-verified payload.status _ why (sym (at_hand o job payload g all) ∙ h) in
      (all, success, judged)
]

examine-Vouched :
    (o : Outside) (job : VerificationJob) (p : Option ResultPayload) (r : VerifyRequest)
    → o.payload_of job.result.payload ≡ p
    → examine o job p ≡ submits r
    → r.verdict ≡ verified
    → (r.attempt_id ≡ job.attempt_id)
      × (r.target_message_id ≡ job.result.message_id)
      × Vouched o job r
unfolding examine
examine-Vouched o job none r e h v = cc
examine-Vouched o job (some payload) r e h v =
    let g = gather o job payload.artifacts nothing_yet in
    let (verdict, why, res, same, evidence, attempt, target) =
      as_request_sent job g (conclude o job payload g) r h in
    let good = res ∙ ap (λ x. ok (x, why)) (sym same ∙ v) in
    let (all, success, judged) = concluded o job payload g why good in
    let (named, shown) = gather-Shown o job payload.artifacts all in
    (
      attempt,
      target,
      record {
        payload = payload;
        decoded = e;
        success = success;
        held = gather-Held o job payload.artifacts nothing_yet (λ x m. cc) all;
        evidence = evidence ∙ named;
        artifacts = g.artifacts;
        contents = g.contents;
        shown = subst (λ x. Shown o job x g.artifacts g.contents) (sym evidence) shown;
        rationale = why;
        judged = judged;
      },
    )

verify_job_other :
    (o : Outside) (job : VerificationJob)
    → (job.task.created_by == o.agent_id) ≡ false
    → verify_job o job ≡ refused "verification job belongs to another creator"
unfolding verify_job
verify_job_other o job e = rw e refl

abbrev is_submitted_result : VerificationJob → Bool
is_submitted_result job =
    is_task_submitted job.task.status
    && opt_text job.task.submitted_message_id == job.result.message_id

verify_job_stale :
    (o : Outside) (job : VerificationJob)
    → (job.task.created_by == o.agent_id) ≡ true
    → is_submitted_result job ≡ false
    → verify_job o job ≡ refused "verification job is not the submitted result"
unfolding verify_job
verify_job_stale o job e e' = rw (e, e') refl

verify_job_due :
    (o : Outside) (job : VerificationJob)
    → (job.task.created_by == o.agent_id) ≡ true
    → is_submitted_result job ≡ true
    → verify_job o job ≡ examine o job (o.payload_of job.result.payload)
unfolding verify_job
verify_job_due o job e e' = rw (e, e') refl

-- An agent's process calls a result verified only for a job of its own task, under the job's
-- attempt and message, when the worker reports a success and the brain, shown that result with
-- every artifact that it names, each once and in order, and their contents, judges it verified.
-- Each of these artifacts is the worker's, is attached to the task, has not expired, and was
-- fetched, and their ids are the evidence of the verdict.
pub verify_job-Vouched :
    (o : Outside) (job : VerificationJob) (r : VerifyRequest)
    → verify_job o job ≡ submits r
    → r.verdict ≡ verified
    → (job.task.created_by ≡ o.agent_id)
      × (r.attempt_id ≡ job.attempt_id)
      × (r.target_message_id ≡ job.result.message_id)
      × Vouched o job r
verify_job-Vouched o job r h v = elim (Bool-cases (job.task.created_by == o.agent_id)) [
  | inr other ↦ cc (verify_job_other o job other)
  | inl own ↦ elim (Bool-cases (is_submitted_result job)) [
    | inr stale ↦ cc (verify_job_stale o job own stale)
    | inl due ↦
        let (attempt, target, vouched) =
          examine-Vouched o job (o.payload_of job.result.payload) r refl
            (sym (verify_job_due o job own due) ∙ h) v in
        ((eq_iff job.task.created_by o.agent_id).0 own, attempt, target, vouched)
  ]
]
