-- ===== src/Tests/Bench.antt =====
-- The agent's process at work.
use self_organizing_multi_ag.Base.{◌≡◌, refl, ◌==◌, if◌then◌else◌, none, some, [], ◌∷◌, pos}
use self_organizing_multi_ag.Errors.{ok, err, internal}
use self_organizing_multi_ag.Db.{Artifact, verified}
use self_organizing_multi_ag.Queue.{VerificationJob, VerifyRequest}
use self_organizing_multi_ag.Tests.{handed_in, answer_message}
use self_organizing_multi_ag.Runtime.{
  Outside, verify_job, submits, examine, gather, fetched, conclude, tempered,
}
use self_organizing_multi_ag.Runtime.Vouching.{Vouched, verify_job-Vouched}

abbrev log_artifact : Artifact
log_artifact = record {
  artifact_id = "a1";
  schema_version = "1.0";
  type = "log";
  uri = "https://host/a1.txt";
  checksum = "c";
  created_by = "worker";
  task_id = some "t3";
  project_id = none;
  size = pos 10;
  retention = "permanent";
  expires_at = none;
  created_at = 25;
}

abbrev outside : Outside
outside = record {
  agent_id = "creator";
  moment = 100_000_000_000;
  payload_of =
      λ p. some (record { summary = "done"; status = "success"; artifacts = "a1" ∷ "a1" ∷ [] });
  artifact_of = λ id. if id == "a1" then ok log_artifact else err internal;
  content_of = λ a. some "all tests pass";
  judge = λ task input. ok (verified, "reproduced");
}

abbrev job : VerificationJob
job = record {
  attempt_id = "v1";
  attempts = 1;
  lease_until = 400;
  task = handed_in;
  result = answer_message;
}

abbrev verdict_request : VerifyRequest
verdict_request = record {
  attempt_id = "v1";
  target_message_id = "m1";
  verdict = verified;
  rationale = "reproduced";
  evidence = "a1" ∷ [];
}

vouches : verify_job outside job ≡ submits verdict_request
unfolding verify_job examine gather fetched conclude tempered
vouches = refl

verify_job-Vouched_example :
    (handed_in.created_by ≡ "creator")
    × ("v1" ≡ job.attempt_id)
    × ("m1" ≡ answer_message.message_id)
    × Vouched outside job verdict_request
verify_job-Vouched_example = verify_job-Vouched outside job verdict_request vouches refl
