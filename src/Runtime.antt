-- ===== src/Runtime.antt =====
-- internal/agent/agent.go: how an agent's process judges a result. What it reaches beyond
-- itself is `Outside`: the API through its client, the model behind its brain, and the hosts of the artifacts.
pub mod Gathering
pub mod Presented
pub mod Vouching
use self_organizing_multi_ag.Base.{
  ℕ, ◌+◌, ◌*◌, String, Bool, true, false, not, ◌&&◌, Option, none, some, List, [], ◌∷◌, ◌++◌,
  length, contains, ◌==◌, ltb, opt_is, opt_text, if◌then◌else◌,
}
use self_organizing_multi_ag.Errors.{ApiError, Result, ok, err}
use self_organizing_multi_ag.Db.{Task, Artifact, Verdict, verified, inconclusive, Knowledge}
use self_organizing_multi_ag.Tasks.{is_task_submitted}
use self_organizing_multi_ag.Queue.{VerificationJob, VerifyRequest}
use self_organizing_multi_ag.Messages.{second}
use self_organizing_multi_ag.Messages.Payloads.{ResultPayload}
use self_organizing_multi_ag.Http.Escalation.{is_conflict}

-- `VerificationInput`
pub record VerificationInput : Type 0 where
  pub result : ResultPayload
  pub artifacts : List Artifact
  pub contents : List String

pub record Outside : Type 0 where
  pub agent_id : String
  -- `time.Now`, in nanoseconds
  pub moment : ℕ
  -- `json.Unmarshal` into a `ResultPayload`
  pub payload_of : String → Option ResultPayload
  -- `Client.GetArtifact`
  pub artifact_of : String → Result Artifact
  -- `fetchArtifactContent`: the content, where it can be had
  pub content_of : Artifact → Option String
  -- `Brain.Verify`
  pub judge : Task → VerificationInput → Result (Verdict × String)

-- `maxVerificationArtifacts`
abbrev pub max_verification_artifacts : ℕ
max_verification_artifacts = 8

abbrev pub still_kept : ℕ → Option ℕ → Bool
still_kept moment none = true
still_kept moment (some t) = ltb moment (t * second)

-- The test on an artifact that the API returned.
abbrev pub usable : Outside → VerificationJob → String → Artifact → Bool
usable o job id a =
    a.artifact_id == id
    && opt_is a.task_id job.task.task_id
    && a.created_by == job.result.sender
    && still_kept o.moment a.expires_at

-- What the loop on the artifacts carries along.
pub record Gathered : Type 0 where
  pub artifacts : List Artifact
  pub contents : List String
  pub evidence : List String
  pub seen : List String
  pub unavailable : Bool

abbrev pub nothing_yet : Gathered
nothing_yet = record {
  artifacts = [];
  contents = [];
  evidence = [];
  seen = [];
  unavailable = false;
}

abbrev pub with_content : String → Artifact → Gathered → Option String → Gathered
with_content id a g none = record g { artifacts = g.artifacts ++ (a ∷ []); unavailable = true }
with_content id a g (some content) = record g {
  artifacts = g.artifacts ++ (a ∷ []);
  contents = g.contents ++ (content ∷ []);
  evidence = g.evidence ++ (id ∷ []);
}

unfoldable pub fetched : Outside → VerificationJob → String → Gathered → Result Artifact → Gathered
fetched o job id g (err e) = record g { unavailable = true }
fetched o job id g (ok a) =
    if usable o job id a
    then with_content id a g (o.content_of a)
    else record g { unavailable = true }

abbrev pub marked : String → Gathered → Gathered
marked id g = record g { seen = id ∷ g.seen }

-- The loop on the artifacts; it breaks off at one too many.
unfoldable pub gather : Outside → VerificationJob → List String → Gathered → Gathered
unfolding fetched
gather o job [] g = g
gather o job (id ∷ ids) g =
    if contains g.seen id
    then gather o job ids g
    else if ltb max_verification_artifacts (length g.seen + 1)
    then record (marked id g) { unavailable = true }
    else gather o job ids (fetched o job id (marked id g) (o.artifact_of id))

abbrev pub is_verified : Verdict → Bool
is_verified verified = true
is_verified _ = false

-- A result that its worker does not call a success is not verified.
unfoldable pub tempered : String → Result (Verdict × String) → Result (Verdict × String)
tempered status (err e) = err e
tempered status (ok (verdict, rationale)) =
    if is_verified verdict && not (status == "success")
    then ok (inconclusive, "worker did not report a complete success")
    else ok (verdict, rationale)

unfoldable pub conclude :
    Outside → VerificationJob → ResultPayload → Gathered → Result (Verdict × String)
unfolding tempered
conclude o job payload g =
    if g.unavailable
    then ok (
      inconclusive,
      "referenced artifact is unavailable, out of scope, unsupported, exceeds verification limits or failed SHA-256 validation",
    )
    else tempered payload.status (
        o.judge job.task
          (record { result = payload; artifacts = g.artifacts; contents = g.contents }))

-- How a job ends for the agent: not taken up, or given up, or with the request that goes to the API.
pub data JobOutcome : Type 0 where
  refused : String → JobOutcome
  failed : ApiError → JobOutcome
  submits : VerifyRequest → JobOutcome

abbrev pub as_request : VerificationJob → Gathered → Result (Verdict × String) → JobOutcome
as_request job g (err e) = failed e
as_request job g (ok (verdict, rationale)) = submits (record {
  attempt_id = job.attempt_id;
  target_message_id = job.result.message_id;
  verdict = verdict;
  rationale = rationale;
  evidence = g.evidence;
})

unfoldable pub examine : Outside → VerificationJob → Option ResultPayload → JobOutcome
unfolding gather conclude
examine o job none = refused "verification RESULT payload"
examine o job (some payload) =
    let g = gather o job payload.artifacts nothing_yet in
    as_request job g (conclude o job payload g)

-- `verifyJob`, up to the request that it sends
unfoldable pub verify_job : Outside → VerificationJob → JobOutcome
unfolding examine
verify_job o job =
    if not (job.task.created_by == o.agent_id)
    then refused "verification job belongs to another creator"
    else if not (
        is_task_submitted job.task.status
        && opt_text job.task.submitted_message_id == job.result.message_id)
    then refused "verification job is not the submitted result"
    else examine o job (o.payload_of job.result.payload)
