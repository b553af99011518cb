-- ===== src/Queue/Exclusive.antt =====
-- Lemmas on a leased attempt of internal/store/verification_queue.go: other claims and the
-- verdicts that come in.
use self_organizing_multi_ag.Base.{
  ℕ, ◌+◌, ◌<◌, String, ◌≡◌, ◌≢◌, ◌↔◌, refl, sym, ap, subst, true, false, not, some, arith, ◌==◌,
  eq_iff, eq_refl, Bool-cases, inl, inr,
}
use self_organizing_multi_ag.Errors.{ok, err, conflict}
use self_organizing_multi_ag.Db.{
  Db, JobRow, Verdict, verified, rejected, inconclusive, other_verdict, ◌>>=◌,
}
use self_organizing_multi_ag.Table.{find, find-key, IsKeyed}
use self_organizing_multi_ag.Table.Keyed.{find-update}
use self_organizing_multi_ag.Tasks.{task_key}
use self_organizing_multi_ag.Queue.{
  verification_backoff, verification_lease, job_key, claimable, leased, VerificationJob,
  claim_verification, VerifyRequest, finish_verification_job, finish_found, finish_job, released,
  is_inconclusive,
}
use self_organizing_multi_ag.Queue.Attempts.{Leased, claim_verification-Leased}

-- `finishVerificationJob` for a task with a job.
finish_at :
    (task_id : String) (req : VerifyRequest) (now : ℕ) (db : Db) (r : JobRow)
    → find job_key task_id db.verification_jobs ≡ some r
    → finish_verification_job task_id req now db ≡ finish_job task_id req now r db
unfolding finish_verification_job finish_found ◌>>=◌
finish_at task_id req now db r e = ground arith

module _ (task_id : String) (req : VerifyRequest) (now : ℕ) (r : JobRow) (db : Db) where
  held_refused :
      (req.attempt_id == "") ≡ true
      → r.attempt_id ≢ ""
      → now < r.lease_until
      → finish_job task_id req now r db
        ≡ (err (conflict "verification is leased; provide its attempt_id or wait for expiry"), db)
  unfolding finish_job ◌>>=◌
  held_refused unnamed held running = ground (arith, eq_iff r.attempt_id "")

  stale_refused :
      (req.attempt_id == "") ≡ false
      → r.attempt_id ≢ req.attempt_id
      → finish_job task_id req now r db
        ≡ (err (conflict "verification attempt is stale or expired"), db)
  unfolding finish_job ◌>>=◌
  stale_refused stale other = ground (arith, eq_iff r.attempt_id req.attempt_id)

  own_taken :
      r.attempt_id ≢ ""
      → req.attempt_id ≡ r.attempt_id
      → now < r.lease_until
      → find job_key task_id db.verification_jobs ≡ some r
      → ((finish_job task_id req now r db).0 ≡ ok tt)
        × (find job_key task_id (finish_job task_id req now r db).1.verification_jobs
            ≡ some (released req now r.attempts r))
  unfolding finish_job ◌>>=◌
  own_taken held own running e = ground (
    arith,
    eq_iff req.attempt_id "",
    eq_iff r.attempt_id req.attempt_id,
    eq_refl task_id,
    find-key job_key task_id r db.verification_jobs e,
    find-update job_key (λ x. x.task_id == task_id) (released req now r.attempts) (λ x. refl)
        task_id db.verification_jobs,
  )

left_open : (v : Verdict) → (not (is_inconclusive v) ≡ false) ↔ (v ≡ inconclusive)
left_open verified = (λ h. cc, λ h. cc)
left_open rejected = (λ h. cc, λ h. cc)
left_open inconclusive = (λ h. refl, λ h. refl)
left_open (other_verdict x) = (λ h. cc, λ h. cc)

-- The row `s` of a job whose row was `r`, after a verdict: it is open only if the verdict is inconclusive, no
-- attempt holds it, and the wait of its attempts begins; the attempts and the result stay.
abbrev pub Finished : VerificationJob → VerifyRequest → ℕ → JobRow → JobRow → Type 0
Finished job req later r s =
    ((s.done ≡ false) ↔ (req.verdict ≡ inconclusive))
    × (s.attempt_id ≡ "")
    × (s.lease_until ≡ 0)
    × (s.next_at ≡ later + verification_backoff job.attempts)
    × (s.attempts ≡ job.attempts)
    × (s.task_id ≡ r.task_id)
    × (s.message_id ≡ r.message_id)

module _ (fresh viewer : String) (now : ℕ) (db : Db) (job : VerificationJob)
    (k : IsKeyed job_key db.verification_jobs)
    (h : (claim_verification fresh viewer now db).0 ≡ ok (some job)) where
  abbrev leased_now : Leased fresh viewer now db job
  leased_now = claim_verification-Leased fresh viewer now db job k h

  -- The job's row once it is handed out.
  row_after :
      find job_key job.task.task_id (claim_verification fresh viewer now db).1.verification_jobs
      ≡ some (leased fresh now leased_now.row)
  row_after =
      let l = leased_now in
      let same_id = find-key task_key l.row.task_id job.task db.tasks l.its_task in
      rw
        (
          l.after,
          same_id,
          find-update job_key (λ r. r.task_id == l.row.task_id) (leased fresh now) (λ r. refl)
              l.row.task_id db.verification_jobs,
          l.in_table,
        )
        (ground (arith, eq_refl l.row.task_id))

  -- The row that was handed out waits for its lease and the time after it, in any database.
  row_waits :
      (other : String) (later : ℕ) (db' : Db)
      → later < job.lease_until + verification_backoff job.attempts
      → claimable db' other later (leased fresh now leased_now.row) ≡ false
  unfolding claimable
  row_waits other later db' before =
      let l = leased_now in
      let wait : later < now + verification_lease + verification_backoff (l.row.attempts + 1) =
        subst (λ n. later < now + verification_lease + verification_backoff n) l.counted
          (subst (λ n. later < n + verification_backoff job.attempts) l.lease before) in
      ground arith

  -- While a job's row stays as a hand-out left it, no call hands the job out again, whatever else
  -- has changed in the database, whoever calls and under whatever attempt's name, until the lease
  -- of the attempt and the wait after it are over. The task ids of the jobs are unique.
  pub attempt_excludes :
      (again other : String) (later : ℕ) (db' : Db) (job' : VerificationJob)
      → IsKeyed job_key db'.verification_jobs
      → find job_key job.task.task_id db'.verification_jobs
        ≡ find job_key job.task.task_id (claim_verification fresh viewer now db).1.verification_jobs
      → later < job.lease_until + verification_backoff job.attempts
      → job'.task.task_id ≡ job.task.task_id
      → (claim_verification again other later db').0 ≢ ok (some job')
  attempt_excludes again other later db' job' k' kept before same h' =
      let l = claim_verification-Leased again other later db' job' k' h' in
      let id_of_row = find-key task_key l.row.task_id job'.task db'.tasks l.its_task in
      let row_same : l.row ≡ leased fresh now leased_now.row =
        ground (arith, l.in_table, kept, row_after, id_of_row, same) in
      cc (l.was_due, row_same, row_waits other later db' before)

  -- After a job is handed out, under an attempt's name that is not empty, a verdict in the name of
  -- another attempt, or of none, is refused with a conflict and writes nothing while the lease
  -- runs. The task ids of the jobs are unique.
  pub late_verdict_refused :
      (req : VerifyRequest) (later : ℕ)
      → fresh ≢ ""
      → req.attempt_id ≢ fresh
      → later < job.lease_until
      → let db' = (claim_verification fresh viewer now db).1 in
        (m : String) × (finish_verification_job job.task.task_id req later db'
          ≡ (err (conflict m), db'))
  late_verdict_refused req later named other before =
      let l = leased_now in
      let running : later < now + verification_lease = subst (λ n. later < n) l.lease before in
      elim (Bool-cases (req.attempt_id == "")) [
        | inl unnamed ↦ (
          "verification is leased; provide its attempt_id or wait for expiry",
          rw
              (finish_at job.task.task_id req later (claim_verification fresh viewer now db).1
                (leased fresh now l.row) row_after)
              (held_refused job.task.task_id req later (leased fresh now l.row)
                (claim_verification fresh viewer now db).1 unnamed named running),
        )
        | inr stale ↦ (
          "verification attempt is stale or expired",
          rw
              (finish_at job.task.task_id req later (claim_verification fresh viewer now db).1
                (leased fresh now l.row) row_after)
              (stale_refused job.task.task_id req later (leased fresh now l.row)
                (claim_verification fresh viewer now db).1 stale (λ e. other (sym e))),
        )
      ]

  -- After a job is handed out, under an attempt's name that is not empty, a verdict in that name,
  -- inside the lease, is taken: the job stays open just when the verdict is inconclusive, no
  -- attempt and no lease holds it any more, its next attempt waits from the verdict on for the
  -- time that its attempts ask for, and its count of attempts and its result stay. The task ids of
  -- the jobs are unique.
  pub timely_verdict_taken :
      (req : VerifyRequest) (later : ℕ) (r : JobRow)
      → find job_key job.task.task_id (claim_verification fresh viewer now db).1.verification_jobs
        ≡ some r
      → fresh ≢ ""
      → req.attempt_id ≡ fresh
      → later < job.lease_until
      → let run =
          finish_verification_job job.task.task_id req later
            (claim_verification fresh viewer now db).1 in
        (run.0 ≡ ok tt)
        × (s : JobRow) × (find job_key job.task.task_id run.1.verification_jobs ≡ some s)
        × Finished job req later r s
  timely_verdict_taken req later r e named own before =
      let l = leased_now in
      let r_row : r ≡ leased fresh now l.row = ground (arith, row_after) in
      let running : later < now + verification_lease = subst (λ n. later < n) l.lease before in
      let (taken, row) =
        own_taken job.task.task_id req later (leased fresh now l.row)
          (claim_verification fresh viewer now db).1 named own running row_after in
      rw
        (
          finish_at job.task.task_id req later (claim_verification fresh viewer now db).1
              (leased fresh now l.row) row_after,
          r_row,
        )
        (
          taken,
          released req later (l.row.attempts + 1) (leased fresh now l.row),
          row,
          (
            left_open req.verdict,
            refl,
            refl,
            ap (λ n. later + verification_backoff n) (sym l.counted),
            sym l.counted,
            refl,
            refl,
          ),
        )
