-- ===== src/Queue/Attempts.antt =====
-- Lemmas on `claimVerificationAt` of internal/store/verification_queue.go.
use self_organizing_multi_ag.Base.{
  ℕ, zero, suc, ◌+◌, ◌≤◌, String, ◌≡◌, refl, sym, subst, ◌⊎◌, ◌∙◌, ap, true, Option, none, some,
  List, [], ◌∷◌, arith, ◌==◌, All, Option-cases, inl, inr, Bool-cases,
}
use self_organizing_multi_ag.Errors.{ok}
use self_organizing_multi_ag.Db.{Db, Task, JobRow, MessageRow}
use self_organizing_multi_ag.Db.Inversion.{
  >>=-unchanged, atomically_ok, select-ok, modify-bind, pure_lem, gets_unchanged, gets_ok,
}
use self_organizing_multi_ag.Table.{find, update, select, IsKeyed}
use self_organizing_multi_ag.Table.Keyed.{All-found}
use self_organizing_multi_ag.Table.Rows.{All-select}
use self_organizing_multi_ag.Tasks.{task_key}
use self_organizing_multi_ag.Queue.{
  verification_backoff, verification_lease, job_key, message_key, claimable, due_before, earliest,
  leased, VerificationJob, take_job, or_no_job, next_job, claim_verification,
}

backoff_cases :
    (n : ℕ)
    → (n ≤ 1 × (verification_backoff n ≡ 60))
      ⊎ (n ≡ 2 × (verification_backoff n ≡ 120))
      ⊎ (n ≡ 3 × (verification_backoff n ≡ 240))
      ⊎ (n ≡ 4 × (verification_backoff n ≡ 480))
      ⊎ (5 ≤ n × (verification_backoff n ≡ 960))
unfolding verification_backoff
backoff_cases zero = inl (omega arith, refl)
backoff_cases (suc zero) = inl (omega arith, refl)
backoff_cases (suc (suc zero)) = inr (inl (refl, refl))
backoff_cases (suc (suc (suc zero))) = inr (inr (inl (refl, refl)))
backoff_cases (suc (suc (suc (suc zero)))) = inr (inr (inr (inl (refl, refl))))
backoff_cases (suc (suc (suc (suc (suc zero))))) = inr (inr (inr (inr (omega arith, refl))))
backoff_cases (suc (suc (suc (suc (suc (suc n)))))) =
    inr (inr (inr (inr (omega arith, ground arith))))

-- The wait after an attempt never shrinks from one attempt to a later one, is at least a minute,
-- and is sixteen minutes at most.
pub backoff_bounds :
    (a b : ℕ)
    → a ≤ b
    → (60 ≤ verification_backoff a)
      × (verification_backoff a ≤ verification_backoff b)
      × (verification_backoff b ≤ 960)
backoff_bounds a b h = omega (arith, backoff_cases a, backoff_cases b)

-- The row picked passes what every row of the list passes, and no row of the list is due earlier.
earliest_All :
    (P : JobRow → Type 0) (js : List JobRow) (j : JobRow) → earliest js ≡ some j → All P js → P j
unfolding earliest
earliest_All P [] j e h = cc
earliest_All P (x ∷ js) j e h = elim (Option-cases (earliest js)) [
  | inl alone ↦ ground arith
  | inr (k, rest) ↦ ground (arith, earliest_All P js k rest h.1)
]

earliest-none : (js : List JobRow) → earliest js ≡ none → js ≡ []
unfolding earliest
earliest-none [] e = refl
earliest-none (x ∷ js) e = ground arith

lower :
    (a b : ℕ) (js : List JobRow) → a ≤ b → All (λ k. b ≤ k.next_at) js → All (λ k. a ≤ k.next_at) js
lower a b [] h all_b = tt
lower a b (x ∷ js) h all_b = (omega arith, lower a b js h all_b.1)

earliest_first :
    (js : List JobRow) (j : JobRow) → earliest js ≡ some j → All (λ k. j.next_at ≤ k.next_at) js
unfolding earliest
earliest_first [] j e = tt
earliest_first (x ∷ js) j e = elim (Option-cases (earliest js)) [
  | inl alone ↦
      let j_x : x ≡ j = ground arith in
      subst (λ z. All (λ k. z.next_at ≤ k.next_at) (x ∷ js)) j_x
        (omega arith, subst (All (λ k. x.next_at ≤ k.next_at)) (sym (earliest-none js alone)) tt)
  | inr (k, rest) ↦
      let below_k = earliest_first js k rest in
      elim (Bool-cases (due_before k x)) [
        | inl earlier ↦
            let j_k : k ≡ j = ground arith in
            subst (λ z. All (λ r. z.next_at ≤ r.next_at) (x ∷ js)) j_k (ground arith, below_k)
        | inr later ↦
            let j_x : x ≡ j = ground arith in
            let x_k : x.next_at ≤ k.next_at = ground arith in
            subst (λ z. All (λ r. z.next_at ≤ r.next_at) (x ∷ js)) j_x
              (omega arith, lower x.next_at k.next_at js x_k below_k)
      ]
]

-- What a successful call has picked and written.
pub record Leased (fresh viewer : String) (now : ℕ) (db : Db) (job : VerificationJob) : Type 0 where
  pub row : JobRow
  pub was_due : claimable db viewer now row ≡ true
  pub in_table : find job_key row.task_id db.verification_jobs ≡ some row
  pub oldest :
      All (λ k. row.next_at ≤ k.next_at) (select (claimable db viewer now) db.verification_jobs)
  pub its_task : find task_key row.task_id db.tasks ≡ some job.task
  pub its_result : find message_key row.message_id db.messages ≡ some job.result
  pub counted : job.attempts ≡ row.attempts + 1
  pub lease : job.lease_until ≡ now + verification_lease
  pub named : job.attempt_id ≡ fresh
  pub after : (claim_verification fresh viewer now db).1 ≡ record db {
    verification_jobs =
        update (λ r. r.task_id == row.task_id) (leased fresh now) db.verification_jobs;
  }

abbrev leased_db : String → ℕ → JobRow → Db → Db
leased_db fresh now j db = record db {
  verification_jobs = update (λ r. r.task_id == j.task_id) (leased fresh now) db.verification_jobs;
}

abbrev taken_job : String → ℕ → JobRow → Task → MessageRow → VerificationJob
taken_job fresh now j t m = record {
  attempt_id = fresh;
  attempts = j.attempts + 1;
  lease_until = now + verification_lease;
  task = t;
  result = m;
}

take_job_ok :
    (fresh : String) (now : ℕ) (j : JobRow) (db : Db) (job : VerificationJob)
    → (take_job fresh now j db).0 ≡ ok (some job)
    → (t : Task) × (m : MessageRow) × (find task_key j.task_id db.tasks ≡ some t)
      × (find message_key j.message_id db.messages ≡ some m)
      × (taken_job fresh now j t m ≡ job)
      × ((take_job fresh now j db).1 ≡ leased_db fresh now j db)
unfolding take_job
take_job_ok fresh now j db job h =
    let step = modify-bind _ _ db in
    let (t, found_t, h1, end1) =
      select-ok _ _ _ (leased_db fresh now j db) (some job) (rw step at h) in
    let (m, found_m, h2, end2) = select-ok _ _ _ (leased_db fresh now j db) (some job) h1 in
    let last = pure_lem (some (taken_job fresh now j t m)) (leased_db fresh now j db) in
    (t, m, found_t, found_m, cc, ap (λ p. p.1) step ∙ end1 ∙ end2 ∙ ap (λ p. p.1) last)

picked :
    (fresh : String) (now : ℕ) (found : Option JobRow) (db : Db) (job : VerificationJob)
    → (or_no_job found (take_job fresh now) db).0 ≡ ok (some job)
    → (j : JobRow) × (found ≡ some j)
      × ((take_job fresh now j db).0 ≡ ok (some job))
      × ((or_no_job found (take_job fresh now) db).1 ≡ (take_job fresh now j db).1)
picked fresh now none db job h =
    let nothing : Option VerificationJob = none in absurd (cc (pure_lem nothing db))
picked fresh now (some j) db job h = (j, refl, h, refl)

-- A call that hands out a job hands out one that was claimable: submitted by another agent for a
-- task that the viewer created, not done, with fewer than five attempts, its lease and its wait
-- over, and no claimable job due before it. It records the attempt, its lease and its name, and
-- the job carries the task and the result of the row. The task ids of the jobs are unique.
pub claim_verification-Leased :
    (fresh viewer : String) (now : ℕ) (db : Db) (job : VerificationJob)
    → IsKeyed job_key db.verification_jobs
    → (claim_verification fresh viewer now db).0 ≡ ok (some job)
    → Leased fresh viewer now db job
unfolding claim_verification next_job
claim_verification-Leased fresh viewer now db job k h =
    let (h1, kept) = atomically_ok _ db (some job) h in
    let (found, p, h2, end) = >>=-unchanged _ _ db (some job) (gets_unchanged _ db) h1 in
    let (j, e, h3, end2) = picked fresh now found db job h2 in
    let (t, m, found_t, found_m, same, end3) = take_job_ok fresh now j db job h3 in
    let js = select (claimable db viewer now) db.verification_jobs in
    let first : earliest js ≡ some j = gets_ok _ db found p ∙ e in
    let facts =
      earliest_All
        (λ r.
          (claimable db viewer now r ≡ true)
          × (find job_key r.task_id db.verification_jobs ≡ some r))
        js j first
        (All-select (λ r. find job_key r.task_id db.verification_jobs ≡ some r)
          (claimable db viewer now) db.verification_jobs
          (All-found job_key db.verification_jobs k)) in
    record {
      row = j;
      was_due = facts.0;
      in_table = facts.1;
      oldest = earliest_first js j first;
      its_task = found_t ∙ ap (λ (w : VerificationJob). some w.task) same;
      its_result = found_m ∙ ap (λ (w : VerificationJob). some w.result) same;
      counted = sym (ap (λ (w : VerificationJob). w.attempts) same);
      lease = sym (ap (λ (w : VerificationJob). w.lease_until) same);
      named = sym (ap (λ (w : VerificationJob). w.attempt_id) same);
      after = kept ∙ end ∙ end2 ∙ end3;
    }
