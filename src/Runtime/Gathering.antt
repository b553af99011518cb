-- ===== src/Runtime/Gathering.antt =====
-- Lemmas on the artifacts that `verifyJob` of internal/agent/agent.go gathers.
use self_organizing_multi_ag.Base.{
  ◌+◌, String, ◌≡◌, refl, sym, subst, ap, ◌∙◌, true, false, Option, none, some, is_some, List, [],
  ◌∷◌, length, contains, All, arith, ◌==◌, eq_iff, ltb, if◌then◌else◌, Bool-cases, inl, inr,
}
use self_organizing_multi_ag.Errors.{Result, ok, err}
use self_organizing_multi_ag.Db.{Artifact}
use self_organizing_multi_ag.Queue.{VerificationJob}
use self_organizing_multi_ag.Runtime.{
  Outside, max_verification_artifacts, usable, Gathered, with_content, fetched, marked, gather,
}

-- An artifact that the agent got and read.
abbrev pub Held : Outside → VerificationJob → String → Type 0
Held o job id =
    (a : Artifact) × (o.artifact_of id ≡ ok a)
    × (usable o job id a ≡ true)
    × (is_some (o.content_of a) ≡ true)

read_lem :
    (o : Outside) (job : VerificationJob) (id : String) (g : Gathered) (a : Artifact)
    (c : Option String)
    → (if usable o job id a
        then with_content id a g c
        else record g { unavailable = true }).unavailable
      ≡ false
    → (usable o job id a ≡ true) × (is_some c ≡ true)
read_lem o job id g a none h = ground arith
read_lem o job id g a (some content) h = ground arith

-- An artifact that leaves everything available was got and read.
fetched-Held :
    (o : Outside) (job : VerificationJob) (id : String) (g : Gathered) (r : Result Artifact)
    → o.artifact_of id ≡ r
    → (fetched o job id g r).unavailable ≡ false
    → Held o job id
unfolding fetched
fetched-Held o job id g (err e) got h = cc
fetched-Held o job id g (ok a) got h =
    let (fits, read) = read_lem o job id g a (o.content_of a) h in (a, got, fits, read)

fetched_seen :
    (o : Outside) (job : VerificationJob) (id : String) (g : Gathered) (a : Artifact)
    (c : Option String)
    → (if usable o job id a then with_content id a g c else record g { unavailable = true }).seen
      ≡ g.seen
fetched_seen o job id g a none = ground arith
fetched_seen o job id g a (some content) = ground arith

fetched-seen :
    (o : Outside) (job : VerificationJob) (id : String) (g : Gathered) (r : Result Artifact)
    → (fetched o job id g r).seen ≡ g.seen
unfolding fetched
fetched-seen o job id g (err e) = refl
fetched-seen o job id g (ok a) = fetched_seen o job id g a (o.content_of a)

read_missing :
    (o : Outside) (job : VerificationJob) (id : String) (g : Gathered) (a : Artifact)
    (c : Option String)
    → g.unavailable ≡ true
    → (if usable o job id a
        then with_content id a g c
        else record g { unavailable = true }).unavailable
      ≡ true
read_missing o job id g a none h = ground arith
read_missing o job id g a (some content) h = ground arith

fetched_missing :
    (o : Outside) (job : VerificationJob) (id : String) (g : Gathered) (r : Result Artifact)
    → g.unavailable ≡ true
    → (fetched o job id g r).unavailable ≡ true
unfolding fetched
fetched_missing o job id g (err e) h = refl
fetched_missing o job id g (ok a) h = read_missing o job id g a (o.content_of a) h

-- Once something is missing, it stays missing.
gather_missing :
    (o : Outside) (job : VerificationJob) (ids : List String) (g : Gathered)
    → g.unavailable ≡ true
    → (gather o job ids g).unavailable ≡ true
unfolding gather
gather_missing o job [] g h = h
gather_missing o job (id ∷ ids) g h = elim (Bool-cases (contains g.seen id)) [
  | inl old ↦ rw old (gather_missing o job ids g h)
  | inr new ↦ elim (Bool-cases (ltb max_verification_artifacts (length g.seen + 1))) [
    | inl over ↦ rw (new, over) refl
    | inr room ↦
        rw (new, room)
          (gather_missing o job ids _ (fetched_missing o job id (marked id g) (o.artifact_of id) h))
  ]
]

pub kept_available :
    (o : Outside) (job : VerificationJob) (ids : List String) (g : Gathered)
    → (gather o job ids g).unavailable ≡ false
    → g.unavailable ≡ false
kept_available o job ids g h = elim (Bool-cases g.unavailable) [
  | inl missing ↦ cc (gather_missing o job ids g missing)
  | inr all ↦ all
]

module _ (o : Outside) (job : VerificationJob) (id : String) (ids : List String)
    (g : Gathered) where
  pub gather_again : contains g.seen id ≡ true → gather o job (id ∷ ids) g ≡ gather o job ids g
  unfolding gather
  gather_again old = rw old refl

  pub gather_full :
      contains g.seen id ≡ false
      → ltb max_verification_artifacts (length g.seen + 1) ≡ true
      → (gather o job (id ∷ ids) g).unavailable ≡ true
  unfolding gather
  gather_full new over = rw (new, over) refl

  pub gather_next :
      contains g.seen id ≡ false
      → ltb max_verification_artifacts (length g.seen + 1) ≡ false
      → gather o job (id ∷ ids) g
        ≡ gather o job ids (fetched o job id (marked id g) (o.artifact_of id))
  unfolding gather
  gather_next new room = rw (new, room) refl

marked_seen :
    (o : Outside) (job : VerificationJob) (id : String) (seen : List String) (x : String)
    → Held o job id
    → ((y : String) → contains seen y ≡ true → Held o job y)
    → contains (id ∷ seen) x ≡ true
    → Held o job x
marked_seen o job id seen x here k m = elim (Bool-cases (id == x)) [
  | inl same ↦ subst (Held o job) ((eq_iff id x).0 same) here
  | inr other ↦ k x (ground arith)
]

-- Where nothing is missing, every artifact was got and read.
pub gather-Held :
    (o : Outside) (job : VerificationJob) (ids : List String) (g : Gathered)
    → ((x : String) → contains g.seen x ≡ true → Held o job x)
    → (gather o job ids g).unavailable ≡ false
    → All (Held o job) ids
gather-Held o job [] g k h = tt
gather-Held o job (id ∷ ids) g k h = elim (Bool-cases (contains g.seen id)) [
  | inl old ↦ (
    k id old,
    gather-Held o job ids g k (ap (λ x. x.unavailable) (sym (gather_again o job id ids g old)) ∙ h),
  )
  | inr new ↦ elim (Bool-cases (ltb max_verification_artifacts (length g.seen + 1))) [
    | inl over ↦ cc (gather_full o job id ids g new over)
    | inr room ↦
        let g' = fetched o job id (marked id g) (o.artifact_of id) in
        let rest = ap (λ x. x.unavailable) (sym (gather_next o job id ids g new room)) ∙ h in
        let here =
          fetched-Held o job id (marked id g) (o.artifact_of id) refl
            (kept_available o job ids g' rest) in
        (
          here,
          gather-Held o job ids g'
              (λ x m. marked_seen o job id g.seen x here k (
                ap (λ s. contains s x)
                  (sym (fetched-seen o job id (marked id g) (o.artifact_of id)))
                ∙ m))
              rest,
        )
  ]
]
