-- ===== src/Runtime/Presented.antt =====
-- Lemmas on what `verifyJob` of internal/agent/agent.go shows the brain.
use self_organizing_multi_ag.Base.{
  ◌+◌, String, ◌≡◌, refl, sym, subst, ap, ◌∙◌, true, false, Option, none, some, List, [], ◌∷◌, ◌++◌,
  append-nil, append_assoc, length, contains, arith, ltb, if◌then◌else◌, Bool-cases, inl, inr,
}
use self_organizing_multi_ag.Errors.{Result, ok, err}
use self_organizing_multi_ag.Db.{Artifact}
use self_organizing_multi_ag.Queue.{VerificationJob}
use self_organizing_multi_ag.Runtime.{
  Outside, max_verification_artifacts, usable, Gathered, nothing_yet, with_content, fetched, marked,
  gather,
}
use self_organizing_multi_ag.Runtime.Gathering.{
  kept_available, gather_again, gather_full, gather_next,
}

-- The texts of a list, each once and in order, without those of `seen`.
unfoldable pub distinct : List String → List String → List String
distinct seen [] = []
distinct seen (id ∷ ids) =
    if contains seen id then distinct seen ids else id ∷ distinct (id ∷ seen) ids

-- The artifacts and the contents are those of the ids, one for one, and each of them was got and read.
abbrev pub Shown : Outside → VerificationJob → List String → List Artifact → List String → Type 0
Shown o job [] [] [] = Unit
Shown o job (id ∷ ids) (a ∷ artifacts) (c ∷ contents) =
    (o.artifact_of id ≡ ok a)
    × (usable o job id a ≡ true)
    × (o.content_of a ≡ some c)
    × Shown o job ids artifacts contents
Shown o job _ _ _ = ⊥

read_content :
    (o : Outside) (job : VerificationJob) (id : String) (g : Gathered) (a : Artifact)
    (c : Option String)
    → (if usable o job id a
        then with_content id a g c
        else record g { unavailable = true }).unavailable
      ≡ false
    → (content : String) × (c ≡ some content)
      × (usable o job id a ≡ true)
      × ((if usable o job id a then with_content id a g c else record g { unavailable = true })
          ≡ with_content id a g (some content))
read_content o job id g a none h = absurd (ground arith)
read_content o job id g a (some content) h = (content, refl, ground arith, ground arith)

-- An artifact that leaves everything available adds itself, its content and its id.
fetched_adds :
    (o : Outside) (job : VerificationJob) (id : String) (g : Gathered) (r : Result Artifact)
    → o.artifact_of id ≡ r
    → (fetched o job id g r).unavailable ≡ false
    → (a : Artifact) × (c : String) × (o.artifact_of id ≡ ok a)
      × (usable o job id a ≡ true)
      × (o.content_of a ≡ some c)
      × (fetched o job id g r ≡ with_content id a g (some c))
unfolding fetched
fetched_adds o job id g (err e) got h = cc
fetched_adds o job id g (ok a) got h =
    let (c, content, fits, end) = read_content o job id g a (o.content_of a) h in
    (a, c, got, fits, content, end)

-- What the loop adds to `g` on the ids, where nothing is missing.
record Adds (o : Outside) (job : VerificationJob) (ids : List String) (g g' : Gathered)
    : Type 0 where
  artifacts : List Artifact
  contents : List String
  shown : Shown o job (distinct g.seen ids) artifacts contents
  all_artifacts : g'.artifacts ≡ g.artifacts ++ artifacts
  all_contents : g'.contents ≡ g.contents ++ contents
  all_evidence : g'.evidence ≡ g.evidence ++ distinct g.seen ids

distinct_old :
    (id : String) (ids seen : List String)
    → contains seen id ≡ true
    → distinct seen (id ∷ ids) ≡ distinct seen ids
unfolding distinct
distinct_old id ids seen e = rw e refl

distinct_new :
    (id : String) (ids seen : List String)
    → contains seen id ≡ false
    → distinct seen (id ∷ ids) ≡ id ∷ distinct (id ∷ seen) ids
unfolding distinct
distinct_new id ids seen e = rw e refl

module _ (o : Outside) (job : VerificationJob) where
  Adds-nothing : (g : Gathered) → Adds o job [] g g
  unfolding distinct
  Adds-nothing g = record {
    artifacts = [];
    contents = [];
    shown = tt;
    all_artifacts = sym (append-nil g.artifacts);
    all_contents = sym (append-nil g.contents);
    all_evidence = sym (append-nil g.evidence);
  }

  Adds-again :
      (id : String) (ids : List String) (g g' : Gathered)
      → contains g.seen id ≡ true
      → Adds o job ids g g'
      → Adds o job (id ∷ ids) g g'
  Adds-again id ids g g' old more = record {
    artifacts = more.artifacts;
    contents = more.contents;
    shown =
        subst (λ x. Shown o job x more.artifacts more.contents)
          (sym (distinct_old id ids g.seen old)) more.shown;
    all_artifacts = more.all_artifacts;
    all_contents = more.all_contents;
    all_evidence =
        more.all_evidence ∙ ap (λ x. g.evidence ++ x) (sym (distinct_old id ids g.seen old));
  }

  Adds-next :
      (id : String) (ids : List String) (g g' : Gathered) (a : Artifact) (c : String)
      → contains g.seen id ≡ false
      → o.artifact_of id ≡ ok a
      → usable o job id a ≡ true
      → o.content_of a ≡ some c
      → Adds o job ids (with_content id a (marked id g) (some c)) g'
      → Adds o job (id ∷ ids) g g'
  Adds-next id ids g g' a c new got fits content more = record {
    artifacts = a ∷ more.artifacts;
    contents = c ∷ more.contents;
    shown =
        subst (λ x. Shown o job x (a ∷ more.artifacts) (c ∷ more.contents))
          (sym (distinct_new id ids g.seen new)) (got, fits, content, more.shown);
    all_artifacts = more.all_artifacts ∙ append_assoc g.artifacts (a ∷ []) more.artifacts;
    all_contents = more.all_contents ∙ append_assoc g.contents (c ∷ []) more.contents;
    all_evidence =
        more.all_evidence
        ∙ append_assoc g.evidence (id ∷ []) (distinct (id ∷ g.seen) ids)
        ∙ ap (λ x. g.evidence ++ x) (sym (distinct_new id ids g.seen new));
  }

  gather-Adds :
      (ids : List String) (g : Gathered)
      → (gather o job ids g).unavailable ≡ false
      → Adds o job ids g (gather o job ids g)
  unfolding gather
  gather-Adds [] g h = Adds-nothing g
  gather-Adds (id ∷ ids) g h = elim (Bool-cases (contains g.seen id)) [
    | inl old ↦
        let same = gather_again o job id ids g old in
        subst (Adds o job (id ∷ ids) g) (sym same)
          (Adds-again id ids g _ old (gather-Adds ids g (ap (λ x. x.unavailable) (sym same) ∙ h)))
    | inr new ↦ elim (Bool-cases (ltb max_verification_artifacts (length g.seen + 1))) [
      | inl over ↦ cc (gather_full o job id ids g new over)
      | inr room ↦
          let g1 = fetched o job id (marked id g) (o.artifact_of id) in
          let same = gather_next o job id ids g new room in
          let rest = ap (λ x. x.unavailable) (sym same) ∙ h in
          let (a, c, got, fits, content, added) =
            fetched_adds o job id (marked id g) (o.artifact_of id) refl
              (kept_available o job ids g1 rest) in
          subst (Adds o job (id ∷ ids) g) (sym same) (
            Adds-next id ids g _ a c new got fits content
              (subst (λ x. Adds o job ids x (gather o job ids g1)) added (gather-Adds ids g1 rest)))
    ]
  ]

-- What is gathered for a job is what its ids name, where nothing is missing.
pub gather-Shown :
    (o : Outside) (job : VerificationJob) (ids : List String)
    → (gather o job ids nothing_yet).unavailable ≡ false
    → let g = gather o job ids nothing_yet in
      (g.evidence ≡ distinct [] ids) × Shown o job g.evidence g.artifacts g.contents
gather-Shown o job ids h =
    let all = gather-Adds o job ids nothing_yet h in
    let g = gather o job ids nothing_yet in
    (
      all.all_evidence,
      subst (λ x. Shown o job g.evidence g.artifacts x) (sym all.all_contents)
          (subst (λ x. Shown o job g.evidence x all.contents) (sym all.all_artifacts)
            (subst (λ x. Shown o job x all.artifacts all.contents) (sym all.all_evidence)
              all.shown)),
    )
