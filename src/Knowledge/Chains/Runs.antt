-- ===== src/Knowledge/Chains/Runs.antt =====
-- Lemmas on sequences of calls of internal/store/knowledge.go.
use self_organizing_multi_ag.Base.{
  ℕ, nat_eq, if◌then◌else◌, String, ◌≡◌, refl, Option, none, some, List, [], ◌∷◌, arith,
  Option-cases, inl, inr,
}
use self_organizing_multi_ag.Db.{Db, Knowledge, raise, ◌>>=◌}
use self_organizing_multi_ag.Db.Reads.{Reads, reads_rules}
use self_organizing_multi_ag.Table.{affected, find, update, insert, IsKeyed}
use self_organizing_multi_ag.Table.Keyed.{first_at}
use self_organizing_multi_ag.Scope.{visible_member}
use self_organizing_multi_ag.Knowledge.{
  CreateKnowledgeRequest, knowledge_key, new_knowledge, create_knowledge, reviewable, reviewed,
  review, not_proposed, predecessor, get_knowledge,
}
use self_organizing_multi_ag.Knowledge.Versions.{
  retired, Versioned, create_knowledge_outcome, get_knowledge-Reads,
}
use self_organizing_multi_ag.Knowledge.Chains.{lookup, IsLinked, IsLinked-update}
use self_organizing_multi_ag.Knowledge.Chains.Growth.{IsLinked-insert, IsLinked-replaced, replaced}

-- A call with its arguments, the new identifier first and the clock reading last.
pub data Call : Type 0 where
  call_create : String → String → CreateKnowledgeRequest → ℕ → Call
  call_review : String → String → ℕ → Call

unfoldable pub exec : Call → Db → Db
exec (call_create fresh author req now) db = (create_knowledge fresh author req now db).1
exec (call_review reviewer id now) db = (review reviewer id now db).1

unfoldable pub run : List Call → Db → Db
unfolding exec
run [] db = db
run (c ∷ cs) db = run cs (exec c db)

-- What `idgen.New` is relied on for: the id of a new record is no other's yet.
abbrev pub IsFresh : Call → Db → Type 0
IsFresh (call_create fresh author req now) db = find knowledge_key fresh db.knowledge ≡ none
IsFresh (call_review reviewer id now) db = Unit

abbrev pub AllFresh : List Call → Db → Type 0
AllFresh [] db = Unit
AllFresh (c ∷ cs) db = IsFresh c db × AllFresh cs (exec c db)

-- The record that a request would replace is the one of its id.
predecessor-find :
    (author id : String) (db : Db) (k : Knowledge)
    → IsKeyed knowledge_key db.knowledge
    → predecessor author id db ≡ some k
    → lookup id db.knowledge ≡ some k
unfolding predecessor
predecessor-find author id db k keyed e = elim (Option-cases (lookup id db.knowledge)) [
  | inl absent ↦ absurd (
      ground (
        arith,
        first_at knowledge_key id (λ x. visible_member db author x.project_id) db.knowledge keyed,
      ))
  | inr (x, e') ↦ ground (
    arith,
    first_at knowledge_key id (λ x. visible_member db author x.project_id) db.knowledge keyed,
  )
]

published-IsLinked :
    (fresh author : String) (req : CreateKnowledgeRequest) (now v : ℕ) (db : Db) (o : Option String)
    → IsLinked db.knowledge
    → find knowledge_key fresh db.knowledge ≡ none
    → req.supersedes ≡ o
    → Versioned author req db v o
    → IsLinked (retired fresh o (insert (new_knowledge fresh author req v now) db.knowledge))
published-IsLinked fresh author req now v db none l f e w =
    IsLinked-insert db.knowledge l (new_knowledge fresh author req v now) f refl e
published-IsLinked fresh author req now v db (some id) l f e (prev, r) =
    unfold replaced in
    IsLinked-replaced db.knowledge l (new_knowledge fresh author req v now) f refl id prev
      (predecessor-find author id db prev l.keyed r.seen) r.newest e r.version

module _ (reviewer id : String) (now : ℕ) where
  -- What `Review` does after its UPDATE, by the number of rows that it changed.
  answer :
      (n : ℕ)
      → Reads (
          if nat_eq n 0
          then get_knowledge reviewer id now >>= (λ existing. raise (not_proposed existing))
          else get_knowledge reviewer id now)
  answer n = search (reads_rules, get_knowledge-Reads) depth 12

review-knowledge :
    (reviewer id : String) (now : ℕ) (db : Db)
    → (review reviewer id now db).1
      ≡ record db { knowledge = update (reviewable db reviewer id now) reviewed db.knowledge }
unfolding review ◌>>=◌
review-knowledge reviewer id now db =
    (answer reviewer id now (affected (reviewable db reviewer id now) db.knowledge)).at _

exec-IsLinked :
    (c : Call) (db : Db) → IsFresh c db → IsLinked db.knowledge → IsLinked (exec c db).knowledge
unfolding exec
exec-IsLinked (call_create fresh author req now) db f l =
    elim (create_knowledge_outcome fresh author req now db) [
      | inl same ↦ rw same l
      | inr p ↦
          rw (p.after)
            (published-IsLinked fresh author req now p.v db req.supersedes l f refl p.versioned)
    ]
exec-IsLinked (call_review reviewer id now) db f l = rw (review-knowledge reviewer id now db) (
    IsLinked-update (reviewable db reviewer id now) reviewed (λ k. refl) (λ k. (refl, refl, refl))
      (λ k h e. absurd (ground arith)) db.knowledge l)

-- Through any sequence of publications and reviews the ids of the records stay unique, and the
-- records that replace one another stay linked both ways: one that was replaced names its
-- successor, is archived, and its successor names it back with the next version. The ids that
-- publications get are new.
pub run-IsLinked :
    (cs : List Call) (db : Db)
    → AllFresh cs db
    → IsLinked db.knowledge
    → IsLinked (run cs db).knowledge
unfolding run
run-IsLinked [] db f l = l
run-IsLinked (c ∷ cs) db f l = run-IsLinked cs (exec c db) f.1 (exec-IsLinked c db f.0 l)
