-- ===== src/Knowledge/Chains.antt =====
-- Lemmas on the links between the versions of a record, over sequences of calls of internal/store/knowledge.go.
pub mod Growth
pub mod Runs
use self_organizing_multi_ag.Base.{
  ℕ, ◌+◌, String, ◌≡◌, ◌≢◌, ◌⊎◌, refl, sym, subst, ◌∙◌, ap, Bool, true, false, not, ◌&&◌, ◌||◌,
  Option, none, some, List, [], ◌∷◌, arith, ◌==◌, eq_iff, eq_refl, if◌then◌else◌, Option-cases,
  Bool-cases, inl, inr,
}
use self_organizing_multi_ag.Db.{Db, Knowledge, KnowledgeStatus, knowledge_archived, ◌>>=◌}
use self_organizing_multi_ag.Table.{first, find, find-key, update, insert, map_row, when, IsKeyed}
use self_organizing_multi_ag.Table.Keyed.{
  find-update, find-insert, IsKeyed-update, IsKeyed-insert, first_at,
}
use self_organizing_multi_ag.Knowledge.{
  CreateKnowledgeRequest, knowledge_key, new_knowledge, superseded, create_knowledge, reviewable,
  reviewed, review, predecessor,
}
use self_organizing_multi_ag.Knowledge.Versions.{
  retired, Versioned, Replaces, Published, create_knowledge_outcome,
}

abbrev pub lookup : String → List Knowledge → Option Knowledge
lookup = find knowledge_key

-- The record at `a` was replaced by the one at `b`.
pub record Succeeded (a b : String) (k : Knowledge) (t : List Knowledge) : Type 0 where
  pub next : Knowledge
  pub there : find knowledge_key b t ≡ some next
  pub points_back : next.supersedes ≡ some a
  pub newer : next.version ≡ k.version + 1
  pub retired_then : k.status ≡ knowledge_archived

-- The record at `b` replaced one at `a`.
pub record Preceded (a b : String) (t : List Knowledge) : Type 0 where
  pub former : Knowledge
  pub there : find knowledge_key a t ≡ some former
  pub points_on : former.superseded_by ≡ some b

-- The ids are unique, and the records that replace one another are linked both ways.
pub record IsLinked (t : List Knowledge) : Type 0 where
  pub keyed : IsKeyed knowledge_key t
  pub onward :
      (a b : String) (k : Knowledge)
      → find knowledge_key a t ≡ some k
      → k.superseded_by ≡ some b
      → Succeeded a b k t
  pub back :
      (a b : String) (k : Knowledge)
      → find knowledge_key b t ≡ some k
      → k.supersedes ≡ some a
      → Preceded a b t

-- An UPDATE that keeps the links, the versions, and that an archived record is archived.
module _ (p : Knowledge → Bool) (f : Knowledge → Knowledge)
    (same_id : (k : Knowledge) → (f k).knowledge_id ≡ k.knowledge_id)
    (same_links : (k : Knowledge)
      → ((f k).supersedes ≡ k.supersedes)
        × ((f k).superseded_by ≡ k.superseded_by)
        × ((f k).version ≡ k.version))
    (same_archive : (k : Knowledge)
      → p k ≡ true
      → k.status ≡ knowledge_archived
      → (f k).status ≡ knowledge_archived)
    (t : List Knowledge) (l : IsLinked t) where
  found_before :
      (a : String) (k : Knowledge)
      → lookup a (update p f t) ≡ some k
      → (old : Knowledge) × (lookup a t ≡ some old) × (when p f old ≡ k)
  found_before a k e = elim (Option-cases (lookup a t)) [
    | inl absent ↦ absurd (ground (arith, find-update knowledge_key p f same_id a t))
    | inr (old, e') ↦ (old, e', ground (arith, find-update knowledge_key p f same_id a t))
  ]

  found_after :
      (a : String) (k : Knowledge)
      → lookup a t ≡ some k
      → lookup a (update p f t) ≡ some (when p f k)
  found_after a k e = find-update knowledge_key p f same_id a t ∙ ap (map_row (when p f)) e

  archive_kept :
      (k : Knowledge) → k.status ≡ knowledge_archived → (when p f k).status ≡ knowledge_archived
  archive_kept k e = ground (arith, same_archive k)

  links_kept :
      (k : Knowledge)
      → ((when p f k).supersedes ≡ k.supersedes)
        × ((when p f k).superseded_by ≡ k.superseded_by)
        × ((when p f k).version ≡ k.version)
  links_kept k = ground (arith, same_links k)

  pub IsLinked-update : IsLinked (update p f t)
  IsLinked-update = record {
    keyed = IsKeyed-update knowledge_key p f same_id t l.keyed;
    onward = λ a b k e s.
        let (old, e', same) = found_before a k e in
        let next = l.onward a b old e' (ground (arith, links_kept old)) in
        record {
          next = when p f next.next;
          there = found_after b next.next next.there;
          points_back = (links_kept next.next).0 ∙ next.points_back;
          newer = ground (arith, links_kept next.next, links_kept old, next.newer);
          retired_then = ground (arith, archive_kept old next.retired_then);
        };
    back = λ a b k e s.
        let (old, e', same) = found_before b k e in
        let prior = l.back a b old e' (ground (arith, links_kept old)) in
        record {
          former = when p f prior.former;
          there = found_after a prior.former prior.there;
          points_on = (links_kept prior.former).1 ∙ prior.points_on;
        };
  }
