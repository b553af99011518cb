-- ===== src/Knowledge/Chains/Growth.antt =====
-- Lemmas on the table of internal/store/knowledge.go with one more record.
use self_organizing_multi_ag.Base.{
  ◌+◌, String, ◌≡◌, ◌⊎◌, refl, subst, ◌∙◌, ap, false, none, some, List, arith, ◌==◌, eq_iff,
  eq_refl, if◌then◌else◌, Option-cases, Bool-cases, inl, inr,
}
use self_organizing_multi_ag.Db.{Knowledge}
use self_organizing_multi_ag.Table.{find-key, insert}
use self_organizing_multi_ag.Table.Keyed.{find-update, find-insert, IsKeyed-update, IsKeyed-insert}
use self_organizing_multi_ag.Knowledge.{knowledge_key, superseded}
use self_organizing_multi_ag.Knowledge.Versions.{retired}
use self_organizing_multi_ag.Knowledge.Chains.{lookup, IsLinked, Succeeded, Preceded}

module _ (t : List Knowledge) (l : IsLinked t) (n : Knowledge)
    (fresh : lookup n.knowledge_id t ≡ none) (open_end : n.superseded_by ≡ none) where
  old_stays : (a : String) (k : Knowledge) → lookup a t ≡ some k → lookup a (insert n t) ≡ some k
  old_stays a k e = ground (arith, find-insert knowledge_key a n t)

  new_is : lookup n.knowledge_id (insert n t) ≡ some n
  new_is = ground (arith, find-insert knowledge_key n.knowledge_id n t, eq_refl n.knowledge_id)

  -- A record of the longer table is the new one, or an old one.
  which :
      (a : String) (k : Knowledge)
      → lookup a (insert n t) ≡ some k
      → (lookup a t ≡ some k) ⊎ ((n.knowledge_id ≡ a) × (n ≡ k))
  which a k e = elim (Option-cases (lookup a t)) [
    | inl absent ↦ elim (Bool-cases (n.knowledge_id == a)) [
      | inl same ↦
          inr ((eq_iff n.knowledge_id a).0 same, ground (arith, find-insert knowledge_key a n t))
      | inr other ↦ absurd (ground (arith, find-insert knowledge_key a n t))
    ]
    | inr (old, e') ↦ inl (ground (arith, find-insert knowledge_key a n t))
  ]

  grown-onward :
      (a b : String) (k : Knowledge)
      → lookup a (insert n t) ≡ some k
      → k.superseded_by ≡ some b
      → Succeeded a b k (insert n t)
  grown-onward a b k e s = elim (which a k e) [
    | inl old ↦
        let next = l.onward a b k old s in
        record {
          next = next.next;
          there = old_stays b next.next next.there;
          points_back = next.points_back;
          newer = next.newer;
          retired_then = next.retired_then;
        }
    | inr (_, same) ↦ absurd (cc)
  ]

  -- A first version.
  pub IsLinked-insert : n.supersedes ≡ none → IsLinked (insert n t)
  IsLinked-insert none_before = record {
    keyed = IsKeyed-insert knowledge_key n t l.keyed fresh;
    onward = grown-onward;
    back = λ a b k e s. elim (which b k e) [
      | inl old ↦
          let prior = l.back a b k old s in
          record {
            former = prior.former;
            there = old_stays a prior.former prior.there;
            points_on = prior.points_on;
          }
      | inr (_, same) ↦ absurd (cc)
    ];
  }

  -- The next version of a record that has none yet.
  module _ (id : String) (prev : Knowledge) (here : lookup id t ≡ some prev)
      (newest : prev.superseded_by ≡ none) (follows : n.supersedes ≡ some id)
      (version : n.version ≡ prev.version + 1) where
    unfoldable pub replaced : List Knowledge
    replaced = retired n.knowledge_id (some id) (insert n t)

    apart : (id == n.knowledge_id) ≡ false
    apart = ground (arith, eq_iff id n.knowledge_id)

    found_old :
        (a : String) (k : Knowledge)
        → lookup a t ≡ some k
        → lookup a replaced ≡ some (if id == a then superseded n.knowledge_id k else k)
    unfolding replaced
    found_old a k e = ground (
      arith,
      old_stays a k e,
      find-key knowledge_key a k t e,
      eq_iff id a,
      eq_iff a id,
      find-update knowledge_key (λ (x : Knowledge). x.knowledge_id == id)
          (superseded n.knowledge_id) (λ x. refl) a (insert n t),
    )

    found_new : lookup n.knowledge_id replaced ≡ some n
    unfolding replaced
    found_new = ground (
      arith,
      new_is,
      apart,
      eq_iff id n.knowledge_id,
      eq_iff n.knowledge_id id,
      find-update knowledge_key (λ (x : Knowledge). x.knowledge_id == id)
          (superseded n.knowledge_id) (λ x. refl) n.knowledge_id (insert n t),
    )

    -- A record of the table afterwards is the new one, or an old one, which is the one replaced or as it was.
    which_now :
        (a : String) (k : Knowledge)
        → lookup a replaced ≡ some k
        → ((old : Knowledge) × (lookup a t ≡ some old)
            × ((if id == a then superseded n.knowledge_id old else old) ≡ k))
          ⊎ ((n.knowledge_id ≡ a) × (n ≡ k))
    unfolding replaced
    which_now a k e = elim (Option-cases (lookup a t)) [
      | inl absent ↦ elim (Bool-cases (n.knowledge_id == a)) [
        | inl same ↦ let e' = (eq_iff n.knowledge_id a).0 same in inr (e', cc (found_new))
        | inr other ↦ absurd (
            ground (
              arith,
              find-insert knowledge_key a n t,
              find-update knowledge_key (λ (x : Knowledge). x.knowledge_id == id)
                  (superseded n.knowledge_id) (λ x. refl) a (insert n t),
            ))
      ]
      | inr (old, e') ↦ inl (old, e', cc (found_old a old e'))
    ]

    replaced-onward :
        (a b : String) (k : Knowledge)
        → lookup a replaced ≡ some k
        → k.superseded_by ≡ some b
        → Succeeded a b k replaced
    replaced-onward a b k e s = elim (which_now a k e) [
      | inr (_, same) ↦ absurd (cc)
      | inl (old, e', same) ↦ elim (Bool-cases (id == a)) [
        | inl it ↦
            let at : id ≡ a = (eq_iff id a).0 it in
            let b_is : n.knowledge_id ≡ b = ground arith in
            record {
              next = n;
              there = subst (λ x. lookup x replaced ≡ some n) b_is found_new;
              points_back = follows ∙ ap some at;
              newer = ground (arith, version);
              retired_then = ground arith;
            }
        | inr other ↦
            let next = l.onward a b old e' (ground arith) in
            record {
              next = if id == b then superseded n.knowledge_id next.next else next.next;
              there = found_old b next.next next.there;
              points_back = ground (arith, next.points_back);
              newer = ground (arith, next.newer);
              retired_then = ground (arith, next.retired_then);
            }
      ]
    ]

    replaced-back :
        (a b : String) (k : Knowledge)
        → lookup b replaced ≡ some k
        → k.supersedes ≡ some a
        → Preceded a b replaced
    replaced-back a b k e s = elim (which_now b k e) [
      | inr (at, same) ↦
          let a_is : id ≡ a = ground arith in
          record {
            former = superseded n.knowledge_id prev;
            there =
                found_old a prev (subst (λ x. lookup x t ≡ some prev) a_is here)
                ∙ ground (arith, eq_iff id a);
            points_on = ap some at;
          }
      | inl (old, e', same) ↦
          let prior = l.back a b old e' (ground arith) in
          let others : (id == a) ≡ false =
            ground (arith, eq_iff id a, prior.there, prior.points_on) in
          record {
            former = prior.former;
            there = found_old a prior.former prior.there ∙ rw others refl;
            points_on = prior.points_on;
          }
    ]

    pub IsLinked-replaced : IsLinked replaced
    unfolding replaced
    IsLinked-replaced = record {
      keyed =
          IsKeyed-update knowledge_key (λ (x : Knowledge). x.knowledge_id == id)
            (superseded n.knowledge_id) (λ x. refl) (insert n t)
            (IsKeyed-insert knowledge_key n t l.keyed fresh);
      onward = replaced-onward;
      back = replaced-back;
    }
