-- ===== src/Members/Roster/Eldest.antt =====
-- Lemmas on the order of `Coordinators` of internal/store/membership.go.
use self_organizing_multi_ag.Base.{
  ℕ, String, ◌≡◌, refl, subst, Bool, true, false, Option, none, some, List, [], ◌∷◌, All, arith,
  text_lt, text_lt_trans, text_lt-connex, text_lt_irrefl, Bool-cases, inl, inr,
}
use self_organizing_multi_ag.Db.{Membership}
use self_organizing_multi_ag.Table.{first, select, place, order_by}
use self_organizing_multi_ag.Table.Rows.{All-first}
use self_organizing_multi_ag.Table.Sorted.{
  All-place, All-ordered, All-chosen, All-order_by, IsIn, first-IsIn, select-IsIn, order_by-IsIn,
}
use self_organizing_multi_ag.Paging.Pieces.{All-select_self}
use self_organizing_multi_ag.Table.Keyed.{first_holds}
use self_organizing_multi_ag.Members.Roster.{sooner, joined_before}

text_lt-negtrans :
    (a b c : String) → text_lt a b ≡ false → text_lt b c ≡ false → text_lt a c ≡ false
text_lt-negtrans a b c h k = elim (Bool-cases (text_lt a c)) [
  | inr not_before ↦ not_before
  | inl before ↦ elim (Bool-cases (text_lt c b)) [
    | inl above ↦ absurd (ground (arith, text_lt_trans a c b))
    | inr level ↦ absurd (ground (arith, text_lt-connex b c k level))
  ]
]

sooner-asym : (a b : Option ℕ) → sooner a b ≡ true → sooner b a ≡ false
sooner-asym none none h = refl
sooner-asym none (some t) h = refl
sooner-asym (some s) none h = cc
sooner-asym (some s) (some t) h = ground arith

sooner-negtrans : (a b c : Option ℕ) → sooner a b ≡ false → sooner b c ≡ false → sooner a c ≡ false
sooner-negtrans none none c h k = k
sooner-negtrans none (some t) c h k = cc
sooner-negtrans (some s) b none h k = refl
sooner-negtrans (some s) none (some u) h k = cc
sooner-negtrans (some s) (some t) (some u) h k = ground arith

joined_before-asym : (a b : Membership) → joined_before a b ≡ true → joined_before b a ≡ false
joined_before-asym a b h = ground (
  arith,
  sooner-asym a.joined_at b.joined_at,
  text_lt_trans a.agent_id b.agent_id a.agent_id,
  text_lt_irrefl a.agent_id,
)

joined_before-negtrans :
    (a b c : Membership)
    → joined_before a b ≡ false
    → joined_before b c ≡ false
    → joined_before a c ≡ false
joined_before-negtrans a b c h k = ground (
  arith,
  sooner-negtrans a.joined_at b.joined_at c.joined_at,
  sooner-negtrans c.joined_at b.joined_at a.joined_at,
  sooner-negtrans b.joined_at a.joined_at c.joined_at,
  sooner-negtrans b.joined_at c.joined_at a.joined_at,
  sooner-negtrans c.joined_at a.joined_at b.joined_at,
  text_lt-negtrans a.agent_id b.agent_id c.agent_id,
)

joined_before_irrefl : (a : Membership) → joined_before a a ≡ false
joined_before_irrefl a = elim (Bool-cases (joined_before a a)) [
  | inl before ↦ joined_before-asym a a before
  | inr not_before ↦ not_before
]

-- Nobody of the list joined before the member.
abbrev pub NoneBefore : Membership → List Membership → Type 0
NoneBefore m t = All (λ (x : Membership). joined_before x m ≡ false) t

abbrev EldestFirst : List Membership → Type 0
EldestFirst [] = Unit
EldestFirst (m ∷ t) = NoneBefore m t × EldestFirst t

place-EldestFirst :
    (r : Membership) (t : List Membership) → EldestFirst t → EldestFirst (place joined_before r t)
unfolding place
place-EldestFirst r [] s = (tt, tt)
place-EldestFirst r (x ∷ t) s = elim (Bool-cases (joined_before x r)) [
  | inl earlier ↦ rw earlier (
    All-place joined_before (λ y. joined_before y x ≡ false) r t (joined_before-asym x r earlier)
        s.0,
    place-EldestFirst r t s.1,
  )
  | inr other ↦ rw other ((other, later r x t other s.0), s)
]
  where
    later :
        (r x : Membership) (t : List Membership)
        → joined_before x r ≡ false
        → NoneBefore x t
        → NoneBefore r t
    later r x [] h k = tt
    later r x (y ∷ t) h k = (joined_before-negtrans y x r k.0 h, later r x t h k.1)

order_by-EldestFirst : (t : List Membership) → EldestFirst (order_by joined_before t)
unfolding order_by
order_by-EldestFirst [] = tt
order_by-EldestFirst (r ∷ t) =
    place-EldestFirst r (order_by joined_before t) (order_by-EldestFirst t)

first-NoneBefore :
    (q : Membership → Bool) (m : Membership) (t : List Membership)
    → EldestFirst t
    → first q t ≡ some m
    → All (λ x. q x ≡ true → joined_before x m ≡ false) t
unfolding first
first-NoneBefore q m [] s h = tt
first-NoneBefore q m (x ∷ t) s h = elim (Bool-cases (q x)) [
  | inl here ↦
      let e : x ≡ m = ground arith in
      subst (λ y. All (λ z. q z ≡ true → joined_before z y ≡ false) (x ∷ t)) e
        (λ _. joined_before_irrefl x, All_weak t s.0)
  | inr later ↦ (λ e. absurd (cc), first-NoneBefore q m t s.1 (ground arith))
]
  where
    All_weak :
        (t : List Membership) → NoneBefore x t → All (λ z. q z ≡ true → joined_before z x ≡ false) t
    All_weak [] k = tt
    All_weak (y ∷ t) k = (λ _. k.0, All_weak t k.1)

none_meets :
    (q : Membership → Bool) (t : List Membership) → first q t ≡ none → All (λ x. q x ≡ false) t
unfolding first
none_meets q [] h = tt
none_meets q (x ∷ t) h = (ground arith, none_meets q t (ground arith))

-- The first of the rows in order that meets a test: it is one of the table, and nobody like it joined
-- before it.
pub record Eldest (p q : Membership → Bool) (t : List Membership) (m : Membership) : Type 0 where
  pub there : IsIn m t
  pub chosen : p m ≡ true
  pub fit : q m ≡ true
  pub oldest : All (λ (x : Membership). p x ≡ true → q x ≡ true → joined_before x m ≡ false) t

pub first-Eldest :
    (p q : Membership → Bool) (t : List Membership) (m : Membership)
    → first q (order_by joined_before (select p t)) ≡ some m
    → Eldest p q t m
first-Eldest p q t m h =
    let L = order_by joined_before (select p t) in
    record {
      there = select-IsIn p m t (order_by-IsIn joined_before m (select p t) (first-IsIn q m L h));
      chosen =
          All-first (λ x. p x ≡ true) q m L
            (All-order_by joined_before (λ x. p x ≡ true) (select p t) (All-select_self p t)) h;
      fit = first_holds q m L h;
      oldest =
          All-chosen (λ x. q x ≡ true → joined_before x m ≡ false) p t
            (All-ordered joined_before (λ x. q x ≡ true → joined_before x m ≡ false) (select p t)
              (first-NoneBefore q m L (order_by-EldestFirst (select p t)) h));
    }

pub first-nobody :
    (p q : Membership → Bool) (t : List Membership)
    → first q (order_by joined_before (select p t)) ≡ none
    → All (λ (x : Membership). p x ≡ true → q x ≡ false) t
first-nobody p q t h =
    All-chosen (λ x. q x ≡ false) p t
      (All-ordered joined_before (λ x. q x ≡ false) (select p t)
        (none_meets q (order_by joined_before (select p t)) h))
