-- ===== src/Table/Sorted.antt =====
-- The rows of a sorted table are those of the table.
use self_organizing_multi_ag.Base.{
  ◌≡◌, Bool, true, some, List, [], ◌∷◌, arith, All, Bool-cases, inl, inr, ◌⊎◌,
}
use self_organizing_multi_ag.Table.{first, select, place, order_by}

module _ {R : Type 0} (before : R → R → Bool) (P : R → Type 0) where
  pub All-place : (r : R) (t : List R) → P r → All P t → All P (place before r t)
  unfolding place
  All-place r [] h k = (h, tt)
  All-place r (x ∷ t) h k = elim (Bool-cases (before x r)) [
    | inl first ↦ rw first (k.0, All-place r t h k.1)
    | inr other ↦ rw other (h, k)
  ]

  pub All-order_by : (t : List R) → All P t → All P (order_by before t)
  unfolding order_by
  All-order_by [] k = tt
  All-order_by (r ∷ t) k = All-place r (order_by before t) k.0 (All-order_by t k.1)

  pub All-placed : (r : R) (t : List R) → All P (place before r t) → P r × All P t
  unfolding place
  All-placed r [] h = h
  All-placed r (x ∷ t) h = elim (Bool-cases (before x r)) [
    | inl earlier ↦
        let h' : P x × All P (place before r t) = rw earlier at h in
        let (now, rest) = All-placed r t h'.1 in (now, (h'.0, rest))
    | inr other ↦ rw other at h
  ]

  pub All-ordered : (t : List R) → All P (order_by before t) → All P t
  unfolding order_by
  All-ordered [] h = tt
  All-ordered (r ∷ t) h =
      let (now, rest) = All-placed r (order_by before t) h in (now, All-ordered t rest)

module _ {R : Type 0} where
  -- The row stands in the table.
  abbrev pub IsIn : R → List R → Type 0
  IsIn m [] = ⊥
  IsIn m (x ∷ t) = (x ≡ m) ⊎ IsIn m t

  pub first-IsIn : (q : R → Bool) (m : R) (t : List R) → first q t ≡ some m → IsIn m t
  unfolding first
  first-IsIn q m [] h = cc
  first-IsIn q m (x ∷ t) h = elim (Bool-cases (q x)) [
    | inl here ↦ inl (ground arith)
    | inr later ↦ inr (first-IsIn q m t (ground arith))
  ]

  pub select-IsIn : (p : R → Bool) (m : R) (t : List R) → IsIn m (select p t) → IsIn m t
  unfolding select
  select-IsIn p m [] h = h
  select-IsIn p m (x ∷ t) h = elim (Bool-cases (p x)) [
    | inl chosen ↦ elim (rw chosen at h) [
      | inl e ↦ inl e
      | inr later ↦ inr (select-IsIn p m t later)
    ]
    | inr left ↦ inr (select-IsIn p m t (rw left at h))
  ]

  pub place-IsIn :
      (before : R → R → Bool) (r m : R) (t : List R)
      → IsIn m (place before r t)
      → (r ≡ m) ⊎ IsIn m t
  unfolding place
  place-IsIn before r m [] h = h
  place-IsIn before r m (x ∷ t) h = elim (Bool-cases (before x r)) [
    | inl earlier ↦ elim (rw earlier at h) [
      | inl e ↦ inr (inl e)
      | inr later ↦ elim (place-IsIn before r m t later) [ inl e ↦ inl e | inr i ↦ inr (inr i) ]
    ]
    | inr other ↦ rw other at h
  ]

  pub order_by-IsIn :
      (before : R → R → Bool) (m : R) (t : List R) → IsIn m (order_by before t) → IsIn m t
  unfolding order_by
  order_by-IsIn before m [] h = h
  order_by-IsIn before m (r ∷ t) h = elim (place-IsIn before r m (order_by before t) h) [
    | inl e ↦ inl e
    | inr i ↦ inr (order_by-IsIn before m t i)
  ]

  pub All-chosen :
      (P : R → Type 0) (p : R → Bool) (t : List R)
      → All P (select p t)
      → All (λ x. p x ≡ true → P x) t
  unfolding select
  All-chosen P p [] h = tt
  All-chosen P p (x ∷ t) h = elim (Bool-cases (p x)) [
    | inl chosen ↦
        let h' : P x × All P (select p t) = rw chosen at h in (λ e. h'.0, All-chosen P p t h'.1)
    | inr left ↦ (λ e. absurd (cc), All-chosen P p t (rw left at h))
  ]
