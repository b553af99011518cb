-- ===== src/Paging/Order.antt =====
-- Lemmas on the order of the rows of a list.
use self_organizing_multi_ag.Base.{
  ℕ, String, ◌≡◌, ◌≢◌, refl, ◌∙◌, Bool, true, false, none, List, [], ◌∷◌, All, arith, eq_iff,
  text_lt_trans, text_lt_irrefl, text_lt-connex, if◌then◌else◌, Bool-cases, inl, inr,
}
use self_organizing_multi_ag.Table.{select, place, order_by, find, IsKeyed}
use self_organizing_multi_ag.Table.Sorted.{All-place, All-order_by}
use self_organizing_multi_ag.Paging.{comes_after, row_before}

module _ {R : Type 0} (time : R → ℕ) (id : R → String) where
  pub comes_after_trans :
      (ts : ℕ) (i : String) (a b : R)
      → comes_after time id ts i a ≡ true
      → row_before time id a b ≡ true
      → comes_after time id ts i b ≡ true
  comes_after_trans ts i a b h k = ground (arith, text_lt_trans i (id a) (id b))

  pub row_before-asym : (a b : R) → row_before time id a b ≡ true → row_before time id b a ≡ false
  row_before-asym a b h = ground (arith, text_lt_trans (id a) (id b) (id a), text_lt_irrefl (id a))

  pub row_before_irrefl : (a : R) → row_before time id a a ≡ false
  row_before_irrefl a = ground (arith, text_lt_irrefl (id a))

  row_before-connex :
      (a b : R) → id a ≢ id b → row_before time id a b ≡ false → row_before time id b a ≡ true
  row_before-connex a b d h = ground (arith, text_lt-connex (id a) (id b))

  abbrev pub Above : R → List R → Type 0
  Above r t = All (λ x. row_before time id r x ≡ true) t

  abbrev Apart : R → List R → Type 0
  Apart r t = All (λ x. id x ≢ id r) t

  abbrev pub Sorted : List R → Type 0
  Sorted [] = Unit
  Sorted (r ∷ t) = Above r t × Sorted t

  Above-trans : (a b : R) (t : List R) → row_before time id a b ≡ true → Above b t → Above a t
  Above-trans a b [] h k = tt
  Above-trans a b (x ∷ t) h k =
      (comes_after_trans (time a) (id a) b x h k.0, Above-trans a b t h k.1)

  place-Sorted :
      (r : R) (t : List R) → Apart r t → Sorted t → Sorted (place (row_before time id) r t)
  unfolding place
  place-Sorted r [] d s = (tt, tt)
  place-Sorted r (x ∷ t) d s = elim (Bool-cases (row_before time id x r)) [
    | inl before ↦ rw before (
      All-place (row_before time id) (λ y. row_before time id x y ≡ true) r t before s.0,
      place-Sorted r t d.1 s.1,
    )
    | inr other ↦
        let first = row_before-connex x r d.0 other in
        rw other ((first, Above-trans r x t first s.0), s)
  ]

  Apart-find : (r : R) (t : List R) → find id (id r) t ≡ none → Apart r t
  unfolding find
  Apart-find r [] h = tt
  Apart-find r (x ∷ t) h = (ground (arith, eq_iff (id x) (id r)), Apart-find r t (ground arith))

  pub order_by-Sorted : (t : List R) → IsKeyed id t → Sorted (order_by (row_before time id) t)
  unfolding order_by
  order_by-Sorted [] k = tt
  order_by-Sorted (r ∷ t) k =
      place-Sorted r (order_by (row_before time id) t)
        (All-order_by (row_before time id) (λ x. id x ≢ id r) t (Apart-find r t k.0))
        (order_by-Sorted t k.1)

  All-select-Above : (p : R → Bool) (r : R) (t : List R) → Above r t → Above r (select p t)
  unfolding select
  All-select-Above p r [] h = tt
  All-select-Above p r (x ∷ t) h = ground (arith, All-select-Above p r t h.1)

  pub select-Sorted : (p : R → Bool) (t : List R) → Sorted t → Sorted (select p t)
  unfolding select
  select-Sorted p [] s = tt
  select-Sorted p (r ∷ t) s = ground (arith, All-select-Above p r t s.0, select-Sorted p t s.1)

  -- A row that stands above all of a list is placed in front of it.
  place_front : (r : R) (t : List R) → Above r t → place (row_before time id) r t ≡ r ∷ t
  unfolding place
  place_front r [] h = refl
  place_front r (x ∷ t) h = ground (arith, row_before-asym r x)

  select-place :
      (p : R → Bool) (r : R) (t : List R)
      → Apart r t
      → Sorted t
      → select p (place (row_before time id) r t)
        ≡ (if p r then place (row_before time id) r (select p t) else select p t)
  unfolding select place
  select-place p r [] d s = refl
  select-place p r (x ∷ t) d s = elim (Bool-cases (row_before time id x r)) [
    | inl before ↦ rw before (ground (arith, select-place p r t d.1 s.1))
    | inr other ↦
        let first = row_before-connex x r d.0 other in
        ground (
          arith,
          place_front r (select p (x ∷ t))
              (All-select-Above p r (x ∷ t) (first, Above-trans r x t first s.0)),
        )
  ]

  -- To choose and then to sort is to sort and then to choose.
  pub select-order_by :
      (p : R → Bool) (t : List R)
      → IsKeyed id t
      → select p (order_by (row_before time id) t) ≡ order_by (row_before time id) (select p t)
  unfolding select order_by
  select-order_by p [] k = refl
  select-order_by p (r ∷ t) k =
      select-place p r (order_by (row_before time id) t)
        (All-order_by (row_before time id) (λ x. id x ≢ id r) t (Apart-find r t k.0))
        (order_by-Sorted t k.1)
      ∙ ground (arith, select-order_by p t k.1)
