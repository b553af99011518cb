-- ===== src/Paging/Follow.antt =====
-- Lemmas on the pages of a caller who follows the cursors.
use self_organizing_multi_ag.Base.{
  ℕ, ℤ, pos, negsuc, suc, ◌+◌, ◌-◌, ◌<◌, String, ◌≡◌, refl, subst, ◌∙◌, ap, Bool, true, false,
  Option, none, some, List, [], ◌∷◌, ◌++◌, take, length, arith, ltb, if◌then◌else◌, Bool-cases, inl,
  inr,
}
use self_organizing_multi_ag.Errors.{Result, ok, err}
use self_organizing_multi_ag.Table.{select, place, order_by, find, IsKeyed}
use self_organizing_multi_ag.Paging.{
  page_limit, RowCursor, from_start, after_row, unreadable, is_unreadable, row_before, past,
  cursor_at, rows_for, row_at, cursor_after,
}
use self_organizing_multi_ag.Paging.Pieces.{
  drop, row_at-take, row_at-some, All-row_at, take-take, lt-length-take, take_all, length-drop,
  select-take-drop, length-select-le, select_narrow, select_both, All-select_self,
}
use self_organizing_multi_ag.Paging.Order.{
  Sorted, Above, comes_after_trans, row_before-asym, row_before_irrefl, order_by-Sorted,
  select-Sorted, select-order_by,
}

module _ {R : Type 0} where
  abbrev joined_pages : List R → Option (List R) → Option (List R)
  joined_pages page none = none
  joined_pages page (some rest) = some (page ++ rest)

  -- What a call has returned, and the pages that follow it.
  abbrev proceed : Result (List R × RowCursor) → (RowCursor → Option (List R)) → Option (List R)
  proceed (err e) more = none
  proceed (ok (page, from_start)) more = some page
  proceed (ok (page, after_row ts i)) more = joined_pages page (more (after_row ts i))
  proceed (ok (page, unreadable)) more = none

  -- All the pages from a cursor on, `n` calls at most; `none` where a call fails or more are needed.
  unfoldable pub follow :
      ℕ → (RowCursor → Result (List R × RowCursor)) → RowCursor → Option (List R)
  follow ℕ.zero fetch c = none
  follow (suc n) fetch c = proceed (fetch c) (follow n fetch)

  one_page :
      (n ts : ℕ) (i : String) (fetch : RowCursor → Result (List R × RowCursor)) (c : RowCursor)
      (page rest : List R)
      → fetch c ≡ ok (page, after_row ts i)
      → follow n fetch (after_row ts i) ≡ some rest
      → follow (suc n) fetch c ≡ some (page ++ rest)
  unfolding follow
  one_page n ts i fetch c page rest h k = rw (h, k) refl

  last_page :
      (n : ℕ) (fetch : RowCursor → Result (List R × RowCursor)) (c : RowCursor) (page : List R)
      → fetch c ≡ ok (page, from_start)
      → follow (suc n) fetch c ≡ some page
  unfolding follow
  last_page n fetch c page h = rw h refl

module _ {R : Type 0} (time : R → ℕ) (id : R → String) where
  all-Above : (k : R) (xs : List R) → Above time id k xs → select (row_before time id k) xs ≡ xs
  unfolding select
  all-Above k [] h = refl
  all-Above k (x ∷ xs) h = ground (arith, all-Above k xs h.1)

  -- Past a row of a sorted list stand the rows after it.
  later_rows :
      (m : ℕ) (k : R) (xs : List R)
      → Sorted time id xs
      → row_at m xs ≡ some k
      → select (row_before time id k) xs ≡ drop (suc m) xs
  unfolding row_at select
  later_rows m k [] s h = refl
  later_rows ℕ.zero k (x ∷ xs) s h =
      let e : x ≡ k = cc in
      subst (λ y. select (row_before time id y) (x ∷ xs) ≡ xs) e
        (rw (row_before_irrefl time id x) (all-Above x xs s.0))
  later_rows (suc m) k (x ∷ xs) s h =
      let first = All-row_at (λ y. row_before time id x y ≡ true) m k xs h s.0 in
      rw (row_before-asym time id x k first) (later_rows m k xs s.1 h)

  narrower :
      (c : RowCursor) (k x : R)
      → past time id c k ≡ true
      → row_before time id k x ≡ true
      → past time id c x ≡ true
  narrower from_start k x h g = refl
  narrower (after_row ts i) k x h g = comes_after_trans time id ts i k x h g
  narrower unreadable k x h g = h

  none-select :
      (i : String) (p : R → Bool) (t : List R) → find id i t ≡ none → find id i (select p t) ≡ none
  unfolding find select
  none-select i p [] h = refl
  none-select i p (r ∷ t) h = ground (arith, none-select i p t)

  IsKeyed-select : (p : R → Bool) (t : List R) → IsKeyed id t → IsKeyed id (select p t)
  unfolding select
  IsKeyed-select p [] k = tt
  IsKeyed-select p (r ∷ t) k = ground (arith, none-select (id r) p t k.0, IsKeyed-select p t k.1)

  module _ (L : List R) (sorted : Sorted time id L) (q : R → Bool) (m : ℕ)
      (fetch : RowCursor → Result (List R × RowCursor))
      (page : (c : RowCursor)
        → is_unreadable c ≡ false
        → let rows = take (suc (suc m)) (select (past time id c) L) in
          fetch c ≡ ok (select q (take (suc m) rows), cursor_after time id (suc m) rows)) where
    abbrev ahead : RowCursor → List R
    ahead c = select (past time id c) L

    -- A page that is not the last leaves the rows after its own.
    further :
        (c : RowCursor)
        → is_unreadable c ≡ false
        → suc m < length (ahead c)
        → (k : R) × (row_at m (take (suc (suc m)) (ahead c)) ≡ some k)
          × (ahead (after_row (time k) (id k)) ≡ drop (suc m) (ahead c))
    further c u h =
        let (k, at) = row_at-some m (ahead c) (omega arith) in
        let below =
          All-row_at (λ x. past time id c x ≡ true) m k (ahead c) at
            (All-select_self (past time id c) L) in
        (
          k,
          row_at-take m (suc (suc m)) (ahead c) (omega arith) ∙ at,
          select_narrow (past time id c) (row_before time id k) L (λ x. narrower c k x below)
              ∙ later_rows m k (ahead c) (select-Sorted time id (past time id c) L sorted) at,
        )

    -- What a call returns: the page, and the cursor of its last row where rows are left.
    fetched :
        (c : RowCursor)
        → is_unreadable c ≡ false
        → fetch c
          ≡ ok (
            select q (take (suc m) (ahead c)),
            if ltb (suc m) (length (ahead c))
                then cursor_at time id (row_at m (take (suc (suc m)) (ahead c)))
                else from_start,
          )
    unfolding cursor_after
    fetched c u =
        let before : suc m - 1 ≡ m = omega arith in
        page c u ∙ rw (take-take, lt-length-take (suc m) (ahead c), before) refl

    follow_from :
        (n : ℕ) (c : RowCursor)
        → is_unreadable c ≡ false
        → length (ahead c) < n
        → follow n fetch c ≡ some (select q (ahead c))
    follow_from ℕ.zero c u h = absurd (omega arith)
    follow_from (suc n) c u h = elim (Bool-cases (ltb (suc m) (length (ahead c)))) [
      | inl longer ↦
          let (k, at, rest) = further c u (ground arith) in
          let left = length-drop (suc m) (ahead c) (ground arith) in
          let ih = follow_from n (after_row (time k) (id k)) refl (rw rest (omega (arith, left))) in
          one_page n (time k) (id k) fetch c (select q (take (suc m) (ahead c)))
            (select q (ahead (after_row (time k) (id k)))) (fetched c u ∙ rw (longer, at) refl) ih
          ∙ ap some (
              ap (λ xs. select q (take (suc m) (ahead c)) ++ select q xs) rest
              ∙ select-take-drop q (suc m) (ahead c))
      | inr last ↦
          last_page n fetch c (select q (ahead c))
            (fetched c u ∙ rw (last, take_all (suc m) (ahead c) (ground arith)) refl)
    ]

  rows_for_lem :
      (p : R → Bool) (m : ℕ) (c : RowCursor) (t : List R)
      → IsKeyed id t
      → rows_for time id p (suc m) c t
        ≡ take (suc (suc m)) (select (past time id c) (order_by (row_before time id) (select p t)))
  unfolding rows_for
  rows_for_lem p m c t k =
      let one_more : suc m + 1 ≡ suc (suc m) = omega arith in
      rw
        (
          one_more,
          select_both p (past time id c) t,
          select-order_by time id (past time id c) (select p t) (IsKeyed-select p t k),
        )
        refl

  length-place : (r : R) (t : List R) → length (place (row_before time id) r t) ≡ suc (length t)
  unfolding place
  length-place r [] = refl
  length-place r (x ∷ t) = ground (arith, length-place r t)

  length-order_by : (t : List R) → length (order_by (row_before time id) t) ≡ length t
  unfolding order_by
  length-order_by [] = refl
  length-order_by (r ∷ t) =
      omega (arith, length-place r (order_by (row_before time id) t), length-order_by t)

  pub select-true : (xs : List R) → select (λ x. true) xs ≡ xs
  unfolding select
  select-true [] = refl
  select-true (x ∷ xs) = ap (◌∷◌ x) (select-true xs)

  -- A caller who follows the cursors reaches the end, and has every row once.
  pub follow_all :
      (p q : R → Bool) (limit : ℕ) (t : List R) (fetch : RowCursor → Result (List R × RowCursor))
      → IsKeyed id t
      → 0 < limit
      → ((c : RowCursor)
          → is_unreadable c ≡ false
          → let rows = rows_for time id p limit c t in
            fetch c ≡ ok (select q (take limit rows), cursor_after time id limit rows))
      → follow (length t + 1) fetch from_start
        ≡ some (select q (order_by (row_before time id) (select p t)))
  unfolding select
  follow_all p q ℕ.zero t fetch k h page = absurd (omega arith)
  follow_all p q (suc m) t fetch k h page =
      let L = order_by (row_before time id) (select p t) in
      follow_from L (order_by-Sorted time id (select p t) (IsKeyed-select p t k)) q m fetch
        (λ c u. rw (← rows_for_lem p m c t k) (page c u)) (length t + 1) from_start refl
        (omega (
          arith,
          length-select-le (past time id from_start) L,
          length-order_by (select p t),
          length-select-le p t,
        ))
      ∙ ap (λ xs. some (select q xs)) (select-true L)

pub page_limit_pos : (z : ℤ) → 0 < page_limit z
page_limit_pos (pos n) = ground arith
page_limit_pos (negsuc n) = omega arith
