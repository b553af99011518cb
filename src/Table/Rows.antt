-- ===== src/Table/Rows.antt =====
-- A fact about every row, carried through the statements.
use self_organizing_multi_ag.Base.{
  String, ◌≡◌, ◌↔◌, refl, false, Bool, true, none, some, List, if◌then◌else◌, [], ◌∷◌, arith, All,
}
use self_organizing_multi_ag.Table.{
  when, map_row, delete, select, affected, first, update, insert, find,
}

module _ {R : Type 0} where
  -- An update that no row meets changes nothing.
  pub update-none :
      (p : R → Bool) (f : R → R) (t : List R) → All (λ r. p r ≡ false) t → update p f t ≡ t
  unfolding update
  update-none p f [] h = refl
  update-none p f (r ∷ t) h = ground (arith, update-none p f t h.1)

  -- Nor does one with an empty count.
  pub update-affected :
      (p : R → Bool) (f : R → R) (t : List R) → affected p t ≡ 0 → update p f t ≡ t
  unfolding update affected
  update-affected p f [] h = refl
  update-affected p f (r ∷ t) h = ground (arith, update-affected p f t)

  -- A row that an update leaves fails the test, when the new values do.
  pub update_clears :
      (p : R → Bool) (f : R → R)
      → ((r : R) → p r ≡ true → p (f r) ≡ false)
      → (t : List R) → All (λ r. p r ≡ false) (update p f t)
  unfolding update
  update_clears p f clear [] = tt
  update_clears p f clear (r ∷ t) = ground (arith, clear r, update_clears p f clear t)

module _ {R : Type 0} (P : R → Type 0) where
  pub All-update :
      (p : R → Bool) (f : R → R)
      → ((r : R) → p r ≡ true → P r → P (f r))
      → (t : List R) → All P t
      → All P (update p f t)
  unfolding update
  All-update p f step [] h = tt
  All-update p f step (r ∷ t) h = ground (arith, step r, All-update p f step t h.1)

  -- A scan returns rows that pass its test.
  pub All-select :
      (p : R → Bool) (t : List R) → All P t → All (λ r. (p r ≡ true) × P r) (select p t)
  unfolding select
  All-select p [] h = tt
  All-select p (r ∷ t) h = ground (arith, All-select p t h.1)

  pub All-insert : (r : R) (t : List R) → All P t → P r → All P (insert r t)
  unfolding insert
  All-insert r [] h p = (p, tt)
  All-insert r (x ∷ t) h p = (h.0, All-insert r t h.1 p)

  pub All-find :
      (key : R → String) (k : String) (r : R) (t : List R) → All P t → find key k t ≡ some r → P r
  unfolding find
  All-find key k r [] h e = cc
  All-find key k r (x ∷ t) h e = ground (arith, All-find key k r t h.1)

  pub All-first : (p : R → Bool) (r : R) (t : List R) → All P t → first p t ≡ some r → P r
  unfolding first
  All-first p r [] h e = cc
  All-first p r (x ∷ t) h e = ground (arith, All-first p r t h.1)

module _ {R : Type 0} where
  -- A scan of a table with one more row at its end.
  pub first-insert :
      (p : R → Bool) (r : R) (t : List R)
      → first p (insert r t)
        ≡ elim (first p t) [ none ↦ if p r then some r else none | some x ↦ some x ]
  unfolding first insert
  first-insert p r [] = refl
  first-insert p r (x ∷ t) = ground (arith, first-insert p r t)

  -- A scan after an update that does not touch what it tests.
  pub first-update :
      (p q : R → Bool) (f : R → R) (keeps : (r : R) → p (f r) ≡ p r) (t : List R)
      → first p (update q f t) ≡ map_row (when q f) (first p t)
  unfolding first update
  first-update p q f keeps [] = refl
  first-update p q f keeps (r ∷ t) = ground (arith, keeps r, first-update p q f keeps t)

  -- A scan that finds nothing leaves nothing to update.
  pub affected-first : (p : R → Bool) (t : List R) → (affected p t ≡ 0) ↔ (first p t ≡ none)
  unfolding first affected
  affected-first p [] = (λ e. refl, λ e. refl)
  affected-first p (r ∷ t) = ground (arith, affected-first p t)

  pub first-delete : (p : R → Bool) (t : List R) → first p (delete p t) ≡ none
  unfolding first delete
  first-delete p [] = refl
  first-delete p (r ∷ t) = ground (arith, first-delete p t)
