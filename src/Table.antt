-- ===== src/Table.antt =====
-- SQL tables as lists of rows: the statements that internal/store sends, read as list functions.
-- A row type comes with its primary key, a text.
pub mod Keyed
pub mod Rows
pub mod Sorted
use self_organizing_multi_ag.Base.{
  ℕ, ◌+◌, String, ◌≡◌, Bool, false, Option, none, some, List, [], ◌∷◌, ◌++◌, arith, ◌==◌, eq_iff,
  if◌then◌else◌,
}

module _ {R : Type 0} where
  -- `SELECT … WHERE p`, every row, in table order
  unfoldable pub select : (R → Bool) → List R → List R
  select p [] = []
  select p (r ∷ t) = let rest = select p t in if p r then r ∷ rest else rest

  -- `SELECT … WHERE p`, the first row
  unfoldable pub first : (R → Bool) → List R → Option R
  first p [] = none
  first p (r ∷ t) = if p r then some r else first p t

  abbrev pub when : (R → Bool) → (R → R) → R → R
  when p f r = if p r then f r else r

  -- `UPDATE … SET f WHERE p`
  unfoldable pub update : (R → Bool) → (R → R) → List R → List R
  update p f [] = []
  update p f (r ∷ t) = when p f r ∷ update p f t

  -- `RowsAffected` of the same
  unfoldable pub affected : (R → Bool) → List R → ℕ
  affected p [] = 0
  affected p (r ∷ t) = (if p r then 1 else 0) + affected p t

  -- `DELETE … WHERE p`
  unfoldable pub delete : (R → Bool) → List R → List R
  delete p [] = []
  delete p (r ∷ t) = let rest = delete p t in if p r then rest else r ∷ rest

  -- `INSERT`, at the end of the table
  unfoldable pub insert : R → List R → List R
  insert r t = t ++ r ∷ []

  -- `ORDER BY`, for a test of what comes before: rows that tie keep their order
  unfoldable pub place : (R → R → Bool) → R → List R → List R
  place before r [] = r ∷ []
  place before r (x ∷ t) = let rest = place before r t in if before x r then x ∷ rest else r ∷ x ∷ t

  unfoldable pub order_by : (R → R → Bool) → List R → List R
  unfolding place
  order_by before [] = []
  order_by before (r ∷ t) = place before r (order_by before t)

  abbrev pub map_row : (R → R) → Option R → Option R
  map_row f none = none
  map_row f (some r) = some (f r)

  abbrev pub keep_if : (R → Bool) → Option R → Option R
  keep_if p none = none
  keep_if p (some r) = if p r then some r else none

  abbrev pub holds : (R → Bool) → Option R → Bool
  holds p none = false
  holds p (some r) = p r

module _ {R : Type 0} (key : R → String) where
  -- `SELECT … WHERE key = k`
  unfoldable pub find : String → List R → Option R
  find k [] = none
  find k (r ∷ t) = if key r == k then some r else find k t

  -- The key is unique, as `PRIMARY KEY` demands.
  abbrev pub IsKeyed : List R → Type 0
  IsKeyed [] = Unit
  IsKeyed (r ∷ t) = (find (key r) t ≡ none) × IsKeyed t

  pub find-key : (k : String) (r : R) (t : List R) → find k t ≡ some r → key r ≡ k
  unfolding find
  find-key k r [] h = cc
  find-key k r (x ∷ t) h = ground (arith, eq_iff (key x) k, find-key k r t)
