-- ===== src/Paging.antt =====
-- Pages of the store's lists: the cursor of internal/store/util.go with the rows that `List` of tasks.go and
-- `Search` of knowledge.go cut a page from. A cursor is what its text decodes to.
pub mod Order
pub mod Pieces
pub mod Follow
use self_organizing_multi_ag.Base.{
  ℕ, suc, ℤ, pos, negsuc, ◌+◌, ◌-◌, String, Bool, true, false, ◌&&◌, ◌||◌, Option, none, some, List,
  [], ◌∷◌, take, length, ltb, nat_eq, text_lt, if◌then◌else◌,
}
use self_organizing_multi_ag.Table.{select, order_by}

-- The size of a page: 50 unless the request names one of 1 to 100.
abbrev pub page_limit : ℤ → ℕ
page_limit (pos n) = if nat_eq n 0 || ltb 100 n then 50 else n
page_limit (negsuc n) = 50

-- No cursor, the time and id of a row, or a text that does not decode.
pub data RowCursor : Type 0 where
  from_start : RowCursor
  after_row : ℕ → String → RowCursor
  unreadable : RowCursor

abbrev pub is_unreadable : RowCursor → Bool
is_unreadable unreadable = true
is_unreadable _ = false

-- `rows[n]`
unfoldable pub row_at {ℓ} : {R : Type ℓ} → ℕ → List R → Option R
row_at n [] = none
row_at ℕ.zero (r ∷ rows) = some r
row_at (suc n) (r ∷ rows) = row_at n rows

module _ {R : Type 0} (time : R → ℕ) (id : R → String) where
  -- `time > ts OR (time = ts AND id > i)`
  abbrev pub comes_after : ℕ → String → R → Bool
  comes_after ts i r = ltb ts (time r) || (nat_eq (time r) ts && text_lt i (id r))

  -- `ORDER BY time, id`
  abbrev pub row_before : R → R → Bool
  row_before a b = comes_after (time a) (id a) b

  abbrev pub past : RowCursor → R → Bool
  past from_start r = true
  past (after_row ts i) r = comes_after ts i r
  past unreadable r = false

  abbrev pub cursor_at : Option R → RowCursor
  cursor_at none = from_start
  cursor_at (some r) = after_row (time r) (id r)

  -- The rows that the query returns: one more than the page holds.
  unfoldable pub rows_for : (R → Bool) → ℕ → RowCursor → List R → List R
  rows_for p limit c t = take (limit + 1) (order_by row_before (select (λ r. p r && past c r) t))

  -- The cursor of a page: of its last row, where another row follows.
  unfoldable pub cursor_after : ℕ → List R → RowCursor
  unfolding row_at
  cursor_after limit rows =
      if ltb limit (length rows) then cursor_at (row_at (limit - 1) rows) else from_start
