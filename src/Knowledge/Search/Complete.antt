-- ===== src/Knowledge/Search/Complete.antt =====
-- Lemmas on a caller who follows the cursors of `Search` of internal/store/knowledge.go.
use self_organizing_multi_ag.Base.{ℕ, ◌+◌, String, ◌≡◌, refl, Bool, false, some, List, take, length}
use self_organizing_multi_ag.Errors.{Result, ok}
use self_organizing_multi_ag.Db.{Db, Knowledge}
use self_organizing_multi_ag.Table.{select, order_by, IsKeyed}
use self_organizing_multi_ag.Paging.{
  page_limit, RowCursor, from_start, after_row, unreadable, is_unreadable, row_before, rows_for,
  cursor_after,
}
use self_organizing_multi_ag.Paging.Follow.{follow, follow_all, page_limit_pos}
use self_organizing_multi_ag.Knowledge.{knowledge_key}
use self_organizing_multi_ag.Knowledge.Search.{
  KnowledgeFilter, row_time, tagged, matches, search_knowledge,
}

module _ (like : String → String → Bool) (json_list : List String → String) (viewer : String)
    (now : ℕ) (f : KnowledgeFilter) (db : Db) where
  -- What the caller gets who asks for the page of a cursor.
  abbrev pub asked : RowCursor → Result (List Knowledge × RowCursor)
  asked c = search_knowledge like json_list viewer now (record f { cursor = c }) db

  asked_page :
      (c : RowCursor)
      → is_unreadable c ≡ false
      → let limit = page_limit f.limit in
        let rows =
          rows_for row_time knowledge_key
            (matches like json_list db viewer now f)
            limit
            c
            db.knowledge in
        asked c
        ≡ ok (
          select (tagged f.tags) (take limit rows),
          cursor_after row_time knowledge_key limit rows,
        )
  unfolding search_knowledge matches
  asked_page from_start u = refl
  asked_page (after_row ts i) u = refl
  asked_page unreadable u = cc

  -- Following the cursors of a search ends, after one page more than there are records at most,
  -- and the pages are exactly the records that match the filter and its tags, in their order. The
  -- database stays the same while the pages are read. The ids of the records are unique.
  pub search_knowledge_complete :
      IsKeyed knowledge_key db.knowledge
      → follow (length db.knowledge + 1) asked from_start
        ≡ some (
            select (tagged f.tags) (
              order_by
                (row_before row_time knowledge_key)
                (select (matches like json_list db viewer now f) db.knowledge)))
  search_knowledge_complete k =
      follow_all row_time knowledge_key (matches like json_list db viewer now f) (tagged f.tags)
        (page_limit f.limit) db.knowledge asked k (page_limit_pos f.limit) asked_page
