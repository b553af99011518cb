-- ===== src/Messages/Inbox.antt =====
-- `MessageStore.List`: an agent's inbox, page by page. A cursor is what its text decodes to; times are
-- nanoseconds.
pub mod Pages
use self_organizing_multi_ag.Base.{
  ℕ, ℤ, pos, negsuc, ◌+◌, ◌-◌, ◌*◌, String, Bool, true, false, not, ◌&&◌, ◌||◌, Option, none, some,
  List, [], ◌∷◌, take, contains, length, ◌==◌, ltb, leb, nat_eq, opt_is, if◌then◌else◌,
}
use self_organizing_multi_ag.Errors.{Result, ok, err, text, validation_error}
use self_organizing_multi_ag.Db.{
  Db, MessageRow, MessageType, claim_type, result_type, verify_type, status_type, error_type,
  question_type, answer_type, event_type, other_type,
}
use self_organizing_multi_ag.Table.{select, order_by}
use self_organizing_multi_ag.Paging.{page_limit}
use self_organizing_multi_ag.Messages.Insert.{second, expired}

-- The wire spelling of each type.
abbrev pub type_text : MessageType → String
type_text claim_type = "CLAIM"
type_text result_type = "RESULT"
type_text verify_type = "VERIFY"
type_text status_type = "STATUS"
type_text error_type = "ERROR"
type_text question_type = "QUESTION"
type_text answer_type = "ANSWER"
type_text event_type = "EVENT"
type_text (other_type s) = s

-- No cursor, the cursor of a sequence number, or a text that does not decode.
pub data Cursor : Type 0 where
  no_cursor : Cursor
  after_seq : ℕ → Cursor
  bad_cursor : Cursor

pub record MessageFilter : Type 0 where
  pub recipient : String
  pub task_id : String
  pub types : List String
  pub cursor : Cursor
  pub limit : ℤ

abbrev pub beyond : Cursor → MessageRow → Bool
beyond no_cursor r = true
beyond (after_seq s) r = ltb s r.seq
beyond bad_cursor r = false

-- The WHERE of the query.
unfoldable pub wanted : MessageFilter → MessageRow → Bool
wanted f r =
    (r.recipient == f.recipient || r.recipient == "broadcast")
    && (f.task_id == "" || opt_is r.task_id f.task_id)
    && (nat_eq (length f.types) 0 || contains f.types (type_text r.type))
    && beyond f.cursor r

abbrev pub seq_before : MessageRow → MessageRow → Bool
seq_before a b = ltb a.seq b.seq

abbrev pub is_dead : ℕ → MessageRow → Bool
is_dead now r = expired r.ttl (r.ts * second) now

abbrev pub last_seq : MessageRow → Option ℕ → Option ℕ
last_seq r none = some r.seq
last_seq r (some s) = some s

-- The loop over the rows, with the room that is left on the page: the page, and the last row it read.
unfoldable pub scan_page : ℕ → ℕ → List MessageRow → List MessageRow × Option ℕ
scan_page now room [] = ([], none)
scan_page now room (r ∷ rows) =
    let (page, last) = scan_page now (if is_dead now r then room else room - 1) rows in
    if is_dead now r
    then (page, last_seq r last)
    else if leb room 1
    then (r ∷ [], some r.seq)
    else (r ∷ page, last_seq r last)

abbrev pub next_cursor : Cursor → Option ℕ → Cursor
next_cursor c none = c
next_cursor c (some s) = after_seq s

-- The rows that the query returns.
unfoldable pub page_rows : MessageFilter → Db → List MessageRow
page_rows f db = take (page_limit f.limit + 1) (order_by seq_before (select (wanted f) db.messages))

abbrev pub is_bad : Cursor → Bool
is_bad bad_cursor = true
is_bad _ = false

-- `MessageStore.List`
unfoldable pub list_messages : MessageFilter → ℕ → Db → Result (List MessageRow × Cursor)
unfolding wanted scan_page page_rows
list_messages f now db =
    let (page, last) = scan_page now (page_limit f.limit) (page_rows f db) in
    if is_bad f.cursor
    then err (validation_error (text "invalid cursor"))
    else ok (page, next_cursor f.cursor last)
