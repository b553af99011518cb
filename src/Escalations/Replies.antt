-- ===== src/Escalations/Replies.antt =====
-- Lemmas on `DeliverReply` of internal/store/operator_requests.go, which the bot may repeat.
use self_organizing_multi_ag.Base.{ℕ, String, ◌≡◌, Bool, true, false, some}
use self_organizing_multi_ag.Db.{Db, OperatorRow}
use self_organizing_multi_ag.Table.{first, insert}
use self_organizing_multi_ag.Escalations.{on_message, reply_message}

module _ (answer_payload : String → String → String) where
  -- What one delivery did: nothing that is new, or one message to the agent of the request.
  abbrev pub Effect : String → ℕ → String → ℕ → String → Db → Db → Bool → Type 0
  Effect message_id telegram_id reply now agent_id db db' false = db' ≡ db
  Effect message_id telegram_id reply now agent_id db db' true =
      (request : OperatorRow) × (first (on_message telegram_id) db.operator_requests ≡ some request)
      × (request.agent_id ≡ agent_id)
      × (db'.messages
          ≡ insert (reply_message answer_payload message_id request reply now db.next_seq)
              db.messages)
