-- ===== src/Escalations.antt =====
-- internal/store/operator_requests.go: what agents ask of the operator, and the operator's replies.
pub mod Replies
use self_organizing_multi_ag.Base.{
  ℕ, ℤ, pos, negsuc, ◌+◌, String, Bool, true, false, not, is_some, ◌&&◌, ◌||◌, Option, none, some,
  List, [], ◌∷◌, take, ◌==◌, nat_eq, ltb, if◌then◌else◌,
}
use self_organizing_multi_ag.Errors.{not_found, internal}
use self_organizing_multi_ag.Db.{
  Db, OperatorRow, RequestStatus, request_pending, request_sent, request_answered, request_failed,
  TelegramUpdate, MessageRow, answer_type, Action, pure, gets, or_raise, raise_if, modify,
  atomically, ◌>>=◌, ◌>>◌,
}
use self_organizing_multi_ag.Table.{first, find, update, insert, order_by}
use self_organizing_multi_ag.Requests.{OperatorRequest, is_positive, above}

abbrev pub request_key : OperatorRow → String
request_key r = r.request_id

abbrev pub new_request : String → String → OperatorRequest → ℕ → OperatorRow
new_request fresh agent_id req now = record {
  request_id = fresh;
  agent_id = agent_id;
  kind = req.kind;
  title = req.title;
  details = req.details;
  status = request_pending;
  telegram_message_id = none;
  reply = none;
  created_at = now;
  answered_at = none;
}

-- `OperatorRequestStore.Get`
unfoldable pub get_request : String → Action OperatorRow
get_request id = do
  or_raise (← gets (λ db. find request_key id db.operator_requests))
      (not_found "operator request not found")

-- `OperatorRequestStore.Create`
unfoldable pub create_request : String → String → OperatorRequest → ℕ → Action OperatorRow
create_request fresh agent_id req now = do
  modify (λ db. record db {
    operator_requests = insert (new_request fresh agent_id req now) db.operator_requests;
  })
  get_request fresh

-- An UPDATE of the row of a request.
unfoldable pub set_request : String → (OperatorRow → OperatorRow) → Action (Unit {0})
set_request id f = modify (λ db. record db {
  operator_requests = update (λ (r : OperatorRow). r.request_id == id) f db.operator_requests;
})

abbrev pub on_message : ℕ → OperatorRow → Bool
on_message message_id r = elim r.telegram_message_id [ none ↦ false | some m ↦ nat_eq m message_id ]

-- Whether another request already has the message: `telegram_message_id` is unique.
unfoldable pub message_taken : String → ℕ → Db → Bool
message_taken id message_id db =
    is_some (find request_key id db.operator_requests)
    && is_some (
        first (λ (r : OperatorRow). on_message message_id r && not (r.request_id == id))
          db.operator_requests)

-- `SetTelegramMessage`
unfoldable pub set_telegram_message : String → ℕ → Action (Unit {0})
unfolding set_request message_taken
set_telegram_message id message_id = do
  raise_if (← gets (message_taken id message_id)) internal
  set_request id (λ r. record r { status = request_sent; telegram_message_id = some message_id })

-- `SetFailed`
unfoldable pub set_failed : String → Action (Unit {0})
unfolding set_request
set_failed id = set_request id (λ r. record r { status = request_failed })

abbrev pub answered : String → ℕ → OperatorRow → OperatorRow
answered reply now r = record r {
  status = request_answered;
  reply = some reply;
  answered_at = some now;
}

-- `Answer`
unfoldable pub answer_request : String → String → ℕ → Action (Unit {0})
unfolding set_request
answer_request id reply now = set_request id (answered reply now)

-- `ByTelegramMessage`
unfoldable pub by_telegram_message : ℕ → Action OperatorRow
by_telegram_message message_id = do
  or_raise (← gets (λ db. first (on_message message_id) db.operator_requests))
      (not_found "operator request not found")

abbrev pub request_limit : ℤ → ℕ
request_limit (negsuc n) = 10
request_limit (pos n) = if nat_eq n 0 || ltb 20 n then 10 else n

-- `OperatorRequestStore.List`
unfoldable pub list_requests : ℤ → Db → List OperatorRow
list_requests limit db =
    take (request_limit limit)
      (order_by (λ (a b : OperatorRow). ltb b.created_at a.created_at) db.operator_requests)

abbrev pub update_key : ℕ → TelegramUpdate → Bool
update_key update_id u = nat_eq u.update_id update_id

-- The message that brings a reply to the agent's inbox.
abbrev pub reply_message :
    (String → String → String) → String → OperatorRow → String → ℕ → ℕ → MessageRow
reply_message answer_payload message_id request reply now seq = record {
  seq = seq;
  message_id = message_id;
  protocol_version = "1.0";
  type = answer_type;
  sender = "platform";
  recipient = request.agent_id;
  ts = now;
  conversation_id = none;
  task_id = none;
  priority = "normal";
  payload = answer_payload reply request.request_id;
  evidence = [];
  reply_to = some request.request_id;
  ttl = none;
  received_at = now;
}

-- `DeliverReply`; `answer_payload` is the JSON of an answer with its one reference.
module _ (answer_payload : String → String → String) where
  -- The reply to a request, for an update that is new.
  unfoldable pub deliver_to : String → ℕ → String → ℕ → OperatorRow → Action (String × Bool)
  unfolding set_request
  deliver_to message_id update_id reply now request = do
    modify (λ db. record db {
      messages =
          insert (reply_message answer_payload message_id request reply now db.next_seq)
            db.messages;
      next_seq = db.next_seq + 1;
    })
    set_request request.request_id (answered reply now)
    modify (λ db. record db {
      telegram_updates =
          insert
            (record { update_id = update_id; agent_id = request.agent_id; message_id = message_id })
            db.telegram_updates;
    })
    pure (request.agent_id, true)

  unfoldable pub deliver_once :
      String → ℕ → ℕ → String → ℕ → Option TelegramUpdate → Action (String × Bool)
  unfolding deliver_to
  deliver_once message_id update_id telegram_id reply now (some seen) = pure (seen.agent_id, false)
  deliver_once message_id update_id telegram_id reply now none = do
    request ← by_telegram_message telegram_id
    deliver_to message_id update_id reply now request

  unfoldable pub deliver_reply : String → ℕ → ℕ → String → ℕ → Action (String × Bool)
  unfolding deliver_once
  deliver_reply message_id update_id telegram_id reply now = atomically do
    seen ← gets (λ db. first (update_key update_id) db.telegram_updates)
    deliver_once message_id update_id telegram_id reply now seen
