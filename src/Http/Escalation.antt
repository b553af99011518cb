-- ===== src/Http/Escalation.antt =====
-- internal/httpapi/operator.go, telegram.go and verification_alerts.go: the channel to the operator. `Notify` and
-- `Send` reach the operator's phone: what they answer is an argument, and what is sent is the handler's value.
use self_organizing_multi_ag.Base.{
  ℕ, zero, suc, pos, String, Bool, true, false, ◌||◌, Option, List, [], ◌∷◌, length, ◌==◌, nat_eq,
  if◌then◌else◌,
}
use self_organizing_multi_ag.Errors.{
  ErrorCode, err_conflict, Result, ok, err, service_unavailable, is_not_found,
}
use self_organizing_multi_ag.Db.{
  Db, OperatorRow, request_pending, request_sent, request_answered, request_failed, Task,
  status_text, Action, pure, raise, gets, or_raise, ◌>>=◌, ◌>>◌,
}
use self_organizing_multi_ag.Table.{affected}
use self_organizing_multi_ag.Requests.{OperatorRequest, validate_operator_request}
use self_organizing_multi_ag.Escalations.{
  create_request, set_failed, set_telegram_message, deliver_reply, list_requests,
}
use self_organizing_multi_ag.Credentials.{revoke_agent}
use self_organizing_multi_ag.Operator.{
  retry_verification, exhausted_verifications, claim_verification_alert,
  mark_verification_alert_sent,
}
use self_organizing_multi_ag.Http.{Ambient, seconds, received, accepted, attempt, caught}

-- What follows the notification: its message id, or its error.
unfoldable pub notified : String → Result ℕ → Action (ℕ × String)
notified request_id (ok message_id) = do
  set_telegram_message request_id message_id
  pure (202, request_id)
notified request_id (err e) = do attempt (set_failed request_id); raise e

-- `handleOperatorRequest`; a `notify` that is `none` is not configured.
unfoldable pub handle_operator_request :
    Option (String → OperatorRequest → Result ℕ)
    → Ambient
    → String
    → String
    → Result OperatorRequest
    → Action (ℕ × String)
unfolding notified
handle_operator_request notify w fresh agent_id body = do
  req ← received body
  accepted (validate_operator_request req)
  send ← or_raise notify (service_unavailable "operator notifications are not configured")
  request ← create_request fresh agent_id req (seconds w)
  notified request.request_id (send agent_id req)

-- What is sent to the operator, one constructor for each text.
pub data Notice : Type 0 where
  nothing : Notice
  not_linked : Notice
  delivered_to : String → Notice
  revoke_usage revoke_refused : Notice
  keys_revoked : String → Notice
  retry_usage retry_refused : Notice
  queued_again : String → Notice
  none_exhausted : Notice
  exhausted_list : List String → Notice
  help : Notice
  totals : List ℕ → Notice
  no_requests : Notice
  request_list : List OperatorRow → Notice
  unknown_command : Notice

abbrev pub is_refusal : ErrorCode → Bool
is_refusal err_conflict = true
is_refusal code = is_not_found code

abbrev pub is_conflict : ErrorCode → Bool
is_conflict err_conflict = true
is_conflict _ = false

unfoldable pub reply_answer : Result (String × Bool) → Action Notice
reply_answer (ok (agent_id, true)) = pure (delivered_to agent_id)
reply_answer (ok (agent_id, false)) = pure nothing
reply_answer (err e) = if is_not_found e.error_code then pure not_linked else raise e

-- `handleTelegramReply`
unfoldable pub handle_telegram_reply :
    (String → String → String) → Ambient → String → ℕ → ℕ → String → Action Notice
unfolding reply_answer
handle_telegram_reply answer_payload w fresh update_id message_id reply = do
  answer ← caught (deliver_reply answer_payload fresh update_id message_id reply (seconds w))
  reply_answer answer

unfoldable pub revoke_answer : String → Result Bool → Action Notice
revoke_answer agent_id (ok true) = pure (keys_revoked agent_id)
revoke_answer agent_id (ok false) = pure nothing
revoke_answer agent_id (err e) = if is_refusal e.error_code then pure revoke_refused else raise e

unfoldable pub retry_answer : String → Result Bool → Action Notice
retry_answer task_id (ok true) = pure (queued_again task_id)
retry_answer task_id (ok false) = pure nothing
retry_answer task_id (err e) = if is_conflict e.error_code then pure retry_refused else raise e

unfoldable pub stalled_answer : List String → Notice
stalled_answer ids = if nat_eq (length ids) 0 then none_exhausted else exhausted_list ids

unfoldable pub requests_answer : List OperatorRow → Notice
requests_answer rows = if nat_eq (length rows) 0 then no_requests else request_list rows

abbrev pub in_status : String → Task → Bool
in_status s t = status_text t.status == s

abbrev pub awaits_reply : OperatorRow → Bool
awaits_reply r = elim r.status [
  | request_pending ↦ true
  | request_sent ↦ true
  | request_answered ↦ false
  | request_failed ↦ false
]

-- The counts of `/stats`.
unfoldable pub platform_totals : Db → List ℕ
platform_totals db =
    length db.agents
    ∷ affected (in_status "OPEN") db.tasks
    ∷ affected (in_status "CLAIMED") db.tasks
    ∷ affected (in_status "SUBMITTED") db.tasks
    ∷ affected (in_status "COMPLETED") db.tasks
    ∷ affected awaits_reply db.operator_requests
    ∷ []

-- The commands of the operator: the first word less the name of the bot, and the words after it.
pub data Command : Type 0 where
  revoke_command retry_command : List String → Command
  stalled_command help_command stats_command requests_command other_command : Command

-- The `switch` of `handleTelegramCommand`
abbrev pub command_of : String → List String → Command
command_of word args =
    if word == "/revoke"
    then revoke_command args
    else if word == "/retry"
    then retry_command args
    else if word == "/stalled"
    then stalled_command
    else if word == "/start" || word == "/help"
    then help_command
    else if word == "/stats" || word == "/health"
    then stats_command
    else if word == "/requests"
    then requests_command
    else other_command

unfoldable pub run_command : Ambient → String → ℕ → Command → Action Notice
unfolding revoke_answer retry_answer stalled_answer requests_answer platform_totals
run_command w fresh update_id (revoke_command (agent_id ∷ [])) = do
  answer ← caught (revoke_agent fresh update_id agent_id (seconds w))
  revoke_answer agent_id answer
run_command w fresh update_id (revoke_command _) = pure revoke_usage
run_command w fresh update_id (retry_command (task_id ∷ [])) = do
  answer ← caught (retry_verification update_id task_id (seconds w))
  retry_answer task_id answer
run_command w fresh update_id (retry_command _) = pure retry_usage
run_command w fresh update_id stalled_command =
    gets (λ db. stalled_answer (exhausted_verifications (seconds w) db))
run_command w fresh update_id help_command = pure help
run_command w fresh update_id stats_command = gets (λ db. totals (platform_totals db))
run_command w fresh update_id requests_command =
    gets (λ db. requests_answer (list_requests (pos 10) db))
run_command w fresh update_id other_command = pure unknown_command

-- `handleTelegramCommand`
unfoldable pub handle_telegram_command : Ambient → String → ℕ → String → List String → Action Notice
unfolding run_command
handle_telegram_command w fresh update_id word args =
    run_command w fresh update_id (command_of word args)

-- `sendVerificationAlerts`, with the turns that are left; `send` tells whether the text went out, and
-- `token` is the token of a turn.
unfoldable pub send_verification_alerts :
    (String → Result (Unit {0})) → (ℕ → String) → ℕ → ℕ → Action (Unit {0})
send_verification_alerts send token now zero = pure tt
send_verification_alerts send token now (suc n) = do
  found ← claim_verification_alert (token n) now
  if found.0 == "" then pure tt else do
    received (send found.0)
    mark_verification_alert_sent found.0 found.1
    send_verification_alerts send token now n
