-- ===== src/Messages/Insert.antt =====
-- `MessageStore.Insert` and `Get`, and `Envelope.Expired`.
use self_organizing_multi_ag.Base.{
  ℕ, ℤ, pos, negsuc, ◌+◌, ◌-◌, ◌*◌, ◌/◌, ◌%◌, ◌^◌, String, Bool, true, false, not, ◌&&◌, Option,
  none, some, List, ◌==◌, ltb, nat_eq, opt_is, null_if_empty, is_some, if◌then◌else◌,
}
use self_organizing_multi_ag.Errors.{text, not_found, conflict, validation_error, internal}
use self_organizing_multi_ag.Db.{
  Db, Task, task_submitted, MessageRow, MessageType, JobRow, Action, pure, raise, gets, or_raise,
  raise_if, modify, atomically, ◌>>=◌, ◌>>◌,
}
use self_organizing_multi_ag.Table.{find, update, affected, insert}
use self_organizing_multi_ag.Tasks.{is_task_claimed, opt_gt}
use self_organizing_multi_ag.Queue.{job_key, message_key}
use self_organizing_multi_ag.Verification.{is_result}

abbrev pub second : ℕ
second = 1_000_000_000

pub record Envelope : Type 0 where
  pub message_id : String
  pub protocol_version : String
  pub type : MessageType
  pub sender : String
  pub recipient : String
  pub timestamp : ℕ
  pub conversation_id : String
  pub task_id : String
  pub priority : String
  pub payload : String
  pub evidence : List String
  pub reply_to : Option String
  pub ttl : Option ℤ

-- An `int` as the 64 bits that hold it.
abbrev pub int_bits : ℤ → ℕ
int_bits (pos n) = n % 2 ^ 64
int_bits (negsuc n) = 2 ^ 64 - 1 - n % 2 ^ 64

-- `time.Duration(*e.TTL) * time.Second`, with the wrap of int64
unfoldable pub ttl_duration : ℤ → ℕ
ttl_duration z = (int_bits z * second) % 2 ^ 64

-- `now.After(ts.Add(d))`, for a duration given by its bits
unfoldable pub after_add : ℕ → ℕ → ℕ → Bool
after_add now ts d = if ltb d (2 ^ 63) then ltb (ts + d) now else ltb ts (now + (2 ^ 64 - d))

-- `Envelope.Expired`, on the two fields that it reads
unfoldable pub expired : Option ℤ → ℕ → ℕ → Bool
unfolding ttl_duration after_add
expired none ts now = false
expired (some z) ts now = after_add now ts (ttl_duration z)

-- The row that the INSERT writes.
abbrev pub message_row : ℕ → Envelope → ℕ → MessageRow
message_row seq env now = record {
  seq = seq;
  message_id = env.message_id;
  protocol_version = env.protocol_version;
  type = env.type;
  sender = env.sender;
  recipient = env.recipient;
  ts = env.timestamp / second;
  conversation_id = null_if_empty env.conversation_id;
  task_id = null_if_empty env.task_id;
  priority = env.priority;
  payload = env.payload;
  evidence = env.evidence;
  reply_to = env.reply_to;
  ttl = env.ttl;
  received_at = now;
}

abbrev pub with_message : Envelope → ℕ → Db → Db
with_message env now db = record db {
  messages = insert (message_row db.next_seq env now) db.messages;
  next_seq = db.next_seq + 1;
}

-- The WHERE and the SET of the submission.
abbrev pub matching_claim : Envelope → String → ℕ → Task → Bool
matching_claim env claim_id now t =
    is_task_claimed t.status
    && opt_is t.owner env.sender
    && t.created_by == env.recipient
    && opt_is t.claim_id claim_id
    && opt_gt t.lease_expires_at now

abbrev pub submitted : String → Task → Task
submitted message_id t = record t {
  status = task_submitted;
  submitted_message_id = some message_id;
  lease_expires_at = none;
}

abbrev pub new_job : String → String → ℕ → JobRow
new_job task_id message_id now = record {
  task_id = task_id;
  message_id = message_id;
  attempts = 0;
  next_at = now;
  attempt_id = "";
  lease_until = 0;
  done = false;
}

unfoldable pub claim_of : Option String → Action String
claim_of none = raise (validation_error (text "task RESULT requires payload.claim_id"))
claim_of (some c) =
    if c == ""
    then raise (validation_error (text "task RESULT requires payload.claim_id"))
    else pure c

-- The submission of a task RESULT; the job's primary key refuses a second job for the task.
unfoldable pub submit : (String → Option String) → Envelope → ℕ → Action (Unit {0})
submit result_claim env now = do
  claim_id ← claim_of (result_claim env.payload)
  let hit = λ (t : Task). t.task_id == env.task_id && matching_claim env claim_id now t
  n ← gets (λ db. affected hit db.tasks)
  modify (λ db. record db { tasks = update hit (submitted env.message_id) db.tasks })
  raise_if (not (nat_eq n 1)) (conflict "result requires a live matching claim")
  raise_if (← gets (λ db. is_some (find job_key env.task_id db.verification_jobs))) internal
  modify (λ db. record db {
    verification_jobs = insert (new_job env.task_id env.message_id now) db.verification_jobs;
  })

-- A new row is read back, and the submission of a task RESULT follows.
unfoldable pub confirm : (String → Option String) → Envelope → ℕ → Action (MessageRow × Bool)
confirm result_claim env now = do
  stored ← or_raise (← gets (λ db. find message_key env.message_id db.messages)) internal
  raise_if (not (stored.sender == env.sender)) (conflict "message_id is already in use")
  if is_result env.type && not (env.task_id == "") then submit result_claim env now else pure tt
  pure (stored, true)

unfoldable pub settle_new : (String → Option String) → Envelope → ℕ → Action (MessageRow × Bool)
settle_new result_claim env now = do modify (with_message env now); confirm result_claim env now

unfoldable pub replayed : Envelope → MessageRow → Action (MessageRow × Bool)
replayed env stored = do
  raise_if (not (stored.sender == env.sender)) (conflict "message_id is already in use")
  pure (stored, false)

-- `INSERT OR IGNORE` inserts where the id is new.
unfoldable pub dedup :
    (String → Option String) → Envelope → ℕ → Option MessageRow → Action (MessageRow × Bool)
dedup result_claim env now none = settle_new result_claim env now
dedup result_claim env now (some stored) = replayed env stored

-- `MessageStore.Insert`: the stored row, and whether it is new
unfoldable pub insert_message : (String → Option String) → Envelope → ℕ → Action (MessageRow × Bool)
insert_message result_claim env now = atomically do
  old ← gets (λ db. find message_key env.message_id db.messages)
  dedup result_claim env now old

-- `MessageStore.Get`
unfoldable pub get_message : String → Action MessageRow
get_message message_id = do
  or_raise (← gets (λ db. find message_key message_id db.messages)) (not_found "message not found")
