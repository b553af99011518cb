-- ===== src/Tests/Letters.antt =====
-- The inbox at work.
use self_organizing_multi_ag.Base.{◌≡◌, refl, arith, some, not, ◌&&◌, [], ◌∷◌, pos}
use self_organizing_multi_ag.Errors.{ok}
use self_organizing_multi_ag.Db.{Db, MessageRow, event_type}
use self_organizing_multi_ag.Table.{select, place, order_by}
use self_organizing_multi_ag.Tests.{sample, answer_message}
use self_organizing_multi_ag.Messages.Inbox.{
  no_cursor, after_seq, MessageFilter, wanted, is_dead, scan_page, page_rows, list_messages,
}
use self_organizing_multi_ag.Messages.Inbox.Pages.{Increasing, reached, list_messages_lem}
use self_organizing_multi_ag.Messages.{expired, ttl_duration, after_add}

abbrev stale_message : MessageRow
stale_message = record answer_message {
  seq = 2;
  message_id = "m2";
  type = event_type;
  recipient = "broadcast";
  ttl = some (pos 5);
}

abbrev last_message : MessageRow
last_message = record answer_message { seq = 3; message_id = "m3"; type = event_type }

abbrev letters : Db
letters = record sample { messages = answer_message ∷ stale_message ∷ last_message ∷ [] }

abbrev whole_inbox : MessageFilter
whole_inbox = record {
  recipient = "creator";
  task_id = "";
  types = [];
  cursor = no_cursor;
  limit = pos 2;
}

letters-Increasing : Increasing letters.messages
letters-Increasing = ((omega arith, (omega arith, tt)), ((omega arith, tt), (tt, tt)))

first_page :
    list_messages whole_inbox 100_000_000_000 letters
    ≡ ok (answer_message ∷ last_message ∷ [], after_seq 3)
unfolding list_messages scan_page page_rows wanted order_by place select expired ttl_duration
    after_add
first_page = refl

list_messages_lem_example :
    (answer_message ∷ last_message ∷ []
      ≡ select
          (λ r. not (is_dead 100_000_000_000 r) && reached (after_seq 3) r)
          (select (wanted whole_inbox) letters.messages))
    × (after_seq 3 ≡ whole_inbox.cursor → select (wanted whole_inbox) letters.messages ≡ [])
list_messages_lem_example =
    list_messages_lem whole_inbox 100_000_000_000 letters (answer_message ∷ last_message ∷ [])
      (after_seq 3) letters-Increasing first_page
