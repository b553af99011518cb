-- ===== src/Http/Notices.antt =====
-- `notifyAgent` and `notifyMembers` of internal/httpapi/projects.go: the EVENT messages of the platform. The
-- wake-up on the message bus is left out.
pub mod Aside
use self_organizing_multi_ag.Base.{String, none, List, [], ◌∷◌, map, contains, if◌then◌else◌}
use self_organizing_multi_ag.Db.{Db, Project, event_type, Action, pure, gets, ◌>>=◌, ◌>>◌}
use self_organizing_multi_ag.Table.{select}
use self_organizing_multi_ag.Scope.{is_active}
use self_organizing_multi_ag.Members.Roster.{list_members}
use self_organizing_multi_ag.Messages.{Envelope, insert_message}
use self_organizing_multi_ag.Http.{Ambient, seconds, attempt}

-- The envelope of a notice.
abbrev pub notice : Ambient → String → String → List (String × String) → Envelope
notice w recipient event fields = record {
  message_id = w.notice_id recipient;
  protocol_version = "1.0";
  type = event_type;
  sender = "platform";
  recipient = recipient;
  timestamp = w.moment;
  conversation_id = "";
  task_id = "";
  priority = "normal";
  payload = w.event_payload event fields;
  evidence = [];
  reply_to = none;
  ttl = none;
}

-- `notifyAgent`
unfoldable pub notify_agent : Ambient → String → String → List (String × String) → Action (Unit {0})
notify_agent w recipient event fields =
    attempt (insert_message w.result_claim (notice w recipient event fields) (seconds w))

-- The keys of a map to which the texts are added one by one.
unfoldable pub distinct : List String → List String
distinct [] = []
distinct (x ∷ xs) = let rest = distinct xs in if contains rest x then rest else x ∷ rest

-- The owner and the active members.
unfoldable pub recipients : Project → Db → List String
unfolding distinct
recipients project db = distinct (
    project.owner
    ∷ map (λ m. m.agent_id) (select (λ m. is_active m.status) (list_members project.project_id db)))

unfoldable pub notify_each :
    Ambient → String → List (String × String) → List String → Action (Unit {0})
unfolding notify_agent
notify_each w event fields [] = pure tt
notify_each w event fields (a ∷ agents) =
    notify_agent w a event fields >> notify_each w event fields agents

-- `notifyMembers`
unfoldable pub notify_members :
    Ambient → Project → String → List (String × String) → Action (Unit {0})
unfolding recipients notify_each
notify_members w project event fields = do
  to ← gets (recipients project)
  notify_each w event fields (w.visit to)
