-- ===== src/Http/Notices/Aside.antt =====
-- Lemmas on what the notices of internal/httpapi/projects.go leave as it was.
use self_organizing_multi_ag.Base.{ℕ, String, ◌≡◌, List, [], ◌∷◌}
use self_organizing_multi_ag.Db.{Db, Project, Task, MessageRow, JobRow}
use self_organizing_multi_ag.Db.Respects.{respects_rules}
use self_organizing_multi_ag.Db.Keeps.{Keeps, KeptBy-order}
use self_organizing_multi_ag.Messages.Aside.{insert_message-Keeps}
use self_organizing_multi_ag.Http.{Ambient, seconds}
use self_organizing_multi_ag.Http.Rules.{Respects-attempt}
use self_organizing_multi_ag.Http.Notices.{notice, notify_agent, notify_each, notify_members}

module _ {A : Type 0} (view : Db → A)
    (aside : (db : Db) (ts : List Task) (ms : List MessageRow) (js : List JobRow) (n : ℕ)
      → view (record db { tasks = ts; messages = ms; verification_jobs = js; next_seq = n })
        ≡ view db)
    (w : Ambient) (event : String) (fields : List (String × String)) where
  pub notify_agent-Keeps : (recipient : String) → Keeps view (notify_agent w recipient event fields)
  unfolding notify_agent
  notify_agent-Keeps recipient =
      Respects-attempt _ (
        insert_message-Keeps view aside w.result_claim (notice w recipient event fields)
          (seconds w))

  notify_each-Keeps : (agents : List String) → Keeps view (notify_each w event fields agents)
  unfolding notify_each
  notify_each-Keeps [] = search (respects_rules, KeptBy-order view)
  notify_each-Keeps (a ∷ agents) =
      search (respects_rules, KeptBy-order view, notify_agent-Keeps a, notify_each-Keeps agents)

  pub notify_members-Keeps :
      (project : Project) → Keeps view (notify_members w project event fields)
  unfolding notify_members
  notify_members-Keeps project = search (respects_rules, KeptBy-order view, notify_each-Keeps)
