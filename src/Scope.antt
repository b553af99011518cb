-- ===== src/Scope.antt =====
-- internal/store/membership.go, visibleScopeSQL: which records an agent may see.
use self_organizing_multi_ag.Base.{
  ℕ, String, Bool, true, false, ◌&&◌, ◌||◌, Option, none, some, ◌==◌, ltb, any, opt_is,
}
use self_organizing_multi_ag.Db.{
  Db, Project, Visibility, project_open, project_closed, Membership, MemberStatus, member_active,
  member_reviewer,
}

abbrev pub is_open : Visibility → Bool
is_open project_open = true
is_open project_closed = false

abbrev pub is_active : MemberStatus → Bool
is_active member_active = true
is_active _ = false

abbrev pub is_reviewer : MemberStatus → Bool
is_reviewer member_reviewer = true
is_reviewer _ = false

-- `project_id IN (SELECT project_id FROM projects WHERE visibility = 'open')`
unfoldable pub in_open_project : Db → String → Bool
in_open_project db p = any (λ (r : Project). r.project_id == p && is_open r.visibility) db.projects

-- `project_id IN (SELECT project_id FROM project_members WHERE agent_id = ? AND status = 'active')`
unfoldable pub active_in : Db → String → String → Bool
active_in db agent p =
    any (λ (m : Membership). m.project_id == p && m.agent_id == agent && is_active m.status)
      db.project_members

-- `expires_at IS NULL OR expires_at > ?`
abbrev pub unexpired : Option ℕ → ℕ → Bool
unexpired none now = true
unexpired (some t) now = ltb now t

-- `task_id IN (SELECT scope FROM project_members WHERE agent_id = ? AND status = 'reviewer' AND …)`
unfoldable pub reviews : Db → String → ℕ → String → Bool
reviews db agent now task =
    any
      (λ (m : Membership).
        m.agent_id == agent
        && is_reviewer m.status
        && opt_is m.scope task
        && unexpired m.expires_at now)
      db.project_members

-- `visibleScopeSQL("")`, on the record's project
unfoldable pub visible_member : Db → String → Option String → Bool
unfolding in_open_project active_in
visible_member db agent none = true
visible_member db agent (some p) = in_open_project db p || active_in db agent p

-- `visibleScopeSQL("task_id")`, on the record's project and task
unfoldable pub visible : Db → String → ℕ → Option String → Option String → Bool
unfolding visible_member reviews
visible db agent now project none = visible_member db agent project
visible db agent now project (some t) = visible_member db agent project || reviews db agent now t
