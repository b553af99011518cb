-- ===== src/Agents.antt =====
-- internal/store/agents.go: the agents and their profiles. `Get` returns the row; the response's `roles` and
-- `reputation`, which are always empty, are left out.
use self_organizing_multi_ag.Base.{
  ℕ, String, Option, none, some, List, [], ◌∷◌, ◌++◌, ◌==◌, nat_eq, length, null_if_empty,
  if◌then◌else◌,
}
use self_organizing_multi_ag.Errors.{not_found}
use self_organizing_multi_ag.Db.{
  Agent, Capability, Tool, Extension, ext_skills, ext_preferred_roles, ext_evidence, ext_operator,
  Action, gets, or_raise, raise_if, modify, ◌>>=◌, ◌>>◌,
}
use self_organizing_multi_ag.Table.{find, update, affected, insert}

-- `RegisterRequest` with the text of its constraints and the bits of its load
pub record Profile : Type 0 where
  pub capabilities : List Capability
  pub tools : List Tool
  pub skills : List String
  pub constraints : String
  pub current_load : Option ℕ
  pub preferred_roles : List String
  pub evidence : List String
  pub operator : String

abbrev pub agent_key : Agent → String
agent_key a = a.agent_id

abbrev pub entry : List String → Extension → List Extension
entry xs e = if nat_eq (length xs) 0 then [] else e ∷ []

-- `buildMetadata`, in the order in which the keys of a map are written
unfoldable pub build_metadata : Profile → List Extension
build_metadata req =
    entry req.evidence (ext_evidence req.evidence)
    ++ ((if req.operator == "" then [] else ext_operator req.operator ∷ [])
        ++ (entry req.preferred_roles (ext_preferred_roles req.preferred_roles)
            ++ entry req.skills (ext_skills req.skills)))

-- The load that is stored: 0 where the request has none.
abbrev pub load_of : Option ℕ → ℕ
load_of none = 0
load_of (some l) = l

abbrev pub new_agent : String → Profile → ℕ → Agent
new_agent fresh req now = record {
  agent_id = fresh;
  schema_version = "1.0";
  capabilities = req.capabilities;
  tools = req.tools;
  skills = req.skills;
  constraints = req.constraints;
  preferred_roles = req.preferred_roles;
  evidence = req.evidence;
  operator = null_if_empty req.operator;
  load = load_of req.current_load;
  status = "READY";
  metadata = build_metadata req;
  created_at = now;
  updated_at = now;
}

-- The SET of `Update`.
abbrev pub profiled : Profile → ℕ → Agent → Agent
profiled req now a = record a {
  capabilities = req.capabilities;
  tools = req.tools;
  skills = req.skills;
  constraints = req.constraints;
  preferred_roles = req.preferred_roles;
  evidence = req.evidence;
  operator = null_if_empty req.operator;
  load = load_of req.current_load;
  metadata = build_metadata req;
  updated_at = now;
}

-- `AgentStore.Get`
unfoldable pub get_agent : String → Action Agent
get_agent agent_id = do
  or_raise (← gets (λ db. find agent_key agent_id db.agents)) (not_found "agent not found")

-- `AgentStore.Create`
unfoldable pub create_agent : String → Profile → ℕ → Action Agent
unfolding build_metadata
create_agent fresh req now = do
  modify (λ db. record db { agents = insert (new_agent fresh req now) db.agents })
  get_agent fresh

-- `AgentStore.Update`
unfoldable pub update_agent : String → Profile → ℕ → Action Agent
unfolding build_metadata
update_agent agent_id req now = do
  let hit = λ (a : Agent). a.agent_id == agent_id
  n ← gets (λ db. affected hit db.agents)
  modify (λ db. record db { agents = update hit (profiled req now) db.agents })
  raise_if (nat_eq n 0) (not_found "agent not found")
  get_agent agent_id
