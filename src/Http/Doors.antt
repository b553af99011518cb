-- ===== src/Http/Doors.antt =====
-- internal/httpapi/middleware.go, agents.go, and `rateLimit` of ratelimit.go: who gets in. A token is what
-- `bearerToken` reads from the request, and SHA-256 is the parameter `hash_token`.
pub mod Locks
use self_organizing_multi_ag.Base.{
  ℕ, String, Bool, true, false, Option, none, some, ◌==◌, opt_text, if◌then◌else◌,
}
use self_organizing_multi_ag.Errors.{ApiError, Result, ok, err, access_denied, rate_limited}
use self_organizing_multi_ag.Db.{Db, Agent, Action, pure, gets, ◌>>=◌, ◌>>◌}
use self_organizing_multi_ag.Limits.{ObjectSize}
use self_organizing_multi_ag.Requests.{RegisterRequest, validate_register}
use self_organizing_multi_ag.Agents.{Profile, get_agent, create_agent, update_agent}
use self_organizing_multi_ag.Limiter.{Limiter, allow}
use self_organizing_multi_ag.Credentials.{
  CredentialOut, lookup_agent_by_token, issue, rotate, revoke_current,
}
use self_organizing_multi_ag.Http.{Ambient, seconds, received, accepted}

-- A handler behind a limiter.
abbrev pub Guarded : Type 0 → Type 0
Guarded A = Limiter → Db → (Result A × Db) × Limiter

module _ {A : Type 0} where
  abbrev pub turned_away : ApiError → Guarded A
  turned_away e limiter db = ((err e, db), limiter)

  abbrev pub if_allowed : Action A → Limiter × Bool → Db → (Result A × Db) × Limiter
  if_allowed next (limiter, true) db = (next db, limiter)
  if_allowed next (limiter, false) db =
      ((err (rate_limited "rate limit exceeded, retry later"), db), limiter)

  -- `rateLimit`
  unfoldable pub rate_limit : String → ℕ → Action A → Guarded A
  rate_limit key moment next limiter db = if_allowed next (allow key moment limiter) db

  module _ (hash_token : String → String) where
    unfoldable pub as_agent : ℕ → (String → Action A) → Option (String × String) → Guarded A
    as_agent moment next none limiter db =
        ((err (access_denied "invalid or revoked credential"), db), limiter)
    as_agent moment next (some (agent_id, credential_id)) limiter db =
        if_allowed (next agent_id) (allow agent_id moment limiter) db

    -- `RequireAuth`
    unfoldable pub require_auth : ℕ → Option String → (String → Action A) → Guarded A
    unfolding as_agent
    require_auth moment none next limiter db =
        ((err (access_denied "missing bearer token"), db), limiter)
    require_auth moment (some token) next limiter db =
        as_agent moment next (lookup_agent_by_token hash_token token db) limiter db

-- The body of a registration: the text of its constraints besides. A load is the 64 bits that hold it.
pub record RegisterBody : Type 0 where
  pub request : RegisterRequest ℕ
  pub constraints : String

abbrev pub profile_of : RegisterBody → Profile
profile_of body = record {
  capabilities = body.request.capabilities;
  tools = body.request.tools;
  skills = body.request.skills;
  constraints = body.constraints;
  current_load = body.request.current_load;
  preferred_roles = body.request.preferred_roles;
  evidence = body.request.evidence;
  operator = body.request.operator;
}

-- What a registration draws: the identifiers of an agent and of a credential, and a token.
pub record Draws : Type 0 where
  pub agent_id : String
  pub credential_id : String
  pub token : String

-- `RegisterResponse`; a token that is not shown is empty.
pub record RegisterResponse : Type 0 where
  pub agent : Agent
  pub credential : CredentialOut

module _ (hash_token : String → String) where
  unfoldable pub register_new : Ambient → Draws → RegisterBody → Action (ℕ × RegisterResponse)
  register_new w draws body = do
    agent ← create_agent draws.agent_id (profile_of body) (seconds w)
    cred ← issue hash_token draws.credential_id draws.token agent.agent_id (seconds w)
    pure (201, record { agent = agent; credential = cred })

  unfoldable pub register_known :
      Ambient → Draws → RegisterBody → Option (String × String) → Action (ℕ × RegisterResponse)
  unfolding register_new
  register_known w draws body none = register_new w draws body
  register_known w draws body (some (agent_id, credential_id)) = do
    agent ← update_agent agent_id (profile_of body) (seconds w)
    pure (
      200,
      record { agent = agent; credential = record { credential_id = credential_id; token = "" } },
    )

  -- The credential that the request carries, if it carries a live one.
  abbrev pub carried : Option String → Db → Option (String × String)
  carried none db = none
  carried (some token) db = lookup_agent_by_token hash_token token db

  -- `handleRegister`; `out` is the test that a load is below 0 or above 1.
  unfoldable pub handle_register :
      (ℕ → Bool)
      → Ambient
      → Draws
      → Option String
      → Result RegisterBody
      → Action (ℕ × RegisterResponse)
  unfolding register_known
  handle_register out w draws token body = do
    req ← received body
    accepted (validate_register out req.request)
    found ← gets (carried token)
    register_known w draws req found

  -- `handleRotateCredential`
  unfoldable pub handle_rotate_credential :
      Ambient → Draws → String → Option String → Action (ℕ × CredentialOut)
  handle_rotate_credential w draws event token = do
    out ← rotate hash_token draws.credential_id draws.token event (opt_text token) (seconds w)
    pure (200, out)

  -- `handleRevokeCredential`
  unfoldable pub handle_revoke_credential : Ambient → String → Option String → Action (ℕ × Bool)
  handle_revoke_credential w event token = do
    revoke_current hash_token event (opt_text token) (seconds w)
    pure (200, true)

-- `handleGetAgent`
unfoldable pub handle_get_agent : String → Action (ℕ × Agent)
handle_get_agent agent_id = do agent ← get_agent agent_id; pure (200, agent)
