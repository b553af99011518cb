-- ===== src/Credentials.antt =====
-- internal/store/credentials.go: bearer credentials. SHA-256 is the parameter `hash_token`; the
-- identifiers and the token that a call draws are arguments.
pub mod Revocation
pub mod Rotation
pub mod Operator
use self_organizing_multi_ag.Base.{
  ℕ, String, Bool, true, false, ◌&&◌, ◌||◌, Option, none, some, List, ◌==◌, nat_eq, is_some, not,
  if◌then◌else◌,
}
use self_organizing_multi_ag.Errors.{conflict, not_found, internal}
use self_organizing_multi_ag.Db.{
  Db, Credential, CredentialStatus, active, revoked, AuditRow, OperatorUpdate, Action, pure, raise,
  gets, or_raise, raise_if, modify, atomically, ◌>>=◌, ◌>>◌,
}
use self_organizing_multi_ag.Table.{first, find, update, insert}
use self_organizing_multi_ag.Agents.{agent_key}

pub record CredentialOut : Type 0 where
  pub credential_id : String
  pub token : String

abbrev pub is_live : Credential → Bool
is_live c = elim c.status [ active ↦ true | revoked ↦ false ]

abbrev pub revoke : Credential → Credential
revoke c = record c { status = revoked }

abbrev pub id_key : Credential → String
id_key c = c.credential_id

abbrev pub hash_key : Credential → String
hash_key c = c.token_hash

-- The INSERT; the primary key and the unique `token_hash` refuse a second row of either.
unfoldable pub insert_credential : Credential → Action (Unit {0})
insert_credential c = do
  clash ← gets (λ db.
      is_some (find id_key c.credential_id db.credentials)
      || is_some (find hash_key c.token_hash db.credentials))
  raise_if clash internal
  modify (λ db. record db { credentials = insert c db.credentials })

-- `credentialAudit`
abbrev pub credential_audit : String → String → String → String → String → ℕ → Action (Unit {0})
credential_audit fresh actor agent_id credential_id action now = modify λ db. record db {
  credential_audit =
      insert
        (record {
          event_id = fresh;
          actor = actor;
          agent_id = agent_id;
          credential_id = credential_id;
          action = action;
          created_at = now;
        })
        db.credential_audit;
}

-- `token_hash=? AND status='active'`
unfoldable pub live_row : String → Db → Option Credential
live_row hash db = first (λ (c : Credential). c.token_hash == hash && is_live c) db.credentials

-- `SET status='revoked'` on the rows that the test picks
abbrev pub revoke_where : (Credential → Bool) → Action (Unit {0})
revoke_where p = modify (λ db. record db { credentials = update p revoke db.credentials })

abbrev pub new_credential : String → String → String → Option String → ℕ → Credential
new_credential credential_id agent_id hash rotated_from now = record {
  credential_id = credential_id;
  agent_id = agent_id;
  token_hash = hash;
  status = active;
  rotated_from = rotated_from;
  issued_at = now;
}

-- `RevokeAgent` past the ledger of updates.
unfoldable pub revoke_all : String → ℕ → String → ℕ → Action Bool
revoke_all event update_id agent_id now = do
  raise_if (not (← gets (λ db. is_some (find agent_key agent_id db.agents))))
      (not_found "agent not found")
  revoke_where (λ c. c.agent_id == agent_id && is_live c)
  credential_audit event "telegram-operator" agent_id "*" "revoked_all" now
  modify (λ db. record db {
    credential_operator_updates =
        insert (record { update_id = update_id; agent_id = agent_id; created_at = now })
          db.credential_operator_updates;
  })
  pure true

unfoldable pub revoke_once : String → ℕ → String → ℕ → Option OperatorUpdate → Action Bool
unfolding revoke_all
revoke_once event update_id agent_id now none = revoke_all event update_id agent_id now
revoke_once event update_id agent_id now (some prior) = do
  raise_if (not (prior.agent_id == agent_id)) (conflict "update already used")
  pure false

abbrev pub of_update : ℕ → OperatorUpdate → Bool
of_update update_id u = nat_eq u.update_id update_id

-- `CredentialStore.RevokeAgent`
unfoldable pub revoke_agent : String → ℕ → String → ℕ → Action Bool
revoke_agent event update_id agent_id now = atomically do
  prior ← gets (λ db. first (of_update update_id) db.credential_operator_updates)
  revoke_once event update_id agent_id now prior

module _ (hash_token : String → String) where
  -- `CredentialStore.Issue`
  unfoldable pub issue : String → String → String → ℕ → Action CredentialOut
  unfolding insert_credential
  issue credential_id token agent_id now = do
    insert_credential (new_credential credential_id agent_id (hash_token token) none now)
    pure (record { credential_id = credential_id; token = token })

  -- `LookupAgentByToken`: the agent and the credential
  unfoldable pub lookup_agent_by_token : String → Db → Option (String × String)
  unfolding live_row
  lookup_agent_by_token token db = elim (live_row (hash_token token) db) [
    | none ↦ none
    | some c ↦ some (c.agent_id, c.credential_id)
  ]

  -- `CredentialStore.Rotate`
  unfoldable pub rotate : String → String → String → String → ℕ → Action CredentialOut
  rotate credential_id new_token event token now = atomically do
    old ←
        or_raise (← gets (live_row (hash_token token))) (conflict "credential is no longer active")
    revoke_where (λ c. c.credential_id == old.credential_id)
    insert_credential (
        new_credential credential_id old.agent_id (hash_token new_token) (some old.credential_id)
          now)
    credential_audit event old.agent_id old.agent_id old.credential_id "rotated" now
    pure (record { credential_id = credential_id; token = new_token })

  -- `CredentialStore.RevokeCurrent`
  unfoldable pub revoke_current : String → String → ℕ → Action (Unit {0})
  revoke_current event token now = atomically do
    c ← or_raise (← gets (live_row (hash_token token))) (conflict "credential is no longer active")
    revoke_where (λ r. r.credential_id == c.credential_id)
    credential_audit event c.agent_id c.agent_id c.credential_id "revoked" now
