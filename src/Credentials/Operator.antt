-- ===== src/Credentials/Operator.antt =====
-- Lemmas on `RevokeAgent` of internal/store/credentials.go: the tokens and the ledger of updates
-- after it.
use self_organizing_multi_ag.Base.{
  ℕ, String, ◌≡◌, ◌⊎◌, refl, Bool, true, false, ◌&&◌, none, some, arith, ◌==◌, eq_iff, inl, inr,
  if◌then◌else◌, Option-cases,
}
use self_organizing_multi_ag.Errors.{ok}
use self_organizing_multi_ag.Db.{Db, Credential, OperatorUpdate, ◌>>=◌}
use self_organizing_multi_ag.Table.{first, update, insert}
use self_organizing_multi_ag.Table.Keyed.{find-update, IsKeyed-update}
use self_organizing_multi_ag.Table.Rows.{first-insert}
use self_organizing_multi_ag.Credentials.{
  is_live, revoke, id_key, hash_key, revoke_once, revoke_all, revoke_agent, lookup_agent_by_token,
  of_update,
}
use self_organizing_multi_ag.Credentials.Revocation.{CredentialsValid, lookup_lem}

abbrev used : ℕ → String → ℕ → OperatorUpdate
used update_id agent_id now = record {
  update_id = update_id;
  agent_id = agent_id;
  created_at = now;
}

-- The database after the operator's revocation.
abbrev cut_off : String → ℕ → String → ℕ → Db → Db
cut_off event update_id agent_id now db = record db {
  credentials = update (λ c. c.agent_id == agent_id && is_live c) revoke db.credentials;
  credential_audit =
      insert
        (record {
          event_id = event;
          actor = "telegram-operator";
          agent_id = agent_id;
          credential_id = "*";
          action = "revoked_all";
          created_at = now;
        })
        db.credential_audit;
  credential_operator_updates =
      insert (record { update_id = update_id; agent_id = agent_id; created_at = now })
        db.credential_operator_updates;
}

cut_off-Valid :
    (event : String) (update_id : ℕ) (agent_id : String) (now : ℕ) (db : Db)
    → CredentialsValid db
    → CredentialsValid (cut_off event update_id agent_id now db)
cut_off-Valid event update_id agent_id now db v =
    let p = λ (c : Credential). c.agent_id == agent_id && is_live c in
    record {
      by_id = IsKeyed-update id_key p revoke (λ r. refl) db.credentials v.by_id;
      by_hash = IsKeyed-update hash_key p revoke (λ r. refl) db.credentials v.by_hash;
    }

module _ (event : String) (update_id : ℕ) (agent_id : String) (now : ℕ) (db : Db) where
  -- A revocation that succeeds meets an update used for the same agent, or does all of it.
  revoke_agent_ok :
      (b : Bool)
      → (revoke_agent event update_id agent_id now db).0 ≡ ok b
      → ((u : OperatorUpdate) × (first (of_update update_id) db.credential_operator_updates
            ≡ some u)
          × (u.agent_id ≡ agent_id)
          × (b ≡ false)
          × ((revoke_agent event update_id agent_id now db).1 ≡ db))
        ⊎ ((first (of_update update_id) db.credential_operator_updates ≡ none)
            × (b ≡ true)
            × ((revoke_agent event update_id agent_id now db).1
                ≡ cut_off event update_id agent_id now db))
  unfolding revoke_agent revoke_once revoke_all ◌>>=◌
  revoke_agent_ok b h =
      elim (Option-cases (first (of_update update_id) db.credential_operator_updates)) [
        | inl new ↦ inr (new, ground arith, ground arith)
        | inr (u, e) ↦
            inl (u, e, ground (arith, eq_iff u.agent_id agent_id), ground arith, ground arith)
      ]

  revoke_agent_replay :
      (u : OperatorUpdate)
      → first (of_update update_id) db.credential_operator_updates ≡ some u
      → u.agent_id ≡ agent_id
      → revoke_agent event update_id agent_id now db ≡ (ok false, db)
  unfolding revoke_agent revoke_once revoke_all ◌>>=◌
  revoke_agent_replay u e same = ground (arith, eq_iff u.agent_id agent_id)

-- The operator's revocation leaves each token with its agent, but for the agent's own tokens,
-- which authenticate no more. The table holds each credential id and each hash once.
pub revoke_agent_cuts_off :
    (hash_token : String → String) (event : String) (update_id : ℕ) (agent_id : String) (now : ℕ)
    (db : Db) (token : String)
    → CredentialsValid db
    → (revoke_agent event update_id agent_id now db).0 ≡ ok true
    → lookup_agent_by_token hash_token token (revoke_agent event update_id agent_id now db).1
      ≡ elim (lookup_agent_by_token hash_token token db) [
        | none ↦ none
        | some (a, id) ↦ if a == agent_id then none else some (a, id)
      ]
revoke_agent_cuts_off hash_token event update_id agent_id now db token v h =
    elim (revoke_agent_ok event update_id agent_id now db true h) [
      | inl (u, e, same, b, kept) ↦ absurd (cc b)
      | inr (new, b, after) ↦
          rw
            (
              after,
              lookup_lem hash_token token db v,
              lookup_lem hash_token token (cut_off event update_id agent_id now db)
                  (cut_off-Valid event update_id agent_id now db v),
            )
            (ground (
              arith,
              find-update hash_key (λ c. c.agent_id == agent_id && is_live c) revoke (λ r. refl)
                  (hash_token token) db.credentials,
            ))
    ]

-- An update of the operator's counts once: after a revocation that succeeds, the same update and
-- agent are answered with false at any later time, and nothing is written.
revoke_agent_twice :
    (event again : String) (update_id : ℕ) (agent_id : String) (now later : ℕ) (db : Db) (b : Bool)
    → (revoke_agent event update_id agent_id now db).0 ≡ ok b
    → let db' = (revoke_agent event update_id agent_id now db).1 in
      revoke_agent again update_id agent_id later db' ≡ (ok false, db')
revoke_agent_twice event again update_id agent_id now later db b h =
    elim (revoke_agent_ok event update_id agent_id now db b h) [
      | inl (u, e, same, c, kept) ↦
          rw kept (revoke_agent_replay again update_id agent_id later db u e same)
      | inr (new, c, after) ↦
          let db' = cut_off event update_id agent_id now db in
          let u = used update_id agent_id now in
          let e : first (of_update update_id) db'.credential_operator_updates ≡ some u =
            ground (arith, first-insert (of_update update_id) u db.credential_operator_updates) in
          rw after (revoke_agent_replay again update_id agent_id later db' u e refl)
    ]
