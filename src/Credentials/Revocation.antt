-- ===== src/Credentials/Revocation.antt =====
-- Lemmas on internal/store/credentials.go over sequences of calls: the rows that stay and what a
-- token reads.
use self_organizing_multi_ag.Base.{
  ℕ, String, ◌≡◌, refl, sym, ap, ◌∙◌, Bool, true, false, Option, none, some, List, [], ◌∷◌, arith,
  inl, inr, ◌⊎◌, if◌then◌else◌, Option-cases, subst,
}
use self_organizing_multi_ag.Db.{Db, Credential, OperatorUpdate, revoked, modify, ◌>>=◌}
use self_organizing_multi_ag.Db.Respects.{Respects, IsPreorder, respects_rules, Respects-modify}
use self_organizing_multi_ag.Table.{find, update, insert, IsKeyed}
use self_organizing_multi_ag.Table.Keyed.{
  find-update, find-insert, IsKeyed-update, IsKeyed-insert, first_at,
}
use self_organizing_multi_ag.Credentials.{
  is_live, revoke, id_key, hash_key, insert_credential, live_row, revoke_where, credential_audit,
  revoke_once, revoke_all, revoke_agent, issue, rotate, revoke_current, lookup_agent_by_token,
}

-- The constraints of the table.
pub record CredentialsValid (db : Db) : Type 0 where
  pub by_id : IsKeyed id_key db.credentials
  pub by_hash : IsKeyed hash_key db.credentials

-- A row as a later database may have it.
abbrev pub Older : Credential → Credential → Type 0
Older c d = (d ≡ c) ⊎ (d ≡ revoke c)

-- Every row is still found by its hash, as it was or revoked.
pub record Kept (db db' : Db) : Type 0 where
  pub valid : CredentialsValid db'
  pub found :
      (h : String) (c : Credential)
      → find hash_key h db.credentials ≡ some c
      → (d : Credential) × (find hash_key h db'.credentials ≡ some d) × Older c d

abbrev pub Keeps : Db → Db → Type 0
Keeps db db' = CredentialsValid db → Kept db db'

Older-trans : {c d e : Credential} → Older c d → Older d e → Older c e
Older-trans p q = ground arith

pub Keeps-order : IsPreorder Keeps
Keeps-order = record {
  same = λ db v. record { valid = v; found = λ h c e. (c, e, inl refl) };
  chain = λ a b c g k v. record {
    valid = (k (g v).valid).valid;
    found = λ h r e.
        let (s, e', o) = (g v).found h r e in
        let (t, e'', o') = (k (g v).valid).found h s e' in (t, e'', Older-trans o o');
  };
}

picked-Older : (b : Bool) (c : Credential) → Older c (if b then revoke c else c)
picked-Older true c = inr refl
picked-Older false c = inl refl

revoke_where-Keeps :
    (p : Credential → Bool) (db : Db)
    → Keeps db (record db { credentials = update p revoke db.credentials })
revoke_where-Keeps p db v = record {
  valid = record {
    by_id = IsKeyed-update id_key p revoke (λ r. refl) db.credentials v.by_id;
    by_hash = IsKeyed-update hash_key p revoke (λ r. refl) db.credentials v.by_hash;
  };
  found = λ h c e. (
    (if p c then revoke c else c),
    (rw (find-update hash_key p revoke (λ r. refl) h db.credentials, e) refl),
    picked-Older (p c) c,
  );
}

-- The row of a credential that clashes with none.
add-Keeps :
    (c : Credential) (db : Db)
    → find id_key c.credential_id db.credentials ≡ none
    → find hash_key c.token_hash db.credentials ≡ none
    → Keeps db (record db { credentials = insert c db.credentials })
add-Keeps c db new_id new_hash v = record {
  valid = record {
    by_id = IsKeyed-insert id_key c db.credentials v.by_id new_id;
    by_hash = IsKeyed-insert hash_key c db.credentials v.by_hash new_hash;
  };
  found = λ h r e. (r, (rw (find-insert hash_key h c db.credentials, e) refl), inl refl);
}

insert_credential-Keeps : (c : Credential) → Respects Keeps (insert_credential c)
unfolding insert_credential ◌>>=◌
insert_credential-Keeps c = record {
  at = λ db v. elim (Option-cases (find id_key c.credential_id db.credentials)) [
    | inr (old, e) ↦ rw e (Keeps-order.same db v)
    | inl new_id ↦ elim (Option-cases (find hash_key c.token_hash db.credentials)) [
      | inr (old, e) ↦ rw (new_id, e) (Keeps-order.same db v)
      | inl new_hash ↦ rw (new_id, new_hash) (add-Keeps c db new_id new_hash v)
    ]
  ];
}

-- A write to another table.
other-Keeps :
    (f : Db → Db) → ((db : Db) → (f db).credentials ≡ db.credentials) → Respects Keeps (modify f)
other-Keeps f same = Respects-modify f λ db v. record {
  valid = record {
    by_id = subst (IsKeyed id_key) (sym (same db)) v.by_id;
    by_hash = subst (IsKeyed hash_key) (sym (same db)) v.by_hash;
  };
  found = λ h c e. (c, ap (find hash_key h) (same db) ∙ e, inl refl);
}

revoking-Keeps : (p : Credential → Bool) → Respects Keeps (revoke_where p)
revoking-Keeps p = Respects-modify _ (revoke_where-Keeps p)

audit-Keeps :
    (fresh actor agent_id credential_id action : String) (now : ℕ)
    → Respects Keeps (credential_audit fresh actor agent_id credential_id action now)
audit-Keeps fresh actor agent_id credential_id action now = other-Keeps _ (λ db. refl)

ledger-Keeps :
    (u : OperatorUpdate)
    → Respects Keeps (
        modify
          λ db. record db { credential_operator_updates = insert u db.credential_operator_updates })
ledger-Keeps u = other-Keeps _ (λ db. refl)

ruleset keep_rules = (
  respects_rules, Keeps-order, revoking-Keeps, audit-Keeps, ledger-Keeps, insert_credential-Keeps,
)

revoke_once-Keeps :
    (event : String) (update_id : ℕ) (agent_id : String) (now : ℕ) (prior : Option OperatorUpdate)
    → Respects Keeps (revoke_once event update_id agent_id now prior)
unfolding revoke_once revoke_all
revoke_once-Keeps event update_id agent_id now none = search keep_rules depth 12
revoke_once-Keeps event update_id agent_id now (some prior) = search keep_rules depth 12

revoke_agent-Keeps :
    (event : String) (update_id : ℕ) (agent_id : String) (now : ℕ)
    → Respects Keeps (revoke_agent event update_id agent_id now)
unfolding revoke_agent
revoke_agent-Keeps event update_id agent_id now = search (keep_rules, revoke_once-Keeps) depth 8

-- What a row gives its token.
abbrev pub holder : Option Credential → Option (String × String)
holder none = none
holder (some c) = if is_live c then some (c.agent_id, c.credential_id) else none

-- A call with its arguments; the identifiers and the token that it draws stand first, the clock last.
pub data Call : Type 0 where
  call_issue : String → String → String → ℕ → Call
  call_rotate : String → String → String → String → ℕ → Call
  call_revoke_current : String → String → ℕ → Call
  call_revoke_agent : String → ℕ → String → ℕ → Call

module _ (hash_token : String → String) where
  issue-Keeps :
      (credential_id token agent_id : String) (now : ℕ)
      → Respects Keeps (issue hash_token credential_id token agent_id now)
  unfolding issue
  issue-Keeps credential_id token agent_id now = search keep_rules depth 8

  pub rotate-Keeps :
      (credential_id new_token event token : String) (now : ℕ)
      → Respects Keeps (rotate hash_token credential_id new_token event token now)
  unfolding rotate
  rotate-Keeps credential_id new_token event token now = search keep_rules depth 14

  pub revoke_current-Keeps :
      (event token : String) (now : ℕ) → Respects Keeps (revoke_current hash_token event token now)
  unfolding revoke_current
  revoke_current-Keeps event token now = search keep_rules depth 10

  -- The database after one call, and after a sequence of them.
  unfoldable pub exec : Call → Db → Db
  exec (call_issue credential_id token agent_id now) db =
      (issue hash_token credential_id token agent_id now db).1
  exec (call_rotate credential_id new_token event token now) db =
      (rotate hash_token credential_id new_token event token now db).1
  exec (call_revoke_current event token now) db = (revoke_current hash_token event token now db).1
  exec (call_revoke_agent event update_id agent_id now) db =
      (revoke_agent event update_id agent_id now db).1

  unfoldable pub run : List Call → Db → Db
  unfolding exec
  run [] db = db
  run (c ∷ cs) db = run cs (exec c db)

  exec-Keeps : (c : Call) (db : Db) → Keeps db (exec c db)
  unfolding exec
  exec-Keeps (call_issue credential_id token agent_id now) db =
      (issue-Keeps credential_id token agent_id now).at db
  exec-Keeps (call_rotate credential_id new_token event token now) db =
      (rotate-Keeps credential_id new_token event token now).at db
  exec-Keeps (call_revoke_current event token now) db = (revoke_current-Keeps event token now).at db
  exec-Keeps (call_revoke_agent event update_id agent_id now) db =
      (revoke_agent-Keeps event update_id agent_id now).at db

  run-Keeps : (cs : List Call) (db : Db) → Keeps db (run cs db)
  unfolding run
  run-Keeps [] db = Keeps-order.same db
  run-Keeps (c ∷ cs) db =
      Keeps-order.chain db (exec c db) (run cs (exec c db)) (exec-Keeps c db)
        (run-Keeps cs (exec c db))

  -- A token reads what the row of its hash holds.
  pub lookup_lem :
      (token : String) (db : Db)
      → CredentialsValid db
      → lookup_agent_by_token hash_token token db
        ≡ holder (find hash_key (hash_token token) db.credentials)
  unfolding lookup_agent_by_token live_row
  lookup_lem token db v =
      ground (arith, first_at hash_key (hash_token token) is_live db.credentials v.by_hash)

  -- A token whose credential is revoked never authenticates again, through any sequence of the
  -- credential operations. The table holds each credential id and each hash once.
  pub revoked_final :
      (cs : List Call) (db : Db) (token : String) (c : Credential)
      → CredentialsValid db
      → find hash_key (hash_token token) db.credentials ≡ some c
      → c.status ≡ revoked
      → lookup_agent_by_token hash_token token (run cs db) ≡ none
  revoked_final cs db token c v e dead =
      let k = run-Keeps cs db v in
      let (d, e', o) = k.found (hash_token token) c e in
      ground (arith, lookup_lem token (run cs db) k.valid)
