-- ===== src/Http/Doors/Locks.antt =====
-- Lemmas on a credential that its holder gives up, over the handlers of internal/httpapi.
use self_organizing_multi_ag.Base.{
  ℕ, String, ◌≡◌, refl, sym, ap, ◌∙◌, true, Option, none, some, List, arith, ◌==◌, eq_refl,
}
use self_organizing_multi_ag.Errors.{ok, err, access_denied}
use self_organizing_multi_ag.Db.{Db, Credential, Action, ◌>>=◌, ◌>>◌}
use self_organizing_multi_ag.Db.Inversion.{>>=-Ran, atomically_ok, select-ok, pure_lem}
use self_organizing_multi_ag.Table.{find, keep_if}
use self_organizing_multi_ag.Table.Keyed.{find-update, first_at}
use self_organizing_multi_ag.Credentials.{
  is_live, revoke, hash_key, live_row, revoke_current, lookup_agent_by_token, revoke_where,
  credential_audit,
}
use self_organizing_multi_ag.Credentials.Revocation.{
  CredentialsValid, Call, run, revoked_final, revoke_current-Keeps,
}
use self_organizing_multi_ag.Limiter.{Limiter}
use self_organizing_multi_ag.Http.{Ambient, seconds}
use self_organizing_multi_ag.Http.Doors.{require_auth, handle_revoke_credential}

kept_row : (o : Option Credential) (c : Credential) → keep_if is_live o ≡ some c → o ≡ some c
kept_row none c h = cc
kept_row (some d) c h = ground arith

revoked_row :
    (h event : String) (now : ℕ) (c : Credential) (db : Db)
    → find hash_key h db.credentials ≡ some c
    → find hash_key h
        ((revoke_where (λ r. r.credential_id == c.credential_id)
            >> credential_audit event c.agent_id c.agent_id c.credential_id "revoked" now)
          db).1.credentials
      ≡ some (revoke c)
unfolding ◌>>=◌
revoked_row h event now c db e =
    find-update hash_key (λ r. r.credential_id == c.credential_id) revoke (λ r. refl) h
      db.credentials
    ∙ rw (e, eq_refl c.credential_id) refl

live_find :
    (h : String) (db : Db) (c : Credential)
    → CredentialsValid db
    → live_row h db ≡ some c
    → find hash_key h db.credentials ≡ some c
unfolding live_row
live_find h db c v e = kept_row _ c (sym (first_at hash_key h is_live db.credentials v.by_hash) ∙ e)

module _ (hash_token : String → String) where
  revoke_current_row :
      (event token : String) (now : ℕ) (db : Db)
      → CredentialsValid db
      → (revoke_current hash_token event token now db).0 ≡ ok tt
      → (c : Credential) × (find hash_key
            (hash_token token)
            (revoke_current hash_token event token now db).1.credentials
          ≡ some (revoke c))
  unfolding revoke_current
  revoke_current_row event token now db v h =
      let (run, end) = atomically_ok _ db tt h in
      let (c, e, rest, last) = select-ok (live_row (hash_token token)) _ _ db tt run in
      (
        c,
        ap (λ d. find hash_key (hash_token token) d.credentials) (end ∙ last)
            ∙ revoked_row (hash_token token) event now c db (live_find (hash_token token) db c v e),
      )

  require_auth-none :
      {A : Type 0} (moment : ℕ) (token : String) (next : String → Action A) (limiter : Limiter)
      (db : Db)
      → lookup_agent_by_token hash_token token db ≡ none
      → require_auth hash_token moment (some token) next limiter db
        ≡ ((err (access_denied "invalid or revoked credential"), db), limiter)
  unfolding require_auth
  require_auth-none moment token next limiter db h = rw h refl

  handle_revoke_ok :
      (w : Ambient) (event token : String) (db : Db)
      → (handle_revoke_credential hash_token w event (some token) db).0 ≡ ok (200, true)
      → ((revoke_current hash_token event token (seconds w) db).0 ≡ ok tt)
        × ((handle_revoke_credential hash_token w event (some token) db).1
            ≡ (revoke_current hash_token event token (seconds w) db).1)
  unfolding handle_revoke_credential
  handle_revoke_ok w event token db h =
      let r = >>=-Ran (revoke_current hash_token event token (seconds w)) _ db (200, true) h in
      (r.first, r.end ∙ ap (λ x. x.1) (pure_lem (200, true) _))

  -- Once a credential is given up at its endpoint, no handler behind the authentication runs for
  -- its token, whatever credential operations follow: the request is denied, and neither the
  -- database nor the budget changes. The table holds each credential id and each hash once.
  pub revoked_turned_away :
      {A : Type 0} (w : Ambient) (event token : String) (moment : ℕ) (next : String → Action A)
      (limiter : Limiter) (cs : List Call) (db : Db)
      → CredentialsValid db
      → (handle_revoke_credential hash_token w event (some token) db).0 ≡ ok (200, true)
      → let after =
          run hash_token cs (handle_revoke_credential hash_token w event (some token) db).1 in
        require_auth hash_token moment (some token) next limiter after
        ≡ ((err (access_denied "invalid or revoked credential"), after), limiter)
  revoked_turned_away w event token moment next limiter cs db v h =
      let (done, end) = handle_revoke_ok w event token db h in
      let (c, e) = revoke_current_row event token (seconds w) db v done in
      let v' = (revoke_current-Keeps hash_token event token (seconds w)).at db v in
      rw end (
        require_auth-none moment token next limiter _
          (revoked_final hash_token cs _ token (revoke c) v'.valid e refl))
