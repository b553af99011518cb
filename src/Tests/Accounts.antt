-- ===== src/Tests/Accounts.antt =====
-- Credentials at work.
use self_organizing_multi_ag.Base.{
  String, ◌≡◌, refl, none, some, List, [], ◌∷◌, true, ◌==◌, if◌then◌else◌,
}
use self_organizing_multi_ag.Errors.{ok}
use self_organizing_multi_ag.Db.{Db, Credential, active, revoked, ◌>>=◌}
use self_organizing_multi_ag.Table.{find, first, update, insert}
use self_organizing_multi_ag.Tests.{sample}
use self_organizing_multi_ag.Credentials.{
  CredentialOut, hash_key, insert_credential, live_row, revoke_once, revoke_all, revoke_agent,
  rotate, lookup_agent_by_token,
}
use self_organizing_multi_ag.Credentials.Revocation.{
  CredentialsValid, Call, call_issue, call_rotate, call_revoke_agent, run, revoked_final,
}
use self_organizing_multi_ag.Credentials.Rotation.{rotate_lem}
use self_organizing_multi_ag.Credentials.Operator.{revoke_agent_cuts_off}

-- A token is its own hash.
abbrev pub plain_hash : String → String
plain_hash t = t

abbrev old_key : Credential
old_key = record {
  credential_id = "k0";
  agent_id = "worker";
  token_hash = "s0";
  status = revoked;
  rotated_from = none;
  issued_at = 1;
}

abbrev live_key : Credential
live_key = record old_key {
  credential_id = "k1";
  token_hash = "s1";
  status = active;
  rotated_from = some "k0";
}

abbrev pub accounts : Db
accounts = record sample { credentials = old_key ∷ live_key ∷ [] }

pub accounts-CredentialsValid : CredentialsValid accounts
unfolding find
accounts-CredentialsValid = record { by_id = (refl, (refl, tt)); by_hash = (refl, (refl, tt)) }

abbrev pub account_calls : List Call
account_calls =
    call_issue "k2" "s0" "creator" 5
    ∷ call_rotate "k3" "s3" "e1" "s1" 6
    ∷ call_revoke_agent "e2" 7 "worker" 8
    ∷ []

old_row : find hash_key "s0" accounts.credentials ≡ some old_key
unfolding find
old_row = refl

revoked_final_example :
    lookup_agent_by_token plain_hash "s0" (run plain_hash account_calls accounts) ≡ none
revoked_final_example =
    revoked_final plain_hash account_calls accounts "s0" old_key accounts-CredentialsValid old_row
      refl

abbrev handed : CredentialOut
handed = record { credential_id = "k2"; token = "s2" }

rotated_once : (rotate plain_hash "k2" "s2" "e1" "s1" 9 accounts).0 ≡ ok handed
unfolding rotate live_row insert_credential find first update insert ◌>>=◌
rotated_once = refl

rotate_lem_example :
    (agent : String) × (id : String) × (lookup_agent_by_token plain_hash "s1" accounts
      ≡ some (agent, id))
    × (lookup_agent_by_token plain_hash "s2" (rotate plain_hash "k2" "s2" "e1" "s1" 9 accounts).1
        ≡ (if plain_hash "s2" == plain_hash "s1"
            then none
            else if plain_hash "s2" == plain_hash "s2"
            then some (agent, "k2")
            else lookup_agent_by_token plain_hash "s2" accounts))
rotate_lem_example =
    rotate_lem plain_hash "k2" "s2" "e1" "s1" 9 accounts handed "s2" accounts-CredentialsValid
      rotated_once

worker_cut_off : (revoke_agent "e2" 7 "worker" 8 accounts).0 ≡ ok true
unfolding revoke_agent revoke_once revoke_all first update insert ◌>>=◌ find
worker_cut_off = refl

revoke_agent_cuts_off_example :
    lookup_agent_by_token plain_hash "s1" (revoke_agent "e2" 7 "worker" 8 accounts).1
    ≡ elim (lookup_agent_by_token plain_hash "s1" accounts) [
      | none ↦ none
      | some (a, id) ↦ if a == "worker" then none else some (a, id)
    ]
revoke_agent_cuts_off_example =
    revoke_agent_cuts_off plain_hash "e2" 7 "worker" 8 accounts "s1" accounts-CredentialsValid
      worker_cut_off
