-- ===== src/Credentials/Rotation.antt =====
-- Lemmas on `Rotate` of internal/store/credentials.go: the tokens after it.
use self_organizing_multi_ag.Base.{
  ℕ, String, ◌≡◌, refl, ap, ◌∙◌, true, none, some, List, arith, ◌==◌, eq_iff, inl, inr,
  if◌then◌else◌, Option-cases,
}
use self_organizing_multi_ag.Errors.{ok}
use self_organizing_multi_ag.Db.{Db, Credential, ◌>>=◌}
use self_organizing_multi_ag.Table.{find, find-key, update, insert, IsKeyed}
use self_organizing_multi_ag.Table.Keyed.{find-update, find-insert, first_at, All-found}
use self_organizing_multi_ag.Table.Rows.{All-find}
use self_organizing_multi_ag.Credentials.{
  CredentialOut, is_live, revoke, id_key, hash_key, insert_credential, new_credential, live_row,
  rotate, lookup_agent_by_token,
}
use self_organizing_multi_ag.Credentials.Revocation.{
  CredentialsValid, rotate-Keeps, holder, lookup_lem,
}

-- The database after a rotation, as far as tokens go.
abbrev rotated_rows : Credential → Credential → List Credential → List Credential
rotated_rows old c cs = insert c (update (λ r. r.credential_id == old.credential_id) revoke cs)

module _ (hash_token : String → String) (credential_id new_token event token : String) (now : ℕ)
    (db : Db) where
  abbrev replacement : Credential → Credential
  replacement old =
      new_credential credential_id old.agent_id (hash_token new_token) (some old.credential_id) now

  rotate_ok :
      (out : CredentialOut)
      → (rotate hash_token credential_id new_token event token now db).0 ≡ ok out
      → (old : Credential) × (live_row (hash_token token) db ≡ some old)
        × (find id_key credential_id
              (update (λ r. r.credential_id == old.credential_id) revoke db.credentials)
            ≡ none)
        × (find hash_key
              (hash_token new_token)
              (update (λ r. r.credential_id == old.credential_id) revoke db.credentials)
            ≡ none)
        × ((rotate hash_token credential_id new_token event token now db).1.credentials
            ≡ rotated_rows old (replacement old) db.credentials)
  unfolding rotate insert_credential ◌>>=◌
  rotate_ok out h = elim (Option-cases (live_row (hash_token token) db)) [
    | inl gone ↦ absurd (ground arith)
    | inr (old, e) ↦
        let rows = update (λ r. r.credential_id == old.credential_id) revoke db.credentials in
        elim (Option-cases (find id_key credential_id rows)) [
          | inr (other, taken) ↦ absurd (ground arith)
          | inl new_id ↦ elim (Option-cases (find hash_key (hash_token new_token) rows)) [
            | inr (other, taken) ↦ absurd (ground arith)
            | inl new_hash ↦ (old, e, new_id, new_hash, ground arith)
          ]
        ]
  ]

-- One credential has one hash.
one_hash :
    (cs : List Credential) (h k : String) (c d : Credential)
    → IsKeyed id_key cs
    → find hash_key h cs ≡ some c
    → find hash_key k cs ≡ some d
    → c.credential_id ≡ d.credential_id
    → h ≡ k
one_hash cs h k c d v e e' same =
    let own = All-found id_key cs v in
    let at_c = All-find (λ r. find id_key r.credential_id cs ≡ some r) hash_key h c cs own e in
    let at_d = All-find (λ r. find id_key r.credential_id cs ≡ some r) hash_key k d cs own e' in
    ground (arith, find-key hash_key h c cs e, find-key hash_key k d cs e')

module _ (hash_token : String → String) (token : String) (db : Db) (old : Credential) where
  live_found :
      CredentialsValid db
      → live_row (hash_token token) db ≡ some old
      → (find hash_key (hash_token token) db.credentials ≡ some old) × (is_live old ≡ true)
  unfolding live_row
  live_found v e =
      ground (arith, first_at hash_key (hash_token token) is_live db.credentials v.by_hash)

  lookup_live :
      live_row (hash_token token) db ≡ some old
      → lookup_agent_by_token hash_token token db ≡ some (old.agent_id, old.credential_id)
  unfolding lookup_agent_by_token
  lookup_live e = ground arith

  -- What each hash reads in the rows of a rotation.
  holder_rotated :
      (h : String) (c : Credential)
      → CredentialsValid db
      → find hash_key (hash_token token) db.credentials ≡ some old
      → is_live c ≡ true
      → find hash_key c.token_hash
          (update (λ r. r.credential_id == old.credential_id) revoke db.credentials)
        ≡ none
      → holder (find hash_key h (rotated_rows old c db.credentials)) ≡ (
          if h == hash_token token
          then none
          else if h == c.token_hash
          then some (c.agent_id, c.credential_id)
          else holder (find hash_key h db.credentials))
  holder_rotated h c v e fresh new =
      let p = λ (r : Credential). r.credential_id == old.credential_id in
      let at_h = find-update hash_key p revoke (λ r. refl) h db.credentials in
      let ins = find-insert hash_key h c (update p revoke db.credentials) in
      elim (Option-cases (find hash_key h db.credentials)) [
        | inl absent ↦ ground (
          arith,
          at_h,
          ins,
          eq_iff h (hash_token token),
          eq_iff h c.token_hash,
          eq_iff c.token_hash h,
        )
        | inr (d, there) ↦
            let apart = one_hash db.credentials h (hash_token token) d old v.by_id there e in
            ground (
              arith,
              apart,
              at_h,
              ins,
              eq_iff h (hash_token token),
              eq_iff h c.token_hash,
              eq_iff c.token_hash h,
              eq_iff d.credential_id old.credential_id,
            )
      ]

-- A rotation that succeeds hands the agent over to the new token: the old one was the agent's, it
-- authenticates no more, the new one authenticates the same agent under the new credential, and
-- every other token reads as before. The table holds each credential id and each hash once.
pub rotate_lem :
    (hash_token : String → String) (credential_id new_token event token : String) (now : ℕ)
    (db : Db) (out : CredentialOut) (t : String)
    → CredentialsValid db
    → (rotate hash_token credential_id new_token event token now db).0 ≡ ok out
    → let db' = (rotate hash_token credential_id new_token event token now db).1 in
      (agent : String) × (id : String) × (lookup_agent_by_token hash_token token db
        ≡ some (agent, id))
      × (lookup_agent_by_token hash_token t db' ≡ (
          if hash_token t == hash_token token
          then none
          else if hash_token t == hash_token new_token
          then some (agent, credential_id)
          else lookup_agent_by_token hash_token t db))
rotate_lem hash_token credential_id new_token event token now db out t v h =
    let (old, e, new_id, new_hash, after) =
      rotate_ok hash_token credential_id new_token event token now db out h in
    let (at_old, live) = live_found hash_token token db old v e in
    let db' = (rotate hash_token credential_id new_token event token now db).1 in
    let v' = ((rotate-Keeps hash_token credential_id new_token event token now).at db v).valid in
    let c = replacement hash_token credential_id new_token event token now db old in
    (
      old.agent_id,
      old.credential_id,
      lookup_live hash_token token db old e,
      lookup_lem hash_token t db' v'
          ∙ ap (λ rows. holder (find hash_key (hash_token t) rows)) after
          ∙ rw (lookup_lem hash_token t db v)
              (holder_rotated hash_token token db old (hash_token t) c v at_old refl new_hash),
    )
