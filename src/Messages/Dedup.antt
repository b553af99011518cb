-- ===== src/Messages/Dedup.antt =====
-- Lemmas on `Insert` of internal/store/messages.go: replays and refusals.
use self_organizing_multi_ag.Base.{
  ℕ, String, ◌≡◌, refl, sym, subst, ◌∙◌, ap, Bool, true, false, Option, none, some, arith, ◌==◌,
  eq_iff, eq_refl, Option-cases, inl, inr, if◌then◌else◌,
}
use self_organizing_multi_ag.Errors.{ApiError, Result, ok, err, conflict}
use self_organizing_multi_ag.Db.{Db, MessageRow, modify, atomically, ◌>>=◌}
use self_organizing_multi_ag.Db.Respects.{
  Respects, IsPreorder, respects_rules, Respects-modify, Respects-bind, Respects-gets,
}
use self_organizing_multi_ag.Db.Inversion.{
  >>=-Ran, atomically_ok, atomically_err, select-ok, modify-bind, pure_ok,
}
use self_organizing_multi_ag.Table.{find, insert}
use self_organizing_multi_ag.Table.Keyed.{find-insert}
use self_organizing_multi_ag.Queue.{message_key}
use self_organizing_multi_ag.Messages.Insert.{
  Envelope, message_row, with_message, submit, claim_of, confirm, settle_new, replayed, dedup,
  insert_message,
}

-- A relation for what the submission of a RESULT leaves alone.
abbrev pub SameMessages : Db → Db → Type 0
SameMessages db db' = (db'.messages ≡ db.messages) × (db'.next_seq ≡ db.next_seq)

SameMessages-order : IsPreorder SameMessages
SameMessages-order = record {
  same = λ db. (refl, refl);
  chain = λ a b c p q. (q.0 ∙ p.0, q.1 ∙ p.1);
}

ruleset quiet_rules = (respects_rules, SameMessages-order)

quiet : (f : Db → Db) → ((db : Db) → SameMessages db (f db)) → Respects SameMessages (modify f)
quiet f h = Respects-modify f h

claim_of-SameMessages : (c : Option String) → Respects SameMessages (claim_of c)
unfolding claim_of
claim_of-SameMessages none = search quiet_rules
claim_of-SameMessages (some c) = search quiet_rules

module _ (result_claim : String → Option String) (env : Envelope) (now : ℕ) where
  submit-SameMessages : Respects SameMessages (submit result_claim env now)
  unfolding submit
  submit-SameMessages =
      Respects-bind SameMessages-order _ _ (claim_of-SameMessages (result_claim env.payload))
        λ claim_id. Respects-bind SameMessages-order _ _ (Respects-gets SameMessages-order _) λ n.
          Respects-bind SameMessages-order _ _ (quiet _ (λ db. (refl, refl))) λ _.
            Respects-bind SameMessages-order _ _ (search quiet_rules) λ _.
              Respects-bind SameMessages-order _ _ (Respects-gets SameMessages-order _) λ _.
                Respects-bind SameMessages-order _ _ (search quiet_rules)
                  λ _. quiet _ (λ db. (refl, refl))

  -- A message whose id is stored already, by the same sender, is answered with the stored row, and
  -- writes nothing; by another sender, it is refused.
  replay :
      (db : Db) (stored : MessageRow)
      → find message_key env.message_id db.messages ≡ some stored
      → insert_message result_claim env now db ≡ (
        if stored.sender == env.sender
            then ok (stored, false)
            else err (conflict "message_id is already in use"),
        db,
      )
  unfolding insert_message dedup replayed ◌>>=◌
  replay db stored e = ground arith

  confirm-SameMessages : Respects SameMessages (confirm result_claim env now)
  unfolding confirm
  confirm-SameMessages = search (quiet_rules, submit-SameMessages) depth 9

  confirm_ok :
      (db : Db) (m : MessageRow) (b : Bool)
      → (confirm result_claim env now db).0 ≡ ok (m, b)
      → (find message_key env.message_id db.messages ≡ some m) × (b ≡ true)
  unfolding confirm
  confirm_ok db m b h =
      let (stored, found, h1, end) = select-ok _ _ _ db (m, b) h in
      let r1 = >>=-Ran _ _ db (m, b) h1 in
      let r2 = >>=-Ran _ _ _ (m, b) r1.rest in
      let last = pure_ok _ (m, b) _ r2.rest in
      (
        found ∙ ap (λ (p : MessageRow × Bool). some p.0) last,
        sym (ap (λ (p : MessageRow × Bool). p.1) last),
      )

  -- The row of a new message, and what else its insertion may have written.
  settle_new_ok :
      (db : Db) (m : MessageRow) (b : Bool)
      → find message_key env.message_id db.messages ≡ none
      → (settle_new result_claim env now db).0 ≡ ok (m, b)
      → (m ≡ message_row db.next_seq env now)
        × (b ≡ true)
        × SameMessages (with_message env now db) (settle_new result_claim env now db).1
  unfolding settle_new
  settle_new_ok db m b new h =
      let step = modify-bind (with_message env now) (λ _. confirm result_claim env now) db in
      let (found, is_new) = confirm_ok (with_message env now db) m b (rw step at h) in
      let row = message_row db.next_seq env now in
      let own : find message_key env.message_id (insert row db.messages) ≡ some row =
        ground
          (arith, find-insert message_key env.message_id row db.messages, eq_refl env.message_id) in
      (
        (let same : some m ≡ some row = sym found ∙ own in cc),
        is_new,
        subst (λ p. SameMessages (with_message env now db) p.1) (sym step)
            (confirm-SameMessages.at (with_message env now db)),
      )

  insert_new :
      (db : Db)
      → find message_key env.message_id db.messages ≡ none
      → insert_message result_claim env now db ≡ atomically (settle_new result_claim env now) db
  unfolding insert_message dedup ◌>>=◌
  insert_new db new = ground arith

module _ (result_claim : String → Option String) (env : Envelope) (now : ℕ) where
  -- A database that holds the message answers it as a replay.
  again :
      (db : Db) (m : MessageRow)
      → find message_key env.message_id db.messages ≡ some m
      → m.sender ≡ env.sender
      → insert_message result_claim env now db ≡ (ok (m, false), db)
  again db m e own = rw (replay result_claim env now db m e, (eq_iff m.sender env.sender).1 own)

  held_new :
      (db : Db) (m : MessageRow) (b : Bool)
      → find message_key env.message_id db.messages ≡ none
      → (insert_message result_claim env now db).0 ≡ ok (m, b)
      → let db' = (insert_message result_claim env now db).1 in
        (find message_key env.message_id db'.messages ≡ some m) × (m.sender ≡ env.sender)
  held_new db m b new h =
      let same = insert_new result_claim env now db new in
      let (h1, after) = atomically_ok (settle_new result_claim env now) db (m, b) (rw same at h) in
      let (row, is_new, kept) = settle_new_ok result_claim env now db m b new h1 in
      let own : find message_key env.message_id (with_message env now db).messages
          ≡ some (message_row db.next_seq env now) =
        ground (
          arith,
          find-insert message_key env.message_id (message_row db.next_seq env now) db.messages,
          eq_refl env.message_id,
        ) in
      (
        ap (λ (p : Result (MessageRow × Bool) × Db). find message_key env.message_id p.1.messages)
              same
            ∙ ap (λ (d : Db). find message_key env.message_id d.messages) after
            ∙ ap (find message_key env.message_id) kept.0
            ∙ own
            ∙ ap some (sym row),
        ap (λ (r : MessageRow). r.sender) row,
      )

  held_old :
      (db : Db) (stored m : MessageRow) (b : Bool)
      → find message_key env.message_id db.messages ≡ some stored
      → (insert_message result_claim env now db).0 ≡ ok (m, b)
      → let db' = (insert_message result_claim env now db).1 in
        (find message_key env.message_id db'.messages ≡ some m) × (m.sender ≡ env.sender)
  held_old db stored m b e h =
      ground (arith, replay result_claim env now db stored e, eq_iff stored.sender env.sender)

-- Storing a message twice is storing it once: after a call that succeeds, the same message at any
-- later time is answered with the row that was stored and the mark of a replay, and writes
-- nothing.
pub insert_message_twice :
    (result_claim : String → Option String) (env : Envelope) (now later : ℕ) (db : Db)
    (m : MessageRow) (b : Bool)
    → (insert_message result_claim env now db).0 ≡ ok (m, b)
    → let db' = (insert_message result_claim env now db).1 in
      insert_message result_claim env later db' ≡ (ok (m, false), db')
insert_message_twice result_claim env now later db m b h =
    elim (Option-cases (find message_key env.message_id db.messages)) [
      | inl new ↦
          let (found, own) = held_new result_claim env now db m b new h in
          again result_claim env later (insert_message result_claim env now db).1 m found own
      | inr (stored, e) ↦
          let (found, own) = held_old result_claim env now db stored m b e h in
          again result_claim env later (insert_message result_claim env now db).1 m found own
    ]

-- A message that is refused leaves the database as it was: neither the message nor the submission
-- of its task nor a job stays behind.
insert_message_fails :
    (result_claim : String → Option String) (env : Envelope) (now : ℕ) (db : Db) (e : ApiError)
    → (insert_message result_claim env now db).0 ≡ err e
    → (insert_message result_claim env now db).1 ≡ db
unfolding insert_message
insert_message_fails result_claim env now db e h = atomically_err _ db e h
