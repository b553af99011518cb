-- ===== src/Http/Unseen.antt =====
-- Lemmas on the handlers of a hidden project, of internal/httpapi/projects.go.
use self_organizing_multi_ag.Base.{
  String, ◌≡◌, refl, sym, ◌∙◌, ap, Option, none, some, Option-cases, inl, inr,
}
use self_organizing_multi_ag.Errors.{ApiError, Result, ok, err, not_found}
use self_organizing_multi_ag.Db.{Db, Action, ◌>>=◌}
use self_organizing_multi_ag.Table.{find}
use self_organizing_multi_ag.Limits.{Check}
use self_organizing_multi_ag.Members.{InviteRequest, project_key}
use self_organizing_multi_ag.Requests.{validate_invite, validate_set_role, validate_transfer}
use self_organizing_multi_ag.Http.{Ambient, received, accepted}
use self_organizing_multi_ag.Http.Access.{project_for, handle_get_project, handle_list_members}
use self_organizing_multi_ag.Http.Access.Disclosure.{
  Hidden, project_for-Hidden, project_for_missing,
}
use self_organizing_multi_ag.Http.Seats.{handle_invite, handle_apply, handle_set_role}
use self_organizing_multi_ag.Http.Departures.{handle_remove_membership}
use self_organizing_multi_ag.Http.Transfers.{handle_transfer}

-- A request on a project, with what the handler takes from its path and its body.
pub data Ask : Type 0 where
  ask_project ask_members ask_application : Ask
  ask_invitation : Result InviteRequest → Ask
  ask_removal : String → Ask
  ask_role : String → Result String → Ask
  ask_transfer : Result String → Ask

abbrev pub failure : {A : Type 0} → Result A × Db → Option ApiError × Db
failure (ok a, db) = (none, db)
failure (err e, db) = (some e, db)

-- The error that the handler answers with, if it does, and the database after.
unfoldable pub answer : Ambient → String → String → Ask → Db → Option ApiError × Db
answer w caller p ask_project db = failure (handle_get_project caller p db)
answer w caller p ask_members db = failure (handle_list_members caller p db)
answer w caller p ask_application db = failure (handle_apply w caller p db)
answer w caller p (ask_invitation body) db = failure (handle_invite w caller p body db)
answer w caller p (ask_removal subject) db =
    failure (handle_remove_membership w caller p subject db)
answer w caller p (ask_role subject body) db = failure (handle_set_role caller p subject body db)
answer w caller p (ask_transfer body) db = failure (handle_transfer w caller p body db)

abbrev unknown : ApiError
unknown = not_found "project not found"

abbrev refusal : Check → ApiError
refusal none = unknown
refusal (some e) = e

-- The error of a body that does not decode or is not valid, else that of an unknown project.
abbrev checked : {A : Type 0} → Result A → (A → Check) → ApiError
checked (err e) v = e
checked (ok a) v = refusal (v a)

-- The answer on a project that is not there.
abbrev expected : Ask → ApiError
expected (ask_invitation body) = checked body validate_invite
expected (ask_role subject body) = checked body validate_set_role
expected (ask_transfer body) = checked body validate_transfer
expected _ = unknown

stop :
    {A B : Type 0} (m : Action A) (f : A → Action B) (e : ApiError) (db : Db)
    → m db ≡ (err e, db)
    → (m >>= f) db ≡ (err e, db)
unfolding ◌>>=◌
stop m f e db h = rw h refl

checked_stop :
    {A B C : Type 0} (body : Result A) (v : A → Check) (m : Action B) (f : A → B → Action C)
    (db : Db)
    → m db ≡ (err unknown, db)
    → (received body >>= λ a. accepted (v a) >>= λ _. m >>= f a) db ≡ (err (checked body v), db)
unfolding received accepted ◌>>=◌
checked_stop (err e) v m f db h = refl
checked_stop (ok a) v m f db h = elim (Option-cases (v a)) [
  | inl valid ↦ rw (valid, h) refl
  | inr (e, invalid) ↦ rw invalid refl
]

module _ (w : Ambient) (caller p : String) (db : Db)
    (closed_off : project_for p caller db ≡ (err unknown, db)) where
  turned_away : (q : Ask) → answer w caller p q db ≡ (some (expected q), db)
  unfolding answer handle_get_project handle_list_members handle_apply handle_invite
      handle_remove_membership handle_set_role handle_transfer
  turned_away ask_project = ap failure (stop (project_for p caller) _ unknown db closed_off)
  turned_away ask_members = ap failure (stop (project_for p caller) _ unknown db closed_off)
  turned_away ask_application = ap failure (stop (project_for p caller) _ unknown db closed_off)
  turned_away (ask_invitation body) =
      ap failure (checked_stop body validate_invite (project_for p caller) _ db closed_off)
  turned_away (ask_removal subject) =
      ap failure (stop (project_for p caller) _ unknown db closed_off)
  turned_away (ask_role subject body) =
      ap failure (checked_stop body validate_set_role (project_for p caller) _ db closed_off)
  turned_away (ask_transfer body) =
      ap failure (checked_stop body validate_transfer (project_for p caller) _ db closed_off)

-- To a caller who is neither the owner nor an active member of a closed project that is not
-- listed, the endpoints that read the project, its members, apply, invite, remove, appoint and
-- transfer answer as they would if it did not exist, and write nothing.
pub indistinguishable :
    (w : Ambient) (caller p : String) (q : Ask) (db db' : Db)
    → Hidden p caller db
    → find project_key p db'.projects ≡ none
    → ((answer w caller p q db).0 ≡ (answer w caller p q db').0) × ((answer w caller p q db).1 ≡ db)
indistinguishable w caller p q db db' h m =
    let shut = turned_away w caller p db (project_for-Hidden p caller db h) q in
    let gone = turned_away w caller p db' (project_for_missing p caller db' m) q in
    (ap (λ r. r.0) (shut) ∙ sym (ap (λ r. r.0) gone), ap (λ r. r.1) shut)
