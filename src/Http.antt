-- ===== src/Http.antt =====
-- internal/httpapi: the handlers of the API, as actions on the database that return a status and a body, or an
-- error for `write_error`. The caller is the agent that the credential named. What a request takes from
-- outside is an `Ambient`: one clock reading, and what the libraries give.
pub mod Rules
pub mod Access
pub mod Notices
pub mod Seats
pub mod Departures
pub mod Transfers
pub mod Unseen
pub mod Owners
pub mod Consent
pub mod Succession
pub mod Tasks
pub mod Memory
pub mod Letters
pub mod Doors
pub mod Escalation
use self_organizing_multi_ag.Base.{
  ℕ, ◌/◌, String, Bool, true, false, Option, none, some, List, if◌then◌else◌,
}
use self_organizing_multi_ag.Errors.{ApiError, Result, ok, err, is_not_found}
use self_organizing_multi_ag.Db.{Db, Action, pure, raise}
use self_organizing_multi_ag.Limits.{Check}
use self_organizing_multi_ag.Messages.{second}

pub record Ambient : Type 0 where
  -- `time.Now`, in nanoseconds
  pub moment : ℕ
  -- `claim_id` of a RESULT payload, where it decodes
  pub result_claim : String → Option String
  -- `artifacts` of a RESULT payload, where it decodes
  pub result_artifacts : String → Option (List String)
  -- the JSON of an `EventPayload`: its type, and the entries of its data
  pub event_payload : String → List (String × String) → String
  -- `idgen.New`, for the notice to a recipient
  pub notice_id : String → String
  -- the order in which `range` visits the keys of a map
  pub visit : List String → List String

-- The clock reading in whole seconds, as the tables hold it.
abbrev pub seconds : Ambient → ℕ
seconds w = w.moment / second

-- A result at hand: what `decodeJSON` made of the body, or what a query answered.
unfoldable pub received : {A : Type 0} → Result A → Action A
received (ok a) db = (ok a, db)
received (err e) db = (err e, db)

-- `if aerr := req.Validate(); aerr != nil`
unfoldable pub accepted : Check → Action (Unit {0})
accepted none db = (ok tt, db)
accepted (some e) db = (err e, db)

module _ {A : Type 0} where
  abbrev logged : Result A × Db → Result (Unit {0}) × Db
  logged (r, db) = (ok tt, db)

  -- A call whose error is only logged.
  unfoldable pub attempt : Action A → Action (Unit {0})
  attempt m db = logged (m db)

  abbrev caught_as : Result A × Db → Result (Result A) × Db
  caught_as (r, db) = (ok r, db)

  -- A call whose error the handler looks at.
  unfoldable pub caught : Action A → Action (Result A)
  caught m db = caught_as (m db)

  abbrev pub forgiven : Result A → Db → Result (Unit {0}) × Db
  forgiven (ok a) db = (ok tt, db)
  forgiven (err e) db = if is_not_found e.error_code then (ok tt, db) else (err e, db)

  -- `err != nil && !model.IsCode(err, model.ErrNotFound)`
  unfoldable pub unless_missing : Action A → Action (Unit {0})
  unless_missing m db = let (r, after) = m db in forgiven r after
