-- ===== src/Db/Monad.antt =====
-- A store operation: it reads and writes the database, and returns or fails. What a statement wrote
-- outside a transaction stays written when a later one fails, so the state comes back beside an
-- error too; inside a transaction `atomically` takes it back.
use self_organizing_multi_ag.Base.{Bool, true, false, Option, none, some}
use self_organizing_multi_ag.Errors.{ApiError, Result, ok, err}
use self_organizing_multi_ag.Db.Rows.{Db}

abbrev pub Action : Type 0 → Type 0
Action A = Db → Result A × Db

module _ {A : Type 0} where
  pub pure : A → Action A
  pure a db = (ok a, db)

  pub raise : ApiError → Action A
  raise e db = (err e, db)

  pub gets : (Db → A) → Action A
  gets f db = (ok (f db), db)

  -- A scan into a variable: `sql.ErrNoRows` becomes the error.
  pub or_raise : Option A → ApiError → Action A
  or_raise none e db = (err e, db)
  or_raise (some a) e db = (ok a, db)

  -- `tx.Commit` on success; on an error the deferred `tx.Rollback` restores the tables.
  abbrev pub settle : Db → Result A → Db → Result A × Db
  settle before (ok a) after = (ok a, after)
  settle before (err e) after = (err e, before)

  pub atomically : Action A → Action A
  atomically m db = let (r, after) = m db in settle db r after

pub raise_if : Bool → ApiError → Action (Unit {0})
raise_if true e db = (err e, db)
raise_if false e db = (ok tt, db)

pub modify : (Db → Db) → Action (Unit {0})
modify f db = (ok tt, f db)

module _ {A B : Type 0} where
  abbrev pub continue : Result A → (A → Action B) → Action B
  continue (ok a) f db = f a db
  continue (err e) f db = (err e, db)

  infixl 5 ◌>>=◌ ◌>>◌
  -- To unfold this is to unfold the other actions.
  unfoldable pub ◌>>=◌ : Action A → (A → Action B) → Action B
  unfolding pure raise gets or_raise atomically raise_if modify
  ◌>>=◌ m f db = let (r, db') = m db in continue r f db'

  abbrev pub ◌>>◌ : Action A → Action B → Action B
  m >> k = m >>= λ _. k
