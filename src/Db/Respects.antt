-- ===== src/Db/Respects.antt =====
-- Rules for a relation between the database before an operation and the one after it: one for each way to
-- build an operation. An invariant `P` is the relation `P db → P db'`.
use self_organizing_multi_ag.Base.{Bool, true, false, Option, none, some, if◌then◌else◌}
use self_organizing_multi_ag.Errors.{ApiError, Result, ok, err}
use self_organizing_multi_ag.Db.Rows.{Db}
use self_organizing_multi_ag.Db.Monad.{
  Action, pure, raise, gets, or_raise, atomically, raise_if, modify, ◌>>=◌, settle, continue,
}

-- Every run of `m`, failed or not, leads from a database to one that `R` relates to it.
pub record Respects {A : Type 0} (R : Db → Db → Type 0) (m : Action A) : Type 0 where
  pub at : (db : Db) → R db (m db).1

pub record IsPreorder (R : Db → Db → Type 0) : Type 0 where
  pub same : (db : Db) → R db db
  pub chain : (a b c : Db) → R a b → R b c → R a c

module _ {R : Db → Db → Type 0} {A : Type 0} (o : IsPreorder R) where
  pub Respects-pure : (a : A) → Respects R (pure a)
  unfolding ◌>>=◌
  Respects-pure a = record { at = λ db. o.same db }

  pub Respects-raise : (e : ApiError) → Respects R (raise {A = A} e)
  unfolding ◌>>=◌
  Respects-raise e = record { at = λ db. o.same db }

  pub Respects-gets : (f : Db → A) → Respects R (gets f)
  unfolding ◌>>=◌
  Respects-gets f = record { at = λ db. o.same db }

  pub Respects-or_raise : (a : Option A) (e : ApiError) → Respects R (or_raise a e)
  unfolding ◌>>=◌
  Respects-or_raise none e = record { at = λ db. o.same db }
  Respects-or_raise (some a) e = record { at = λ db. o.same db }

  settled : (r : Result A) (before after : Db) → R before after → R before (settle before r after).1
  settled (ok a) before after h = h
  settled (err e) before after h = o.same before

  pub Respects-atomically : (m : Action A) → Respects R m → Respects R (atomically m)
  unfolding ◌>>=◌
  Respects-atomically m h = record { at = λ db. settled (m db).0 db (m db).1 (h.at db) }

pub Respects-raise_if :
    {R : Db → Db → Type 0} (o : IsPreorder R) (b : Bool) (e : ApiError) → Respects R (raise_if b e)
unfolding ◌>>=◌
Respects-raise_if o true e = record { at = λ db. o.same db }
Respects-raise_if o false e = record { at = λ db. o.same db }

pub Respects-modify :
    {R : Db → Db → Type 0} (f : Db → Db) → ((db : Db) → R db (f db)) → Respects R (modify f)
unfolding ◌>>=◌
Respects-modify f h = record { at = h }

pub Respects-if :
    {R : Db → Db → Type 0} {A : Type 0} (b : Bool) (m n : Action A)
    → Respects R m
    → Respects R n
    → Respects R (if b then m else n)
Respects-if true m n hm hn = hm
Respects-if false m n hm hn = hn

module _ {R : Db → Db → Type 0} {A B : Type 0} (o : IsPreorder R) where
  continued :
      (f : A → Action B)
      → ((a : A) → Respects R (f a))
      → (r : Result A) (before after : Db) → R before after
      → R before (continue r f after).1
  continued f hf (ok a) before after h = o.chain before after (f a after).1 h ((hf a).at after)
  continued f hf (err e) before after h = h

  pub Respects-bind :
      (m : Action A) (f : A → Action B)
      → Respects R m
      → ((a : A) → Respects R (f a))
      → Respects R (m >>= f)
  unfolding ◌>>=◌
  Respects-bind m f hm hf = record { at = λ db. continued f hf (m db).0 db (m db).1 (hm.at db) }

pub ruleset respects_rules = (
  Respects-pure, Respects-raise, Respects-gets, Respects-or_raise, Respects-atomically,
  Respects-raise_if, Respects-if, Respects-bind,
)
