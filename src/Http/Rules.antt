-- ===== src/Http/Rules.antt =====
-- Rules for a relation between the databases before and after a handler.
use self_organizing_multi_ag.Base.{◌≡◌, refl, none, some, Bool-cases, inl, inr}
use self_organizing_multi_ag.Errors.{Result, ok, err, is_not_found}
use self_organizing_multi_ag.Db.{Db, Action, ◌>>=◌}
use self_organizing_multi_ag.Db.Respects.{Respects, IsPreorder}
use self_organizing_multi_ag.Limits.{Check}
use self_organizing_multi_ag.Http.{received, accepted, attempt, unless_missing, forgiven}

module _ {R : Db → Db → Type 0} (o : IsPreorder R) where
  pub Respects-received : {A : Type 0} (a : Result A) → Respects R (received a)
  unfolding received
  Respects-received (ok a) = record { at = λ db. o.same db }
  Respects-received (err e) = record { at = λ db. o.same db }

  pub Respects-accepted : (c : Check) → Respects R (accepted c)
  unfolding accepted
  Respects-accepted none = record { at = λ db. o.same db }
  Respects-accepted (some e) = record { at = λ db. o.same db }

pub Respects-attempt :
    {R : Db → Db → Type 0} {A : Type 0} (m : Action A) → Respects R m → Respects R (attempt m)
unfolding attempt
Respects-attempt m h = record { at = λ db. h.at db }

kept :
    (R : Db → Db → Type 0) {A : Type 0} (before : Db) (r : Result A) (after : Db)
    → R before after
    → R before (forgiven r after).1
kept R before (ok a) after h = h
kept R before (err e) after h = elim (Bool-cases (is_not_found e.error_code)) [
  | inl missing ↦ rw missing h
  | inr other ↦ rw other h
]

pub Respects-unless_missing :
    {R : Db → Db → Type 0} {A : Type 0} (m : Action A)
    → Respects R m
    → Respects R (unless_missing m)
unfolding unless_missing
Respects-unless_missing {R} m h = record { at = λ db. kept R db (m db).0 (m db).1 (h.at db) }

pub ruleset handler_rules =
    (Respects-received, Respects-accepted, Respects-attempt, Respects-unless_missing)

-- A body that decodes, then the rest.
pub received-bind :
    {A B : Type 0} (a : A) (f : A → Action B) (db : Db) → (received (ok a) >>= f) db ≡ f a db
unfolding received ◌>>=◌
received-bind a f db = refl

-- A body that is accepted, then the rest.
pub accepted-ok :
    {B : Type 0} (c : Check) (f : Unit {0} → Action B) (db : Db) (b : B)
    → ((accepted c >>= f) db).0 ≡ ok b
    → ((f tt db).0 ≡ ok b) × (((accepted c >>= f) db).1 ≡ (f tt db).1)
unfolding accepted ◌>>=◌
accepted-ok none f db b h = (h, refl)
accepted-ok (some e) f db b h = cc
