-- ===== src/Db/Inversion.antt =====
-- What a run that succeeds says of its parts.
use self_organizing_multi_ag.Base.{
  Bool, true, false, not, ◌≡◌, refl, sym, subst, ap, ◌∙◌, Option, none, some,
}
use self_organizing_multi_ag.Errors.{ApiError, Result, ok, err}
use self_organizing_multi_ag.Db.Rows.{Db}
use self_organizing_multi_ag.Db.Reads.{Reads}
use self_organizing_multi_ag.Db.Monad.{
  Action, pure, gets, modify, or_raise, raise_if, atomically, ◌>>=◌, continue, settle,
}

-- `m` then `f` succeeded: the value of `m`, and where `f` ended.
pub record Ran {A B : Type 0} (m : Action A) (f : A → Action B) (db : Db) (b : B) : Type 0 where
  pub value : A
  pub first : (m db).0 ≡ ok value
  pub rest : (f value (m db).1).0 ≡ ok b
  pub end : ((m >>= f) db).1 ≡ (f value (m db).1).1

module _ {A B : Type 0} where
  ran :
      (f : A → Action B) (r : Result A) (after : Db) (b : B)
      → (continue r f after).0 ≡ ok b
      → (a : A) × (r ≡ ok a) × ((f a after).0 ≡ ok b) × ((continue r f after).1 ≡ (f a after).1)
  ran f (ok a) after b h = (a, refl, h, refl)
  ran f (err e) after b h = cc

  pub >>=-Ran :
      (m : Action A) (f : A → Action B) (db : Db) (b : B) → ((m >>= f) db).0 ≡ ok b → Ran m f db b
  unfolding ◌>>=◌
  >>=-Ran m f db b h =
      let (a, first, rest, end) = ran f (m db).0 (m db).1 b h in
      record { value = a; first = first; rest = rest; end = end }

  -- A part that writes nothing hands its database on.
  pub >>=-unchanged :
      (m : Action A) (f : A → Action B) (db : Db) (b : B)
      → (m db).1 ≡ db
      → ((m >>= f) db).0 ≡ ok b
      → (a : A) × ((m db).0 ≡ ok a) × ((f a db).0 ≡ ok b) × (((m >>= f) db).1 ≡ (f a db).1)
  >>=-unchanged m f db b same h =
      let r = >>=-Ran m f db b h in
      (
        r.value,
        r.first,
        subst (λ d. (f r.value d).0 ≡ ok b) same r.rest,
        r.end ∙ ap (λ d. (f r.value d).1) same,
      )

module _ {A : Type 0} where
  settle_ok :
      (before : Db) (r : Result A) (after : Db) (a : A)
      → (settle before r after).0 ≡ ok a
      → (r ≡ ok a) × ((settle before r after).1 ≡ after)
  settle_ok before (ok x) after a h = (h, refl)
  settle_ok before (err e) after a h = cc

  settle_err :
      (before : Db) (r : Result A) (after : Db) (e : ApiError)
      → (settle before r after).0 ≡ err e
      → (settle before r after).1 ≡ before
  settle_err before (ok x) after e h = cc
  settle_err before (err x) after e h = refl

  pub atomically_ok :
      (m : Action A) (db : Db) (a : A)
      → (atomically m db).0 ≡ ok a
      → ((m db).0 ≡ ok a) × ((atomically m db).1 ≡ (m db).1)
  unfolding ◌>>=◌
  atomically_ok m db a h = settle_ok db (m db).0 (m db).1 a h

  -- A transaction that fails leaves the database as it was.
  pub atomically_err :
      (m : Action A) (db : Db) (e : ApiError)
      → (atomically m db).0 ≡ err e
      → (atomically m db).1 ≡ db
  unfolding ◌>>=◌
  atomically_err m db e h = settle_err db (m db).0 (m db).1 e h

  pub or_raise_ok :
      (o : Option A) (e : ApiError) (db : Db) (a : A) → (or_raise o e db).0 ≡ ok a → o ≡ some a
  unfolding ◌>>=◌
  or_raise_ok none e db a h = cc
  or_raise_ok (some x) e db a h = cc

  pub gets_unchanged : (f : Db → A) (db : Db) → (gets f db).1 ≡ db
  unfolding ◌>>=◌
  gets_unchanged f db = refl

  pub gets_ok : (f : Db → A) (db : Db) (a : A) → (gets f db).0 ≡ ok a → f db ≡ a
  unfolding ◌>>=◌
  gets_ok f db a h = cc

  pub or_raise_unchanged : (o : Option A) (e : ApiError) (db : Db) → (or_raise o e db).1 ≡ db
  unfolding ◌>>=◌
  or_raise_unchanged none e db = refl
  or_raise_unchanged (some x) e db = refl

-- `SELECT` into a variable, then the rest.
pub select-ok :
    {A B : Type 0} (f : Db → Option A) (e : ApiError) (g : A → Action B) (db : Db) (b : B)
    → ((gets f >>= λ o. or_raise o e >>= g) db).0 ≡ ok b
    → (a : A) × (f db ≡ some a)
      × ((g a db).0 ≡ ok b)
      × (((gets f >>= λ o. or_raise o e >>= g) db).1 ≡ (g a db).1)
select-ok f e g db b h =
    let (o, p, q, r) =
      >>=-unchanged (gets f) (λ o. or_raise o e >>= g) db b (gets_unchanged f db) h in
    let (a, p', q', r') = >>=-unchanged (or_raise o e) g db b (or_raise_unchanged o e db) q in
    (a, gets_ok f db o p ∙ or_raise_ok o e db a p', q', r ∙ r')

pub modify_lem : (f : Db → Db) (db : Db) → modify f db ≡ (ok tt, f db)
unfolding ◌>>=◌
modify_lem f db = refl

pub modify-bind :
    {B : Type 0} (f : Db → Db) (g : Unit {0} → Action B) (db : Db)
    → (modify f >>= g) db ≡ g tt (f db)
unfolding ◌>>=◌
modify-bind f g db = refl

pub pure_lem : {A : Type 0} (a : A) (db : Db) → pure a db ≡ (ok a, db)
unfolding ◌>>=◌
pure_lem a db = refl

pub pure_ok : {A : Type 0} (a b : A) (db : Db) → (pure a db).0 ≡ ok b → a ≡ b
unfolding ◌>>=◌
pure_ok a b db h = cc

-- A guard, then the rest.
pub raise_if-ok :
    {B : Type 0} (b : Bool) (e : ApiError) (f : Unit {0} → Action B) (db : Db) (x : B)
    → ((raise_if b e >>= f) db).0 ≡ ok x
    → (b ≡ false) × ((f tt db).0 ≡ ok x) × (((raise_if b e >>= f) db).1 ≡ (f tt db).1)
unfolding ◌>>=◌
raise_if-ok true e f db x h = cc
raise_if-ok false e f db x h = (refl, h, refl)

pub not-false : (b : Bool) → not b ≡ false → b ≡ true
not-false true h = refl
not-false false h = cc

-- A guard that let through.
pub raise_if_passed :
    (b : Bool) (e : ApiError) (db : Db) → (raise_if (not b) e db).0 ≡ ok tt → b ≡ true
unfolding ◌>>=◌
raise_if_passed true e db h = refl
raise_if_passed false e db h = cc

-- A part that only reads, then the rest.
pub reads-ok :
    {A B : Type 0} (m : Action A) (f : A → Action B) (db : Db) (b : B)
    → Reads m
    → ((m >>= f) db).0 ≡ ok b
    → (a : A) × ((m db).0 ≡ ok a) × ((f a db).0 ≡ ok b) × (((m >>= f) db).1 ≡ (f a db).1)
reads-ok m f db b r h = >>=-unchanged m f db b (r.at db) h

-- A value that is read, then the rest.
pub gets-ok :
    {A B : Type 0} (g : Db → A) (f : A → Action B) (db : Db) (b : B)
    → ((gets g >>= f) db).0 ≡ ok b
    → ((f (g db) db).0 ≡ ok b) × (((gets g >>= f) db).1 ≡ (f (g db) db).1)
unfolding ◌>>=◌
gets-ok g f db b h = (h, refl)

module _ {A B : Type 0} where
  continue_reads :
      (f : A → Action B)
      → ((a : A) → Reads (f a))
      → (r : Result A) (db : Db) → (continue r f db).1 ≡ db
  continue_reads f h (ok a) db = (h a).at db
  continue_reads f h (err e) db = refl

  -- What follows a part only reads: the part is all that wrote.
  pub >>=-reads :
      (m : Action A) (f : A → Action B) (db : Db)
      → ((a : A) → Reads (f a))
      → ((m >>= f) db).1 ≡ (m db).1
  unfolding ◌>>=◌
  >>=-reads m f db h = continue_reads f h (m db).0 (m db).1

  read_cases :
      (P : Result B × Db → Type 0) (f : A → Action B) (db : Db) (r : Result A) (after : Db)
      → after ≡ db
      → ((e : ApiError) → P (err e, db))
      → ((a : A) → r ≡ ok a → P (f a db))
      → P (continue r f after)
  read_cases P f db (ok a) after s bad good = subst (λ d. P (f a d)) (sym s) (good a refl)
  read_cases P f db (err e) after s bad good = subst (λ d. P (err e, d)) (sym s) (bad e)

  -- What holds of a part that only reads and of what follows holds of the whole.
  pub after_reads :
      (P : Result B × Db → Type 0) (m : Action A) (f : A → Action B) (db : Db)
      → Reads m
      → ((e : ApiError) → P (err e, db))
      → ((a : A) → (m db).0 ≡ ok a → P (f a db))
      → P ((m >>= f) db)
  unfolding ◌>>=◌
  after_reads P m f db s bad good = read_cases P f db (m db).0 (m db).1 (s.at db) bad good

  continue_ok :
      (f : A → Action B) (r : Result A) (after : Db) (a : A)
      → r ≡ ok a
      → continue r f after ≡ f a after
  continue_ok f r after a h = rw h refl

  -- Past a part that succeeds.
  pub >>=-ok :
      (m : Action A) (f : A → Action B) (db : Db) (a : A)
      → (m db).0 ≡ ok a
      → (m >>= f) db ≡ f a (m db).1
  unfolding ◌>>=◌
  >>=-ok m f db a h = continue_ok f (m db).0 (m db).1 a h

pub gets-bind :
    {A B : Type 0} (f : Db → A) (g : A → Action B) (db : Db) → (gets f >>= g) db ≡ g (f db) db
unfolding ◌>>=◌
gets-bind f g db = refl
