-- ===== src/Db/Keeps.antt =====
-- Rules for operations that leave a part of the database as it was.
use self_organizing_multi_ag.Base.{◌≡◌, refl, ◌∙◌}
use self_organizing_multi_ag.Db.Rows.{Db}
use self_organizing_multi_ag.Db.Monad.{Action, modify, ◌>>=◌, continue}
use self_organizing_multi_ag.Errors.{Result, ok, err}
use self_organizing_multi_ag.Db.Respects.{Respects, IsPreorder, Respects-modify}

-- What `view` reads of the database is the same after.
abbrev pub KeptBy : {A : Type 0} → (Db → A) → Db → Db → Type 0
KeptBy view db db' = view db' ≡ view db

abbrev pub Keeps : {A B : Type 0} → (Db → A) → Action B → Type 0
Keeps view m = Respects (KeptBy view) m

module _ {A : Type 0} (view : Db → A) where
  pub KeptBy-order : IsPreorder (KeptBy view)
  KeptBy-order = record { same = λ db. refl; chain = λ a b c p q. q ∙ p }

  -- An UPDATE of another part.
  pub Keeps-modify : (f : Db → Db) → ((db : Db) → view (f db) ≡ view db) → Keeps view (modify f)
  Keeps-modify f h = Respects-modify f h

  module _ {B C : Type 0} where
    continue-Keeps :
        (f : B → Action C)
        → ((b : B) → Keeps view (f b))
        → (r : Result B) (db : Db) → view (continue r f db).1 ≡ view db
    continue-Keeps f h (ok b) db = (h b).at db
    continue-Keeps f h (err e) db = refl

    -- Where what follows a part keeps the view, the part alone decides it.
    pub >>=-Keeps :
        (m : Action B) (f : B → Action C) (db : Db)
        → ((b : B) → Keeps view (f b))
        → view ((m >>= f) db).1 ≡ view (m db).1
    unfolding ◌>>=◌
    >>=-Keeps m f db h = continue-Keeps f h (m db).0 (m db).1
