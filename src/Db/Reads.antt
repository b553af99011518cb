-- ===== src/Db/Reads.antt =====
-- Rules for operations that write nothing.
use self_organizing_multi_ag.Base.{◌≡◌, refl, ◌∙◌}
use self_organizing_multi_ag.Db.Rows.{Db}
use self_organizing_multi_ag.Db.Monad.{Action}
use self_organizing_multi_ag.Db.Respects.{Respects, IsPreorder, respects_rules}

-- The database after is the one before.
abbrev pub Same : Db → Db → Type 0
Same db db' = db' ≡ db

pub Same-order : IsPreorder Same
Same-order = record { same = λ db. refl; chain = λ a b c p q. q ∙ p }

-- `m` writes nothing, whether it fails or not.
abbrev pub Reads : {A : Type 0} → Action A → Type 0
Reads m = Respects Same m

pub ruleset reads_rules = (respects_rules, Same-order)
