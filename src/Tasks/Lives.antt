-- ===== src/Tasks/Lives.antt =====
-- How one task table may follow another, row by row, for the operations of internal/store/tasks.go.
use self_organizing_multi_ag.Base.{
  String, ◌≡◌, refl, sym, ◌∙◌, subst, ◌⊎◌, Bool, true, false, none, some, List, [], ◌∷◌, arith, All,
  inl, inr, Bool-cases, ◌==◌, eq_iff, if◌then◌else◌,
}
use self_organizing_multi_ag.Db.{Db, Task, task_completed, task_failed}
use self_organizing_multi_ag.Db.Respects.{IsPreorder}
use self_organizing_multi_ag.Table.{IsKeyed, find, update}
use self_organizing_multi_ag.Tasks.{task_key}
use self_organizing_multi_ag.Tasks.Lifecycle.{
  Step, reopen, take, extend, submit, complete, fail, Reach, here, next, Reach-trans, IsValid,
  Reach-IsValid,
}

pub data Lives : List Task → List Task → Type 0 where
  done : Lives [] []
  kept : {t u : Task} {ts us : List Task} → Reach t u → Lives ts us → Lives (t ∷ ts) (u ∷ us)

pub Lives-refl : (ts : List Task) → Lives ts ts
Lives-refl [] = done
Lives-refl (t ∷ ts) = kept here (Lives-refl ts)

pub Lives-trans : {ts us vs : List Task} → Lives ts us → Lives us vs → Lives ts vs
Lives-trans g done = g
Lives-trans (kept r g) (kept s h) = kept (Reach-trans r s) (Lives-trans g h)

pub Lives-update :
    (p : Task → Bool) (f : Task → Task)
    → ((t : Task) → p t ≡ true → Reach t (f t))
    → (ts : List Task) → Lives ts (update p f ts)
unfolding update
Lives-update p f step [] = done
Lives-update p f step (t ∷ ts) = kept (moved (p t) refl) (Lives-update p f step ts)
  where
    moved : (b : Bool) → p t ≡ b → Reach t (if b then f t else t)
    moved true e = step t e
    moved false e = here

missed :
    (k : String) (f : Task → Task) (ts : List Task)
    → find task_key k ts ≡ none
    → update (λ t. t.task_id == k) f ts ≡ ts
unfolding find update
missed k f [] e = refl
missed k f (t ∷ ts) e = ground (arith, missed k f ts)

-- An update by primary key moves the one row that has the key.
pub Lives-update_at :
    (k : String) (f : Task → Task) (t : Task) (ts : List Task)
    → IsKeyed task_key ts
    → find task_key k ts ≡ some t
    → Reach t (f t)
    → Lives ts (update (λ t. t.task_id == k) f ts)
unfolding find update
Lives-update_at k f t [] u e r = done
Lives-update_at k f t (x ∷ ts) u e r = elim (Bool-cases (x.task_id == k)) [
  | inl hit ↦
      let x_t : x ≡ t = ground arith in
      let none_left : find task_key k ts ≡ none = ground (arith, eq_iff x.task_id k) in
      rw (hit, missed k f ts none_left)
        (kept (subst (λ z. Reach z (f z)) (sym x_t) r) (Lives-refl ts))
  | inr miss ↦ rw miss (kept here (Lives-update_at k f t ts u.1 (ground arith) r))
]

-- The relation on databases.
abbrev pub TasksLive : Db → Db → Type 0
TasksLive db db' = Lives db.tasks db'.tasks

pub TasksLive-order : IsPreorder TasksLive
TasksLive-order = record { same = λ db. Lives-refl db.tasks; chain = λ a b c g h. Lives-trans g h }

Step-key : {t u : Task} → Step t u → u.task_id ≡ t.task_id
Step-key (reopen t h) = refl
Step-key (take t agent fresh now lease h) = refl
Step-key (extend t lease h) = refl
Step-key (submit t message h) = refl
Step-key (complete t h) = refl
Step-key (fail t h) = refl

pub Reach-key : {t u : Task} → Reach t u → u.task_id ≡ t.task_id
Reach-key here = refl
Reach-key (next r st) = Step-key st ∙ Reach-key r

-- A task that is found before is found after, further along its life.
pub Lives-find :
    {ts us : List Task} (k : String) (t : Task)
    → Lives ts us
    → find task_key k ts ≡ some t
    → (u : Task) × (find task_key k us ≡ some u) × Reach t u
unfolding find
Lives-find k t done e = cc
Lives-find k t (kept {t = x} {u = y} r g) e = elim (Bool-cases (x.task_id == k)) [
  | inl hit ↦
      let x_t : x ≡ t = ground arith in (y, rw (Reach-key r, hit), subst (λ z. Reach z y) x_t r)
  | inr miss ↦ let (u, f, s) = Lives-find k t g (ground arith) in (u, rw (Reach-key r, miss) f, s)
]

pub Lives-IsValid : {ts us : List Task} → Lives ts us → All IsValid ts → All IsValid us
Lives-IsValid done v = tt
Lives-IsValid (kept r g) v = (Reach-IsValid r v.0, Lives-IsValid g v.1)

-- Ids that were unique stay so.
Lives-absent :
    {ts us : List Task} (k : String)
    → Lives ts us
    → find task_key k ts ≡ none
    → find task_key k us ≡ none
unfolding find
Lives-absent k done e = refl
Lives-absent k (kept {t = x} r g) e = rw (Reach-key r) (ground (arith, Lives-absent k g))

pub Lives-IsKeyed : {ts us : List Task} → Lives ts us → IsKeyed task_key ts → IsKeyed task_key us
Lives-IsKeyed done h = tt
Lives-IsKeyed (kept {u = y} r g) h = (rw (Reach-key r) (Lives-absent _ g h.0), Lives-IsKeyed g h.1)

-- A verdict is final.
abbrev pub IsFinal : Task → Type 0
IsFinal t = (t.status ≡ task_completed) ⊎ (t.status ≡ task_failed)

Step-IsFinal : {t u : Task} → Step t u → ¬ IsFinal t
Step-IsFinal (reopen t h) f = ground arith
Step-IsFinal (take t agent fresh now lease h) f = ground arith
Step-IsFinal (extend t lease h) f = ground arith
Step-IsFinal (submit t message h) f = ground arith
Step-IsFinal (complete t h) f = ground arith
Step-IsFinal (fail t h) f = ground arith

pub Reach-IsFinal : {t u : Task} → Reach t u → IsFinal t → u ≡ t
Reach-IsFinal here f = refl
Reach-IsFinal {t} (next r st) f =
    absurd (Step-IsFinal st (subst IsFinal (sym (Reach-IsFinal r f)) f))
