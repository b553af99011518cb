-- ===== src/Table/Keyed.antt =====
-- Reads by primary key after a write.
use self_organizing_multi_ag.Base.{
  String, ◌≡◌, refl, Bool, true, ◌&&◌, none, some, List, [], ◌∷◌, arith, ◌==◌, eq_iff, eq_refl,
  if◌then◌else◌, All,
}
use self_organizing_multi_ag.Table.{
  first, when, update, affected, delete, insert, map_row, keep_if, holds, find, IsKeyed,
}

module _ {R : Type 0} (key : R → String) where
  -- `UPDATE` keeps the keys, so a read by key finds the row it found before, rewritten.
  pub find-update :
      (p : R → Bool) (f : R → R) (keeps : (r : R) → key (f r) ≡ key r) (k : String) (t : List R)
      → find key k (update p f t) ≡ map_row (when p f) (find key k t)
  unfolding find update
  find-update p f keeps k [] = refl
  find-update p f keeps k (r ∷ t) = ground (arith, keeps r, find-update p f keeps k t)

  pub IsKeyed-update :
      (p : R → Bool) (f : R → R) (keeps : (r : R) → key (f r) ≡ key r) (t : List R)
      → IsKeyed key t
      → IsKeyed key (update p f t)
  unfolding find update
  IsKeyed-update p f keeps [] h = tt
  IsKeyed-update p f keeps (r ∷ t) h =
      ground (arith, keeps r, find-update p f keeps (key r) t, IsKeyed-update p f keeps t h.1)

  affected-none :
      (k : String) (g : R → Bool) (t : List R)
      → find key k t ≡ none
      → affected (λ r. (key r == k) && g r) t ≡ 0
  unfolding find affected
  affected-none k g [] h = refl
  affected-none k g (r ∷ t) h = ground (arith, affected-none k g t)

  first_none :
      (k : String) (g : R → Bool) (t : List R)
      → find key k t ≡ none
      → first (λ r. (key r == k) && g r) t ≡ none
  unfolding find first
  first_none k g [] h = refl
  first_none k g (r ∷ t) h = ground (arith, first_none k g t)

  -- A read by primary key and one more test.
  pub first_at :
      (k : String) (g : R → Bool) (t : List R)
      → IsKeyed key t
      → first (λ r. (key r == k) && g r) t ≡ keep_if g (find key k t)
  unfolding find first
  first_at k g [] h = refl
  first_at k g (r ∷ t) h = ground (arith, first_at k g t h.1, first_none k g t, eq_iff (key r) k)

  -- An update by primary key counts one row or none.
  pub affected_at :
      (k : String) (g : R → Bool) (t : List R)
      → IsKeyed key t
      → affected (λ r. (key r == k) && g r) t ≡ (if holds g (find key k t) then 1 else 0)
  unfolding find affected
  affected_at k g [] h = refl
  affected_at k g (r ∷ t) h =
      ground (arith, affected_at k g t h.1, affected-none k g t, eq_iff (key r) k)

  pub find-insert :
      (k : String) (r : R) (t : List R)
      → find key k (insert r t)
        ≡ elim (find key k t) [ none ↦ if key r == k then some r else none | some x ↦ some x ]
  unfolding find insert
  find-insert k r [] = refl
  find-insert k r (x ∷ t) = ground (arith, find-insert k r t)

  pub IsKeyed-insert :
      (r : R) (t : List R) → IsKeyed key t → find key (key r) t ≡ none → IsKeyed key (insert r t)
  unfolding find insert
  IsKeyed-insert r [] h n = (refl, tt)
  IsKeyed-insert r (x ∷ t) h n = ground (
    arith,
    find-insert (key x) r t,
    IsKeyed-insert r t h.1,
    eq_iff (key r) (key x),
    eq_iff (key x) (key r),
    eq_refl (key x),
  )

  delete_absent :
      (p : R → Bool) (k : String) (t : List R)
      → find key k t ≡ none
      → find key k (delete p t) ≡ none
  unfolding find delete
  delete_absent p k [] e = refl
  delete_absent p k (r ∷ t) e = ground (arith, delete_absent p k t)

  pub IsKeyed-delete : (p : R → Bool) (t : List R) → IsKeyed key t → IsKeyed key (delete p t)
  unfolding delete
  IsKeyed-delete p [] h = tt
  IsKeyed-delete p (r ∷ t) h = ground (arith, IsKeyed-delete p t h.1, delete_absent p (key r) t)

  -- What a scan finds first is what a read by its key finds.
  pub find-first :
      (p : R → Bool) (r : R) (t : List R)
      → IsKeyed key t
      → first p t ≡ some r
      → find key (key r) t ≡ some r
  unfolding find first
  find-first p r [] h e = cc
  find-first p r (x ∷ t) h e =
      ground (arith, find-first p r t h.1, eq_iff (key x) (key r), eq_refl (key x))

  found_below :
      (x : R) (t us : List R)
      → find key (key x) t ≡ none
      → All (λ r. find key (key r) t ≡ some r) us
      → All (λ r. find key (key r) (x ∷ t) ≡ some r) us
  unfolding find
  found_below x t [] n h = tt
  found_below x t (r ∷ us) n h =
      (ground (arith, h.0, eq_iff (key x) (key r)), found_below x t us n h.1)

  -- A read by its own key finds each row.
  pub All-found : (t : List R) → IsKeyed key t → All (λ r. find key (key r) t ≡ some r) t
  unfolding find
  All-found [] k = tt
  All-found (x ∷ t) k = (ground (arith, eq_refl (key x)), found_below x t t k.0 (All-found t k.1))

module _ {R : Type 0} where
  -- What a scan finds passes the test.
  pub first_holds : (p : R → Bool) (r : R) (t : List R) → first p t ≡ some r → p r ≡ true
  unfolding first
  first_holds p r [] e = cc
  first_holds p r (x ∷ t) e = ground (arith, first_holds p r t)
