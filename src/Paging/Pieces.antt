-- ===== src/Paging/Pieces.antt =====
-- Lemmas on the pieces of a list.
use self_organizing_multi_ag.Base.{
  ℕ, suc, ◌+◌, ◌<◌, ◌≤◌, ◌≡◌, refl, subst, ap, Bool, true, ◌&&◌, some, List, [], ◌∷◌, ◌++◌, take,
  length, All, arith, ltb,
}
use self_organizing_multi_ag.Table.{select}
use self_organizing_multi_ag.Paging.{row_at}

module _ {R : Type 0} where
  abbrev pub drop : ℕ → List R → List R
  drop ℕ.zero xs = xs
  drop (suc n) [] = []
  drop (suc n) (x ∷ xs) = drop n xs

  pub row_at-take : (m n : ℕ) (xs : List R) → m < n → row_at m (take n xs) ≡ row_at m xs
  unfolding row_at
  row_at-take m ℕ.zero xs h = absurd (omega arith)
  row_at-take m (suc n) [] h = refl
  row_at-take ℕ.zero (suc n) (x ∷ xs) h = refl
  row_at-take (suc m) (suc n) (x ∷ xs) h = row_at-take m n xs (omega arith)

  pub row_at-some : (m : ℕ) (xs : List R) → m < length xs → (k : R) × (row_at m xs ≡ some k)
  unfolding row_at
  row_at-some m [] h = absurd (omega arith)
  row_at-some ℕ.zero (x ∷ xs) h = (x, refl)
  row_at-some (suc m) (x ∷ xs) h = row_at-some m xs (omega arith)

  pub All-row_at :
      (P : R → Type 0) (m : ℕ) (k : R) (xs : List R) → row_at m xs ≡ some k → All P xs → P k
  unfolding row_at
  All-row_at P m k [] h a = cc
  All-row_at P ℕ.zero k (x ∷ xs) h a = let e : x ≡ k = cc in subst P e a.0
  All-row_at P (suc m) k (x ∷ xs) h a = All-row_at P m k xs h a.1

  pub take-take : (n : ℕ) (xs : List R) → take n (take (suc n) xs) ≡ take n xs
  take-take ℕ.zero xs = refl
  take-take (suc n) [] = refl
  take-take (suc n) (x ∷ xs) = ap (◌∷◌ x) (take-take n xs)

  pub lt-length-take : (n : ℕ) (xs : List R) → ltb n (length (take (suc n) xs)) ≡ ltb n (length xs)
  lt-length-take ℕ.zero [] = refl
  lt-length-take ℕ.zero (x ∷ xs) = ground arith
  lt-length-take (suc n) [] = refl
  lt-length-take (suc n) (x ∷ xs) = ground (arith, lt-length-take n xs)

  pub take_all : (n : ℕ) (xs : List R) → length xs ≤ n → take n xs ≡ xs
  take_all ℕ.zero [] h = refl
  take_all ℕ.zero (x ∷ xs) h = absurd (omega arith)
  take_all (suc n) [] h = refl
  take_all (suc n) (x ∷ xs) h = ap (◌∷◌ x) (take_all n xs (omega arith))

  pub length-drop : (n : ℕ) (xs : List R) → n < length xs → length (drop n xs) + n ≡ length xs
  length-drop ℕ.zero xs h = omega arith
  length-drop (suc n) [] h = absurd (omega arith)
  length-drop (suc n) (x ∷ xs) h = omega (arith, length-drop n xs)

  pub select-take-drop :
      (q : R → Bool) (n : ℕ) (xs : List R)
      → select q (take n xs) ++ select q (drop n xs) ≡ select q xs
  unfolding select
  select-take-drop q ℕ.zero xs = refl
  select-take-drop q (suc n) [] = refl
  select-take-drop q (suc n) (x ∷ xs) = ground (arith, select-take-drop q n xs)

  pub length-select-le : (p : R → Bool) (xs : List R) → length (select p xs) ≤ length xs
  unfolding select
  length-select-le p [] = omega arith
  length-select-le p (x ∷ xs) = ground (arith, length-select-le p xs)

  pub select_narrow :
      (p q : R → Bool) (xs : List R)
      → ((x : R) → q x ≡ true → p x ≡ true)
      → select q xs ≡ select q (select p xs)
  unfolding select
  select_narrow p q [] h = refl
  select_narrow p q (x ∷ xs) h = ground (arith, h x, select_narrow p q xs h)

  pub select_both :
      (p q : R → Bool) (xs : List R) → select (λ x. p x && q x) xs ≡ select q (select p xs)
  unfolding select
  select_both p q [] = refl
  select_both p q (x ∷ xs) = ground (arith, select_both p q xs)

  pub All-select_self : (p : R → Bool) (xs : List R) → All (λ x. p x ≡ true) (select p xs)
  unfolding select
  All-select_self p [] = tt
  All-select_self p (x ∷ xs) = ground (arith, All-select_self p xs)
