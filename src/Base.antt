-- ===== src/Base.antt =====
-- Names that the other modules share: the libraries', passed on, tests on numbers and texts, and
-- the lemmas on lists and options of the two children.
mod Lists
mod TextOrder
pub use Lists.*
pub use TextOrder.*
pub use Prim.Native.Nat.{ℕ, zero, suc, ◌+◌, ◌-◌, ◌*◌, ◌/◌, ◌%◌, ◌^◌, ◌≤◌, ◌<◌, min}
pub use Prim.Native.String.{String}
pub use mathlib.Core.Path.{◌≡◌, refl, sym, ap, subst, ◌∙◌}
pub use mathlib.Core.Logic.{◌≢◌, ◌↔◌, ◌⊎◌, inl, inr}
pub use mathlib.Core.Bool.{Bool, true, false, not, ◌&&◌, ◌||◌}
pub use mathlib.Core.Option.{Option, none, some}
pub use mathlib.Core.List.{List, [], ◌∷◌, ◌++◌, map, append-nil, append_assoc}
pub use native.Mathlib.Omega.{arith}
pub use text.Mathlib.Text.{◌==◌}
pub use text.Mathlib.TextEquality.{eq_iff}
pub use text.Mathlib.TextPositions.{eq_refl}

-- A column that passes the test holds the text.
pub opt_is-some : (o : Option String) (x : String) → opt_is o x ≡ true → o ≡ some x
opt_is-some none x h = cc
opt_is-some (some y) x h = ap some ((eq_iff y x).0 h)
