-- ===== src/Prelude/Filters.antt =====
-- The rows that `WHERE` selects.
use Prim.Native.Nat.{◌≤◌}
use mathlib.Core.Path.{◌≡◌}
use mathlib.Core.Logic.{inl, inr}
use mathlib.Core.Bool.{Bool, true}
use mathlib.Core.List.{List, [], ◌∷◌, Memᴰ}
use mathlib.Core.List.Memᴰ.{head, tail, cases_cons}
use native.Mathlib.Omega.{arith}
use agent_reliability_runtim.Prelude.Tests.{Bool-cases}
use agent_reliability_runtim.Prelude.Lists.{count, where_rows}

module _ {ℓ} {A : Type ℓ} where
  pub Mem-where_rows :
      (test : A → Bool) (xs : List A) (r : A)
      → Memᴰ r (where_rows test xs)
      → Memᴰ r xs × (test r ≡ true)
  Mem-where_rows test [] r m = elim m [ ]
  Mem-where_rows test (x ∷ xs) r m = elim (Bool-cases (test x)) [
    | inr off ↦ let (stored, fits) = Mem-where_rows test xs r (rw off at m) in (tail stored, fits)
    | inl on ↦ elim (cases_cons (rw on at m)) [
      | inl e ↦ (head e, rw e on)
      | inr later ↦ let (stored, fits) = Mem-where_rows test xs r later in (tail stored, fits)
    ]
  ]

  pub count-where_rows :
      (fits test : A → Bool) (xs : List A) → count fits (where_rows test xs) ≤ count fits xs
  count-where_rows fits test [] = omega arith
  count-where_rows fits test (x ∷ xs) = ground (arith, count-where_rows fits test xs)
