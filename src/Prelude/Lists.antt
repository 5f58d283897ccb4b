-- ===== src/Prelude/Lists.antt =====
-- Tables as lists of rows with a numeric key, and the counts that SQL queries take of them.
use Prim.Native.Nat.{ℕ, zero, suc, ◌+◌, ◌≤◌}
use mathlib.Core.Path.{◌≡◌, refl, sym, ap, ◌∙◌, subst}
use mathlib.Core.Logic.{◌≢◌, ◌⊎◌, inl, inr}
use mathlib.Core.Bool.{Bool, true, false}
use mathlib.Core.List.{List, [], ◌∷◌, ◌++◌, Memᴰ}
use mathlib.Core.List.Memᴰ.{head, tail}
use mathlib.Core.Option.{Option, none, some}
use native.Mathlib.Omega.{arith}
use agent_reliability_runtim.Prelude.Tests.{◌==◌, if◌then◌else◌, one_if, Bool-cases}

module _ {ℓ} {A : Type ℓ} where
  abbrev pub length : List A → ℕ
  length [] = 0
  length (x ∷ xs) = suc (length xs)

  abbrev pub get_elem? : List A → ℕ → Option A
  get_elem? [] i = none
  get_elem? (x ∷ xs) zero = some x
  get_elem? (x ∷ xs) (suc i) = get_elem? xs i

  abbrev pub take : ℕ → List A → List A
  take zero xs = []
  take (suc n) [] = []
  take (suc n) (x ∷ xs) = x ∷ take n xs

  -- `SELECT count(*) … WHERE test`
  abbrev pub count : (A → Bool) → List A → ℕ
  count test [] = 0
  count test (x ∷ xs) = one_if (test x) + count test xs

  -- `WHERE test`
  abbrev pub where_rows : (A → Bool) → List A → List A
  where_rows test [] = []
  where_rows test (x ∷ xs) = let rest = where_rows test xs in if test x then x ∷ rest else rest

  -- The first row of `WHERE test`, if there is one.
  abbrev pub first_row : (A → Bool) → List A → Option A
  first_row test [] = none
  first_row test (x ∷ xs) = if test x then some x else first_row test xs

  pub count-append :
      (test : A → Bool) (xs ys : List A) → count test (xs ++ ys) ≡ count test xs + count test ys
  count-append test [] ys = omega arith
  count-append test (x ∷ xs) ys = omega (arith, count-append test xs ys)

  pub count-Mem :
      (test : A → Bool) (xs : List A) (r : A) → Memᴰ r xs → test r ≡ true → 1 ≤ count test xs
  count-Mem test [] r m h = elim m [ ]
  count-Mem test (x ∷ xs) r (head e) h =
      let fits : test x ≡ true = ap test (sym e) ∙ h in ground arith
  count-Mem test (x ∷ xs) r (tail m) h = omega (arith, count-Mem test xs r m h)

  abbrev pub All {κ} : (A → Type κ) → List A → Type κ
  All Holds (r ∷ rows) = Holds r × All Holds rows
  All Holds [] = Unit

  pub All-insert {κ} :
      (Holds : A → Type κ) (rows : List A) (new : A)
      → All Holds rows
      → Holds new
      → All Holds (rows ++ new ∷ [])
  All-insert Holds (r ∷ rows) new h p = (h.0, All-insert Holds rows new h.1 p)
  All-insert Holds [] new h p = (p, tt)

  pub All-Mem {κ} : (P : A → Type κ) (xs : List A) (r : A) → All P xs → Memᴰ r xs → P r
  All-Mem P [] r h m = elim m [ ]
  All-Mem P (x ∷ xs) r h (head e) = subst P (sym e) h.0
  All-Mem P (x ∷ xs) r h (tail m) = All-Mem P xs r h.1 m

-- Rows with a primary key.
module _ {ℓ} {A : Type ℓ} (key : A → ℕ) where
  unfoldable pub find : ℕ → List A → Option A
  find k [] = none
  find k (x ∷ xs) = if key x == k then some x else find k xs

  -- `UPDATE`: the row with the key of `r` becomes `r`.
  unfoldable pub put : A → List A → List A
  put r [] = []
  put r (x ∷ xs) = if key x == key r then r ∷ xs else x ∷ put r xs

  pub find-key : (k : ℕ) (xs : List A) (r : A) → find k xs ≡ some r → key r ≡ k
  unfolding find
  find-key k [] r h = ground arith
  find-key k (x ∷ xs) r h = ground (arith, find-key k xs r)

  pub find-put_self :
      (r : A) (xs : List A) (old : A)
      → find (key r) xs ≡ some old
      → find (key r) (put r xs) ≡ some r
  unfolding find put
  find-put_self r [] old h = ground arith
  find-put_self r (x ∷ xs) old h = elim (Bool-cases (key x == key r)) [
    | inl e ↦ rw e (ground arith)
    | inr e ↦ rw e (rw e (find-put_self r xs old (ground arith)))
  ]

  pub find-put_ne : (r : A) (k : ℕ) (xs : List A) → k ≢ key r → find k (put r xs) ≡ find k xs
  unfolding find put
  find-put_ne r k [] h = refl
  find-put_ne r k (x ∷ xs) h = elim (Bool-cases (key x == key r)) [
    | inl e ↦ rw e (ground arith)
    | inr e ↦ rw e (ground (arith, find-put_ne r k xs h))
  ]

  -- Replacing a row moves a count by the difference of the two rows' tests.
  pub count-put :
      (test : A → Bool) (r : A) (xs : List A) (old : A)
      → find (key r) xs ≡ some old
      → count test (put r xs) + one_if (test old) ≡ count test xs + one_if (test r)
  unfolding find put
  count-put test r [] old h = ground arith
  count-put test r (x ∷ xs) old h = elim (Bool-cases (key x == key r)) [
    | inl e ↦ rw e (ground arith)
    | inr e ↦ rw e (ground (arith, count-put test r xs old))
  ]

  pub All-put {κ} : (P : A → Type κ) (r : A) (xs : List A) → All P xs → P r → All P (put r xs)
  unfolding put
  All-put P r [] h p = tt
  All-put P r (x ∷ xs) h p = elim (Bool-cases (key x == key r)) [
    | inl e ↦ rw e (p, h.1)
    | inr e ↦ rw e (h.0, All-put P r xs h.1 p)
  ]

  pub All-find {κ} :
      (P : A → Type κ) (k : ℕ) (xs : List A) (r : A) → All P xs → find k xs ≡ some r → P r
  unfolding find
  All-find P k [] r h e = cc
  All-find P k (x ∷ xs) r h e = elim (Bool-cases (key x == k)) [
    | inl t ↦ let same : x ≡ r = ground arith in subst P same h.0
    | inr f ↦ All-find P k xs r h.1 (rw f at e)
  ]

  pub find-append :
      (k : ℕ) (xs ys : List A) (r : A) → find k xs ≡ some r → find k (xs ++ ys) ≡ some r
  unfolding find
  find-append k [] ys r h = cc
  find-append k (x ∷ xs) ys r h = elim (Bool-cases (key x == k)) [
    | inl t ↦ rw t (rw t at h)
    | inr f ↦ rw f (find-append k xs ys r (rw f at h))
  ]

  pub find-append_none : (k : ℕ) (xs ys : List A) → find k xs ≡ none → find k (xs ++ ys) ≡ find k ys
  unfolding find
  find-append_none k [] ys h = refl
  find-append_none k (x ∷ xs) ys h = elim (Bool-cases (key x == k)) [
    | inl t ↦ absurd (ground arith)
    | inr f ↦ rw f (find-append_none k xs ys (rw f at h))
  ]

  -- Replacing a row by one that fits the test as it did leaves the first fitting row, or replaces it.
  pub first_row-put :
      (test : A → Bool) (n : A) (xs : List A) (old r : A)
      → find (key n) xs ≡ some old
      → test n ≡ test old
      → first_row test xs ≡ some r
      → (first_row test (put n xs) ≡ some r) ⊎ ((r ≡ old) × (first_row test (put n xs) ≡ some n))
  unfolding find put
  first_row-put test n [] old r h same fits = inl cc
  first_row-put test n (x ∷ xs) old r h same fits = elim (Bool-cases (key x == key n)) [
    | inl t ↦
        let here : x ≡ old = ground arith in
        rw t (elim (Bool-cases (test n)) [
          | inl on ↦
              let first : test x ≡ true = ap test here ∙ sym same ∙ on in
              inr (ground arith, rw on refl)
          | inr off ↦
              let not_first : test x ≡ false = ap test here ∙ sym same ∙ off in
              inl (rw off (rw not_first at fits))
        ])
    | inr f ↦ rw f (elim (Bool-cases (test x)) [
      | inl on ↦ inl (rw on (rw on at fits))
      | inr off ↦ rw off (first_row-put test n xs old r (rw f at h) same (rw off at fits))
    ])
  ]

  pub count_of_find-none : (k : ℕ) (xs : List A) → find k xs ≡ none → count (λ x. key x == k) xs ≡ 0
  unfolding find
  count_of_find-none k [] h = refl
  count_of_find-none k (x ∷ xs) h = ground (arith, count_of_find-none k xs)

  pub find-none_of_count : (k : ℕ) (xs : List A) → count (λ x. key x == k) xs ≡ 0 → find k xs ≡ none
  unfolding find
  find-none_of_count k [] h = refl
  find-none_of_count k (x ∷ xs) h = ground (arith, find-none_of_count k xs)

  pub find-Mem : (k : ℕ) (xs : List A) (r : A) → find k xs ≡ some r → Memᴰ r xs
  unfolding find
  find-Mem k [] r h = cc
  find-Mem k (x ∷ xs) r h = elim (Bool-cases (key x == k)) [
    | inl t ↦ head (ground arith)
    | inr f ↦ tail (find-Mem k xs r (rw f at h))
  ]

  -- Where keys are unique, a row is found by its key.
  pub find_of_Mem :
      (xs : List A) (r : A)
      → count (λ x. key x == key r) xs ≤ 1
      → Memᴰ r xs
      → find (key r) xs ≡ some r
  unfolding find
  find_of_Mem [] r unique m = elim m [ ]
  find_of_Mem (x ∷ xs) r unique (head e) =
      let same : key x ≡ key r = ap key (sym e) in ground (arith, e)
  find_of_Mem (x ∷ xs) r unique (tail m) = elim (Bool-cases (key x == key r)) [
    | inl t ↦ absurd (
        let others = count-Mem (λ y. key y == key r) xs r m (ground arith) in
        ground (arith, others))
    | inr f ↦ rw f (find_of_Mem xs r (ground arith) m)
  ]

pub first_row-extend {ℓ} :
    {A : Type ℓ} (test : A → Bool) (xs ys : List A) (r : A)
    → first_row test xs ≡ some r
    → first_row test (xs ++ ys) ≡ some r
first_row-extend test [] ys r h = cc
first_row-extend test (x ∷ xs) ys r h = elim (Bool-cases (test x)) [
  | inl t ↦ rw t (rw t at h)
  | inr f ↦ rw f (first_row-extend test xs ys r (rw f at h))
]
