-- ===== src/Runs/History/Order.antt =====
-- The order of a history: strict on rows with different identifiers, kept by the sort, and commuting
-- with a filter.
use mathlib.Core.List.Memᴰ.{head, tail}
use agent_reliability_runtim.Prelude.{
  ℕ, zero, suc, ◌≤◌, ◌≡◌, ◌≢◌, refl, sym, ap, subst, Bool, true, false, inl, inr, some, List, [],
  ◌∷◌, arith, ◌==◌, count, where_rows, get_elem?, All, All-Mem, Memᴰ, if◌then◌else◌, Bool-cases,
}
use agent_reliability_runtim.Store.{Uuid}
use agent_reliability_runtim.Runs.History.{History, precedes, insert_row, order_rows}

-- The rows after a position.
abbrev pub rest_from {ℓ} : {A : Type ℓ} → ℕ → List A → List A
rest_from n [] = []
rest_from zero (x ∷ xs) = xs
rest_from (suc n) (x ∷ xs) = rest_from n xs

pub get_elem?-Mem {ℓ} :
    {A : Type ℓ} (xs : List A) (k : ℕ) (r : A) → get_elem? xs k ≡ some r → Memᴰ r xs
get_elem?-Mem [] k r h = cc
get_elem?-Mem (x ∷ xs) zero r h = head (cc h)
get_elem?-Mem (x ∷ xs) (suc k) r h = tail (get_elem?-Mem xs k r h)

module _ {A : Type 0} (h : History A) where
  abbrev has_key_of : Uuid → A → Bool
  has_key_of id r = h.id_of r == id

  abbrev pub Distinct : List A → Type 0
  Distinct xs = (id : Uuid) → count (has_key_of id) xs ≤ 1

  abbrev pub Sorted : List A → Type 0
  Sorted [] = Unit
  Sorted (x ∷ xs) = All (λ y. precedes h x y ≡ true) xs × Sorted xs

  precedes_trans :
      (a b c : A) → precedes h a b ≡ true → precedes h b c ≡ true → precedes h a c ≡ true
  unfolding precedes
  precedes_trans a b c ab bc = ground arith

  precedes_total :
      (a b : A) → h.id_of a ≢ h.id_of b → precedes h a b ≡ false → precedes h b a ≡ true
  unfolding precedes
  precedes_total a b apart ab = ground arith

  precedes_asym : (a b : A) → precedes h a b ≡ true → precedes h b a ≡ false
  unfolding precedes
  precedes_asym a b ab = ground arith

  precedes_irrefl : (a : A) → precedes h a a ≡ false
  unfolding precedes
  precedes_irrefl a = ground arith

  All-after :
      (r x : A) (xs : List A)
      → precedes h r x ≡ true
      → All (λ y. precedes h x y ≡ true) xs
      → All (λ y. precedes h r y ≡ true) xs
  All-after r x [] rx all = tt
  All-after r x (y ∷ ys) rx all = (precedes_trans r x y rx all.0, All-after r x ys rx all.1)

  All-insert : (P : A → Type 0) (r : A) (xs : List A) → P r → All P xs → All P (insert_row h r xs)
  unfolding insert_row
  All-insert P r [] p all = (p, tt)
  All-insert P r (x ∷ xs) p all = elim (Bool-cases (precedes h r x)) [
    | inl t ↦ rw t (p, all)
    | inr f ↦ rw f (all.0, All-insert P r xs p all.1)
  ]

  insert-Sorted :
      (r : A) (xs : List A)
      → All (λ y. h.id_of r ≢ h.id_of y) xs
      → Sorted xs
      → Sorted (insert_row h r xs)
  unfolding insert_row
  insert-Sorted r [] apart s = (tt, tt)
  insert-Sorted r (x ∷ xs) apart s = elim (Bool-cases (precedes h r x)) [
    | inl t ↦ rw t ((t, All-after r x xs t s.0), s)
    | inr f ↦ rw f (
      All-insert (λ y. precedes h x y ≡ true) r xs (precedes_total r x apart.0 f) s.0,
      insert-Sorted r xs apart.1 s.1,
    )
  ]

  All-order : (P : A → Type 0) (xs : List A) → All P xs → All P (order_rows h xs)
  unfolding order_rows
  All-order P [] all = tt
  All-order P (x ∷ xs) all = All-insert P x (order_rows h xs) all.0 (All-order P xs all.1)

  apart_of_count :
      (x : A) (xs : List A)
      → count (has_key_of (h.id_of x)) xs ≡ 0
      → All (λ y. h.id_of x ≢ h.id_of y) xs
  apart_of_count x [] c = tt
  apart_of_count x (y ∷ ys) c = (λ e. ground arith, apart_of_count x ys (ground arith))

  -- The sorted rows of a table with a primary key are in strict order.
  pub order_rows-Sorted : (xs : List A) → Distinct xs → Sorted (order_rows h xs)
  unfolding order_rows
  order_rows-Sorted [] d = tt
  order_rows-Sorted (x ∷ xs) d =
      let one = d (h.id_of x) in
      let apart = apart_of_count x xs (ground arith) in
      insert-Sorted x (order_rows h xs) (All-order (λ y. h.id_of x ≢ h.id_of y) xs apart)
        (order_rows-Sorted xs (λ id. omega (arith, d id)))

  -- Filtering before sorting is filtering after it.
  insert_row_first :
      (r : A) (xs : List A) → All (λ y. precedes h r y ≡ true) xs → insert_row h r xs ≡ r ∷ xs
  unfolding insert_row
  insert_row_first r [] all = refl
  insert_row_first r (x ∷ xs) all = rw all.0 refl

  All-where :
      (P : A → Type 0) (test : A → Bool) (xs : List A) → All P xs → All P (where_rows test xs)
  All-where P test [] all = tt
  All-where P test (x ∷ xs) all = elim (Bool-cases (test x)) [
    | inl t ↦ rw t (all.0, All-where P test xs all.1)
    | inr f ↦ rw f (All-where P test xs all.1)
  ]

  where-insert :
      (test : A → Bool) (r : A) (xs : List A)
      → Sorted xs
      → where_rows test (insert_row h r xs)
        ≡ (if test r then insert_row h r (where_rows test xs) else where_rows test xs)
  unfolding insert_row
  where-insert test r [] s = refl
  where-insert test r (x ∷ xs) s = elim (Bool-cases (precedes h r x)) [
    | inl t ↦
        let first =
          insert_row_first r (where_rows test xs)
            (All-where (λ y. precedes h r y ≡ true) test xs (All-after r x xs t s.0)) in
        rw t (elim (Bool-cases (test r)) [
          | inr off ↦ rw off refl
          | inl on ↦ rw on (elim (Bool-cases (test x)) [
            | inl keep ↦ rw keep (rw t refl)
            | inr drop ↦ rw drop (sym first)
          ])
        ])
    | inr f ↦
        let below = where-insert test r xs s.1 in
        rw f (
          rw below (elim (Bool-cases (test r)) [
            | inr off ↦ rw off refl
            | inl on ↦ rw on (elim (Bool-cases (test x)) [
              | inl keep ↦ rw keep (rw f refl)
              | inr drop ↦ rw drop refl
            ])
          ]))
  ]

  pub order_rows-where :
      (test : A → Bool) (xs : List A)
      → Distinct xs
      → order_rows h (where_rows test xs) ≡ where_rows test (order_rows h xs)
  unfolding order_rows
  order_rows-where test [] d = refl
  order_rows-where test (x ∷ xs) d =
      let smaller : Distinct xs = λ id. omega (arith, d id) in
      let below = order_rows-where test xs smaller in
      let moved = where-insert test x (order_rows h xs) (order_rows-Sorted xs smaller) in
      rw moved (elim (Bool-cases (test x)) [
        | inl t ↦ rw t (ap (insert_row h x) below)
        | inr f ↦ rw f below
      ])

  where-All :
      (test : A → Bool) (xs : List A) → All (λ y. test y ≡ true) xs → where_rows test xs ≡ xs
  where-All test [] all = refl
  where-All test (x ∷ xs) all = rw all.0 (ap (λ ys. x ∷ ys) (where-All test xs all.1))

  -- In strict order the rows after a row are those behind its position.
  pub where-precedes :
      (xs : List A) (k : ℕ) (a : A)
      → Sorted xs
      → get_elem? xs k ≡ some a
      → where_rows (precedes h a) xs ≡ rest_from k xs
  where-precedes [] k a s e = refl
  where-precedes (x ∷ xs) zero a s e =
      let same : x ≡ a = cc e in
      subst (λ y. where_rows (precedes h y) (x ∷ xs) ≡ xs) same
        (rw (precedes_irrefl x) (where-All (precedes h x) xs s.0))
  where-precedes (x ∷ xs) (suc k) a s e =
      let after : precedes h x a ≡ true =
        All-Mem (λ y. precedes h x y ≡ true) xs a s.0 (get_elem?-Mem xs k a e) in
      rw (precedes_asym x a after) (where-precedes xs k a s.1 e)
