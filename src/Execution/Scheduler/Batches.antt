-- ===== src/Execution/Scheduler/Batches.antt =====
-- What a batch of the scheduler is made of: rows of the table that pass its test, none of them twice
-- unless the table has it twice.
use mathlib.Core.List.Memᴰ.{head, tail, cases_cons}
use agent_reliability_runtim.Prelude.{
  ℕ, zero, suc, ◌+◌, ◌≤◌, ◌≡◌, refl, Bool, true, not, ◌&&◌, Option, List, [], ◌∷◌, arith, inl, inr,
  ap, ◌∙◌, min, length, take, count, where_rows, one_if, Mem-where_rows, count-where_rows, Memᴰ,
  Bool-cases,
}
use agent_reliability_runtim.Store.{Time, Run, Db, Env}
use agent_reliability_runtim.Execution.Scheduler.{insert_by, time_le, order_by, select_batch}

module _ {ℓ} {A : Type ℓ} where
  Mem-take : (n : ℕ) (xs : List A) (r : A) → Memᴰ r (take n xs) → Memᴰ r xs
  Mem-take zero xs r m = elim m [ ]
  Mem-take (suc n) [] r m = elim m [ ]
  Mem-take (suc n) (x ∷ xs) r (head e) = head e
  Mem-take (suc n) (x ∷ xs) r (tail m) = tail (Mem-take n xs r m)

  count-take : (test : A → Bool) (n : ℕ) (xs : List A) → count test (take n xs) ≤ count test xs
  count-take test zero xs = omega arith
  count-take test (suc n) [] = omega arith
  count-take test (suc n) (x ∷ xs) = omega (arith, count-take test n xs)

  length-take : (n : ℕ) (xs : List A) → length (take n xs) ≡ min n (length xs)
  length-take zero xs = omega arith
  length-take (suc n) [] = omega arith
  length-take (suc n) (x ∷ xs) = omega (arith, length-take n xs)

  length-where_rows : (test : A → Bool) (xs : List A) → length (where_rows test xs) ≡ count test xs
  length-where_rows test [] = refl
  length-where_rows test (x ∷ xs) = ground (arith, length-where_rows test xs)

module _ (column : Run → Option Time) where
  Mem-insert_by :
      (x : Run) (xs : List Run) (r : Run) → Memᴰ r (insert_by column x xs) → Memᴰ r (x ∷ xs)
  unfolding insert_by
  Mem-insert_by x [] r m = m
  Mem-insert_by x (y ∷ ys) r m = elim (Bool-cases (time_le (column x) (column y))) [
    | inl before ↦ rw before at m
    | inr after ↦ elim (cases_cons (rw after at m)) [
      | inl e ↦ tail (head e)
      | inr later ↦ elim (cases_cons (Mem-insert_by x ys r later)) [
        | inl e ↦ head e
        | inr deeper ↦ tail (tail deeper)
      ]
    ]
  ]

  Mem-order_by : (xs : List Run) (r : Run) → Memᴰ r (order_by column xs) → Memᴰ r xs
  unfolding order_by
  Mem-order_by [] r m = m
  Mem-order_by (x ∷ xs) r m = elim (cases_cons (Mem-insert_by x (order_by column xs) r m)) [
    | inl e ↦ head e
    | inr later ↦ tail (Mem-order_by xs r later)
  ]

  count-insert_by :
      (test : Run → Bool) (x : Run) (xs : List Run)
      → count test (insert_by column x xs) ≡ one_if (test x) + count test xs
  unfolding insert_by
  count-insert_by test x [] = refl
  count-insert_by test x (y ∷ ys) = ground (arith, count-insert_by test x ys)

  count-order_by :
      (test : Run → Bool) (xs : List Run) → count test (order_by column xs) ≡ count test xs
  unfolding order_by
  count-order_by test [] = refl
  count-order_by test (x ∷ xs) =
      omega (arith, count-insert_by test x (order_by column xs), count-order_by test xs)

  length-insert_by : (x : Run) (xs : List Run) → length (insert_by column x xs) ≡ suc (length xs)
  unfolding insert_by
  length-insert_by x [] = refl
  length-insert_by x (y ∷ ys) = ground (arith, length-insert_by x ys)

  length-order_by : (xs : List Run) → length (order_by column xs) ≡ length xs
  unfolding order_by
  length-order_by [] = refl
  length-order_by (x ∷ xs) = length-insert_by x (order_by column xs) ∙ ap suc (length-order_by xs)

module _ (env : Env) (test : Run → Bool) (column : Run → Option Time) (n : ℕ) (db : Db) where
  abbrev free : Run → Bool
  free run = test run && not (env.locked run.id)

  -- Every row of a batch is a row of the table that passes the test.
  pub Mem-select_batch :
      (r : Run) → Memᴰ r (select_batch env test column n db) → Memᴰ r db.runs × (test r ≡ true)
  unfolding select_batch
  Mem-select_batch r m =
      let chosen =
        Mem-order_by column (where_rows free db.runs) r
          (Mem-take n (order_by column (where_rows free db.runs)) r m) in
      let (stored, fits) = Mem-where_rows free db.runs r chosen in (stored, ground arith)

  -- A batch takes the rows that pass the test and are not locked, up to its size.
  pub length-select_batch : length (select_batch env test column n db) ≡ min n (count free db.runs)
  unfolding select_batch
  length-select_batch =
      let taken = length-take n (order_by column (where_rows free db.runs)) in
      let ordered = length-order_by column (where_rows free db.runs) in
      let chosen = length-where_rows free db.runs in omega (arith, taken, ordered, chosen)

  pub free-select_batch :
      (r : Run) → Memᴰ r (select_batch env test column n db) → Memᴰ r db.runs × (free r ≡ true)
  unfolding select_batch
  free-select_batch r m = Mem-where_rows free db.runs r (
      Mem-order_by column (where_rows free db.runs) r
        (Mem-take n (order_by column (where_rows free db.runs)) r m))

  pub count-select_batch :
      (fits : Run → Bool) → count fits (select_batch env test column n db) ≤ count fits db.runs
  unfolding select_batch
  count-select_batch fits =
      let taken = count-take fits n (order_by column (where_rows free db.runs)) in
      let ordered = count-order_by column fits (where_rows free db.runs) in
      let filtered = count-where_rows fits free db.runs in omega (arith, taken, ordered, filtered)
