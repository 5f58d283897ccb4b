-- ===== src/Execution/Scheduler/Orders.antt =====
-- The order of a batch of the scheduler: what it leaves out comes no earlier than what it takes.
use mathlib.Core.List.Memᴰ.{head, tail, cases_cons}
use agent_reliability_runtim.Prelude.{
  ℕ, zero, suc, ◌≤◌, ◌≡◌, refl, ◌⊎◌, inl, inr, Bool, true, false, not, ◌&&◌, Option, none, some,
  List, [], ◌∷◌, arith, take, where_rows, Memᴰ, All, All-Mem, Bool-cases, subst, sym,
}
use agent_reliability_runtim.Store.{Time, Run, Db, Env}
use agent_reliability_runtim.Execution.Scheduler.{insert_by, time_le, order_by, select_batch}

time_le_total : (s t : Option Time) → time_le s t ≡ false → time_le t s ≡ true
unfolding time_le
time_le_total none none h = ground (arith, h)
time_le_total none (some t) h = refl
time_le_total (some s) none h = ground (arith, h)
time_le_total (some s) (some t) h = ground (arith, h)

time_le_trans : (s t u : Option Time) → time_le s t ≡ true → time_le t u ≡ true → time_le s u ≡ true
unfolding time_le
time_le_trans none none none h k = refl
time_le_trans none none (some u) h k = k
time_le_trans none (some t) u h k = ground (arith, h)
time_le_trans (some s) none none h k = refl
time_le_trans (some s) none (some u) h k = ground (arith, k)
time_le_trans (some s) (some t) none h k = refl
time_le_trans (some s) (some t) (some u) h k = ground (arith, h, k)

Mem-where_rows-of_Mem {ℓ} :
    {A : Type ℓ} (test : A → Bool) (xs : List A) (r : A)
    → Memᴰ r xs
    → test r ≡ true
    → Memᴰ r (where_rows test xs)
Mem-where_rows-of_Mem test [] r m h = elim m [ ]
Mem-where_rows-of_Mem test (x ∷ xs) r (head e) h =
    let fits : test x ≡ true = subst (λ k. test k ≡ true) e h in rw fits (head e)
Mem-where_rows-of_Mem test (x ∷ xs) r (tail m) h =
    let later = Mem-where_rows-of_Mem test xs r m h in
    elim (Bool-cases (test x)) [ inl kept ↦ rw kept (tail later) | inr left ↦ rw left later ]

module _ (column : Run → Option Time) where
  IsSorted : List Run → Type 0
  IsSorted [] = Unit
  IsSorted (x ∷ xs) = All (λ y. time_le (column x) (column y) ≡ true) xs × IsSorted xs

  All-insert_by :
      (P : Run → Type 0) (x : Run) (xs : List Run) → P x → All P xs → All P (insert_by column x xs)
  unfolding insert_by
  All-insert_by P x [] h hs = (h, tt)
  All-insert_by P x (y ∷ ys) h (k, ks) = elim (Bool-cases (time_le (column x) (column y))) [
    | inl before ↦ rw before (h, (k, ks))
    | inr after ↦ rw after (k, All-insert_by P x ys h ks)
  ]

  All-later :
      (x y : Run) (ys : List Run)
      → time_le (column x) (column y) ≡ true
      → All (λ z. time_le (column y) (column z) ≡ true) ys
      → All (λ z. time_le (column x) (column z) ≡ true) ys
  All-later x y [] h hs = tt
  All-later x y (z ∷ zs) h (k, ks) =
      (time_le_trans (column x) (column y) (column z) h k, All-later x y zs h ks)

  insert_by-IsSorted : (x : Run) (xs : List Run) → IsSorted xs → IsSorted (insert_by column x xs)
  unfolding insert_by IsSorted
  insert_by-IsSorted x [] h = (tt, tt)
  insert_by-IsSorted x (y ∷ ys) (first, rest) = elim (Bool-cases (time_le (column x) (column y))) [
    | inl before ↦ rw before ((before, All-later x y ys before first), (first, rest))
    | inr after ↦ rw after (
      All-insert_by (λ z. time_le (column y) (column z) ≡ true) x ys
          (time_le_total (column x) (column y) after) first,
      insert_by-IsSorted x ys rest,
    )
  ]

  order_by-IsSorted : (xs : List Run) → IsSorted (order_by column xs)
  unfolding order_by IsSorted
  order_by-IsSorted [] = tt
  order_by-IsSorted (x ∷ xs) = insert_by-IsSorted x (order_by column xs) (order_by-IsSorted xs)

  Mem-insert_by-of_Mem :
      (x : Run) (xs : List Run) (r : Run) → Memᴰ r (x ∷ xs) → Memᴰ r (insert_by column x xs)
  unfolding insert_by
  Mem-insert_by-of_Mem x [] r m = m
  Mem-insert_by-of_Mem x (y ∷ ys) r m = elim (Bool-cases (time_le (column x) (column y))) [
    | inl before ↦ rw before m
    | inr after ↦ rw after (elim (cases_cons m) [
      | inl e ↦ tail (Mem-insert_by-of_Mem x ys r (head e))
      | inr later ↦ elim (cases_cons later) [
        | inl e ↦ head e
        | inr deeper ↦ tail (Mem-insert_by-of_Mem x ys r (tail deeper))
      ]
    ])
  ]

  Mem-order_by-of_Mem : (xs : List Run) (r : Run) → Memᴰ r xs → Memᴰ r (order_by column xs)
  unfolding order_by
  Mem-order_by-of_Mem [] r m = elim m [ ]
  Mem-order_by-of_Mem (x ∷ xs) r (head e) = Mem-insert_by-of_Mem x (order_by column xs) r (head e)
  Mem-order_by-of_Mem (x ∷ xs) r (tail m) =
      Mem-insert_by-of_Mem x (order_by column xs) r (tail (Mem-order_by-of_Mem xs r m))

  take-IsSorted :
      (n : ℕ) (xs : List Run) (r x : Run)
      → IsSorted xs
      → Memᴰ r (take n xs)
      → Memᴰ x xs
      → Memᴰ x (take n xs) ⊎ (time_le (column r) (column x) ≡ true)
  unfolding IsSorted
  take-IsSorted zero xs r x s m k = elim m [ ]
  take-IsSorted (suc n) [] r x s m k = elim m [ ]
  take-IsSorted (suc n) (y ∷ ys) r x (first, rest) m k = elim (cases_cons k) [
    | inl e ↦ inl (head e)
    | inr later ↦ elim (cases_cons m) [
      | inl e ↦ inr (
          subst (λ z. time_le (column z) (column x) ≡ true) (sym e)
            (All-Mem (λ z. time_le (column y) (column z) ≡ true) ys x first later))
      | inr deeper ↦ elim (take-IsSorted n ys r x rest deeper later) [
        | inl taken ↦ inl (tail taken)
        | inr before ↦ inr before
      ]
    ]
  ]

  -- A row that could be taken is in the batch, or comes no earlier than any row that is.
  pub select_batch-earliest :
      (env : Env) (test : Run → Bool) (n : ℕ) (db : Db) (r x : Run)
      → Memᴰ r (select_batch env test column n db)
      → Memᴰ x db.runs
      → (test x && not (env.locked x.id)) ≡ true
      → Memᴰ x (select_batch env test column n db) ⊎ (time_le (column r) (column x) ≡ true)
  unfolding select_batch
  select_batch-earliest env test n db r x m k h =
      let free = λ (run : Run). test run && not (env.locked run.id) in
      take-IsSorted n (order_by column (where_rows free db.runs)) r x
        (order_by-IsSorted (where_rows free db.runs)) m
        (Mem-order_by-of_Mem (where_rows free db.runs) x (Mem-where_rows-of_Mem free db.runs x k h))

pub le_of_time_le : (s t : Time) → time_le (some s) (some t) ≡ true → s ≤ t
unfolding time_le
le_of_time_le s t h = ground (arith, h)
