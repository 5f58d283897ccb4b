-- ===== src/Runs/History/Pages.antt =====
-- Pages cut the history of a run without a gap or a repetition.
use mathlib.Core.List.Memᴰ.{head, tail, cases_cons}
use agent_reliability_runtim.Prelude.{
  ℕ, ◌≤◌, String, ◌≡◌, refl, sym, ap, ◌∙◌, true, ◌&&◌, inl, inr, none, some, List, [], ◌∷◌, map,
  arith, ◌==◌, count, count-Mem, take, where_rows, first_row, Mem-where_rows, count-where_rows,
  get_elem?, Memᴰ, Bool-cases,
}
use agent_reliability_runtim.Prelude.Result.{ok}
use agent_reliability_runtim.Store.{Uuid, Run, RunAttempt, Db}
use agent_reliability_runtim.Runs.{get_run_for_client}
use agent_reliability_runtim.Runs.History.{
  History, precedes, insert_row, order_rows, is_of_run, page_size, page_from, page, attempt_history,
  to_attempt_snapshot, get_attempts,
}
use agent_reliability_runtim.Runs.History.Order.{
  rest_from, get_elem?-Mem, Distinct, order_rows-Sorted, order_rows-where, where-precedes,
}

module _ {A : Type 0} (h : History A) where
  -- The whole history of a run, oldest row first.
  abbrev pub history : Uuid → List A → List A
  history run_id rows = order_rows h (where_rows (is_of_run h run_id) rows)

  Mem-insert : (x : A) (xs : List A) (r : A) → Memᴰ r (insert_row h x xs) → Memᴰ r (x ∷ xs)
  unfolding insert_row
  Mem-insert x [] r m = m
  Mem-insert x (y ∷ ys) r m = elim (Bool-cases (precedes h x y)) [
    | inl before ↦ rw before at m
    | inr after ↦ elim (cases_cons (rw after at m)) [
      | inl e ↦ tail (head e)
      | inr later ↦ elim (cases_cons (Mem-insert x ys r later)) [
        | inl e ↦ head e
        | inr deeper ↦ tail (tail deeper)
      ]
    ]
  ]

  Mem-order : (xs : List A) (r : A) → Memᴰ r (order_rows h xs) → Memᴰ r xs
  unfolding order_rows
  Mem-order [] r m = m
  Mem-order (x ∷ xs) r m = elim (cases_cons (Mem-insert x (order_rows h xs) r m)) [
    | inl e ↦ head e
    | inr later ↦ tail (Mem-order xs r later)
  ]

  where-true : (xs : List A) → where_rows (λ _. true) xs ≡ xs
  where-true [] = refl
  where-true (x ∷ xs) = ap (λ ys. x ∷ ys) (where-true xs)

  -- The anchor of a cursor is the row that has its identifier.
  anchor_found :
      (run_id : Uuid) (rows : List A) (a : A)
      → count (λ r. h.id_of r == h.id_of a) rows ≤ 1
      → Memᴰ a rows
      → is_of_run h run_id a ≡ true
      → first_row (λ r. h.id_of r == h.id_of a && is_of_run h run_id r) rows ≡ some a
  anchor_found run_id [] a unique m mine = elim m [ ]
  anchor_found run_id (x ∷ xs) a unique (head e) mine =
      let same : h.id_of x ≡ h.id_of a = ap h.id_of (sym e) in
      let its : is_of_run h run_id x ≡ true = ap (is_of_run h run_id) (sym e) ∙ mine in
      ground (arith, same, its, e)
  anchor_found run_id (x ∷ xs) a unique (tail m) mine = elim (Bool-cases (h.id_of x == h.id_of a)) [
    | inl t ↦ absurd (
        let others = count-Mem (λ r. h.id_of r == h.id_of a) xs a m (ground arith) in
        ground (arith, others))
    | inr f ↦ rw f (anchor_found run_id xs a (ground arith) m mine)
  ]

  -- The first page is the beginning of the history.
  pub page_first :
      (run_id : Uuid) (limit : ℕ) (rows : List A)
      → page h run_id limit none rows ≡ ok (take (page_size h limit) (history run_id rows))
  unfolding page page_from
  page_first run_id limit rows = rw (where-true (where_rows (is_of_run h run_id) rows)) refl

  -- Identifiers being unique, the page after a row, wherever the row stands in the ordered history
  -- of its run, is the beginning of what follows it: no row is skipped and none is repeated.
  pub page_after :
      (run_id : Uuid) (limit : ℕ) (rows : List A) (k : ℕ) (a : A)
      → Distinct h rows
      → get_elem? (history run_id rows) k ≡ some a
      → page h run_id limit (some (h.id_of a)) rows
        ≡ ok (take (page_size h limit) (rest_from k (history run_id rows)))
  unfolding page page_from
  page_after run_id limit rows k a unique e =
      let own : List A = where_rows (is_of_run h run_id) rows in
      let (stored, mine) =
        Mem-where_rows (is_of_run h run_id) rows a
          (Mem-order own a (get_elem?-Mem (order_rows h own) k a e)) in
      let found = anchor_found run_id rows a (unique (h.id_of a)) stored mine in
      let distinct : Distinct h own = λ id.
        omega
          (arith, count-where_rows (λ r. h.id_of r == id) (is_of_run h run_id) rows, unique id) in
      let cut : order_rows h (where_rows (precedes h a) own) ≡ rest_from k (order_rows h own) =
        order_rows-where h (precedes h a) own distinct
        ∙ where-precedes h (order_rows h own) k a (order_rows-Sorted h own distinct) e in
      rw (found, page) (ap (λ rs. ok (take (page_size h limit) rs)) cut)

-- Identifiers being unique, and the run being the client's, get_attempts with the cursor of an
-- attempt of the run returns the snapshots of the attempts that follow it, as many as the limit
-- allows.
pub get_attempts-after :
    (client_id : String) (run_id : Uuid) (limit k : ℕ) (db : Db) (run : Run) (a : RunAttempt)
    → Distinct attempt_history db.attempts
    → get_run_for_client client_id run_id db ≡ ok run
    → get_elem? (history attempt_history run_id db.attempts) k ≡ some a
    → get_attempts client_id run_id limit (some a.id) db
      ≡ ok (
          map to_attempt_snapshot (
            take
              (page_size attempt_history limit)
              (rest_from k (history attempt_history run_id db.attempts))))
unfolding get_attempts
get_attempts-after client_id run_id limit k db run a unique visible e =
    rw visible (rw (page_after attempt_history run_id limit db.attempts k a unique e) refl)
