-- ===== src/Evaluation/Safety/Visits.antt =====
-- What one visit of the loop of `bounded_value` does (src/agent_runtime/evaluation/safety.py).
use agent_reliability_runtim.Prelude.{
  ℕ, suc, ◌+◌, ◌≤◌, ◌≡◌, refl, inl, inr, true, false, [], ◌∷◌, arith, length, ltb, Bool-cases,
}
use agent_reliability_runtim.Prelude.Result.{Error, ok, raise, evaluation_configuration}
use agent_reliability_runtim.Json.{
  Json, null, boolean, int, float, str, arr, obj, finite, infinite, nan, Items, nil, cons, Fields,
  end, field,
}
use agent_reliability_runtim.Evaluation.Text.{utf8_size}
use agent_reliability_runtim.Evaluation.Safety.{
  Pending, length_items, length_fields, push_items, push_values, key_bytes, visit,
}
use agent_reliability_runtim.Evaluation.Safety.Measures.{
  nodes, nodes_items, nodes_fields, height, text_bytes, is_finite, nodes_of, bytes_of, AllFit,
}
use agent_reliability_runtim.Evaluation.Safety.Pushes.{
  nodes-push_items, nodes-push_values, bytes-push_items, bytes-push_values, AllFit-push_items,
  AllFit-of_push_items, AllFit-push_values, AllFit-of_push_values, ItemsFit-of_measures,
  ItemsFit-measures, FieldsFit-of_measures, FieldsFit-measures,
}

-- A visit that succeeds neither loses nor adds anything, and leaves what fits when the value fits.
pub record Visited (max_nodes max_depth depth : ℕ) (item : Json) (pending : Pending)
    (found : Pending × ℕ) : Type 0 where
  pub count : suc (nodes_of found.0) ≡ nodes item + nodes_of pending
  pub bytes : found.1 + bytes_of found.0 ≡ text_bytes item + bytes_of pending
  pub fits : AllFit max_depth ((item, depth) ∷ pending) → AllFit max_depth found.0
  pub fitted : AllFit max_depth found.0 → AllFit max_depth ((item, depth) ∷ pending)

module _ (max_nodes max_depth depth : ℕ) (low : depth ≤ max_depth) (pending : Pending) where
  abbrev VisitedTo : Json → Pending × ℕ → Type 0
  VisitedTo item found = Visited max_nodes max_depth depth item pending found

  Visited-arr : (xs : Items) → VisitedTo (arr xs) (push_items (suc depth) xs pending, 0)
  unfolding nodes text_bytes height is_finite nodes_of bytes_of
  Visited-arr xs = record {
    count = omega (arith, nodes-push_items (suc depth) xs pending);
    bytes = omega (arith, bytes-push_items (suc depth) xs pending);
    fits = λ (shallow, fin, rest).
        AllFit-push_items max_depth (suc depth) xs pending
          (ItemsFit-of_measures max_depth depth xs shallow fin) rest;
    fitted = λ h.
        let (below, rest) = AllFit-of_push_items max_depth (suc depth) xs pending h in
        let (shallow, fin) = ItemsFit-measures max_depth depth xs low below in (shallow, fin, rest);
  }

  Visited-obj : (d : Fields) → VisitedTo (obj d) (push_values (suc depth) d pending, key_bytes d)
  unfolding nodes text_bytes height is_finite nodes_of bytes_of
  Visited-obj d = record {
    count = omega (arith, nodes-push_values (suc depth) d pending);
    bytes = omega (arith, bytes-push_values (suc depth) d pending);
    fits = λ (shallow, fin, rest).
        AllFit-push_values max_depth (suc depth) d pending
          (FieldsFit-of_measures max_depth depth d shallow fin) rest;
    fitted = λ h.
        let (below, rest) = AllFit-of_push_values max_depth (suc depth) d pending h in
        let (shallow, fin) = FieldsFit-measures max_depth depth d low below in (shallow, fin, rest);
  }

  Visited-leaf :
      (item : Json)
      → nodes item ≡ 1
      → height item ≡ 0
      → is_finite item ≡ true
      → VisitedTo item (pending, text_bytes item)
  Visited-leaf item one flat fin = record {
    count = omega (arith, one);
    bytes = refl;
    fits = λ (shallow, f, rest). rest;
    fitted = λ rest. (omega (arith, flat, low), fin, rest);
  }

  pub visit-Visited :
      (item : Json) (found : Pending × ℕ)
      → visit max_nodes item depth pending ≡ ok found
      → VisitedTo item found
  unfolding visit nodes text_bytes height is_finite
  visit-Visited null found h =
      let e : (pending, 0) ≡ found = cc in rw (← e) (Visited-leaf null refl refl refl)
  visit-Visited (boolean b) found h =
      let e : (pending, 0) ≡ found = cc in rw (← e) (Visited-leaf (boolean b) refl refl refl)
  visit-Visited (int n) found h =
      let e : (pending, 0) ≡ found = cc in rw (← e) (Visited-leaf (int n) refl refl refl)
  visit-Visited (float (finite n)) found h =
      let e : (pending, 0) ≡ found = cc in rw (← e) (Visited-leaf (float (finite n)) refl refl refl)
  visit-Visited (float infinite) found h = cc
  visit-Visited (float nan) found h = cc
  visit-Visited (str s) found h =
      let e : (pending, utf8_size s) ≡ found = cc in rw (← e) (Visited-leaf (str s) refl refl refl)
  visit-Visited (arr xs) found h = elim (Bool-cases (ltb max_nodes (length_items xs))) [
    | inl long ↦ absurd (let none_found = rw long at h in cc none_found)
    | inr short ↦
        let e : (push_items (suc depth) xs pending, 0) ≡ found = cc (rw short at h) in
        rw (← e) (Visited-arr xs)
  ]
  visit-Visited (obj d) found h = elim (Bool-cases (ltb max_nodes (length_fields d))) [
    | inl long ↦ absurd (let none_found = rw long at h in cc none_found)
    | inr short ↦
        let e : (push_values (suc depth) d pending, key_bytes d) ≡ found = cc (rw short at h) in
        rw (← e) (Visited-obj d)
  ]

mutual
  unfolding nodes

  pub nodes-pos : (v : Json) → 1 ≤ nodes v
  nodes-pos null = omega arith
  nodes-pos (boolean b) = omega arith
  nodes-pos (int n) = omega arith
  nodes-pos (float x) = omega arith
  nodes-pos (str s) = omega arith
  nodes-pos (arr xs) = omega arith
  nodes-pos (obj d) = omega arith

length_items-le : (xs : Items) → length_items xs ≤ nodes_items xs
unfolding length_items nodes
length_items-le nil = omega arith
length_items-le (cons x xs) = omega (arith, nodes-pos x, length_items-le xs)

length_fields-le : (d : Fields) → length_fields d ≤ nodes_fields d
unfolding length_fields nodes
length_fields-le end = omega arith
length_fields-le (field k v d) = omega (arith, nodes-pos v, length_fields-le d)

pub length-le-nodes_of : (pending : Pending) → length pending ≤ nodes_of pending
unfolding nodes_of
length-le-nodes_of [] = omega arith
length-le-nodes_of ((x, depth) ∷ pending) = omega (arith, nodes-pos x, length-le-nodes_of pending)

-- A finite value with few enough values in it is not refused by itself.
pub visit-ok :
    (max_nodes depth : ℕ) (pending : Pending) (item : Json)
    → nodes item ≤ max_nodes
    → is_finite item ≡ true
    → (found : Pending × ℕ) × (visit max_nodes item depth pending ≡ ok found)
unfolding visit nodes is_finite
visit-ok max_nodes depth pending null few fin = (_, refl)
visit-ok max_nodes depth pending (boolean b) few fin = (_, refl)
visit-ok max_nodes depth pending (int n) few fin = (_, refl)
visit-ok max_nodes depth pending (float (finite n)) few fin = (_, refl)
visit-ok max_nodes depth pending (float infinite) few fin = cc
visit-ok max_nodes depth pending (float nan) few fin = cc
visit-ok max_nodes depth pending (str s) few fin = (_, refl)
visit-ok max_nodes depth pending (arr xs) few fin =
    let short : ltb max_nodes (length_items xs) ≡ false = ground (arith, length_items-le xs) in
    ((push_items (suc depth) xs pending, 0), rw short refl)
visit-ok max_nodes depth pending (obj d) few fin =
    let short : ltb max_nodes (length_fields d) ≡ false = ground (arith, length_fields-le d) in
    ((push_values (suc depth) d pending, key_bytes d), rw short refl)

pub visit-raise :
    (max_nodes depth : ℕ) (pending : Pending) (item : Json) (e : Error)
    → visit max_nodes item depth pending ≡ raise e
    → e ≡ evaluation_configuration
unfolding visit
visit-raise max_nodes depth pending null e h = cc
visit-raise max_nodes depth pending (boolean b) e h = cc
visit-raise max_nodes depth pending (int n) e h = cc
visit-raise max_nodes depth pending (float (finite n)) e h = cc
visit-raise max_nodes depth pending (float infinite) e h = cc
visit-raise max_nodes depth pending (float nan) e h = cc
visit-raise max_nodes depth pending (str s) e h = cc
visit-raise max_nodes depth pending (arr xs) e h = ground arith
visit-raise max_nodes depth pending (obj d) e h = ground arith
