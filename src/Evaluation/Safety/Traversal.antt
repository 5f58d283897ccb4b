-- ===== src/Evaluation/Safety/Traversal.antt =====
-- The stack of `bounded_value` (src/agent_runtime/evaluation/safety.py) against the recursive measures.
use agent_reliability_runtim.Prelude.{
  ℕ, zero, suc, ◌+◌, ◌≤◌, ◌≡◌, refl, ◌⊎◌, inl, inr, Bool, true, false, ◌||◌, ◌&&◌, [], ◌∷◌, arith,
  length, ltb, leb, if◌then◌else◌, Bool-cases,
}
use agent_reliability_runtim.Prelude.Result.{
  ok, raise, evaluation_configuration, ◌>>=◌, Result-cases,
}
use agent_reliability_runtim.Json.{Json}
use agent_reliability_runtim.Evaluation.Safety.{Pending, visit, max_size, traverse, bounded_value}
use agent_reliability_runtim.Evaluation.Safety.Measures.{
  nodes, height, text_bytes, is_finite, nodes_of, bytes_of, AllFit,
}
use agent_reliability_runtim.Evaluation.Safety.Visits.{
  nodes-pos, length-le-nodes_of, visit-Visited, visit-ok, visit-raise,
}

module _ (max_nodes max_depth : ℕ) where
  traverse_sound :
      (left size : ℕ) (pending : Pending)
      → size ≤ max_size
      → traverse max_nodes max_depth left size pending ≡ ok tt
      → (nodes_of pending ≤ left) × AllFit max_depth pending × (size + bytes_of pending ≤ max_size)
  unfolding traverse nodes_of bytes_of
  traverse_sound left size [] small h = (omega arith, tt, omega arith)
  traverse_sound zero size (next ∷ pending) small h = cc
  traverse_sound (suc left) size ((item, depth) ∷ pending) small h =
      elim (Bool-cases (ltb max_depth depth)) [
        | inl deep ↦ absurd (let refused = rw deep at h in cc refused)
        | inr low ↦ elim (Result-cases (visit max_nodes item depth pending)) [
          | inl (e, refused) ↦ absurd (let raised = rw (low, refused, ◌>>=◌) at h in cc raised)
          | inr (found, visited) ↦
              elim (Bool-cases (ltb max_size (size + found.1) || ltb max_nodes (length found.0))) [
                | inl large ↦
                    absurd (let raised = rw (low, visited, ◌>>=◌, large) at h in cc raised)
                | inr fine ↦
                    let v =
                      visit-Visited max_nodes max_depth depth (ground arith) pending item found
                        visited in
                    let (few, fit, light) =
                      traverse_sound left (size + found.1) found.0 (ground arith)
                        (rw (low, visited, ◌>>=◌, fine) at h) in
                    (omega (arith, v.count, few), v.fitted fit, omega (arith, v.bytes, light))
              ]
        ]
      ]

  traverse_complete :
      (left size : ℕ) (pending : Pending)
      → left ≤ max_nodes
      → nodes_of pending ≤ left
      → AllFit max_depth pending
      → size + bytes_of pending ≤ max_size
      → traverse max_nodes max_depth left size pending ≡ ok tt
  unfolding traverse nodes_of bytes_of
  traverse_complete left size [] room few fit light = refl
  traverse_complete zero size ((item, depth) ∷ pending) room few fit light =
      absurd (omega (arith, nodes-pos item))
  traverse_complete (suc left) size ((item, depth) ∷ pending) room few (shallow, fin, fit) light =
      let low : ltb max_depth depth ≡ false = ground arith in
      let (found, visited) = visit-ok max_nodes depth pending item (omega (arith, few, room)) fin in
      let v = visit-Visited max_nodes max_depth depth (omega arith) pending item found visited in
      let fine : (ltb max_size (size + found.1) || ltb max_nodes (length found.0)) ≡ false =
        ground (arith, v.bytes, v.count, length-le-nodes_of found.0) in
      rw (low, visited, fine, ◌>>=◌)
        (traverse_complete left (size + found.1) found.0 (omega arith) (omega (arith, v.count))
          (v.fits (shallow, fin, fit)) (omega (arith, v.bytes)))

  traverse_cases :
      (left size : ℕ) (pending : Pending)
      → (traverse max_nodes max_depth left size pending ≡ ok tt)
        ⊎ (traverse max_nodes max_depth left size pending ≡ raise evaluation_configuration)
  unfolding traverse
  traverse_cases left size [] = inl refl
  traverse_cases zero size (next ∷ pending) = inr refl
  traverse_cases (suc left) size ((item, depth) ∷ pending) =
      elim (Bool-cases (ltb max_depth depth)) [
        | inl deep ↦ inr (rw deep refl)
        | inr low ↦ elim (Result-cases (visit max_nodes item depth pending)) [
          | inl (e, refused) ↦
              inr
                (rw (low, refused, ◌>>=◌, visit-raise max_nodes depth pending item e refused) refl)
          | inr (found, visited) ↦
              elim (Bool-cases (ltb max_size (size + found.1) || ltb max_nodes (length found.0))) [
                | inl large ↦ inr (rw (low, visited, ◌>>=◌, large) refl)
                | inr fine ↦
                    rw (low, visited, ◌>>=◌, fine) (traverse_cases left (size + found.1) found.0)
              ]
        ]
      ]

pub bounded_value_cases :
    (max_nodes max_depth : ℕ) (value : Json)
    → (bounded_value max_nodes max_depth value ≡ ok tt)
      ⊎ (bounded_value max_nodes max_depth value ≡ raise evaluation_configuration)
unfolding bounded_value
bounded_value_cases max_nodes max_depth value =
    traverse_cases max_nodes max_depth max_nodes 0 ((value, 0) ∷ [])

-- The limits of `bounded_value` by recursion on the value.
unfoldable pub is_bounded : ℕ → ℕ → Json → Bool
is_bounded max_nodes max_depth value =
    leb (nodes value) max_nodes
    && leb (height value) max_depth
    && leb (text_bytes value) max_size
    && is_finite value

bounded_value-ok :
    (max_nodes max_depth : ℕ) (value : Json)
    → is_bounded max_nodes max_depth value ≡ true
    → bounded_value max_nodes max_depth value ≡ ok tt
unfolding bounded_value is_bounded nodes_of bytes_of
bounded_value-ok max_nodes max_depth value h =
    traverse_complete max_nodes max_depth max_nodes 0 ((value, 0) ∷ []) (omega arith) (ground arith)
      (ground arith, ground arith, tt) (ground arith)

bounded_value_only :
    (max_nodes max_depth : ℕ) (value : Json)
    → bounded_value max_nodes max_depth value ≡ ok tt
    → is_bounded max_nodes max_depth value ≡ true
unfolding bounded_value is_bounded nodes_of bytes_of
bounded_value_only max_nodes max_depth value h =
    let (few, (shallow, fin, _), light) =
      traverse_sound max_nodes max_depth max_nodes 0 ((value, 0) ∷ []) (omega arith) h in
    ground arith

-- The check of a value, a loop over a stack, accepts exactly the values that a recursive
-- description bounds, and raises EvaluationConfigurationError for all others.
pub bounded_value-eq-is_bounded :
    (max_nodes max_depth : ℕ) (value : Json)
    → bounded_value max_nodes max_depth value
      ≡ (if is_bounded max_nodes max_depth value then ok tt else raise evaluation_configuration)
bounded_value-eq-is_bounded max_nodes max_depth value =
    elim (Bool-cases (is_bounded max_nodes max_depth value)) [
      | inl fits ↦ rw fits (bounded_value-ok max_nodes max_depth value fits)
      | inr over ↦ elim (bounded_value_cases max_nodes max_depth value) [
        | inl accepted ↦
            absurd
              (let fits = bounded_value_only max_nodes max_depth value accepted in cc (fits, over))
        | inr raised ↦ rw over raised
      ]
    ]
