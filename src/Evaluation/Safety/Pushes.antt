-- ===== src/Evaluation/Safety/Pushes.antt =====
-- How a push onto the stack of a traversal changes the measures of what is pending
-- (src/agent_runtime/evaluation/safety.py).
use agent_reliability_runtim.Prelude.{ℕ, suc, ◌+◌, ◌≤◌, ◌≡◌, refl, true, ◌∷◌, arith}
use agent_reliability_runtim.Json.{Items, nil, cons, Fields, end, field}
use agent_reliability_runtim.Evaluation.Safety.{Pending, push_items, push_values, key_bytes}
use agent_reliability_runtim.Evaluation.Safety.Measures.{
  nodes, nodes_items, nodes_fields, height, height_items, height_fields, text_bytes, bytes_items,
  bytes_fields, is_finite, finite_items, finite_fields, AllFit, FieldsFit, ItemsFit, and-split,
  bytes_of, nodes_of,
}

pub nodes-push_items :
    (depth : ℕ) (xs : Items) (pending : Pending)
    → nodes_of (push_items depth xs pending) ≡ nodes_items xs + nodes_of pending
unfolding nodes_of push_items nodes
nodes-push_items depth nil pending = omega arith
nodes-push_items depth (cons x xs) pending =
    omega (arith, nodes-push_items depth xs ((x, depth) ∷ pending))

pub nodes-push_values :
    (depth : ℕ) (d : Fields) (pending : Pending)
    → nodes_of (push_values depth d pending) ≡ nodes_fields d + nodes_of pending
unfolding nodes_of push_values nodes
nodes-push_values depth end pending = omega arith
nodes-push_values depth (field k v d) pending =
    omega (arith, nodes-push_values depth d ((v, depth) ∷ pending))

pub bytes-push_items :
    (depth : ℕ) (xs : Items) (pending : Pending)
    → bytes_of (push_items depth xs pending) ≡ bytes_items xs + bytes_of pending
unfolding bytes_of push_items text_bytes
bytes-push_items depth nil pending = omega arith
bytes-push_items depth (cons x xs) pending =
    omega (arith, bytes-push_items depth xs ((x, depth) ∷ pending))

pub bytes-push_values :
    (depth : ℕ) (d : Fields) (pending : Pending)
    → key_bytes d + bytes_of (push_values depth d pending) ≡ bytes_fields d + bytes_of pending
unfolding bytes_of push_values text_bytes key_bytes
bytes-push_values depth end pending = omega arith
bytes-push_values depth (field k v d) pending =
    omega (arith, bytes-push_values depth d ((v, depth) ∷ pending))

module _ (max_depth depth : ℕ) where
  pub AllFit-push_items :
      (xs : Items) (pending : Pending)
      → ItemsFit max_depth depth xs
      → AllFit max_depth pending
      → AllFit max_depth (push_items depth xs pending)
  unfolding push_items
  AllFit-push_items nil pending below rest = rest
  AllFit-push_items (cons x xs) pending (low, fin, below) rest =
      AllFit-push_items xs ((x, depth) ∷ pending) below (low, fin, rest)

  pub AllFit-of_push_items :
      (xs : Items) (pending : Pending)
      → AllFit max_depth (push_items depth xs pending)
      → ItemsFit max_depth depth xs × AllFit max_depth pending
  unfolding push_items
  AllFit-of_push_items nil pending h = (tt, h)
  AllFit-of_push_items (cons x xs) pending h =
      let (below, (low, fin, rest)) = AllFit-of_push_items xs ((x, depth) ∷ pending) h in
      ((low, fin, below), rest)

  pub AllFit-push_values :
      (d : Fields) (pending : Pending)
      → FieldsFit max_depth depth d
      → AllFit max_depth pending
      → AllFit max_depth (push_values depth d pending)
  unfolding push_values
  AllFit-push_values end pending below rest = rest
  AllFit-push_values (field k v d) pending (low, fin, below) rest =
      AllFit-push_values d ((v, depth) ∷ pending) below (low, fin, rest)

  pub AllFit-of_push_values :
      (d : Fields) (pending : Pending)
      → AllFit max_depth (push_values depth d pending)
      → FieldsFit max_depth depth d × AllFit max_depth pending
  unfolding push_values
  AllFit-of_push_values end pending h = (tt, h)
  AllFit-of_push_values (field k v d) pending h =
      let (below, (low, fin, rest)) = AllFit-of_push_values d ((v, depth) ∷ pending) h in
      ((low, fin, below), rest)

-- The children of a value at `depth` lie one deeper.
module _ (max_depth depth : ℕ) where
  pub ItemsFit-of_measures :
      (xs : Items)
      → depth + height_items xs ≤ max_depth
      → finite_items xs ≡ true
      → ItemsFit max_depth (suc depth) xs
  unfolding height is_finite
  ItemsFit-of_measures nil low fin = tt
  ItemsFit-of_measures (cons x xs) low fin =
      let (here_fin, rest_fin) = and-split (is_finite x) (finite_items xs) fin in
      (omega arith, here_fin, ItemsFit-of_measures xs (omega arith) rest_fin)

  pub ItemsFit-measures :
      (xs : Items)
      → depth ≤ max_depth
      → ItemsFit max_depth (suc depth) xs
      → (depth + height_items xs ≤ max_depth) × (finite_items xs ≡ true)
  unfolding height is_finite
  ItemsFit-measures nil low h = (omega arith, refl)
  ItemsFit-measures (cons x xs) low (here_low, fin, h) =
      let (rest_low, rest_fin) = ItemsFit-measures xs low h in (omega arith, rw (fin, rest_fin))

  pub FieldsFit-of_measures :
      (d : Fields)
      → depth + height_fields d ≤ max_depth
      → finite_fields d ≡ true
      → FieldsFit max_depth (suc depth) d
  unfolding height is_finite
  FieldsFit-of_measures end low fin = tt
  FieldsFit-of_measures (field k v d) low fin =
      let (here_fin, rest_fin) = and-split (is_finite v) (finite_fields d) fin in
      (omega arith, here_fin, FieldsFit-of_measures d (omega arith) rest_fin)

  pub FieldsFit-measures :
      (d : Fields)
      → depth ≤ max_depth
      → FieldsFit max_depth (suc depth) d
      → (depth + height_fields d ≤ max_depth) × (finite_fields d ≡ true)
  unfolding height is_finite
  FieldsFit-measures end low h = (omega arith, refl)
  FieldsFit-measures (field k v d) low (here_low, fin, h) =
      let (rest_low, rest_fin) = FieldsFit-measures d low h in (omega arith, rw (fin, rest_fin))
