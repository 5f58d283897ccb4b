-- ===== src/Evaluation/Engine/Paths.antt =====
-- What the reading of a path raises (src/agent_runtime/evaluation/engine.py).
use agent_reliability_runtim.Prelude.{
  ℕ, ◌+◌, ◌*◌, String, ◌≡◌, refl, ◌⊎◌, inl, inr, ◌&&◌, Option, none, some, List, [], ◌∷◌, leb,
  Bool-cases, code,
}
use agent_reliability_runtim.Prelude.Result.{Error, Result, ok, raise, value_error, ◌>>=◌}
use agent_reliability_runtim.Json.{Json, null, boolean, int, float, str, arr, obj, get}
use agent_reliability_runtim.Evaluation.Digits.{
  DigitKind-cases, digit_kind, is_digit, int_from, int_of,
}
use agent_reliability_runtim.Evaluation.Text.{text_length, split}
use agent_reliability_runtim.Evaluation.Engine.{
  step_into, item_at, follow, value_at_path, is_empty_text,
}

-- A call that returns, or raises the one error `e`.
abbrev pub ReturnsOr {ℓ} : {A : Type ℓ} → Error → Result A → Type ℓ
ReturnsOr {A} e m = ((a : A) × (m ≡ ok a)) ⊎ (m ≡ raise e)

int_from_cases : (n : ℕ) (s : String) → ReturnsOr value_error (int_from n s)
unfolding int_from
int_from_cases n String.[] = inl (n, refl)
int_from_cases n (String.◌∷◌ c s) = elim (DigitKind-cases (digit_kind (code c))) [
  | inl (d, e) ↦ rw (e, int_from) (int_from_cases (n * 10 + d) s)
  | inr (inl e) ↦ inr (rw (e, int_from) refl)
  | inr (inr e) ↦ inr (rw (e, int_from) refl)
]

step_into_cases : (value : Json) (part : String) → ReturnsOr value_error (step_into value part)
unfolding step_into int_of
step_into_cases (obj d) part = inl (get part d, refl)
step_into_cases (arr xs) part = elim (Bool-cases (leb (text_length part) 10 && is_digit part)) [
  | inl index ↦ elim (int_from_cases 0 part) [
    | inl (i, e) ↦ inl (item_at i xs, rw (index, e, ◌>>=◌) refl)
    | inr e ↦ inr (rw (index, e, ◌>>=◌) refl)
  ]
  | inr other ↦ inl (none, rw other refl)
]
step_into_cases null part = inl (none, refl)
step_into_cases (boolean b) part = inl (none, refl)
step_into_cases (int n) part = inl (none, refl)
step_into_cases (float x) part = inl (none, refl)
step_into_cases (str s) part = inl (none, refl)

follow_cases : (parts : List String) (value : Json) → ReturnsOr value_error (follow parts value)
unfolding follow
follow_cases [] value = inl (some value, refl)
follow_cases (part ∷ parts) value = elim (step_into_cases value part) [
  | inr e ↦ inr (rw (e, ◌>>=◌) refl)
  | inl (none, e) ↦ inl (none, rw (e, ◌>>=◌) refl)
  | inl (some v, e) ↦ rw (e, ◌>>=◌) (follow_cases parts v)
]

value_at_path_cases :
    (payload : Json) (path : String) → ReturnsOr value_error (value_at_path payload path)
unfolding value_at_path
value_at_path_cases payload path = elim (Bool-cases (is_empty_text path)) [
  | inl here ↦ inl (some payload, rw here refl)
  | inr deep ↦ rw deep (follow_cases (split path) payload)
]

-- A result made of the value at a path.
pub found_cases {ℓ} :
    {A : Type ℓ} (payload : Json) (path : String) (f : Option Json → A)
    → ReturnsOr value_error (value_at_path payload path >>= λ found. ok (f found))
found_cases payload path f = elim (value_at_path_cases payload path) [
  | inl (found, e) ↦ inl (f found, rw e refl)
  | inr e ↦ inr (rw e refl)
]
