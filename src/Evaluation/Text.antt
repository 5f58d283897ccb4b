-- ===== src/Evaluation/Text.antt =====
-- Python's `len`, `split` and `in` on texts, and the size in UTF-8.
use Prim.Native.String.{len}
use text.Mathlib.Text.{find?}
use agent_reliability_runtim.Prelude.{
  ℕ, suc, String, Bool, List, [], ◌∷◌, ◌==◌, is_some, if◌then◌else◌, code,
}

-- The number of code points.
unfoldable pub text_length : String → ℕ
text_length String.[] = 0
text_length (String.◌∷◌ c s) = suc (text_length s)

-- `len(text.encode("utf-8"))`
unfoldable pub utf8_size : String → ℕ
utf8_size s = len s

-- `part in text`
unfoldable pub is_part : String → String → Bool
is_part part s = is_some (find? s part)

-- The text up to the first dot, and the parts after it.
split_dots : String → String × List String
split_dots String.[] = (String.[], [])
split_dots (String.◌∷◌ c s) =
    let rest = split_dots s in
    if code c == 46 then (String.[], rest.0 ∷ rest.1) else (String.◌∷◌ c rest.0, rest.1)

-- `path.split(".")`
unfoldable pub split : String → List String
unfolding split_dots
split path = let parts = split_dots path in parts.0 ∷ parts.1
