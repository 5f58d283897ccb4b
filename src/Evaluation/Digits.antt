-- ===== src/Evaluation/Digits.antt =====
-- What `str.isdigit` and `int` make of a text, by the tables of Unicode 15. A decimal digit has a
-- value; the others that `isdigit` accepts, such as superscripts, are refused by `int`.
use agent_reliability_runtim.Prelude.{
  ℕ, ◌+◌, ◌-◌, ◌*◌, String, Bool, true, false, List, [], ◌∷◌, leb, ◌&&◌, if◌then◌else◌, code, ◌≡◌,
  refl, ◌⊎◌, inl, inr,
}
use agent_reliability_runtim.Prelude.Result.{Result, ok, raise, value_error}

pub data DigitKind : Type 0 where
  decimal : ℕ → DigitKind
  other_digit not_digit : DigitKind

pub DigitKind-cases :
    (k : DigitKind) → ((d : ℕ) × (k ≡ decimal d)) ⊎ ((k ≡ other_digit) ⊎ (k ≡ not_digit))
DigitKind-cases (decimal d) = inl (d, refl)
DigitKind-cases other_digit = inr (inl refl)
DigitKind-cases not_digit = inr (inr refl)

-- The first digit of each block of ten, those of ASCII first.
abbrev zeros : List ℕ
zeros =
    48 ∷ 1632 ∷ 1776 ∷ 1984 ∷ 2406 ∷ 2534 ∷ 2662 ∷ 2790 ∷ 2918 ∷ 3046 ∷ 3174 ∷ 3302 ∷ 3430 ∷ 3558
    ∷ 3664 ∷ 3792 ∷ 3872 ∷ 4160 ∷ 4240 ∷ 6112 ∷ 6160 ∷ 6470 ∷ 6608 ∷ 6784 ∷ 6800 ∷ 6992 ∷ 7088
    ∷ 7232 ∷ 7248 ∷ 42528 ∷ 43216 ∷ 43264 ∷ 43472 ∷ 43504 ∷ 43600 ∷ 44016 ∷ 65296 ∷ 66720 ∷ 68912
    ∷ 69734 ∷ 69872 ∷ 69942 ∷ 70096 ∷ 70384 ∷ 70736 ∷ 70864 ∷ 71248 ∷ 71360 ∷ 71472 ∷ 71904 ∷ 72016
    ∷ 72784 ∷ 73040 ∷ 73120 ∷ 73552 ∷ 92768 ∷ 92864 ∷ 93008 ∷ 120782 ∷ 120792 ∷ 120802 ∷ 120812
    ∷ 120822 ∷ 123200 ∷ 123632 ∷ 124144 ∷ 125264 ∷ 130032 ∷ []

abbrev others : List (ℕ × ℕ)
others =
    (178, 179)
    ∷ (185, 185)
    ∷ (4969, 4977)
    ∷ (6618, 6618)
    ∷ (8304, 8304)
    ∷ (8308, 8313)
    ∷ (8320, 8329)
    ∷ (9312, 9320)
    ∷ (9332, 9340)
    ∷ (9352, 9360)
    ∷ (9450, 9450)
    ∷ (9461, 9469)
    ∷ (9471, 9471)
    ∷ (10102, 10110)
    ∷ (10112, 10120)
    ∷ (10122, 10130)
    ∷ (68160, 68163)
    ∷ (69216, 69224)
    ∷ (69714, 69722)
    ∷ (127232, 127242)
    ∷ []

is_other : List (ℕ × ℕ) → ℕ → Bool
is_other [] c = false
is_other ((low, high) ∷ rest) c = if leb low c && leb c high then true else is_other rest c

kind_in : List ℕ → ℕ → DigitKind
unfolding is_other
kind_in [] c = if is_other others c then other_digit else not_digit
kind_in (z ∷ zs) c = if leb z c && leb c (z + 9) then decimal (c - z) else kind_in zs c

unfoldable pub digit_kind : ℕ → DigitKind
unfolding kind_in
digit_kind c = kind_in zeros c

all_digits : String → Bool
all_digits String.[] = true
all_digits (String.◌∷◌ c s) = elim (digit_kind (code c)) [ not_digit ↦ false | _ ↦ all_digits s ]

-- `text.isdigit()`
unfoldable pub is_digit : String → Bool
unfolding all_digits
is_digit String.[] = false
is_digit (String.◌∷◌ c s) = all_digits (String.◌∷◌ c s)

-- `int(text)`, of a text of digits.
unfoldable pub int_from : ℕ → String → Result ℕ
int_from n String.[] = ok n
int_from n (String.◌∷◌ c s) = elim (digit_kind (code c)) [
  | decimal d ↦ int_from (n * 10 + d) s
  | _ ↦ raise value_error
]

unfoldable pub int_of : String → Result ℕ
unfolding int_from
int_of s = int_from 0 s
