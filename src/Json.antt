-- ===== src/Json.antt =====
-- JSON values as Python holds them after `json.loads` or a read of a JSONB column: a `bool` is told
-- apart from an `int`, and an `int` from a `float`. A finite float is a number of millionths.
use agent_reliability_runtim.Prelude.{
  ℕ, zero, suc, String, ◌≡◌, Bool, true, false, not, Option, none, some, arith, str_eq, eq_iff,
  if◌then◌else◌,
}

-- `negsuc n` is -(n + 1).
pub data ℤ : Type 0 where
  pos : ℕ → ℤ
  negsuc : ℕ → ℤ

pub data Float : Type 0 where
  finite : ℤ → Float
  infinite nan : Float

mutual
  pub data Json : Type 0 where
    null : Json
    boolean : Bool → Json
    int : ℤ → Json
    float : Float → Json
    str : String → Json
    arr : Items → Json
    obj : Fields → Json

  pub data Items : Type 0 where
    nil : Items
    cons : Json → Items → Items

  pub data Fields : Type 0 where
    end : Fields
    field : String → Json → Fields → Fields

-- `d.get(key)`
unfoldable pub get : String → Fields → Option Json
get key end = none
get key (field k v rest) = if str_eq k key then some v else get key rest

-- `d.get(key, default)`
unfoldable pub get_or : String → Json → Fields → Json
unfolding get
get_or key default d = elim (get key d) [ none ↦ default | some v ↦ v ]

-- `d[key] = value`, and `{**d, key: value}`
unfoldable pub put : String → Json → Fields → Fields
put key v end = field key v end
put key v (field k w rest) = if str_eq k key then field k v rest else field k w (put key v rest)

is_zero : ℕ → Bool
is_zero zero = true
is_zero (suc n) = false

is_empty : String → Bool
is_empty String.[] = true
is_empty (String.◌∷◌ c s) = false

-- `bool(value)`
unfoldable pub truthy : Json → Bool
unfolding is_zero is_empty
truthy null = false
truthy (boolean b) = b
truthy (int (pos n)) = not (is_zero n)
truthy (int (negsuc n)) = true
truthy (float (finite (pos n))) = not (is_zero n)
truthy (float _) = true
truthy (str s) = not (is_empty s)
truthy (arr nil) = false
truthy (arr (cons _ _)) = true
truthy (obj end) = false
truthy (obj (field _ _ _)) = true

pub get-put :
    (key j : String) (v : Json) (d : Fields)
    → get j (put key v d) ≡ (if str_eq key j then some v else get j d)
unfolding get put
get-put key j v end = ground arith
get-put key j v (field k w rest) =
    ground (arith, eq_iff key j, eq_iff k key, eq_iff k j, get-put key j v rest)
