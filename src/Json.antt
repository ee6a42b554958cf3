-- ===== src/Json.antt =====
-- JSON values and Python dicts with text keys, in insertion order. A float is the text that
-- `repr` gives of it.
pub mod Access
use Prim.Native.Char.{code}
use Prim.Native.String.{String}
use mathlib.Core.Bool.{Bool, true, false}
use mathlib.Core.Option.{Option, none, some}
use credit_scoring_mlops.Prelude.{
  ◌≡◌, ◌||◌, arith, not, ltb, ◌==◌, string_eq, nat_eq, if◌then◌else◌,
}
use credit_scoring_mlops.Prelude.Int.{ℤ, pos, negsuc}

mutual
  pub data Value : Type 0 where
    null : Value
    bool : Bool → Value
    int : ℤ → Value
    float : String → Value
    str : String → Value
    obj : Fields → Value
    arr : Items → Value

  pub data Fields : Type 0 where
    end : Fields
    field : String → Value → Fields → Fields

  pub data Items : Type 0 where
    nil : Items
    cons : Value → Items → Items

-- `d.get(k)`
unfoldable pub get : String → Fields → Option Value
get k end = none
get k (field j v d) = if k == j then some v else get k d

-- `d[k] = v`
unfoldable pub insert : String → Value → Fields → Fields
insert k v end = field k v end
insert k v (field j w d) = if k == j then field k v d else field j w (insert k v d)

-- `{**d, **e}`
unfoldable pub merge : Fields → Fields → Fields
unfolding insert
merge d end = d
merge d (field k v e) = merge (insert k v d) e

pub get-insert :
    (j k : String) (v : Value) (d : Fields)
    → get j (insert k v d) ≡ (if j == k then some v else get j d)
unfolding get insert
get-insert j k v end = ground arith
get-insert j k v (field i w d) = ground (arith, get-insert j k v d)

-- Python's truth value of a JSON value.
unfoldable pub truthy : Value → Bool
truthy null = false
truthy (bool b) = b
truthy (int (pos n)) = ltb 0 n
truthy (int (negsuc n)) = true
truthy (float r) = not (r == "0.0" || r == "-0.0")
truthy (str s) = not (s == "")
truthy (arr nil) = false
truthy (arr (cons v r)) = true
truthy (obj end) = false
truthy (obj (field k v d)) = true

-- `x > 0` of the float with the given `repr`
unfoldable pub float_is_positive : String → Bool
float_is_positive String.[] = false
float_is_positive (String.◌∷◌ c r) =
    not (code c == b'-' || String.◌∷◌ c r == "0.0" || String.◌∷◌ c r == "nan")

-- `d.get(k)` as a condition, `d.get(k) == s` for a text, and `d.get(k) is True`
unfoldable pub flag : String → Fields → Bool
unfolding get truthy
flag k d = elim (get k d) [ none ↦ false | some v ↦ truthy v ]

unfoldable pub is_text : String → Option Value → Bool
is_text s (some (str t)) = t == s
is_text s _ = false

unfoldable pub says : String → String → Fields → Bool
unfolding get is_text
says k s d = is_text s (get k d)

unfoldable pub is_true : Option Value → Bool
is_true (some (bool b)) = b
is_true _ = false

-- The JSON library
pub record JsonCodec : Type 0 where
  pub dumps : Value → String
  -- `none` is a JSONDecodeError, whose text follows
  pub loads : String → Option Value
  pub decode_message : String → String
