-- ===== src/Json/Access.antt =====
-- Python's `in`, `[..]`, `.get(..)`, `.items()` and `for` on a JSON value of any kind, with the
-- exceptions that a value of the wrong kind raises.
use credit_scoring_mlops.Prelude.{
  String, Bool, false, ◌||◌, List, [], ◌∷◌, is_some, none, some, get_or,
}
use credit_scoring_mlops.Prelude.Text.{codes, strip_prefix}
use credit_scoring_mlops.Json
use credit_scoring_mlops.Json.{Value, Fields, end, field, Items, nil, cons, is_text}
use credit_scoring_mlops.Exec.{Error, key_error, type_error, Result, ok, err}

-- `d.get(k, default)`
abbrev pub get_default : String → Value → Fields → Value
get_default k default d = get_or (Json.get k d) default

-- `v.get`: what is no dict has no such attribute
unfoldable pub as_dict : Value → Result Fields
as_dict (Value.obj d) = ok d
as_dict _ = err (Error.other "no attribute 'get'")

-- `s in t` for two texts
unfoldable pub occurs_in : String → String → Bool
occurs_in s String.[] = is_some (strip_prefix (codes s) [])
occurs_in s (String.◌∷◌ c t) =
    is_some (strip_prefix (codes s) (codes (String.◌∷◌ c t))) || occurs_in s t

unfoldable pub any_is_text : String → Items → Bool
any_is_text k nil = false
any_is_text k (cons v r) = is_text k (some v) || any_is_text k r

-- `k in v`
unfoldable pub has_key : String → Value → Result Bool
unfolding Json.get any_is_text
has_key k (Value.obj d) = ok (is_some (Json.get k d))
has_key k (Value.arr r) = ok (any_is_text k r)
has_key k (Value.str s) = ok (occurs_in k s)
has_key k _ = err (type_error "argument is not iterable")

-- `v[k]`
unfoldable pub item : String → Value → Result Value
unfolding Json.get
item k (Value.obj d) = elim (Json.get k d) [ none ↦ err (key_error k) | some v ↦ ok v ]
item k _ = err (type_error "indices must be integers")

keys : Fields → Items
keys end = nil
keys (field k v d) = cons (Value.str k) (keys d)

characters : String → Items
characters String.[] = nil
characters (String.◌∷◌ c s) = cons (Value.str (String.◌∷◌ c String.[])) (characters s)

-- what `for x in v` goes through
unfoldable pub iterate : Value → Result Items
unfolding keys characters
iterate (Value.arr r) = ok r
iterate (Value.obj d) = ok (keys d)
iterate (Value.str s) = ok (characters s)
iterate _ = err (type_error "object is not iterable")

-- a list of texts as an array
unfoldable pub texts : List String → Items
texts [] = nil
texts (s ∷ ss) = cons (Value.str s) (texts ss)
