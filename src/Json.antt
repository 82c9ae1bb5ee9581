-- ===== src/Json.antt =====
-- Values of Go's `interface{}` as the program meets them, in the bodies of requests, responses and
-- secrets, and `map[string]interface{}`.
use goldfish.Prelude.{String, Bool, Option, none, some, List, [], ◌∷◌, ◌==◌, if◌then◌else◌, ℤ}

mutual
  pub data Value : Type 0 where
    null : Value
    str : String → Value
    num : ℤ → Value
    flag : Bool → Value
    arr : Values → Value
    obj : Fields → Value

  pub data Values : Type 0 where
    nil : Values
    cons : Value → Values → Values

  pub data Fields : Type 0 where
    end : Fields
    field : String → Value → Fields → Fields

-- `map[string]interface{}`, each key once. The nil map is `none` where the code tests for it.
abbrev pub Dict : Type 0
Dict = List (String × Value)

-- `v, ok := m[key]`
unfoldable pub lookup {ℓ} : {V : Type ℓ} → String → List (String × V) → Option V
lookup key [] = none
lookup key ((k, v) ∷ m) = if k == key then some v else lookup key m

-- A read of the nil map finds no key.
unfoldable pub get : Option Dict → String → Option Value
unfolding lookup
get none key = none
get (some m) key = lookup key m

-- `v, ok := x.(string)`; a missing key gives the nil interface, for which `ok` is false.
abbrev pub as_string : Option Value → Option String
as_string (some (str s)) = some s
as_string _ = none

abbrev pub items : Values → List Value
items nil = []
items (cons v vs) = v ∷ items vs

abbrev pub values : List Value → Values
values [] = nil
values (v ∷ vs) = cons v (values vs)

-- `v, ok := x.([]interface{})`
abbrev pub as_slice : Option Value → Option (List Value)
as_slice (some (arr vs)) = some (items vs)
as_slice _ = none

-- A map as a value.
abbrev pub fields : Dict → Fields
fields [] = end
fields ((k, v) ∷ m) = field k v (fields m)

abbrev pub object : Dict → Value
object m = obj (fields m)
