-- ===== src/Json.antt =====
-- `serde_json::Value`, the form in which policies and site configurations are stored, with the
-- accessors that the code calls on it.
use pingora_mesh.Base.{
  ℕ, String, Bool, Option, none, some, List, [], ◌∷◌, leb, ◌==◌, string_eq, if◌then◌else◌, ◌^◌, ◌-◌,
}
use pingora_mesh.Base.Int.{ℤ, pos, negsuc}

-- A float is kept as its bits: the code never computes with one.
pub data Number : Type 0 where
  pos_int : ℕ → Number
  neg_int : ℕ → Number
  float : ℕ → Number

mutual
  pub data Value : Type 0 where
    null : Value
    bool : Bool → Value
    number : Number → Value
    string : String → Value
    array : Items → Value
    object : Fields → Value

  pub data Items : Type 0 where
    nil : Items
    cons : Value → Items → Items

  pub data Fields : Type 0 where
    end : Fields
    field : String → Value → Fields → Fields

unfoldable pub items : Items → List Value
items nil = []
items (cons v vs) = v ∷ items vs

-- `Map::get`
unfoldable pub lookup : String → Fields → Option Value
lookup key end = none
lookup key (field k v fs) = if k == key then some v else lookup key fs

-- `Value::get` with a text: only an object has fields.
unfoldable pub get : String → Value → Option Value
unfolding lookup
get key (object fs) = lookup key fs
get key _ = none

abbrev pub as_bool : Value → Option Bool
as_bool (bool b) = some b
as_bool _ = none

abbrev pub as_str : Value → Option String
as_str (string s) = some s
as_str _ = none

abbrev pub as_u64 : Value → Option ℕ
as_u64 (number (pos_int n)) = some n
as_u64 _ = none

-- A number above `i64::MAX` is no `i64`; `neg_int n` is -(n + 1).
abbrev pub as_i64 : Value → Option ℤ
as_i64 (number (pos_int n)) = if leb n (2 ^ 63 - 1) then some (pos n) else none
as_i64 (number (neg_int n)) = some (negsuc n)
as_i64 _ = none

abbrev pub as_array : Value → Option (List Value)
as_array (array vs) = some (items vs)
as_array _ = none

abbrev pub as_object : Value → Option Fields
as_object (object fs) = some fs
as_object _ = none

-- `Option::and_then` and the defaults that follow it.
abbrev pub and_then {ℓ κ} : {A : Type ℓ} {B : Type κ} → Option A → (A → Option B) → Option B
and_then none f = none
and_then (some a) f = f a

abbrev pub unwrap_or {ℓ} : {A : Type ℓ} → Option A → A → A
unwrap_or none d = d
unwrap_or (some a) d = a

-- `Option::filter`
abbrev pub filter_some {ℓ} : {A : Type ℓ} → (A → Bool) → Option A → Option A
filter_some p none = none
filter_some p (some a) = if p a then some a else none
