-- ===== src/Json.antt =====
-- `serde_json::Value`: the constructors of its `Value` and `Number` and the accessors that the
-- program calls. An object is the list of its entries in iteration order.
use rust_agent.Base.{ℕ, Bool, Option, none, some, List, [], ◌∷◌, Text, text_eq, if◌then◌else◌}

-- The three kinds of number; a float is its bit pattern, which nothing here computes with.
pub data Number : Type 0 where
  pos_int : ℕ → Number
  neg_int : ℕ → Number
  float : ℕ → Number

mutual
  pub data Value : Type 0 where
    null : Value
    bool : Bool → Value
    number : Number → Value
    string : Text → Value
    array : Items → Value
    object : Fields → Value

  pub data Items : Type 0 where
    nil : Items
    cons : Value → Items → Items

  pub data Fields : Type 0 where
    end : Fields
    field : Text → Value → Fields → Fields

abbrev pub elements : Items → List Value
elements nil = []
elements (cons v vs) = v ∷ elements vs

abbrev pub items : List Value → Items
items [] = nil
items (v ∷ vs) = cons v (items vs)

-- `Map::get`
unfoldable pub get_field : Text → Fields → Option Value
unfolding text_eq
get_field k end = none
get_field k (field j v fs) = if text_eq j k then some v else get_field k fs

-- `Value::get` with a key
unfoldable pub get : Text → Value → Option Value
unfolding get_field
get k (object fs) = get_field k fs
get k v = none

abbrev pub as_str : Value → Option Text
as_str (string t) = some t
as_str v = none

abbrev pub as_array : Value → Option (List Value)
as_array (array vs) = some (elements vs)
as_array v = none

abbrev pub as_u64 : Value → Option ℕ
as_u64 (number (pos_int n)) = some n
as_u64 v = none

abbrev pub as_bool : Value → Option Bool
as_bool (bool b) = some b
as_bool v = none

-- `Map::remove`: an object holds each key once, so the first entry is the only one.
unfoldable pub remove_field : Text → Fields → Fields
unfolding text_eq
remove_field k end = end
remove_field k (field j v fs) = if text_eq j k then fs else field j v (remove_field k fs)

-- `Map::insert`: a new value for a key that is there, and a new entry else. The new entry stands
-- last here, and where its key sorts in the source; nothing that is read depends on the place.
unfoldable pub insert_field : Text → Value → Fields → Fields
unfolding text_eq
insert_field k v end = field k v end
insert_field k v (field j w fs) =
    if text_eq j k then field j v fs else field j w (insert_field k v fs)
