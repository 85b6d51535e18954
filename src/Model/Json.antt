-- ===== src/Model/Json.antt =====
-- Values of `serde_json`, as the `json!` macro builds them. The order of an object's fields does not
-- matter to the program.
use hub_kubernetes_agent.Prelude.{
  String, Option, none, some, List, [], ◌∷◌, Bool, ℤ, if◌then◌else◌, ◌==◌, and_then,
}

mutual
  pub data Json : Type 0 where
    null : Json
    bool : Bool → Json
    number : ℤ → Json
    string : String → Json
    array : Items → Json
    object : Fields → Json

  pub data Items : Type 0 where
    nil : Items
    cons : Json → Items → Items

  pub data Fields : Type 0 where
    done : Fields
    field : String → Json → Fields → Fields

fields_of : List (String × Json) → Fields
fields_of [] = done
fields_of ((key, value) ∷ rest) = field key value (fields_of rest)

unfoldable pub obj : List (String × Json) → Json
unfolding fields_of
obj fields = object (fields_of fields)

texts_of : List String → Items
texts_of [] = nil
texts_of (t ∷ rest) = cons (string t) (texts_of rest)

unfoldable pub texts : List String → Json
unfolding texts_of
texts ts = array (texts_of ts)

abbrev pub optional_number : Option ℤ → Json
optional_number none = null
optional_number (some n) = number n

abbrev pub optional_text : Option String → Json
optional_text none = null
optional_text (some t) = string t

-- A field of an object; the first of its key.
abbrev pub field_of : String → Fields → Option Json
field_of key done = none
field_of key (field k value rest) = if k == key then some value else field_of key rest

unfoldable pub get : String → Json → Option Json
get key (object fields) = field_of key fields
get key _ = none

-- `Value::pointer`, for the pointers through objects alone that the program uses.
unfoldable pub pointer : List String → Json → Option Json
unfolding get
pointer [] value = some value
pointer (key ∷ rest) value = and_then (get key value) (pointer rest)

unfoldable pub as_str : Json → Option String
as_str (string t) = some t
as_str _ = none

abbrev pub remove_field : String → Fields → Fields
remove_field key done = done
remove_field key (field k value rest) =
    let others = remove_field key rest in if k == key then others else field k value others

abbrev pub remove_fields : List String → Fields → Fields
remove_fields [] fields = fields
remove_fields (key ∷ rest) fields = remove_fields rest (remove_field key fields)
