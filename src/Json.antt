-- ===== src/Json.antt =====
-- The JavaScript values that a request body is built of, and `JSON.stringify` on them
-- (web/src/lib/api/client.ts). The JSON document stands for its text.
pub mod Bodies
use core_banking_system.Prelude.{Bool, String, Option, none, some, List, [], ◌∷◌}
use core_banking_system.Prelude.Int.{ℤ}

mutual
  pub data JsValue : Type 0 where
    undefined null : JsValue
    number : ℤ → JsValue
    string : String → JsValue
    array : JsItems → JsValue
    object : JsFields → JsValue

  pub data JsItems : Type 0 where
    nil : JsItems
    cons : JsValue → JsItems → JsItems

  pub data JsFields : Type 0 where
    end : JsFields
    field : String → JsValue → JsFields → JsFields

mutual
  pub data Json : Type 0 where
    null : Json
    number : ℤ → Json
    string : String → Json
    array : JsonItems → Json
    object : JsonFields → Json

  pub data JsonItems : Type 0 where
    nil : JsonItems
    cons : Json → JsonItems → JsonItems

  pub data JsonFields : Type 0 where
    end : JsonFields
    field : String → Json → JsonFields → JsonFields

-- In an array `undefined` becomes null; as a field's value it drops the field.
abbrev pub or_null : Option Json → Json
or_null none = Json.null
or_null (some j) = j

abbrev pub add_field : String → Option Json → JsonFields → JsonFields
add_field k none fs = fs
add_field k (some j) fs = JsonFields.field k j fs

unfoldable mutual
  pub stringify : JsValue → Option Json
  stringify JsValue.undefined = none
  stringify JsValue.null = some Json.null
  stringify (JsValue.number n) = some (Json.number n)
  stringify (JsValue.string s) = some (Json.string s)
  stringify (JsValue.array xs) = some (Json.array (stringify_items xs))
  stringify (JsValue.object fs) = some (Json.object (stringify_fields fs))

  pub stringify_items : JsItems → JsonItems
  stringify_items JsItems.nil = JsonItems.nil
  stringify_items (JsItems.cons v vs) = JsonItems.cons (or_null (stringify v)) (stringify_items vs)

  pub stringify_fields : JsFields → JsonFields
  stringify_fields JsFields.end = JsonFields.end
  stringify_fields (JsFields.field k v fs) = add_field k (stringify v) (stringify_fields fs)

-- Object and array literals.
abbrev pub object_of : List (String × JsValue) → JsFields
object_of [] = JsFields.end
object_of ((k, v) ∷ fs) = JsFields.field k v (object_of fs)

abbrev pub array_of : List JsValue → JsItems
array_of [] = JsItems.nil
array_of (v ∷ vs) = JsItems.cons v (array_of vs)
