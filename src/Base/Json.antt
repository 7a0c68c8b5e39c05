-- ===== src/Base/Json.antt =====
-- JSON values. A number is kept as the text that `JSON.stringify` prints for it. The fields of an
-- object stand in their order of insertion.
use mathlib.Core.Path.{◌≡◌, refl, ap}
use mathlib.Core.Bool.{Bool}
use mathlib.Core.Option.{Option, none, some}
use mathlib.Core.List.{List, [], ◌∷◌}
use chatgpt_mcp_clean.Base.Texts.{Text}
use chatgpt_mcp_clean.Base.Tables.{Table}

mutual
  pub data Json : Type 0 where
    null : Json
    bool : Bool → Json
    num : Text → Json
    str : Text → Json
    arr : Items → Json
    obj : Fields → Json

  pub data Items : Type 0 where
    nil : Items
    cons : Json → Items → Items

  pub data Fields : Type 0 where
    end : Fields
    field : Text → Json → Fields → Fields

unfoldable pub items_of : Items → List Json
items_of nil = []
items_of (cons v vs) = v ∷ items_of vs

unfoldable pub to_items : List Json → Items
to_items [] = nil
to_items (v ∷ vs) = cons v (to_items vs)

unfoldable pub fields_of : Fields → Table Json
fields_of end = []
fields_of (field k v fs) = (k, v) ∷ fields_of fs

unfoldable pub to_fields : Table Json → Fields
to_fields [] = end
to_fields ((k, v) ∷ m) = field k v (to_fields m)

pub items_of-to_items : (vs : List Json) → items_of (to_items vs) ≡ vs
unfolding items_of to_items
items_of-to_items [] = refl
items_of-to_items (v ∷ vs) = ap (◌∷◌ v) (items_of-to_items vs)

pub fields_of-to_fields : (m : Table Json) → fields_of (to_fields m) ≡ m
unfolding fields_of to_fields
fields_of-to_fields [] = refl
fields_of-to_fields ((k, v) ∷ m) = ap (◌∷◌ (k, v)) (fields_of-to_fields m)

-- `typeof v === "string"`.
unfoldable pub as_string : Option Json → Option Text
as_string (some (str s)) = some s
as_string _ = none
