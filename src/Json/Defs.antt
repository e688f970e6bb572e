-- ===== src/Json/Defs.antt =====
-- JSON documents. A number is kept as the text that it is written as: the program reads none.
use krafton_week.Prelude.{String, List, [], ◌∷◌, Option, none, some, ◌==◌, if◌then◌else◌}

mutual
  pub data Json : Type 0 where
    null yes_value no_value : Json
    number : String → Json
    text : String → Json
    array : Items → Json
    object : Fields → Json

  pub data Items : Type 0 where
    nil : Items
    cons : Json → Items → Items

  pub data Fields : Type 0 where
    end : Fields
    field : String → Json → Fields → Fields

-- `payload.get(key)` on the dict of an object: of two fields with one name the later counts.
unfoldable pub get_field : String → Fields → Option Json
get_field k end = none
get_field k (field j v fs) = elim (get_field k fs) [
  | some w ↦ some w
  | none ↦ if j == k then some v else none
]

-- The document of a list of texts.
unfoldable pub text_items : List String → Items
text_items [] = nil
text_items (x ∷ xs) = cons (text x) (text_items xs)
