-- ===== src/Common/Json.antt =====
-- A JSON document as the program holds it. Its numbers are ints: no document that the model reads
-- holds a fraction.
use research_os.Common.Outcome.{ℤ}
use research_os.Common.Text.{Text}
use mathlib.Core.Bool.{Bool}

mutual
  pub data Json : Type 0 where
    null : Json
    boolean : Bool → Json
    number : ℤ → Json
    text : Text → Json
    array : Items → Json
    object : Fields → Json

  pub data Items : Type 0 where
    nil : Items
    cons : Json → Items → Items

  pub data Fields : Type 0 where
    end : Fields
    field : Text → Json → Fields → Fields
