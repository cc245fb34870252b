-- ===== src/Json.antt =====
-- JSON values (Python's `json`). The text of a JSON document is represented by the value it denotes.
use mvd_edge_agent.Prelude.{ℕ, Bool, Option, none, some, Text, text_eq, if◌then◌else◌}

mutual
  pub data Json : Type 0 where
    null : Json
    boolean : Bool → Json
    number : ℕ → Json
    string : Text → Json
    array : Items → Json
    object : Fields → Json

  pub data Items : Type 0 where
    nil : Items
    cons : Json → Items → Items

  pub data Fields : Type 0 where
    end : Fields
    field : Text → Json → Fields → Fields

-- `result.get(name)`, with null for a missing name.
unfoldable pub field_of : Text → Fields → Json
field_of name end = null
field_of name (field key value rest) = if text_eq key name then value else field_of name rest

-- An optional text as a JSON value.
abbrev pub nullable : Option Text → Json
nullable none = null
nullable (some t) = string t
