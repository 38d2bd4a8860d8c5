-- ===== src/Json/Defs.antt =====
-- Values that encoding/json decodes into `any`, as internal/schema, internal/routing and
-- internal/delivery handle them. An object is a list of its members in the order in which one
-- range over the Go map visits them.
use webhook_mind.Prelude.{Bool, List, String, [], false, true, ℕ, ◌∷◌}

mutual
  pub data Json : Type 0 where
    null : Json
    bool : Bool → Json
    -- a float64, by its IEEE 754 bit pattern
    num : ℕ → Json
    str : String → Json
    arr : Items → Json
    obj : Fields → Json

  pub data Items : Type 0 where
    nil : Items
    cons : Json → Items → Items

  pub data Fields : Type 0 where
    end : Fields
    member : String → Json → Fields → Fields

-- `v.(map[string]any)` succeeds.
abbrev pub is_object : Json → Bool
is_object (obj fs) = true
is_object _ = false

-- The members of an object as a map.
abbrev pub members : Fields → List (String × Json)
members end = []
members (member k v fs) = (k, v) ∷ members fs
