-- ===== src/Kernel/Json.antt =====
-- The JSON-native values (`Any` in the contract's types): claims, governance and metadata.
-- A float is a value of a type `F` that the clients choose.
use connect_governance.Prelude.{String, Bool}
use connect_governance.Prelude.Int.{ℤ}

mutual
  pub data Json (F : Type 0) : Type 0 where
    null : Json F
    bool : Bool → Json F
    int : ℤ → Json F
    float : F → Json F
    str : String → Json F
    arr : Items F → Json F
    obj : Fields F → Json F

  pub data Items (F : Type 0) : Type 0 where
    nil : Items F
    cons : Json F → Items F → Items F

  pub data Fields (F : Type 0) : Type 0 where
    end : Fields F
    field : String → Json F → Fields F → Fields F
