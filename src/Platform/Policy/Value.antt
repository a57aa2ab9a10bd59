-- ===== src/Platform/Policy/Value.antt =====
-- JSON values, as facts and as the values that conditions compare them with.
use cool_sdk.Prelude.{String, Bool}
use cool_sdk.Prelude.Int.{ℤ}

mutual
  pub data Json : Type 0 where
    null : Json
    bool : Bool → Json
    num : ℤ → Json
    str : String → Json
    arr : Items → Json
    obj : Fields → Json

  pub data Items : Type 0 where
    nil : Items
    cons : Json → Items → Items

  pub data Fields : Type 0 where
    end : Fields
    field : String → Json → Fields → Fields
