-- ===== src/Json.antt =====
-- `encoding/json`, as far as the program uses it: the values of a document, the parser and the
-- printer of strings and integers. A number is kept as its literal.
pub mod Parse
pub mod Print
pub mod Struct
use lockping_agent.Prelude.{ℕ, Bool, Bytes}

mutual
  pub data Value : Type 0 where
    null : Value
    bool : Bool → Value
    num : Bytes → Value
    str : Bytes → Value
    arr : Items → Value
    obj : Fields → Value

  pub data Items : Type 0 where
    nil : Items
    cons : Value → Items → Items

  pub data Fields : Type 0 where
    end : Fields
    field : Bytes → Value → Fields → Fields
