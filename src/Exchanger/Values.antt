-- ===== src/Exchanger/Values.antt =====
-- The values that a Go interface holds after `json.Unmarshal`, with the type assertions that the
-- exchangers make. A map is a function: a missing key is nil.
use multy_back.Prelude.{Str}

mutual
  pub data Value : Type 0 where
    nil : Value
    text : Str → Value
    -- A number or a truth value, which no assertion asks for.
    scalar : Value
    array : Values → Value
    object : (Str → Value) → Value

  pub data Values : Type 0 where
    no_values : Values
    value_and : Value → Values → Values
