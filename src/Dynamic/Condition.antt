-- ===== src/Dynamic/Condition.antt =====
-- dynamic/Condition.hpp. The structs `In` and `NotIn` are `is_in` and `not_in`.
use sqlgen.Prelude.{List}
use sqlgen.Dynamic.Value.{Value, ColumnOrValue}
use sqlgen.Dynamic.Operation.{Operation}

pub data Condition : Type 0 where
  and : Condition → Condition → Condition
  boolean_column_or_value : ColumnOrValue → Condition
  equal : Operation → Operation → Condition
  greater_equal : Operation → Operation → Condition
  greater_than : Operation → Operation → Condition
  is_in : Operation → List Value → Condition
  is_null : Operation → Condition
  is_not_null : Operation → Condition
  lesser_equal : Operation → Operation → Condition
  lesser_than : Operation → Operation → Condition
  like : Operation → Value → Condition
  not : Condition → Condition
  not_equal : Operation → Operation → Condition
  not_in : Operation → List Value → Condition
  not_like : Operation → Value → Condition
  or : Condition → Condition → Condition
