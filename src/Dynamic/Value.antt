-- ===== src/Dynamic/Value.antt =====
-- dynamic/TimeUnit.hpp, Value.hpp and ColumnOrValue.hpp.
use sqlgen.Prelude.{Bool, Text}
use sqlgen.Prelude.Int.{ℤ}
use sqlgen.Numbers.{Double}
use sqlgen.Dynamic.Types.{Column}

pub data TimeUnit : Type 0 where
  milliseconds seconds minutes hours days weeks months years : TimeUnit

pub record Duration : Type 0 where
  pub unit : TimeUnit
  pub val : ℤ

pub data Value : Type 0 where
  duration : Duration → Value
  boolean : Bool → Value
  float : Double → Value
  integer : ℤ → Value
  null : Value
  string : Text → Value
  timestamp : ℤ → Value

pub data ColumnOrValue : Type 0 where
  column : Column → ColumnOrValue
  value : Value → ColumnOrValue
