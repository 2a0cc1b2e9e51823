-- ===== src/Dynamic/Types.antt =====
-- dynamic/types.hpp, Type.hpp, Column.hpp and Table.hpp.
use sqlgen.Prelude.{ℕ, Bool, List, Option, Text}

pub record ForeignKeyReference : Type 0 where
  pub table : Text
  pub column : Text

pub record Properties : Type 0 where
  pub auto_incr : Bool
  pub primary : Bool
  pub nullable : Bool
  pub unique : Bool
  pub foreign_key_reference : Option ForeignKeyReference

pub data SqlType : Type 0 where
  unknown : Properties → SqlType
  boolean : Properties → SqlType
  dynamic : Text → Properties → SqlType
  float32 float64 : Properties → SqlType
  int8 int16 int32 int64 : Properties → SqlType
  json : Properties → SqlType
  uint8 uint16 uint32 uint64 : Properties → SqlType
  text : Properties → SqlType
  date : Text → Properties → SqlType
  timestamp : Text → Properties → SqlType
  timestamp_with_tz : Text → Properties → SqlType
  varchar : ℕ → Properties → SqlType
  enumeration : Text → List Text → Properties → SqlType

-- `_type.visit([](const auto& _t) { return _t.properties; })`
abbrev pub properties : SqlType → Properties
properties (SqlType.unknown p) = p
properties (SqlType.boolean p) = p
properties (SqlType.dynamic name p) = p
properties (SqlType.float32 p) = p
properties (SqlType.float64 p) = p
properties (SqlType.int8 p) = p
properties (SqlType.int16 p) = p
properties (SqlType.int32 p) = p
properties (SqlType.int64 p) = p
properties (SqlType.json p) = p
properties (SqlType.uint8 p) = p
properties (SqlType.uint16 p) = p
properties (SqlType.uint32 p) = p
properties (SqlType.uint64 p) = p
properties (SqlType.text p) = p
properties (SqlType.date tz p) = p
properties (SqlType.timestamp tz p) = p
properties (SqlType.timestamp_with_tz tz p) = p
properties (SqlType.varchar length p) = p
properties (SqlType.enumeration name values p) = p

pub record Column : Type 0 where
  pub alias : Option Text
  pub name : Text
  pub type : SqlType

pub record Table : Type 0 where
  pub alias : Option Text
  pub name : Text
  pub schema : Option Text
